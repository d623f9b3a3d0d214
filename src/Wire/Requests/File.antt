-- ===== src/Wire/Requests/File.antt =====
-- proto/_requests_io.py: the requests about open files. Each is built with the values that its hooks
-- return; `header_params` packs what `params` writes. Offsets, lengths and modes are natural numbers,
-- as the client passes them, and text is its UTF-8 bytes.
use Prim.Native.Nat.{bit_and}
use xrdclient.Prelude.{
  ℕ, ◌+◌, ◌*◌, ◌/◌, ◌%◌, Bool, true, false, not, ◌&&◌, List, [], ◌∷◌, ◌++◌, ◌==◌, if◌then◌else◌,
  pos, length, take, drop, mem,
}
use xrdclient.Errors.{Bytes, Result, ok, err, ◌>>=◌, protocol_error, not_executable}
use xrdclient.Wire.Buffer.{Writer, write_unsigned, write_signed, zeros, padded}
use xrdclient.Wire.Frames.{Request, encode, request_hdrlen}
use xrdclient.Wire.Requests.{plain}

-- `Open`: mode[2] options[2] optiont[2] reserved[6] fhtemplt[4]; `_OPEN_WRITES` is 0x822A
unfoldable pub open_request : Bytes → ℕ → ℕ → ℕ → Bytes → Result Request
unfolding write_unsigned
open_request path options mode optiont fhtemplt = do
  w ← write_unsigned 2 [] (pos mode)
  w ← write_unsigned 2 w (pos options)
  w ← write_unsigned 2 w (pos optiont)
  ok (record (plain 3010 (padded (zeros w 6) fhtemplt 4)) {
    signed = true;
    idempotent = bit_and options 0x822A == 0;
    payload = path;
  })

-- fhandle[4] reserved[12]
abbrev pub handle_only : Bytes → Bytes
handle_only fhandle = zeros (padded [] fhandle 4) 12

-- `Close`
unfoldable pub close_request : Bytes → Request
close_request fhandle = record (plain 3003 (handle_only fhandle)) { idempotent = false }

-- `Sync`
unfoldable pub sync_request : Bytes → Request
sync_request fhandle = record (plain 3016 (handle_only fhandle)) { idempotent = false }

-- fhandle[4] offset[8] rlen[4]
unfoldable pub range_params : Bytes → ℕ → ℕ → Result Bytes
unfolding write_signed
range_params fhandle offset n = do
  w ← write_signed 8 (padded [] fhandle 4) (pos offset)
  write_signed 4 w (pos n)

-- `Read`
unfoldable pub read_request : Bytes → ℕ → ℕ → ℕ → Result Request
unfolding range_params write_unsigned
read_request fhandle offset n pathid = do
  params ← range_params fhandle offset n
  args ← (if pathid == 0 then ok [] else (do w ← write_unsigned 1 [] (pos pathid); ok (zeros w 7)))
  ok (record (plain 3013 params) {
    pathid = pathid;
    reply_on_path = true;
    payload = args;
    reply_cap = n;
  })

-- `Write`: fhandle[4] offset[8] pathid[1] reserved[3]
unfoldable pub write_request : Bytes → ℕ → Bytes → ℕ → Result Request
unfolding write_signed write_unsigned
write_request fhandle offset bytes pathid = do
  w ← write_signed 8 (padded [] fhandle 4) (pos offset)
  w ← write_unsigned 1 w (pos pathid)
  ok (record (plain 3019 (zeros w 3)) {
    signed = true;
    idempotent = false;
    pathid = pathid;
    payload = if pathid == 0 then bytes else [];
    path_data = if pathid == 0 then [] else bytes;
  })

-- A range of `ReadV`, with its handle.
pub record ReadChunk : Type 0 where
  pub fhandle : Bytes
  pub offset : ℕ
  pub size : ℕ

-- the loop of `ReadV.payload`: fhandle[4] rlen[4] roffset[8] for each range
unfoldable pub readahead_list : Writer → List ReadChunk → Result Writer
unfolding write_signed
readahead_list w [] = ok w
readahead_list w (c ∷ chunks) = do
  w ← write_signed 4 (padded w c.fhandle 4) (pos c.size)
  w ← write_signed 8 w (pos c.offset)
  readahead_list w chunks

abbrev pub wanted : List ReadChunk → ℕ
wanted [] = 0
wanted (c ∷ chunks) = c.size + wanted chunks

-- `ReadV`: reserved[15] pathid[1]
unfoldable pub readv_request : List ReadChunk → ℕ → Result Request
unfolding readahead_list write_unsigned
readv_request chunks pathid = do
  params ← write_unsigned 1 (zeros [] 15) (pos pathid)
  body ← readahead_list [] chunks
  ok (record (plain 3025 params) {
    pathid = pathid;
    reply_on_path = true;
    payload = body;
    reply_cap = 16 * length chunks + wanted chunks;
  })

-- A range of `WriteV`, with its handle.
pub record WriteChunk : Type 0 where
  pub fhandle : Bytes
  pub offset : ℕ
  pub bytes : Bytes

-- the loop of `WriteV.payload`: fhandle[4] wlen[4] offset[8] for each range
unfoldable pub write_list : Writer → List WriteChunk → Result Writer
unfolding write_signed
write_list w [] = ok w
write_list w (c ∷ chunks) = do
  w ← write_signed 4 (padded w c.fhandle 4) (pos (length c.bytes))
  w ← write_signed 8 w (pos c.offset)
  write_list w chunks

abbrev pub written : List WriteChunk → Bytes
written [] = []
written (c ∷ chunks) = c.bytes ++ written chunks

-- `WriteV`: options[1] reserved[15]
unfoldable pub writev_request : List WriteChunk → Bool → Result Request
unfolding write_list write_unsigned
writev_request chunks sync = do
  w ← write_unsigned 1 [] (pos (if sync then 1 else 0))
  body ← write_list [] chunks
  ok (record (plain 3031 (zeros w 15)) {
    signed = true;
    idempotent = false;
    payload = body;
    trailer = written chunks;
  })

-- An item of `Clone`.
pub record CloneItem : Type 0 where
  pub source : Bytes
  pub offset : ℕ
  pub size : ℕ
  pub target : ℕ

-- the loop of `Clone.payload`
unfoldable pub clone_list : Writer → List CloneItem → Result Writer
unfolding write_signed
clone_list w [] = ok w
clone_list w (c ∷ items) = do
  w ← write_signed 8 (zeros (padded w c.source 4) 4) (pos c.offset)
  w ← write_signed 8 w (pos c.size)
  w ← write_signed 8 w (pos c.target)
  clone_list w items

-- `Clone`
unfoldable pub clone_request : Bytes → List CloneItem → Result Request
unfolding clone_list
clone_request fhandle items = do
  body ← clone_list [] items
  ok (record (plain 3032 (handle_only fhandle)) {
    signed = true;
    idempotent = false;
    payload = body;
  })

abbrev pub retry_flag : Bool → ℕ
retry_flag retry = if retry then 1 else 0

-- `PgRead.reply_cap`: -(-a // b) rounds up
abbrev pub paged_cap : ℕ → ℕ → ℕ
paged_cap offset n = n + 4 * ((offset % 4096 + n + 4095) / 4096)

-- `PgRead`
unfoldable pub pgread_request : Bytes → ℕ → ℕ → Bool → ℕ → Result Request
unfolding range_params write_unsigned
pgread_request fhandle offset n retry pathid = do
  params ← range_params fhandle offset n
  args ←
      (if (retry_flag retry == 0) && (pathid == 0) then ok [] else (do
        w ← write_unsigned 1 [] (pos pathid)
        w ← write_unsigned 1 w (pos (retry_flag retry))
        ok (zeros w 2)))
  ok (record (plain 3030 params) {
    pathid = pathid;
    reply_on_path = true;
    payload = args;
    reply_cap = paged_cap offset n;
  })

-- `PgWrite`: fhandle[4] offset[8] pathid[1] reqflags[1] reserved[2]
unfoldable pub pgwrite_request : Bytes → ℕ → Bytes → Bool → ℕ → Result Request
unfolding write_signed write_unsigned
pgwrite_request fhandle offset bytes retry pathid = do
  w ← write_signed 8 (padded [] fhandle 4) (pos offset)
  w ← write_unsigned 1 w (pos pathid)
  w ← write_unsigned 1 w (pos (retry_flag retry))
  ok (record (plain 3026 (zeros w 2)) {
    signed = true;
    idempotent = false;
    pathid = pathid;
    payload = if pathid == 0 then bytes else [];
    path_data = if pathid == 0 then [] else bytes;
    reply_cap = 8 + 8 * ((length bytes + 4099) / 4100 + 1);
  })

-- `ChkPoint`: fhandle[4] reserved[11] opcode[1]
unfoldable pub chkpoint_request : Bytes → ℕ → Bytes → Bytes → Result Request
unfolding write_unsigned
chkpoint_request fhandle subcode bytes tail = do
  params ← write_unsigned 1 (zeros (padded [] fhandle 4) 11) (pos subcode)
  ok (record (plain 3012 params) {
    signed = true;
    idempotent = false;
    payload = bytes;
    trailer = tail;
  })

-- `ChkPoint.execute`
unfoldable pub chkpoint_execute : Bytes → Request → Result Request
unfolding chkpoint_request encode
chkpoint_execute fhandle inner =
    if not (mem inner.opcode (3019 ∷ 3026 ∷ 3028 ∷ []))
    then err (protocol_error (not_executable inner.opcode))
    else (do
      frame ← encode inner 0
      chkpoint_request fhandle 4 (take request_hdrlen frame) (drop request_hdrlen frame))
