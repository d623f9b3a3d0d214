-- ===== src/Wire/Requests.antt =====
-- proto/_requests_session.py: the requests about the connection. Each is built with the values that
-- its hooks return; a value outside its field raises where the field is written.
pub mod File
pub mod Attributes
pub mod Namespace
pub mod Fields
pub mod Headers
use xrdclient.Prelude.{ℕ, Bool, true, false, [], ltb, if◌then◌else◌, ℤ, pos, length, replicate}
use xrdclient.Errors.{Bytes, Result, ok, err, ◌>>=◌, value_error}
use xrdclient.Wire.Buffer.{write_unsigned, write_signed, zeros, padded}
use xrdclient.Wire.Frames.{Request}

-- `Request`'s own hooks, with an opcode and the 16 parameter bytes
abbrev pub plain : ℕ → Bytes → Request
plain opcode params = record {
  opcode = opcode;
  signed = false;
  idempotent = true;
  pathid = 0;
  reply_on_path = false;
  header_params = params;
  payload = [];
  path_data = [];
  reply_cap = 0;
  trailer = [];
}

-- `Protocol`: clientpv[4] flags[1] expect[1] reserved[10]
unfoldable pub protocol_request : ℕ → Result Request
unfolding write_unsigned
protocol_request flags = do
  w ← write_unsigned 4 [] (pos 0x520)
  w ← write_unsigned 1 w (pos flags)
  w ← write_unsigned 1 w (pos 3)
  ok (plain 3006 (zeros w 10))

-- `Login`, with the default `capver` and token: pid[4] username[8] reserved[2] capver[1] role[1]
unfoldable pub login_request : Bytes → ℤ → Result Request
unfolding write_unsigned write_signed
login_request username pid = do
  w ← write_signed 4 [] pid
  w ← write_unsigned 1 (zeros (padded w username 8) 2) (pos 0x85)
  w ← write_unsigned 1 w (pos 0)
  ok (plain 3007 w)

-- `Auth`: reserved[12] credtype[4]
unfoldable pub auth_request : Bytes → Bytes → Result Request
auth_request credtype cred =
    if ltb 4 (length credtype)
    then err value_error
    else ok (record (plain 3000 (padded (zeros [] 12) credtype 4)) {
      idempotent = false;
      payload = cred;
    })

-- `Ping`
unfoldable pub ping_request : Request
ping_request = plain 3011 (replicate 16 0)

-- `EndSession`: sessid[16]
unfoldable pub end_session_request : Bytes → Request
end_session_request sessid = record (plain 3023 (padded [] sessid 16)) { idempotent = false }

-- `Bind`: sessid[16]
unfoldable pub bind_request : Bytes → Request
bind_request sessid = record (plain 3024 (padded [] sessid 16)) { idempotent = false }

-- `Set`
unfoldable pub set_request : Bytes → Request
set_request directive = record (plain 3018 (zeros [] 16)) {
  signed = true;
  idempotent = false;
  payload = directive;
}

-- `Sigver`: expectrid[2] version[1] flags[1] seqno[8] crypto[1] reserved[3]
unfoldable pub sigver_request : ℕ → ℕ → Bytes → Bool → Result Request
unfolding write_unsigned
sigver_request expectrid seqno signature nodata = do
  w ← write_unsigned 2 [] (pos expectrid)
  w ← write_unsigned 1 w (pos 0)
  w ← write_unsigned 1 w (pos (if nodata then 1 else 0))
  w ← write_unsigned 8 w (pos seqno)
  w ← write_unsigned 1 w (pos 1)
  ok (record (plain 3029 (zeros w 3)) { payload = signature })
