-- ===== src/Wire/Responses.antt =====
-- proto/responses.py: the bodies that the session machine reads. Text is its bytes: decoding it as
-- UTF-8 commutes with the splitting done here, which is at ASCII characters only.
use xrdclient.Prelude.{
  ℕ, zero, suc, ◌+◌, ◌-◌, ◌*◌, ◌/◌, ◌%◌, Bool, ◌&&◌, ◌||◌, List, [], ◌∷◌, Option, none, some, ltb,
  leb, ◌==◌, not, if◌then◌else◌, ℤ, pos, length, drop, min, Dict, put,
}
use xrdclient.Errors.{
  Bytes, Result, ok, err, protocol_error, no_redirect_host, zero_pathid, cse_length,
}
use xrdclient.Exec.{Exec, pure, gets, refuse_if, ◌>>=◌, ◌>>◌}
use xrdclient.Wire.Buffer.{
  Reader, reader, remaining, take_bytes, u8, u16, u32, i32, i64, rest, skip, cstring, before_nul,
}

-- A decoder, run on the whole body.
abbrev decode : {A : Type 0} → Exec Reader A → Bytes → Result A
decode m bs = (m (reader bs)).0

pub record ErrorInfo : Type 0 where
  pub code : ℤ
  pub message : Bytes

unfoldable pub parse_error : Bytes → Result ErrorInfo
unfolding i32 cstring
parse_error = decode do c ← i32; text ← cstring; pure (record { code = c; message = text })

pub record RedirectInfo : Type 0 where
  pub host : Bytes
  pub port : ℤ
  pub token : Bytes

-- `_TARGET_END.split(…, 1)[0]`: up to the first NUL, CR or LF
unfoldable pub before_end : Bytes → Bytes
before_end [] = []
before_end (b ∷ bs) = if b == 0 || (b == 13 || b == 10) then [] else b ∷ before_end bs

-- `text.partition(sep)`, as what stands before and, if there is one, behind the separator
unfoldable pub partition : ℕ → Bytes → Bytes × Option Bytes
partition sep [] = ([], none)
partition sep (b ∷ bs) =
    let tail = partition sep bs in if b == sep then ([], some bs) else (b ∷ tail.0, tail.1)

-- `token.lstrip("?&")`
unfoldable pub lstrip : Bytes → Bytes
lstrip [] = []
lstrip (b ∷ bs) = if b == b'?' || b == b'&' then lstrip bs else b ∷ bs

unfoldable pub redirect_of : ℤ → Bytes × Option Bytes → Result RedirectInfo
unfolding lstrip
redirect_of port ([], _) = err (protocol_error no_redirect_host)
redirect_of port (b ∷ bs, none) = ok (record { host = b ∷ bs; port = port; token = [] })
redirect_of port (b ∷ bs, some t) = ok (record { host = b ∷ bs; port = port; token = lstrip t })

unfoldable pub parse_redirect : Bytes → Result RedirectInfo
unfolding i32 rest before_end partition redirect_of
parse_redirect =
    decode do p ← i32; text ← rest; λ r. (redirect_of p (partition b'?' (before_end text)), r)

pub record WaitInfo : Type 0 where
  pub seconds : ℤ
  pub message : Bytes

unfoldable pub parse_wait : Bytes → Result WaitInfo
unfolding i32 cstring
parse_wait = decode do s ← i32; text ← cstring; pure (record { seconds = s; message = text })

unfoldable pub parse_waitresp : Bytes → Result WaitInfo
unfolding i32
parse_waitresp = decode do s ← i32; pure (record { seconds = s; message = [] })

pub record AttnInfo : Type 0 where
  pub action : ℤ
  pub params : Bytes

unfoldable pub parse_attn : Bytes → Result AttnInfo
unfolding i32 rest
parse_attn = decode do a ← i32; ps ← rest; pure (record { action = a; params = ps })

pub record StatusInfo : Type 0 where
  pub crc32c : ℕ
  pub streamid : ℕ
  pub requestid : ℕ
  pub resptype : ℕ
  pub dlen : ℤ
  pub info : Bytes

-- `StatusInfo.is_final`: kXR_FinalResult
abbrev pub is_final : StatusInfo → Bool
is_final s = s.resptype == 0

unfoldable pub parse_status : Bytes → Result StatusInfo
unfolding u32 u16 u8 skip i32 rest
parse_status = decode do
  crc ← u32
  sid ← u16
  rid ← u8
  kind ← u8
  skip (pos 4)
  n ← i32
  tail ← rest
  pure (record {
    crc32c = crc;
    streamid = sid;
    requestid = rid + 3000;
    resptype = kind;
    dlen = n;
    info = tail;
  })

-- n offsets of 8 bytes, one after the other
unfoldable pub offsets : ℕ → Exec Reader (List ℤ)
unfolding i64
offsets zero = pure []
offsets (suc n) = do x ← i64; xs ← offsets n; pure (x ∷ xs)

unfoldable pub parse_pgwrite_cse : Bytes → Result (List ℤ)
unfolding skip offsets
parse_pgwrite_cse bs =
    if ltb (length bs) 8 || not ((length bs - 8) % 8 == 0)
    then err (protocol_error (cse_length (length bs)))
    else decode (do skip (pos 8); offsets ((length bs - 8) / 8)) bs

-- `ProtocolInfo` of types.py, as far as the session machine reads it.
pub record ProtocolInfo : Type 0 where
  pub version : ℤ
  pub flags : ℕ
  pub security_level : ℕ
  pub security_version : ℕ
  pub security_options : ℕ
  pub security_overrides : Dict ℕ

-- `bs[i]`, where the caller has checked that it is there
abbrev pub byte : Bytes → ℕ → ℕ
byte [] i = 0
byte (b ∷ bs) zero = b
byte (b ∷ bs) (suc i) = byte bs i

unfoldable pub find_sec_reqs : Bytes → Option Bytes
find_sec_reqs trailer =
    let off = 4 + byte trailer 2 * 8 in
    if leb 6 (length trailer) && byte trailer 0 == b'S'
    then some trailer
    else if leb 4 (length trailer) && (leb (off + 6) (length trailer) && byte trailer off == b'S')
    then some (drop off trailer)
    else none

-- the loop over `secvec`: pairs of a request's index and its signing level
unfoldable pub overrides_of : ℕ → Bytes → Dict ℕ → Dict ℕ
overrides_of zero vec found = found
overrides_of (suc n) (index ∷ level ∷ vec) found =
    overrides_of n vec (put (index + 3000) level found)
overrides_of (suc n) _ found = found

unfoldable pub protocol_of : ℤ → ℕ → Option Bytes → ProtocolInfo
unfolding overrides_of
protocol_of v f none = record {
  version = v;
  flags = f;
  security_level = 0;
  security_version = 0;
  security_options = 0;
  security_overrides = [];
}
protocol_of v f (some reqs) = record {
  version = v;
  flags = f;
  security_level = byte reqs 4;
  security_version = byte reqs 2;
  security_options = byte reqs 3;
  security_overrides = overrides_of (byte reqs 5) (drop 6 reqs) [];
}

unfoldable pub parse_protocol : Bytes → Result ProtocolInfo
unfolding i32 u32 rest find_sec_reqs protocol_of
parse_protocol =
    decode do v ← i32; f ← u32; trailer ← rest; pure (protocol_of v f (find_sec_reqs trailer))

pub record LoginInfo : Type 0 where
  pub sessid : Bytes
  pub sec : Bytes

unfoldable pub parse_login : Bytes → Result LoginInfo
unfolding take_bytes rest before_nul
parse_login = decode do
  left ← gets (λ r. remaining r)
  sid ← take_bytes (pos (min 16 left))
  tail ← rest
  pure (record { sessid = sid; sec = before_nul tail })

extend_first : ℕ → List Bytes → List Bytes
extend_first b [] = (b ∷ []) ∷ []
extend_first b (p ∷ ps) = (b ∷ p) ∷ ps

-- `sec.split("&")`
unfoldable pub split_on : ℕ → Bytes → List Bytes
unfolding extend_first
split_on sep [] = [] ∷ []
split_on sep (b ∷ bs) =
    let parts = split_on sep bs in if b == sep then [] ∷ parts else extend_first b parts

-- the names in the parts `P=name,…`
unfoldable pub names_of : List Bytes → List Bytes
unfolding partition
names_of [] = []
names_of ((p ∷ e ∷ name) ∷ parts) =
    let more = names_of parts in
    if p == b'P' && e == b'=' then (partition b',' name).0 ∷ more else more
names_of (_ ∷ parts) = names_of parts

-- `LoginInfo.mechanisms`
unfoldable pub mechanisms : LoginInfo → List Bytes
unfolding split_on names_of
mechanisms l = names_of (split_on b'&' l.sec)

unfoldable pub parse_bind : Bytes → Result ℕ
unfolding u8
parse_bind =
    decode do pathid ← u8; refuse_if (pathid == 0) (protocol_error zero_pathid); pure pathid
