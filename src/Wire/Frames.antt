-- ===== src/Wire/Frames.antt =====
-- proto/frames.py: request frames and response headers. A request is what its hooks return; they
-- are pure functions of an object that does not change after submission.
pub mod RoundTrip
use xrdclient.Prelude.{
  ℕ, ◌+◌, ◌-◌, ◌%◌, ◌^◌, Bool, ◌||◌, true, false, List, [], ◌∷◌, ◌++◌, ltb, leb, ◌==◌, not,
  if◌then◌else◌, pos, length, take, drop, truthy,
}
use xrdclient.Errors.{
  Bytes, Result, ok, err, ◌>>=◌, protocol_error, struct_error, params_length, payload_too_long,
  body_too_long, short_header,
}
use xrdclient.Wire.Words.{to_be, of_be, pack_unsigned}

-- constants.py
abbrev pub max_frame_payload : ℕ
max_frame_payload = 0x7FFFFFFF

abbrev pub max_response_body : ℕ
max_response_body = 1_073_741_824

abbrev pub request_hdrlen : ℕ
request_hdrlen = 24

abbrev pub response_hdrlen : ℕ
response_hdrlen = 8

-- `_INLINE`
abbrev pub inline : ℕ
inline = 4096

-- `HANDSHAKE`: three zero words, then 4 and ROOTD_PQ
abbrev pub handshake : Bytes
handshake = 0 ∷ 0 ∷ 0 ∷ 0 ∷ 0 ∷ 0 ∷ 0 ∷ 0 ∷ 0 ∷ 0 ∷ 0 ∷ 0 ∷ 0 ∷ 0 ∷ 0 ∷ 4 ∷ 0 ∷ 0 ∷ 7 ∷ 220 ∷ []

-- `Request`: its attributes, and what `header_params`, `payload`, `path_data`, `reply_cap` and
-- `trailer` return.
pub record Request : Type 0 where
  pub opcode : ℕ
  pub signed : Bool
  pub idempotent : Bool
  pub pathid : ℕ
  pub reply_on_path : Bool
  pub header_params : Bytes
  pub payload : Bytes
  pub path_data : Bytes
  pub reply_cap : ℕ
  pub trailer : Bytes

-- `_HDR.pack` of `>HH16sI`; the caller has checked that params are 16 bytes.
unfoldable pub pack_header : ℕ → ℕ → Bytes → ℕ → Result Bytes
unfolding pack_unsigned
pack_header sid opcode params dlen = do
  s ← pack_unsigned 2 (pos sid)
  o ← pack_unsigned 2 (pos opcode)
  d ← pack_unsigned 4 (pos dlen)
  ok (s ++ (o ++ (params ++ d)))

-- the buffers of a frame, once its header is packed
unfoldable pub frame_buffers : Bytes → Bytes → Bytes → List Bytes
frame_buffers head body trailer =
    if leb (length body + length trailer) inline
    then (head ++ (body ++ trailer)) ∷ []
    else head
      ∷ ((if truthy body then body ∷ [] else []) ++ (if truthy trailer then trailer ∷ [] else []))

unfoldable pub encode_parts : Request → ℕ → Result (List Bytes)
unfolding pack_header frame_buffers
encode_parts req sid =
    let dlen = length req.payload + length req.path_data in
    if not (length req.header_params == 16)
    then err (protocol_error (params_length (length req.header_params)))
    else if ltb max_frame_payload dlen
    then err (protocol_error (payload_too_long dlen))
    else do
      head ← pack_header (sid % 2 ^ 16) req.opcode req.header_params dlen
      ok (frame_buffers head req.payload req.trailer)

-- `b"".join`
abbrev pub join : List Bytes → Bytes
join [] = []
join (b ∷ bs) = b ++ join bs

unfoldable pub encode : Request → ℕ → Result Bytes
unfolding encode_parts
encode req sid = do parts ← encode_parts req sid; ok (join parts)

-- `ResponseHeader`
pub record ResponseHeader : Type 0 where
  pub streamid : ℕ
  pub status : ℕ
  pub dlen : ℕ

-- `header_fields(data, offset)`. `unpack_from` raises `struct.error` where 8 bytes are not there.
unfoldable pub header_fields : Bytes → ℕ → Result ResponseHeader
unfolding of_be
header_fields bs offset =
    let at = drop offset bs in
    let dlen = of_be (take 4 (drop 4 at)) in
    if ltb (length at) 8
    then err struct_error
    else if ltb max_response_body dlen
    then err (protocol_error (body_too_long dlen))
    else ok
        (record { streamid = of_be (take 2 at); status = of_be (take 2 (drop 2 at)); dlen = dlen })

unfoldable pub decode_header : Bytes → Result ResponseHeader
unfolding header_fields
decode_header bs =
    if ltb (length bs) response_hdrlen
    then err (protocol_error (short_header (length bs)))
    else header_fields bs 0
