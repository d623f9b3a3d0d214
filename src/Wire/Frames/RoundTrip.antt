-- ===== src/Wire/Frames/RoundTrip.antt =====
-- What a peer reads from a request frame, and the client from a response header.
use xrdclient.Prelude.{
  ℕ, ◌+◌, ◌%◌, ◌^◌, ◌<◌, ◌≤◌, List, [], ◌∷◌, ◌++◌, leb, ◌≡◌, refl, arith, if◌then◌else◌, length,
  take, drop, truthy, append_assoc, append-nil, drop-append, Bool-cases, inl, inr, ◌∙◌, ap,
  take-append_eq, drop-append_eq, length-drop, drop-drop, sym, subst,
}
use xrdclient.Errors.{Bytes, ok}
use xrdclient.Wire.Words.{to_be, of_be, of_be-to_be, pack_unsigned_lem}
use xrdclient.Wire.Frames.{
  Request, ResponseHeader, pack_header, frame_buffers, encode_parts, encode, header_fields, join,
  max_frame_payload, max_response_body, inline,
}

-- A frame, as the protocol lays it out: stream id, opcode, parameters, length, body, trailer.
abbrev pub frame_of : Request → ℕ → Bytes
frame_of req sid =
    (to_be 2 (sid % 2 ^ 16)
      ++ (to_be 2 req.opcode
          ++ (req.header_params ++ to_be 4 (length req.payload + length req.path_data))))
    ++ (req.payload ++ req.trailer)

join-frame_buffers :
    (head body trailer : Bytes) → join (frame_buffers head body trailer) ≡ head ++ (body ++ trailer)
unfolding frame_buffers
join-frame_buffers head body trailer =
    elim (Bool-cases (leb (length body + length trailer) inline)) [
      | inl small ↦ rw (small, append-nil)
      | inr large ↦ rw large (apart body trailer)
    ]
  where
    apart :
        (body trailer : Bytes)
        → head
            ++ join (
                (if truthy body then body ∷ [] else [])
                ++ (if truthy trailer then trailer ∷ [] else []))
          ≡ head ++ (body ++ trailer)
    apart [] [] = refl
    apart [] (t ∷ ts) = ground (arith, append-nil ts)
    apart (b ∷ bs) [] = refl
    apart (b ∷ bs) (t ∷ ts) = ground (arith, append-nil ts)

-- A request that the client can send: what every encoder promises, and what fits a frame.
pub record IsSendable (req : Request) : Type 0 where
  pub params_16 : length req.header_params ≡ 16
  pub opcode_fits : req.opcode < 2 ^ 16
  pub fits : length req.payload + length req.path_data ≤ max_frame_payload

abbrev head_of : Request → ℕ → Bytes
head_of req sid =
    to_be 2 (sid % 2 ^ 16)
    ++ (to_be 2 req.opcode
        ++ (req.header_params ++ to_be 4 (length req.payload + length req.path_data)))

pack_header_lem :
    (req : Request) (sid : ℕ)
    → IsSendable req
    → pack_header
        (sid % 2 ^ 16)
        req.opcode
        req.header_params
        (length req.payload + length req.path_data)
      ≡ ok (head_of req sid)
unfolding pack_header
pack_header_lem req sid v = rw (
  pack_unsigned_lem 2 (sid % 2 ^ 16) (omega arith),
  pack_unsigned_lem 2 req.opcode v.opcode_fits,
  pack_unsigned_lem 4 (length req.payload + length req.path_data) (omega (arith, v.fits)),
)

encode_parts_lem :
    (req : Request) (sid : ℕ)
    → IsSendable req
    → encode_parts req sid ≡ ok (frame_buffers (head_of req sid) req.payload req.trailer)
unfolding encode_parts
encode_parts_lem req sid v = ground (arith, pack_header_lem req sid v)

-- A sendable request is encoded, and the buffers of its frame, sent one after the other, are the
-- frame of the protocol: whether the body was joined to the header or kept apart.
pub encode_parts-frame_of :
    (req : Request) (sid : ℕ)
    → IsSendable req
    → (parts : List Bytes) × (encode_parts req sid ≡ ok parts)
      × (join parts ≡ frame_of req sid)
      × (encode req sid ≡ ok (frame_of req sid))
unfolding encode
encode_parts-frame_of req sid v =
    let parts = frame_buffers (head_of req sid) req.payload req.trailer in
    let e = encode_parts_lem req sid v in
    let j = join-frame_buffers (head_of req sid) req.payload req.trailer in (parts, e, j, rw (e, j))

-- A request that is framed was sendable: with parameters of another length than 16, with a payload
-- that is too long for the length field, or with an opcode of more than 16 bits no frame comes out.
pub encode_parts_refuses :
    (req : Request) (sid : ℕ) {parts : List Bytes}
    → encode_parts req sid ≡ ok parts
    → IsSendable req
unfolding encode_parts pack_header
encode_parts_refuses req sid h = ground arith

-- What a peer reads at the places of the five fields.
abbrev pub Fields : Request → ℕ → Bytes → Type 0
Fields req sid frame =
    (of_be (take 2 frame) ≡ sid % 2 ^ 16)
    × (of_be (take 2 (drop 2 frame)) ≡ req.opcode)
    × (take 16 (drop 4 frame) ≡ req.header_params)
    × (of_be (take 4 (drop 20 frame)) ≡ length req.payload + length req.path_data)
    × (drop 24 frame ≡ req.payload ++ req.trailer)

pub frame_of-Fields : (req : Request) (sid : ℕ) → IsSendable req → Fields req sid (frame_of req sid)
unfolding to_be
frame_of-Fields req sid v =
    let dlen = length req.payload + length req.path_data in
    let behind = to_be 4 dlen ++ (req.payload ++ req.trailer) in
    let assoc = append_assoc req.header_params (to_be 4 dlen) (req.payload ++ req.trailer) in
    let past = drop-append_eq 16 req.header_params behind v.params_16 in
    (
      of_be-to_be 2 (sid % 2 ^ 16) (omega arith),
      of_be-to_be 2 req.opcode v.opcode_fits,
      ap (take 16) assoc ∙ take-append_eq 16 req.header_params behind v.params_16,
      ap (λ (t : Bytes). of_be (take 4 (drop 16 t))) assoc
          ∙ ap (λ (t : Bytes). of_be (take 4 t)) past
          ∙ of_be-to_be 4 dlen (omega (arith, v.fits)),
      ap (drop 20) assoc ∙ sym (drop-drop 16 4 (req.header_params ++ behind)) ∙ ap (drop 4) past,
    )

-- A sendable request is framed, and a peer that gets the buffers one after the other reads its five
-- fields back at their places: the stream id of 16 bits, the opcode, the parameters, the length of the
-- payload with what goes on another path, and behind the header the payload and the trailer.
pub encode_parts-Fields :
    (req : Request) (sid : ℕ)
    → IsSendable req
    → (parts : List Bytes) × (encode_parts req sid ≡ ok parts) × Fields req sid (join parts)
encode_parts-Fields req sid v =
    let made = encode_parts-frame_of req sid v in
    (made.0, made.1, subst (Fields req sid) (sym made.2) (frame_of-Fields req sid v))

-- The client reads back the response header that a server wrote, whatever stands before it and
-- whatever follows, where the fields fit and the body is not past the limit.
pub header_fields-to_be :
    (sid status dlen : ℕ) (before body : Bytes)
    → sid < 2 ^ 16
    → status < 2 ^ 16
    → dlen ≤ max_response_body
    → header_fields
        (before ++ (to_be 2 sid ++ (to_be 2 status ++ (to_be 4 dlen ++ body))))
        (length before)
      ≡ ok (record { streamid = sid; status = status; dlen = dlen })
unfolding header_fields to_be
header_fields-to_be sid status dlen before body a b c =
    rw drop-append (
      ground (arith, of_be-to_be 2 sid a, of_be-to_be 2 status b, of_be-to_be 4 dlen (omega arith)))

-- A header that is accepted lies inside the buffer, and declares a body that is not past the limit.
pub header_fields_bound :
    (bs : Bytes) (offset : ℕ) {h : ResponseHeader}
    → header_fields bs offset ≡ ok h
    → (h.dlen ≤ max_response_body) × (offset + 8 ≤ length bs)
unfolding header_fields
header_fields_bound bs offset e = ground (arith, length-drop offset bs)
