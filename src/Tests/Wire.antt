-- ===== src/Tests/Wire.antt =====
-- proto/buffer.py and proto/frames.py at concrete inputs.
use xrdclient.Prelude.{
  ◌+◌, ◌≤◌, ◌<◌, ◌≡◌, refl, arith, List, [], ◌∷◌, ◌++◌, pos, negsuc, length, drop,
}
use xrdclient.Errors.{Bytes, ok, err, Fault}
use xrdclient.Wire.Words.{to_be}
use xrdclient.Wire.Buffer.{Reader, remaining, take_bytes, write_unsigned, write_signed}
use xrdclient.Wire.Buffer.Bounds.{IsInBounds, After, Call, reads-Checked, take_bytes_exact}
use xrdclient.Wire.Buffer.Layout.{
  Field, write_field, read_fields, write_fields, read_fields-write_fields,
}
use xrdclient.Wire.Frames.{header_fields, encode_parts, encode, join, max_response_body}
use xrdclient.Wire.Frames.RoundTrip.{
  IsSendable, frame_of, encode_parts-frame_of, encode_parts_refuses, Fields, encode_parts-Fields,
  header_fields-to_be, header_fields_bound,
}
use xrdclient.Tests.{write_request}

abbrev four : Reader
four = record { buf = 1 ∷ 2 ∷ 0 ∷ 4 ∷ []; position = 1 }

four-IsInBounds : IsInBounds four
four-IsInBounds = record { within = omega arith }

reads-Checked_example : After four Call.string
reads-Checked_example = reads-Checked Call.string four four-IsInBounds

take_bytes_exact_example :
    (2 ≤ remaining four
      → (bs : Bytes) × ((take_bytes (pos 2) four).0 ≡ ok bs)
        × (length bs ≡ 2)
        × (bs ++ drop (take_bytes (pos 2) four).1.position four.buf ≡ drop 1 four.buf))
    × (remaining four < 2 → (e : Fault) × (take_bytes (pos 2) four ≡ (err e, four)))
take_bytes_exact_example = take_bytes_exact 2 four four-IsInBounds

abbrev fields : List Field
fields = Field.uint 2 513 ∷ Field.sint 3 (negsuc 4) ∷ Field.block (7 ∷ 8 ∷ []) ∷ []

abbrev layout : Bytes
layout = 99 ∷ 2 ∷ 1 ∷ 255 ∷ 255 ∷ 255 ∷ 251 ∷ 7 ∷ 8 ∷ []

write_layout : write_fields (99 ∷ []) fields ≡ ok layout
unfolding write_fields write_field write_unsigned write_signed
write_layout = refl

read_fields-write_fields_example :
    read_fields fields (record { buf = layout ++ (5 ∷ []); position = 1 })
    ≡ (ok fields, record { buf = layout ++ (5 ∷ []); position = 9 })
read_fields-write_fields_example =
    read_fields-write_fields (99 ∷ []) layout (5 ∷ []) fields write_layout

write_request-IsSendable : IsSendable write_request
write_request-IsSendable = record {
  params_16 = refl;
  opcode_fits = omega arith;
  fits = omega arith;
}

encode_parts-frame_of_example :
    (parts : List Bytes) × (encode_parts write_request 4 ≡ ok parts)
    × (join parts ≡ frame_of write_request 4)
    × (encode write_request 4 ≡ ok (frame_of write_request 4))
encode_parts-frame_of_example = encode_parts-frame_of write_request 4 write_request-IsSendable

write_request_parts : encode_parts write_request 4 ≡ ok (frame_of write_request 4 ∷ [])
unfolding encode_parts
write_request_parts = refl

encode_parts_refuses_example : IsSendable write_request
encode_parts_refuses_example = encode_parts_refuses write_request 4 write_request_parts

encode_parts-Fields_example :
    (parts : List Bytes) × (encode_parts write_request 4 ≡ ok parts)
    × Fields write_request 4 (join parts)
encode_parts-Fields_example = encode_parts-Fields write_request 4 write_request-IsSendable

header_fields-to_be_example :
    header_fields (1 ∷ 2 ∷ (to_be 2 4 ++ (to_be 2 4000 ++ (to_be 4 3 ++ (7 ∷ []))))) 2
    ≡ ok (record { streamid = 4; status = 4000; dlen = 3 })
header_fields-to_be_example =
    header_fields-to_be 4 4000 3 (1 ∷ 2 ∷ []) (7 ∷ []) (omega arith) (omega arith) (omega arith)

abbrev header : Bytes
header = 0 ∷ 4 ∷ 15 ∷ 160 ∷ 0 ∷ 0 ∷ 0 ∷ 3 ∷ []

header_ok : header_fields header 0 ≡ ok (record { streamid = 4; status = 4000; dlen = 3 })
unfolding header_fields
header_ok = refl

header_fields_bound_example : (3 ≤ max_response_body) × (0 + 8 ≤ length header)
header_fields_bound_example = header_fields_bound header 0 header_ok
