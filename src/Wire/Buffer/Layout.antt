-- ===== src/Wire/Buffer/Layout.antt =====
-- Reading a layout back: what a chain of `Writer` calls wrote, the `Reader` calls of the same layout
-- return, in order, and the cursor is then behind the layout.
use xrdclient.Prelude.{
  ℕ, ◌^◌, ◌+◌, ◌<◌, ◌≡◌, refl, arith, List, [], ◌∷◌, ◌++◌, ℤ, pos, length, suc, true, take-append,
  drop-append, length-append, append_assoc, append-nil, inl, inr, ◌∙◌,
}
use xrdclient.Errors.{Bytes, Result, ok, err, Result-cases}
use xrdclient.Exec.{Exec, pure, ◌>>=◌}
use xrdclient.Wire.Words.{
  fits_signed, unsigned, to_be, of_be-to_be, length-to_be, signed-unsigned, unsigned-lt,
}
use xrdclient.Wire.Buffer.{
  Reader, take_bytes, unpack, unpack_signed, Writer, write_unsigned, write_signed, raw,
}

-- A field with its value: an unsigned or a signed word of w bytes, or a block of bytes.
pub data Field : Type 0 where
  uint : ℕ → ℕ → Field
  sint : ℕ → ℤ → Field
  block : Bytes → Field

unfoldable pub write_field : Writer → Field → Result Writer
write_field out (uint w v) = write_unsigned w out (pos v)
write_field out (sint w z) = write_signed (suc w) out z
write_field out (block bs) = ok (raw out bs)

-- The field of the same kind that stands at the cursor.
unfoldable pub read_like : Field → Exec Reader Field
read_like (uint w _) = do v ← unpack w; pure (uint w v)
read_like (sint w _) = do z ← unpack_signed (suc w); pure (sint w z)
read_like (block bs) = do b ← take_bytes (pos (length bs)); pure (block b)

unfoldable pub write_fields : Writer → List Field → Result Writer
write_fields out [] = ok out
write_fields out (f ∷ fs) = elim (write_field out f) [
  | ok out' ↦ write_fields out' fs
  | err e ↦ err e
]

unfoldable pub read_fields : List Field → Exec Reader (List Field)
read_fields [] = pure []
read_fields (f ∷ fs) = do x ← read_like f; xs ← read_fields fs; pure (x ∷ xs)

-- The cursor stands before `bs`, and `after` follows.
abbrev at : Bytes → Bytes → Bytes → Reader
at before bs after = record { buf = before ++ (bs ++ after); position = length before }

-- The cursor stands behind `bs`.
abbrev past : Bytes → Bytes → Bytes → Reader
past before bs after = record {
  buf = before ++ (bs ++ after);
  position = length before + length bs;
}

take_bytes-at :
    (w : ℕ) (before bs after : Bytes)
    → length bs ≡ w
    → take_bytes (pos w) (at before bs after) ≡ (ok bs, past before bs after)
unfolding take_bytes
take_bytes-at w before bs after e = rw (← e) (
    ground (
      arith,
      length-append before (bs ++ after),
      length-append bs after,
      drop-append before (bs ++ after),
      take-append bs after,
    ))

-- What a field is on the wire.
encoded : Field → Bytes
encoded (uint w v) = to_be w v
encoded (sint w z) = to_be (suc w) (unsigned (suc w) z)
encoded (block bs) = bs

abbrev Fits : Field → Type 0
Fits (uint w v) = v < 256 ^ w
Fits (sint w z) = fits_signed (suc w) z ≡ true
Fits (block bs) = Unit {0}

write_field_inv :
    (out out' : Bytes) (f : Field)
    → write_field out f ≡ ok out'
    → Fits f × (out' ≡ out ++ encoded f)
unfolding write_field encoded write_unsigned write_signed
write_field_inv out out' (uint w v) h = ground arith
write_field_inv out out' (sint w z) h = ground arith
write_field_inv out out' (block bs) h = ground arith

read_like-at :
    (before after : Bytes) (f : Field)
    → Fits f
    → read_like f (at before (encoded f) after) ≡ (ok f, past before (encoded f) after)
unfolding read_like encoded unpack unpack_signed
read_like-at before after (uint w v) h =
    ground (arith, take_bytes-at w before (to_be w v) after (length-to_be w v), of_be-to_be w v h)
read_like-at before after (sint w z) h =
    let u = unsigned (suc w) z in
    ground (
      arith,
      take_bytes-at (suc w) before (to_be (suc w) u) after (length-to_be (suc w) u),
      of_be-to_be (suc w) u (unsigned-lt (suc w) z h),
      signed-unsigned w z h,
    )
read_like-at before after (block bs) h =
    ground (arith, take_bytes-at (length bs) before bs after refl)

encoded_all : List Field → Bytes
encoded_all [] = []
encoded_all (f ∷ fs) = encoded f ++ encoded_all fs

abbrev AllFit : List Field → Type 0
AllFit [] = Unit {0}
AllFit (f ∷ fs) = Fits f × AllFit fs

write_fields_inv :
    (out out' : Bytes) (fs : List Field)
    → write_fields out fs ≡ ok out'
    → AllFit fs × (out' ≡ out ++ encoded_all fs)
unfolding write_fields encoded_all
write_fields_inv out out' [] h = (tt, ground (arith, append-nil out))
write_fields_inv out out' (f ∷ fs) h = elim (Result-cases (write_field out f)) [
  | inl (mid, e) ↦
      let head = write_field_inv out mid f e in
      let tail = write_fields_inv mid out' fs (ground (arith, e)) in
      ((head.0, tail.0), tail.1 ∙ rw (head.1, append_assoc))
  | inr (x, e) ↦ absurd (ground (arith, e))
]

module _ (before a b after : Bytes) where
  at-append : at before (a ++ b) after ≡ at before a (b ++ after)
  at-append = rw append_assoc

  past-eq-at : past before a (b ++ after) ≡ at (before ++ a) b after
  past-eq-at = rw (append_assoc, length-append)

  past-append : past (before ++ a) b after ≡ past before (a ++ b) after
  past-append = ground (
    arith,
    append_assoc before a (b ++ after),
    append_assoc a b after,
    length-append before a,
    length-append a b,
  )

read_fields-at :
    (before after : Bytes) (fs : List Field)
    → AllFit fs
    → read_fields fs (at before (encoded_all fs) after)
      ≡ (ok fs, past before (encoded_all fs) after)
unfolding read_fields encoded_all
read_fields-at before after [] h = ground arith
read_fields-at before after (f ∷ fs) h = ground (
  arith,
  at-append before (encoded f) (encoded_all fs) after,
  read_like-at before (encoded_all fs ++ after) f h.0,
  past-eq-at before (encoded f) (encoded_all fs) after,
  read_fields-at (before ++ encoded f) after fs h.1,
  past-append before (encoded f) (encoded_all fs) after,
)

-- Whatever fields a writer accepted, behind whatever it had written before: reading the same layout
-- from where it starts returns the very values, and leaves the cursor behind the layout, at what
-- follows.
pub read_fields-write_fields :
    (out out' rest : Bytes) (fs : List Field)
    → write_fields out fs ≡ ok out'
    → read_fields fs (record { buf = out' ++ rest; position = length out })
      ≡ (ok fs, record { buf = out' ++ rest; position = length out' })
read_fields-write_fields out out' rest fs h =
    let (fit, e) = write_fields_inv out out' fs h in
    rw (e, append_assoc, length-append) (read_fields-at out rest fs fit)
