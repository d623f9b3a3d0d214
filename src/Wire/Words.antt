-- ===== src/Wire/Words.antt =====
-- Big-endian words of w bytes, as `struct` packs and unpacks them.
use native.Mathlib.Nat.{pow-suc}
use xrdclient.Prelude.{
  ℕ, zero, suc, ◌+◌, ◌-◌, ◌*◌, ◌/◌, ◌%◌, ◌^◌, ◌<◌, ◌≡◌, refl, ◌∙◌, [], ◌∷◌, ◌++◌, arith, ltb,
  if◌then◌else◌, ℤ, pos, negsuc, length, length-append, Bool, true,
}
use xrdclient.Errors.{Bytes, Result, ok, err, struct_error}

-- the w low bytes of v, the highest first
unfoldable pub to_be : ℕ → ℕ → Bytes
to_be zero v = []
to_be (suc w) v = to_be w (v / 256) ++ (v % 256 ∷ [])

unfoldable pub of_be_from : ℕ → Bytes → ℕ
of_be_from acc [] = acc
of_be_from acc (b ∷ bs) = of_be_from (acc * 256 + b) bs

unfoldable pub of_be : Bytes → ℕ
unfolding of_be_from
of_be = of_be_from 0

-- two's complement in w bytes
unfoldable pub signed : ℕ → ℕ → ℤ
signed w v = if ltb (2 * v) (256 ^ w) then pos v else negsuc (256 ^ w - 1 - v)

unfoldable pub unsigned : ℕ → ℤ → ℕ
unsigned w (pos n) = n
unsigned w (negsuc n) = 256 ^ w - 1 - n

-- `struct.Struct(">Q").pack` and its like refuse a value outside the field.
unfoldable pub pack_unsigned : ℕ → ℤ → Result Bytes
unfolding to_be
pack_unsigned w (pos n) = if ltb n (256 ^ w) then ok (to_be w n) else err struct_error
pack_unsigned w (negsuc n) = err struct_error

abbrev pub fits_signed : ℕ → ℤ → Bool
fits_signed w (pos n) = ltb (2 * n) (256 ^ w)
fits_signed w (negsuc n) = ltb (2 * n) (256 ^ w)

unfoldable pub pack_signed : ℕ → ℤ → Result Bytes
unfolding to_be unsigned
pack_signed w z = if fits_signed w z then ok (to_be w (unsigned w z)) else err struct_error

pub length-to_be : (w v : ℕ) → length (to_be w v) ≡ w
unfolding to_be
length-to_be zero v = refl
length-to_be (suc w) v =
    omega (arith, length-append (to_be w (v / 256)) (v % 256 ∷ []), length-to_be w (v / 256))

of_be_from-concat :
    (bs : Bytes) (acc b : ℕ) → of_be_from acc (bs ++ (b ∷ [])) ≡ of_be_from acc bs * 256 + b
unfolding of_be_from
of_be_from-concat [] acc b = refl
of_be_from-concat (c ∷ bs) acc b = of_be_from-concat bs (acc * 256 + c) b

-- Reading back a word that was written in w bytes.
pub of_be-to_be : (w v : ℕ) → v < 256 ^ w → of_be (to_be w v) ≡ v
unfolding to_be of_be
of_be-to_be zero v h = omega (arith)
of_be-to_be (suc w) v h =
    of_be_from-concat (to_be w (v / 256)) 0 (v % 256)
    ∙ omega (arith, of_be-to_be w (v / 256) (omega (arith, pow-suc 256 w)))

pub signed-unsigned :
    (w : ℕ) (z : ℤ) → fits_signed (suc w) z ≡ true → signed (suc w) (unsigned (suc w) z) ≡ z
unfolding signed unsigned
signed-unsigned w (pos n) h = ground (arith, pow-suc 256 w)
signed-unsigned w (negsuc n) h = ground (arith, pow-suc 256 w)

-- A word in range fits its bytes once it is written as a bit pattern.
pub unsigned-lt : (w : ℕ) (z : ℤ) → fits_signed w z ≡ true → unsigned w z < 256 ^ w
unfolding unsigned
unsigned-lt w (pos n) h = ground (arith)
unsigned-lt w (negsuc n) h = ground (arith)

pub pack_unsigned_lem : (w n : ℕ) → n < 256 ^ w → pack_unsigned w (pos n) ≡ ok (to_be w n)
unfolding pack_unsigned
pack_unsigned_lem w n h = ground arith
