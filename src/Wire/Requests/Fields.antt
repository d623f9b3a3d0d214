-- ===== src/Wire/Requests/Fields.antt =====
-- The fields of a request's parameters, and how long they are (proto/_requests_*.py).
use xrdclient.Prelude.{
  ℕ, ◌+◌, ◌-◌, ◌<◌, ◌≡◌, ◌^◌, arith, [], ℤ, pos, negsuc, length, take, replicate, length-append,
  length-take, length-replicate,
}
use xrdclient.Errors.{Bytes, Result, ok, err, ◌>>=◌}
use xrdclient.Wire.Words.{pack_unsigned, pack_signed, to_be, length-to_be, unsigned}
use xrdclient.Wire.Buffer.{write_unsigned, write_signed, zeros, padded, fit}
use xrdclient.Wire.Frames.{Request}
use xrdclient.Wire.Requests.File.{range_params, handle_only}

-- What an encoder may return.
abbrev pub Framed : Result Request → Type 0
Framed (err e) = Unit {0}
Framed (ok req) = (length req.header_params ≡ 16) × (req.opcode < 2 ^ 16)

abbrev pub OfLength : ℕ → Result Bytes → Type 0
OfLength n (err e) = Unit {0}
OfLength n (ok w) = length w ≡ n

pub length-fit : (b : Bytes) (w : ℕ) → length (fit b w) ≡ w
length-fit b w = omega (
  arith,
  length-append (take w b) (replicate (w - length (take w b)) 0),
  length-take w b,
  length-replicate {A = ℕ} (w - length (take w b)) 0,
)

pub length-padded : (out b : Bytes) (w : ℕ) → length (padded out b w) ≡ length out + w
length-padded out b w = omega (arith, length-append out (fit b w), length-fit b w)

pub length-zeros : (out : Bytes) (w : ℕ) → length (zeros out w) ≡ length out + w
length-zeros out w = omega (arith, length-append out (replicate w 0), length-replicate {A = ℕ} w 0)

pub write_unsigned-length :
    (w : ℕ) (out : Bytes) (v : ℤ) → OfLength (length out + w) (write_unsigned w out v)
unfolding write_unsigned pack_unsigned
write_unsigned-length w out (pos n) =
    ground (arith, length-append out (to_be w n), length-to_be w n)
write_unsigned-length w out (negsuc n) = tt

pub write_signed-length :
    (w : ℕ) (out : Bytes) (v : ℤ) → OfLength (length out + w) (write_signed w out v)
unfolding write_signed pack_signed
write_signed-length w out v =
    ground (arith, length-append out (to_be w (unsigned w v)), length-to_be w (unsigned w v))

-- A field in a header, and what is made of it.
pub then-Framed :
    {n : ℕ} (r : Result Bytes) (f : Bytes → Result Request)
    → OfLength n r
    → ((w : Bytes) → length w ≡ n → Framed (f w))
    → Framed (r >>= f)
then-Framed (ok w) f len k = k w len
then-Framed (err e) f len k = tt

pub then_unsigned :
    (k : ℕ) (out : Bytes) (v : ℤ) (f : Bytes → Result Request)
    → ((w : Bytes) → length w ≡ length out + k → Framed (f w))
    → Framed (write_unsigned k out v >>= f)
then_unsigned k out v f next =
    then-Framed (write_unsigned k out v) f (write_unsigned-length k out v) next

pub then_signed :
    (k : ℕ) (out : Bytes) (v : ℤ) (f : Bytes → Result Request)
    → ((w : Bytes) → length w ≡ length out + k → Framed (f w))
    → Framed (write_signed k out v >>= f)
then_signed k out v f next = then-Framed (write_signed k out v) f (write_signed-length k out v) next

-- A body, of any length.
pub then_body :
    (r : Result Bytes) (f : Bytes → Result Request)
    → ((w : Bytes) → Framed (f w))
    → Framed (r >>= f)
then_body (ok w) f k = k w
then_body (err e) f k = tt

pub then_length :
    {m : ℕ} (n : ℕ) (r : Result Bytes) (f : Bytes → Result Bytes)
    → OfLength m r
    → ((w : Bytes) → length w ≡ m → OfLength n (f w))
    → OfLength n (r >>= f)
then_length n (ok w) f len k = k w len
then_length n (err e) f len k = tt

pub range_params-length :
    (fhandle : Bytes) (offset n : ℕ) → OfLength 16 (range_params fhandle offset n)
unfolding range_params
range_params-length fhandle offset n =
    then_length 16 _ _ (write_signed-length 8 (padded [] fhandle 4) (pos offset))
      (λ w e. ground (arith, write_signed-length 4 w (pos n), length-padded [] fhandle 4))

pub handle_only-length : (fhandle : Bytes) → length (handle_only fhandle) ≡ 16
handle_only-length fhandle =
    omega (arith, length-zeros (padded [] fhandle 4) 12, length-padded [] fhandle 4)
