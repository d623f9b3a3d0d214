-- ===== src/Wire/Buffer/Bounds.antt =====
-- Every read of proto/buffer.py is bounds-checked.
use xrdclient.Prelude.{
  ℕ, ◌≤◌, ◌<◌, ◌≡◌, refl, arith, [], ◌∷◌, ◌++◌, ℤ, pos, negsuc, length, take, drop, length-drop,
  length-take, take-append-drop, drop-drop,
}
use xrdclient.Errors.{Bytes, Result, ok, err, Fault, protocol_error, truncated}
use xrdclient.Wire.Buffer.{
  Reader, remaining, take_bytes, unpack, unpack_signed, rest, skip, cstring_field, cstring,
  through_nul,
}

pub record IsInBounds (r : Reader) : Type 0 where
  pub within : r.position ≤ length r.buf

-- What a read may leave behind: the same buffer, a cursor that did not go back or past the end,
-- and, if it raised, the very reader that it was given.
abbrev pub Checked {ℓ} : {A : Type ℓ} → Reader → Result A × Reader → Type 0
Checked r (ok _, r') = (r'.buf ≡ r.buf) × (r.position ≤ r'.position) × (r'.position ≤ length r.buf)
Checked r (err _, r') = r' ≡ r

pub take_bytes-Checked : (n : ℤ) (r : Reader) → IsInBounds r → Checked r (take_bytes n r)
unfolding take_bytes
take_bytes-Checked (pos n) r h = ground arith
take_bytes-Checked (negsuc n) r h = refl

through_nul-le : (bs : Bytes) → through_nul bs ≤ length bs
unfolding through_nul
through_nul-le [] = omega arith
through_nul-le (b ∷ bs) = ground (arith, through_nul-le bs)

-- One call of a method of `Reader`.
pub data Call : Type 0 where
  taken skipped field : ℤ → Call
  word int : ℕ → Call
  remainder string : Call

-- What one call leaves behind.
abbrev pub After : Reader → Call → Type 0
After r (taken n) = Checked r (take_bytes n r)
After r (skipped n) = Checked r (skip n r)
After r (field n) = Checked r (cstring_field n r)
After r (word w) = Checked r (unpack w r)
After r (int w) = Checked r (unpack_signed w r)
After r remainder = Checked r (rest r)
After r string = Checked r (cstring r)

-- Every method that reads, whatever the argument, where the cursor is within the buffer: when it returns, the buffer is the
-- same and the cursor has moved forward, not past the end; when it raises, nothing has moved.
pub reads-Checked : (c : Call) (r : Reader) → IsInBounds r → After r c
unfolding skip cstring_field unpack unpack_signed rest cstring
reads-Checked (taken n) r h = take_bytes-Checked n r h
reads-Checked (skipped n) r h = ground (arith, take_bytes-Checked n r h)
reads-Checked (field n) r h = ground (arith, take_bytes-Checked n r h)
reads-Checked (word w) r h = ground (arith, take_bytes-Checked (pos w) r h)
reads-Checked (int w) r h = ground (arith, take_bytes-Checked (pos w) r h)
reads-Checked remainder r h = take_bytes-Checked (pos (remaining r)) r h
reads-Checked string r h = (
  refl,
  omega (arith, through_nul-le (drop r.position r.buf)),
  omega (arith, h.within, through_nul-le (drop r.position r.buf), length-drop r.position r.buf),
)

-- Within the buffer a read of n bytes succeeds exactly if that many remain; the bytes and what is
-- left for the next read are then together what was left before.
pub take_bytes_exact :
    (n : ℕ) (r : Reader)
    → IsInBounds r
    → (n ≤ remaining r
        → (bs : Bytes) × ((take_bytes (pos n) r).0 ≡ ok bs)
          × (length bs ≡ n)
          × (bs ++ drop (take_bytes (pos n) r).1.position r.buf ≡ drop r.position r.buf))
      × (remaining r < n → (e : Fault) × (take_bytes (pos n) r ≡ (err e, r)))
unfolding take_bytes
take_bytes_exact n r h = (
  λ fits. (
    take n (drop r.position r.buf),
    ground arith,
    omega (arith, h.within, length-take n (drop r.position r.buf), length-drop r.position r.buf),
    ground (arith, drop-drop r.position n r.buf, take-append-drop n (drop r.position r.buf)),
  ),
  λ short. (protocol_error (truncated n r.position (remaining r)), ground arith),
)
