-- ===== src/Client/Vector/Writes.antt =====
-- Vector writes (client/_vector.py): what is cut to the ceilings of a server is still all of it.
use xrdclient.Prelude.{
  ℕ, zero, suc, ◌+◌, ◌-◌, ◌/◌, ◌≤◌, ◌≡◌, refl, arith, List, [], ◌∷◌, ◌++◌, leb, length, take, drop,
  concat, All, All-append, Bool-cases, inl, inr, append-nil, leb→le, length-take, length-drop, sym,
  drop-drop, drop_all, drop-length, subst,
}
use xrdclient.Errors.{Bytes}
use xrdclient.Client.Vector.{
  WriteChunk, readv_max_bytes, writev_max_element, cut_write, write_pieces, all_write_pieces,
  write_batches, bytes_of,
}
use xrdclient.Client.Vector.Ceilings.{IsBatch, concat-batches_from, batches_from-IsBatch}

-- Pieces that write these bytes from an offset on, one behind the other.
abbrev pub Writes : ℕ → Bytes → List WriteChunk → Type 0
Writes offset bytes [] = bytes ≡ []
Writes offset bytes (c ∷ cs) =
    (c.offset ≡ offset)
    × (length c.bytes ≤ writev_max_element)
    × (c.bytes ++ drop (length c.bytes) bytes ≡ bytes)
    × Writes (offset + length c.bytes) (drop (length c.bytes) bytes) cs

split : (n : ℕ) (bs : Bytes) → take n bs ++ drop (length (take n bs)) bs ≡ bs
split zero bs = refl
split (suc n) [] = refl
split (suc n) (b ∷ bs) = rw (split n bs)

whole : (bs : Bytes) → bs ++ drop (length bs) bs ≡ bs
whole bs = rw drop-length (append-nil bs)

cut_write-Writes :
    (rounds start : ℕ) (c : WriteChunk)
    → rounds ≡ ((length c.bytes - start) + (writev_max_element - 1)) / writev_max_element
    → Writes (c.offset + start) (drop start c.bytes) (cut_write rounds start c)
unfolding cut_write
cut_write-Writes zero start c r = drop_all start c.bytes (omega (arith, r))
cut_write-Writes (suc zero) start c r =
    let rest = drop start c.bytes in
    (
      refl,
      omega (arith, length-take writev_max_element rest),
      split writev_max_element rest,
      drop_all (length (take writev_max_element rest)) rest
          (omega (arith, r, length-take writev_max_element rest, length-drop start c.bytes)),
    )
cut_write-Writes (suc (suc rounds)) start c r =
    let rest = drop start c.bytes in
    let next = start + writev_max_element in
    let full : length (take writev_max_element rest) ≡ writev_max_element =
      omega (arith, r, length-take writev_max_element rest, length-drop start c.bytes) in
    let further : c.offset + start + writev_max_element ≡ c.offset + next = omega arith in
    (
      refl,
      omega (arith, full),
      split writev_max_element rest,
      subst (λ (n : ℕ). Writes (c.offset + start + n) (drop n rest) (cut_write (suc rounds) next c))
          (sym full)
          (subst
            (λ (o : ℕ). Writes o (drop writev_max_element rest) (cut_write (suc rounds) next c))
            (sym further)
            (subst (λ (bs : Bytes). Writes (c.offset + next) bs (cut_write (suc rounds) next c))
              (sym (drop-drop start writev_max_element c.bytes))
              (cut_write-Writes (suc rounds) next c (omega (arith, r))))),
    )

pub write_pieces-Writes : (c : WriteChunk) → Writes c.offset c.bytes (write_pieces c)
unfolding write_pieces
write_pieces-Writes c = elim (Bool-cases (leb (length c.bytes) writev_max_element)) [
  | inl small ↦
      rw small
        (refl, leb→le (length c.bytes) writev_max_element small, whole c.bytes, drop-length c.bytes)
  | inr large ↦
      let n = (length c.bytes + (writev_max_element - 1)) / writev_max_element in
      let start : c.offset + 0 ≡ c.offset = omega arith in
      rw large (
        subst (λ (o : ℕ). Writes o c.bytes (cut_write n 0 c)) start
          (cut_write-Writes n 0 c (omega arith)))
]

Writes-light :
    (offset : ℕ) (bytes : Bytes) (cs : List WriteChunk)
    → Writes offset bytes cs
    → All (λ (c : WriteChunk). bytes_of c ≤ readv_max_bytes) cs
Writes-light offset bytes [] w = tt
Writes-light offset bytes (c ∷ cs) w = (
  omega (arith, w.1),
  Writes-light (offset + length c.bytes) (drop (length c.bytes) bytes) cs w.3,
)

all_write_pieces-light :
    (chunks : List WriteChunk)
    → All (λ (c : WriteChunk). bytes_of c ≤ readv_max_bytes) (all_write_pieces chunks)
unfolding all_write_pieces
all_write_pieces-light [] = tt
all_write_pieces-light (c ∷ chunks) =
    All-append (λ (d : WriteChunk). bytes_of d ≤ readv_max_bytes) (write_pieces c)
      (all_write_pieces chunks)
      (Writes-light c.offset c.bytes (write_pieces c) (write_pieces-Writes c))
      (all_write_pieces-light chunks)

-- Whatever chunks a vector write is given: its requests carry the pieces of all chunks, in their
-- order, and none is empty, has too many elements or carries too many bytes; and the pieces of a
-- chunk, none too long for an element, write its bytes one behind the other from its offset on.
pub writev_ceilings :
    (chunks : List WriteChunk)
    → (concat (write_batches chunks) ≡ all_write_pieces chunks)
      × All (IsBatch bytes_of) (write_batches chunks)
      × All (λ (c : WriteChunk). Writes c.offset c.bytes (write_pieces c)) chunks
unfolding write_batches
writev_ceilings chunks = (
  concat-batches_from bytes_of [] 0 (all_write_pieces chunks),
  batches_from-IsBatch bytes_of [] 0 (all_write_pieces chunks) refl (omega arith) (omega arith)
      (all_write_pieces-light chunks),
  each chunks,
)
  where
    each :
        (cs : List WriteChunk)
        → All (λ (c : WriteChunk). Writes c.offset c.bytes (write_pieces c)) cs
    each [] = tt
    each (c ∷ cs) = (write_pieces-Writes c, each cs)
