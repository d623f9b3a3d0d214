-- ===== src/Client/Vector/Ceilings.antt =====
-- The requests of a vector read or write keep within what a server accepts (client/_vector.py).
use xrdclient.Prelude.{
  ℕ, zero, suc, ◌+◌, ◌-◌, ◌/◌, ◌≤◌, ◌≡◌, refl, arith, min, List, [], ◌∷◌, ◌++◌, leb, length, concat,
  sum_of, All, length-append, sum_of-append, All-append, Bool-cases, inl, inr, append_assoc,
  append-nil, leb→le, subst, ◌∙◌,
}
use xrdclient.Client.Vector.{
  ReadRange, readv_max_chunks, readv_max_bytes, readv_max_element, cut, pieces, all_pieces, is_full,
  batches_from, batches, size_of,
}

module _ {A : Type 0} (size : A → ℕ) where
  -- A batch that one request may carry.
  pub record IsBatch (batch : List A) : Type 0 where
    pub some_items : 1 ≤ length batch
    pub few : length batch ≤ readv_max_chunks
    pub light : sum_of size batch ≤ readv_max_bytes

  pub concat-batches_from :
      (batch : List A) (total : ℕ) (xs : List A)
      → concat (batches_from size batch total xs) ≡ batch ++ xs
  unfolding batches_from
  concat-batches_from [] total [] = refl
  concat-batches_from (b ∷ batch) total [] = rw (append-nil (b ∷ batch)) refl
  concat-batches_from batch total (x ∷ xs) = elim (Bool-cases (is_full size batch total x)) [
    | inl full ↦ rw full (rw (concat-batches_from (x ∷ []) (0 + size x) xs))
    | inr room ↦ rw room (
        concat-batches_from (batch ++ (x ∷ [])) (total + size x) xs
        ∙ append_assoc batch (x ∷ []) xs)
  ]

  pub batches_from-IsBatch :
      (batch : List A) (total : ℕ) (xs : List A)
      → total ≡ sum_of size batch
      → length batch ≤ readv_max_chunks
      → total ≤ readv_max_bytes
      → All (λ x. size x ≤ readv_max_bytes) xs
      → All IsBatch (batches_from size batch total xs)
  unfolding batches_from
  batches_from-IsBatch [] total [] e few light small = tt
  batches_from-IsBatch (b ∷ batch) total [] e few light small =
      (record { some_items = omega arith; few = few; light = omega (arith, e) }, tt)
  batches_from-IsBatch [] total (x ∷ xs) e few light small =
      batches_from-IsBatch (x ∷ []) (total + size x) xs (omega (arith, e)) (omega arith)
        (omega (arith, e, small.0)) small.1
  batches_from-IsBatch (b ∷ batch) total (x ∷ xs) e few light small =
      elim (Bool-cases (is_full size (b ∷ batch) total x)) [
        | inl full ↦ rw full (
          record { some_items = omega arith; few = few; light = omega (arith, e) },
          batches_from-IsBatch (x ∷ []) (0 + size x) xs (omega arith) (omega arith)
              (omega (arith, small.0)) small.1,
        )
        | inr room ↦ rw room (
            batches_from-IsBatch (b ∷ (batch ++ (x ∷ []))) (total + size x) xs
              (omega (arith, e, sum_of-append size batch (x ∷ [])))
              (ground (arith, room, length-append batch (x ∷ []))) (ground (arith, room)) small.1)
      ]

-- The pieces of n bytes from an offset on follow one another, and none is too long for an element.
abbrev pub Covers : ℕ → ℕ → List ReadRange → Type 0
Covers offset n [] = n ≡ 0
Covers offset n (p ∷ ps) =
    (p.offset ≡ offset)
    × (p.size ≤ n)
    × (p.size ≤ readv_max_element)
    × Covers (offset + p.size) (n - p.size) ps

cut-Covers :
    (rounds start n : ℕ) (rng : ReadRange)
    → n + start ≡ rng.size
    → rounds ≡ (n + (readv_max_element - 1)) / readv_max_element
    → Covers (rng.offset + start) n (cut rounds start rng)
unfolding cut
cut-Covers zero start n rng e r = omega arith
cut-Covers (suc zero) start n rng e r = (refl, omega (arith, e), omega arith, omega (arith, e, r))
cut-Covers (suc (suc rounds)) start n rng e r =
    let full : min readv_max_element (rng.size - start) ≡ readv_max_element = omega (arith, e, r) in
    let further : rng.offset + start + readv_max_element
        ≡ rng.offset + (start + readv_max_element) =
      omega arith in
    rw full (
      refl,
      omega (arith, r),
      omega arith,
      rw further (
          cut-Covers (suc rounds) (start + readv_max_element) (n - readv_max_element) rng
            (omega (arith, e, r)) (omega (arith, r))),
    )

-- `_pieces` cuts a range into pieces that follow one another, cover it, and are no longer than the
-- server takes in one element.
pub pieces-Covers : (rng : ReadRange) → Covers rng.offset rng.size (pieces rng)
unfolding pieces
pieces-Covers rng = elim (Bool-cases (leb rng.size readv_max_element)) [
  | inl small ↦ rw small (refl, omega arith, leb→le rng.size readv_max_element small, omega arith)
  | inr large ↦
      let n = (rng.size + (readv_max_element - 1)) / readv_max_element in
      let start : rng.offset + 0 ≡ rng.offset = omega arith in
      rw large (
        subst (λ (o : ℕ). Covers o rng.size (cut n 0 rng)) start
          (cut-Covers n 0 rng.size rng (omega arith) refl))
]

Covers-small :
    (offset n : ℕ) (ps : List ReadRange)
    → Covers offset n ps
    → All (λ (p : ReadRange). p.size ≤ readv_max_element) ps
Covers-small offset n [] c = tt
Covers-small offset n (p ∷ ps) c = (c.2, Covers-small (offset + p.size) (n - p.size) ps c.3)

pub all_pieces-small :
    (wanted : List ReadRange)
    → All (λ (p : ReadRange). p.size ≤ readv_max_element) (all_pieces wanted)
unfolding all_pieces
all_pieces-small [] = tt
all_pieces-small (rng ∷ wanted) =
    All-append (λ (p : ReadRange). p.size ≤ readv_max_element) (pieces rng) (all_pieces wanted)
      (Covers-small rng.offset rng.size (pieces rng) (pieces-Covers rng)) (all_pieces-small wanted)

-- What the requests of a vector read may be: all of the elements, in their order, in requests each
-- of which has an element, has no more of them than the server takes, and asks for no more bytes.
abbrev pub Requests : List ReadRange → List (List ReadRange) → Type 0
Requests elements requests = (concat requests ≡ elements) × All (IsBatch size_of) requests

light :
    (xs : List ReadRange)
    → All (λ (p : ReadRange). p.size ≤ readv_max_element) xs
    → All (λ (p : ReadRange). p.size ≤ readv_max_bytes) xs
light [] h = tt
light (x ∷ xs) h = (omega (arith, h.0), light xs h.1)

pub batches-Requests :
    (elements : List ReadRange)
    → All (λ (p : ReadRange). p.size ≤ readv_max_element) elements
    → Requests elements (batches elements)
unfolding batches
batches-Requests elements small = (
  concat-batches_from size_of [] 0 elements,
  batches_from-IsBatch size_of [] 0 elements refl (omega arith) (omega arith)
      (light elements small),
)

-- Whatever ranges a vector read asks for: its requests carry the pieces of all ranges, in their order;
-- no piece is longer than one element may be, and no request is empty, has too many elements or asks
-- for too many bytes; and the pieces of a range follow one another and cover it.
pub readv_ceilings :
    (wanted : List ReadRange)
    → Requests (all_pieces wanted) (batches (all_pieces wanted))
      × All (λ (p : ReadRange). p.size ≤ readv_max_element) (all_pieces wanted)
      × All (λ (rng : ReadRange). Covers rng.offset rng.size (pieces rng)) wanted
readv_ceilings wanted = (
  batches-Requests (all_pieces wanted) (all_pieces-small wanted),
  all_pieces-small wanted,
  each wanted,
)
  where
    each :
        (rs : List ReadRange)
        → All (λ (rng : ReadRange). Covers rng.offset rng.size (pieces rng)) rs
    each [] = tt
    each (r ∷ rs) = (pieces-Covers r, each rs)
