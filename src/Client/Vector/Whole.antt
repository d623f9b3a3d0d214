-- ===== src/Client/Vector/Whole.antt =====
-- A vector read as a whole (client/_reading.py: `readv`), on a server that answers honestly.
use xrdclient.Prelude.{
  ℕ, ◌+◌, ◌-◌, ◌^◌, ◌≤◌, ◌<◌, ◌≡◌, refl, arith, true, List, [], ◌∷◌, ◌++◌, none, inl, inr, take,
  drop, concat, All, All-append, append-nil, take_add, drop-drop, subst, sym, ap, ◌∙◌, Bool-cases,
}
use xrdclient.Errors.{Bytes, ok}
use xrdclient.Client.Vector.{ReadRange, readv_max_element, pieces, all_pieces, batches}
use xrdclient.Client.Vector.Reply.{Answers, walk_all, assembled, joined}
use xrdclient.Client.Vector.Read.{Fetch, are_elements, or_by_offset, readv_elements, readv}
use xrdclient.Client.Vector.Ceilings.{Covers, pieces-Covers, batches-Requests}
use xrdclient.Client.Vector.Walks.{
  slices, replies, Askable, walk_of, walk_all-replies, as_asked-walk_of,
}
use xrdclient.Client.Vector.Claims.{Holds, by_offset-Holds, segments_for-Holds}

-- A range whose offsets the protocol's 64-bit fields hold.
abbrev pub Reachable : ReadRange → Type 0
Reachable rng = rng.offset + rng.size < 2 ^ 63

joined-slices :
    (file : Bytes) (offset n : ℕ) (ps : List ReadRange)
    → Covers offset n ps
    → joined (slices file ps) ≡ take n (drop offset file)
joined-slices file offset n [] c = rw c refl
joined-slices file offset n (p ∷ ps) c =
    let whole : p.size + (n - p.size) ≡ n = omega (arith, c.1) in
    rw
      (
        joined-slices file (offset + p.size) (n - p.size) ps c.3,
        c.0,
        ← drop-drop offset p.size file,
      )
      (sym (take_add p.size (n - p.size) (drop offset file))
        ∙ ap (λ (k : ℕ). take k (drop offset file)) whole)

Covers-Askable :
    (offset n : ℕ) (ps : List ReadRange) → offset + n < 2 ^ 63 → Covers offset n ps → All Askable ps
Covers-Askable offset n [] far c = tt
Covers-Askable offset n (p ∷ ps) far c = (
  (c.2, omega (arith, c.0, far)),
  Covers-Askable (offset + p.size) (n - p.size) ps (omega (arith, c.1, far)) c.3,
)

all_pieces-Askable :
    (wanted : List ReadRange) → All Reachable wanted → All Askable (all_pieces wanted)
unfolding all_pieces
all_pieces-Askable [] far = tt
all_pieces-Askable (rng ∷ wanted) far =
    All-append Askable (pieces rng) (all_pieces wanted)
      (Covers-Askable rng.offset rng.size (pieces rng) far.0 (pieces-Covers rng))
      (all_pieces-Askable wanted far.1)

are_elements-Askable :
    (wanted : List ReadRange)
    → are_elements wanted ≡ true
    → All Reachable wanted
    → All Askable wanted
are_elements-Askable [] e far = tt
are_elements-Askable (rng ∷ wanted) e far = (
  (ground (arith, e), omega (arith, far.0)),
  are_elements-Askable wanted (ground (arith, e)) far.1,
)

All-parts : {A : Type 0} (P : A → Type 0) (xs ys : List A) → All P (xs ++ ys) → All P xs × All P ys
All-parts P [] ys h = (tt, h)
All-parts P (x ∷ xs) ys h = let (a, b) = All-parts P xs ys h.1 in ((h.0, a), b)

All-concat :
    {A : Type 0} (P : A → Type 0) (xss : List (List A)) → All P (concat xss) → All (All P) xss
All-concat P [] h = tt
All-concat P (xs ∷ xss) h = let (a, b) = All-parts P xs (concat xss) h in (a, All-concat P xss b)

-- What the client reads in the replies to the requests for some elements.
batches-walk :
    (handle file : Bytes) (elements : List ReadRange)
    → All Askable elements
    → walk_all (replies handle file (batches elements)) ≡ walk_of file elements
batches-walk handle file elements askable =
    let (all, _) = batches-Requests elements (small elements askable) in
    walk_all-replies handle file (batches elements) (
      All-concat Askable (batches elements)
        (subst (λ (ps : List ReadRange). All Askable ps) (sym all) askable))
    ∙ ap (walk_of file) all
  where
    small :
        (ps : List ReadRange)
        → All Askable ps
        → All (λ (p : ReadRange). p.size ≤ readv_max_element) ps
    small [] h = tt
    small (p ∷ ps) h = (h.0.0, small ps h.1)

assembled-Holds :
    (file : Bytes) (wanted : List ReadRange) (d : Answers)
    → Holds d file (all_pieces wanted)
    → assembled wanted d ≡ ok (slices file wanted)
unfolding assembled all_pieces
assembled-Holds file [] d holds = refl
assembled-Holds file (rng ∷ wanted) d holds =
    let (d', e, holds') = segments_for-Holds file (pieces rng) (all_pieces wanted) d holds in
    rw
      (
        e,
        assembled-Holds file wanted d' holds',
        joined-slices file rng.offset rng.size (pieces rng) (pieces-Covers rng),
      )
      refl

or_by_offset-Holds :
    (handle file : Bytes) (wanted : List ReadRange)
    → All Askable wanted
    → or_by_offset none (replies handle file (batches wanted)) wanted ≡ ok (slices file wanted)
or_by_offset-Holds handle file wanted askable =
    let (d, filed, holds) = by_offset-Holds file wanted in
    let (d', e, _) =
      segments_for-Holds file wanted [] d
        (subst (λ (ps : List ReadRange). Holds d file ps) (sym (append-nil wanted)) holds) in
    rw (batches-walk handle file wanted askable, filed, e) refl

-- A server that holds a file answers each element of a request with the bytes that it has there.
abbrev pub honest : Bytes → Bytes → Fetch
honest handle file requests = ok (replies handle file requests)

readv_elements-honest :
    (handle file : Bytes) (wanted : List ReadRange)
    → All Askable wanted
    → readv_elements (honest handle file) wanted ≡ ok (slices file wanted)
unfolding readv_elements
readv_elements-honest handle file wanted askable = elim (as_asked-walk_of file wanted) [
  | inl no_way ↦
      rw (batches-walk handle file wanted askable, no_way)
        (or_by_offset-Holds handle file wanted askable)
  | inr quick ↦ rw (batches-walk handle file wanted askable, quick) refl
]

-- Where the ranges end below 2 ^ 63, a vector read of a file that the server answers honestly returns
-- for each range, in the order asked for, the bytes that the file has there, fewer at its end: however
-- many ranges there are, wherever they overlap or start at the same offset, and also where ranges are
-- too long for one element and are cut and joined again.
pub readv-honest :
    (handle file : Bytes) (wanted : List ReadRange)
    → All Reachable wanted
    → readv (honest handle file) wanted ≡ ok (slices file wanted)
unfolding readv
readv-honest handle file [] far = refl
readv-honest handle file (rng ∷ wanted) far = elim (Bool-cases (are_elements (rng ∷ wanted))) [
  | inl each ↦ rw each (
      readv_elements-honest handle file (rng ∷ wanted)
        (are_elements-Askable (rng ∷ wanted) each far))
  | inr long ↦
      let ps = all_pieces (rng ∷ wanted) in
      let (d, filed, holds) = by_offset-Holds file ps in
      rw (long, batches-walk handle file ps (all_pieces-Askable (rng ∷ wanted) far), filed)
        (assembled-Holds file (rng ∷ wanted) d holds)
]
