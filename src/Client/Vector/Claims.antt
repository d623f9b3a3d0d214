-- ===== src/Client/Vector/Claims.antt =====
-- Segments that are filed by offset and claimed in the order of the request (client/_vector.py:
-- `_by_offset`, `_segment_for`), also where ranges start at the same offset.
use xrdclient.Prelude.{
  ℕ, ◌≡◌, refl, arith, false, List, [], ◌∷◌, ◌++◌, Option, none, some, ◌⊎◌, inl, inr, ◌==◌,
  if◌then◌else◌, pos, append_assoc, append-nil, ◌∙◌, sym, Bool-cases, subst, ==_iff,
}
use xrdclient.Errors.{Bytes, ok}
use xrdclient.Client.Vector.{ReadRange}
use xrdclient.Client.Vector.Reply.{
  Answers, answers_at, file_under, put_answers, filed, by_offset, claim, segment_for, segments_for,
}
use xrdclient.Client.Vector.Walks.{slice, slices, walk_of, length-slice}

-- The segments of these elements that start at an offset, in their order.
abbrev pub slices_at : ℕ → Bytes → List ReadRange → List Bytes
slices_at o file [] = []
slices_at o file (p ∷ ps) =
    let rest = slices_at o file ps in if p.offset == o then slice file p ∷ rest else rest

abbrev or_none : Option (List Bytes) → List Bytes
or_none none = []
or_none (some xs) = xs

-- What is filed under an offset.
abbrev pub filed_at : ℕ → Answers → List Bytes
filed_at o d = or_none (answers_at (pos o) d)

-- Whatever is still to be claimed is filed, in the order in which it will be.
abbrev pub Holds : Answers → Bytes → List ReadRange → Type 0
Holds d file ps = (o : ℕ) → (slices_at o file ps ≡ []) ⊎ (filed_at o d ≡ slices_at o file ps)

filed_at-file_under :
    (o k : ℕ) (x : Bytes) (d : Answers)
    → filed_at o (file_under (pos k) x d)
      ≡ (if k == o then filed_at o d ++ (x ∷ []) else filed_at o d)
unfolding answers_at file_under
filed_at-file_under o k x [] = ground arith
filed_at-file_under o k x ((j, xs) ∷ d) = ground (arith, filed_at-file_under o k x d)

filed_at-put_answers :
    (o k : ℕ) (x y : Bytes) (xs ys : List Bytes) (d : Answers)
    → answers_at (pos k) d ≡ some xs
    → filed_at o (put_answers (pos k) ys d) ≡ (if k == o then ys else filed_at o d)
unfolding answers_at put_answers
filed_at-put_answers o k x y xs ys [] e = ground arith
filed_at-put_answers o k x y xs ys ((j, zs) ∷ d) e =
    ground (arith, filed_at-put_answers o k x y xs ys d)

filed-walk_of :
    (file : Bytes) (ps : List ReadRange) (d : Answers)
    → (d' : Answers) × (filed (walk_of file ps) d ≡ ok d')
      × ((o : ℕ) → filed_at o d' ≡ filed_at o d ++ slices_at o file ps)
unfolding filed
filed-walk_of file [] d = (d, refl, λ o. sym (append-nil (filed_at o d)))
filed-walk_of file (p ∷ ps) d =
    let d1 = file_under (pos p.offset) (slice file p) d in
    let (d', e, at) = filed-walk_of file ps d1 in
    (
      d',
      e,
      λ o. ground (
        arith,
        at o,
        filed_at-file_under o p.offset (slice file p) d,
        append_assoc (filed_at o d) (slice file p ∷ []) (slices_at o file ps),
      ),
    )

-- All segments of a reply are there to be claimed.
pub by_offset-Holds :
    (file : Bytes) (ps : List ReadRange)
    → (d : Answers) × (by_offset (walk_of file ps) ≡ ok d) × Holds d file ps
unfolding by_offset answers_at
by_offset-Holds file ps = let (d, e, at) = filed-walk_of file ps [] in (d, e, λ o. inr (at o))

-- What is left to be claimed when p's own segment has been.
Holds-tail :
    (d d' : Answers) (file : Bytes) (p : ReadRange) (ps : List ReadRange)
    → Holds d file (p ∷ ps)
    → ((o : ℕ) → (p.offset == o) ≡ false → filed_at o d' ≡ filed_at o d)
    → (slices_at p.offset file ps ≡ []) ⊎ (filed_at p.offset d' ≡ slices_at p.offset file ps)
    → Holds d' file ps
Holds-tail d d' file p ps holds other own o = elim (Bool-cases (p.offset == o)) [
  | inl same ↦
      let e : p.offset ≡ o = (==_iff p.offset o).0 same in
      subst (λ (k : ℕ). (slices_at k file ps ≡ []) ⊎ (filed_at k d' ≡ slices_at k file ps)) e own
  | inr apart ↦ elim (holds o) [
    | inl nothing ↦ inl (rw apart at nothing)
    | inr there ↦ inr (other o apart ∙ rw apart at there)
  ]
]

-- The first of some segments is claimed; the last one stays.
claimed :
    (file : Bytes) (p : ReadRange) (ps : List ReadRange) (d : Answers) (a : Option (List Bytes))
    → answers_at (pos p.offset) d ≡ a
    → or_none a ≡ slice file p ∷ slices_at p.offset file ps
    → Holds d file (p ∷ ps)
    → (d' : Answers) × (claim p a d ≡ ok (slice file p, d')) × Holds d' file ps
unfolding put_answers
claimed file p ps d none e h holds = absurd (cc)
claimed file p ps d (some []) e h holds = absurd (cc)
claimed file p ps d (some (x ∷ [])) e h holds = (
  d,
  ground (arith, length-slice file p),
  Holds-tail d d file p ps holds (λ o _. refl) (inl (ground arith)),
)
claimed file p ps d (some (x ∷ (y ∷ more))) e h holds =
    let d' = put_answers (pos p.offset) (y ∷ more) d in
    (
      d',
      ground (arith, length-slice file p),
      Holds-tail d d' file p ps holds
          (λ o apart.
            ground (arith, filed_at-put_answers o p.offset x y (x ∷ (y ∷ more)) (y ∷ more) d e))
          (inr (
            ground
              (arith, filed_at-put_answers p.offset p.offset x y (x ∷ (y ∷ more)) (y ∷ more) d e))),
    )

segment_for-Holds :
    (file : Bytes) (p : ReadRange) (ps : List ReadRange) (d : Answers)
    → Holds d file (p ∷ ps)
    → (d' : Answers) × (segment_for p d ≡ ok (slice file p, d')) × Holds d' file ps
unfolding segment_for
segment_for-Holds file p ps d holds =
    claimed file p ps d (answers_at (pos p.offset) d) refl (ground (arith, holds p.offset)) holds

-- One claim after the other gets the segments of its elements, and leaves the others.
pub segments_for-Holds :
    (file : Bytes) (ps qs : List ReadRange) (d : Answers)
    → Holds d file (ps ++ qs)
    → (d' : Answers) × (segments_for ps d ≡ ok (slices file ps, d')) × Holds d' file qs
unfolding segments_for
segments_for-Holds file [] qs d holds = (d, refl, holds)
segments_for-Holds file (p ∷ ps) qs d holds =
    let (d1, e1, holds1) = segment_for-Holds file p (ps ++ qs) d holds in
    let (d2, e2, holds2) = segments_for-Holds file ps qs d1 holds1 in (d2, rw (e1, e2) refl, holds2)
