-- ===== src/Client/Vector/Walks.antt =====
-- What the client reads in the replies of an honest server (client/_vector.py: `_walk`, `_as_asked`).
use xrdclient.Prelude.{
  ℕ, zero, suc, ◌^◌, ◌≤◌, ◌<◌, ◌≡◌, refl, arith, ◌&&◌, List, [], ◌∷◌, ◌++◌, none, some, ◌⊎◌, inl,
  inr, ◌==◌, pos, length, take, drop, concat, All, length-append, length-take, take-append,
  drop-append, ap, ◌∙◌, Bool-cases,
}
use xrdclient.Errors.{Bytes, ok}
use xrdclient.Wire.Words.{to_be, signed, of_be-to_be}
use xrdclient.Wire.Buffer.{fit}
use xrdclient.Client.Vector.{ReadRange, readv_max_element}
use xrdclient.Client.Vector.Reply.{
  Walk, over, yields, walk_from, then_walk, walk_all, as_asked, eq_ℤ,
}

-- The bytes of a file in a range; at its end there are fewer, or none.
abbrev pub slice : Bytes → ReadRange → Bytes
slice file rng = take rng.size (drop rng.offset file)

abbrev pub slices : Bytes → List ReadRange → List Bytes
slices file [] = []
slices file (rng ∷ rngs) = slice file rng ∷ slices file rngs

-- A segment of a reply: four bytes of handle, length, offset, bytes.
abbrev pub segment : Bytes → Bytes → ReadRange → Bytes
segment handle file rng =
    fit handle 4 ++ (to_be 4 (length (slice file rng)) ++ (to_be 8 rng.offset ++ slice file rng))

-- The reply to a request with these elements.
abbrev pub reply : Bytes → Bytes → List ReadRange → Bytes
reply handle file [] = []
reply handle file (rng ∷ rngs) = segment handle file rng ++ reply handle file rngs

abbrev pub replies : Bytes → Bytes → List (List ReadRange) → List Bytes
replies handle file [] = []
replies handle file (b ∷ bs) = reply handle file b ∷ replies handle file bs

-- An element that can be asked for.
abbrev pub Askable : ReadRange → Type 0
Askable rng = (rng.size ≤ readv_max_element) × (rng.offset < 2 ^ 63)

-- What the walk of a reply yields.
abbrev pub walk_of : Bytes → List ReadRange → Walk
walk_of file [] = over
walk_of file (rng ∷ rngs) = yields (pos rng.offset) (slice file rng) (walk_of file rngs)

pub length-slice : (file : Bytes) (rng : ReadRange) → length (slice file rng) ≤ rng.size
length-slice file rng = omega (arith, length-take rng.size (drop rng.offset file))

signed_4 : (v : ℕ) → v < 2 ^ 31 → signed 4 v ≡ pos v
unfolding signed
signed_4 v h = ground arith

signed_8 : (v : ℕ) → v < 2 ^ 63 → signed 8 v ≡ pos v
unfolding signed
signed_8 v h = ground arith

-- one segment, before whatever follows; `fuel` is what is left for that
walk_segment :
    (h0 h1 h2 h3 fuel offset : ℕ) (content more : Bytes)
    → length content < 2 ^ 31
    → offset < 2 ^ 63
    → walk_from (suc fuel) (
        (h0 ∷ h1 ∷ h2 ∷ h3 ∷ [])
        ++ (to_be 4 (length content) ++ (to_be 8 offset ++ content))
        ++ more)
      ≡ yields (pos offset) content (walk_from fuel more)
unfolding walk_from to_be
walk_segment h0 h1 h2 h3 fuel offset content more short far =
    rw
      (
        of_be-to_be 4 (length content) (omega arith),
        of_be-to_be 8 offset (omega arith),
        signed_4 (length content) short,
        signed_8 offset far,
      )
      (ground
        (arith, length-append content more, take-append content more, drop-append content more))

four_bytes :
    (handle : Bytes) → (a : ℕ) × (b : ℕ) × (c : ℕ) × (d : ℕ) × (fit handle 4 ≡ a ∷ b ∷ c ∷ d ∷ [])
four_bytes [] = (0, 0, 0, 0, refl)
four_bytes (a ∷ []) = (a, 0, 0, 0, refl)
four_bytes (a ∷ b ∷ []) = (a, b, 0, 0, refl)
four_bytes (a ∷ b ∷ c ∷ []) = (a, b, c, 0, refl)
four_bytes (a ∷ b ∷ c ∷ d ∷ rest) = (a, b, c, d, refl)

shorter :
    (a b c d : ℕ) (handle file : Bytes) (rng : ReadRange) (rngs : List ReadRange)
    → fit handle 4 ≡ a ∷ b ∷ c ∷ d ∷ []
    → length (reply handle file rngs) < length (reply handle file (rng ∷ rngs))
shorter a b c d handle file rng rngs four =
    let tail = to_be 4 (length (slice file rng)) ++ (to_be 8 rng.offset ++ slice file rng) in
    omega (
      arith,
      ap (λ (bs : Bytes). length bs) four,
      length-append (fit handle 4 ++ tail) (reply handle file rngs),
      length-append (fit handle 4) tail,
    )

stepped :
    (fuel a b c d : ℕ) (handle file : Bytes) (rng : ReadRange) (rngs : List ReadRange)
    → fit handle 4 ≡ a ∷ b ∷ c ∷ d ∷ []
    → Askable rng
    → length (reply handle file (rng ∷ rngs)) ≤ fuel
    → ((k : ℕ)
        → length (reply handle file rngs) ≤ k
        → walk_from k (reply handle file rngs) ≡ walk_of file rngs)
    → walk_from fuel (reply handle file (rng ∷ rngs)) ≡ walk_of file (rng ∷ rngs)
stepped zero a b c d handle file rng rngs four ask enough again =
    absurd (omega (arith, shorter a b c d handle file rng rngs four))
stepped (suc fuel) a b c d handle file rng rngs four ask enough again =
    let content = slice file rng in
    let more = reply handle file rngs in
    rw four (
      walk_segment a b c d fuel rng.offset content more
        (omega (arith, length-slice file rng, ask.0)) ask.1
      ∙ ap (yields (pos rng.offset) content)
          (again fuel (omega (arith, shorter a b c d handle file rng rngs four))))

walk_reply :
    (fuel : ℕ) (handle file : Bytes) (rngs : List ReadRange)
    → All Askable rngs
    → length (reply handle file rngs) ≤ fuel
    → walk_from fuel (reply handle file rngs) ≡ walk_of file rngs
unfolding walk_from
walk_reply fuel handle file [] askable enough = refl
walk_reply fuel handle file (rng ∷ rngs) askable enough =
    let (a, b, c, d, four) = four_bytes handle in
    let content = slice file rng in
    let more = reply handle file rngs in
    stepped fuel a b c d handle file rng rngs four askable.0 enough
      (λ k h. walk_reply k handle file rngs askable.1 h)

then_walk-walk_of :
    (file : Bytes) (xs ys : List ReadRange)
    → then_walk (walk_of file xs) (walk_of file ys) ≡ walk_of file (xs ++ ys)
unfolding then_walk
then_walk-walk_of file [] ys = refl
then_walk-walk_of file (x ∷ xs) ys =
    ap (yields (pos x.offset) (slice file x)) (then_walk-walk_of file xs ys)

-- The replies to any number of requests, read one after the other.
pub walk_all-replies :
    (handle file : Bytes) (requests : List (List ReadRange))
    → All (All Askable) requests
    → walk_all (replies handle file requests) ≡ walk_of file (concat requests)
unfolding walk_all
walk_all-replies handle file [] askable = refl
walk_all-replies handle file (b ∷ bs) askable =
    rw
      (
        walk_reply (length (reply handle file b)) handle file b askable.0 (omega arith),
        walk_all-replies handle file bs askable.1,
      )
      (then_walk-walk_of file b (concat bs))

as_asked-step :
    (file : Bytes) (w : Walk) (rng : ReadRange) (wanted : List ReadRange)
    → (as_asked w wanted ≡ ok none) ⊎ (as_asked w wanted ≡ ok (some (slices file wanted)))
    → (as_asked (yields (pos rng.offset) (slice file rng) w) (rng ∷ wanted) ≡ ok none)
      ⊎ (as_asked (yields (pos rng.offset) (slice file rng) w) (rng ∷ wanted)
          ≡ ok (some (slices file (rng ∷ wanted))))
unfolding as_asked
as_asked-step file w rng wanted tail =
    elim (Bool-cases
      (eq_ℤ (pos rng.offset) (pos rng.offset) && (length (slice file rng) == rng.size))) [
        | inl same ↦ elim tail [ inl e ↦ inl (rw (same, e) refl) | inr e ↦ inr (rw (same, e) refl) ]
        | inr short ↦ inl (rw short refl)
      ]

-- The quick way finds the bytes that were asked for, or leaves it to the other way.
pub as_asked-walk_of :
    (file : Bytes) (wanted : List ReadRange)
    → (as_asked (walk_of file wanted) wanted ≡ ok none)
      ⊎ (as_asked (walk_of file wanted) wanted ≡ ok (some (slices file wanted)))
unfolding as_asked
as_asked-walk_of file [] = inr refl
as_asked-walk_of file (rng ∷ wanted) =
    as_asked-step file (walk_of file wanted) rng wanted (as_asked-walk_of file wanted)
