-- ===== src/Session/Text/Laws.antt =====
-- The laws of `split`, `join` and `partition`.
use xrdclient.Prelude.{
  ℕ, ◌≡◌, refl, ap, ◌∙◌, arith, true, false, ◌||◌, List, [], ◌∷◌, ◌++◌, ◌==◌, truthy, mem, All,
  Bool-cases, inl, inr,
}
use xrdclient.Errors.{Bytes}
use xrdclient.Session.Pool.{same_text}
use xrdclient.Session.Text.{grow, split, join, partition, filled, among}

-- A text without a character, and one that is not empty.
abbrev pub Lacks : ℕ → Bytes → Type 0
Lacks c t = mem c t ≡ false

abbrev pub IsFilled : Bytes → Type 0
IsFilled t = truthy t ≡ true

pub mem-append : (c : ℕ) (xs ys : Bytes) → mem c (xs ++ ys) ≡ (mem c xs || mem c ys)
mem-append c [] ys = refl
mem-append c (x ∷ xs) ys = ground (arith, mem-append c xs ys)

split-Lacks : (c : ℕ) (p : Bytes) → Lacks c p → split c p ≡ p ∷ []
split-Lacks c [] h = refl
split-Lacks c (b ∷ p) h =
    let other : (b == c) ≡ false = ground (arith, h) in
    rw (other, split-Lacks c p (ground (arith, h))) refl

split-append : (c : ℕ) (p rest : Bytes) → Lacks c p → split c (p ++ (c ∷ rest)) ≡ p ∷ split c rest
split-append c [] rest h = let same : (c == c) ≡ true = ground arith in rw same refl
split-append c (b ∷ p) rest h =
    let other : (b == c) ≡ false = ground (arith, h) in
    rw (other, split-append c p rest (ground (arith, h))) refl

split-truthy : (c : ℕ) (t : Bytes) → truthy (split c t) ≡ true
split-truthy c [] = refl
split-truthy c (b ∷ t) = elim (Bool-cases (b == c)) [
  | inl e ↦ rw e refl
  | inr e ↦ rw e (grown (split c t))
]
  where
    grown : (ps : List Bytes) → truthy (grow b ps) ≡ true
    grown [] = refl
    grown (p ∷ ps) = refl

grow-append : (b : ℕ) (ps qs : List Bytes) → truthy ps ≡ true → grow b (ps ++ qs) ≡ grow b ps ++ qs
grow-append b [] qs h = ground (arith, h)
grow-append b (p ∷ ps) qs h = refl

-- A separator ends the parts of what stands before it, whatever they are.
pub split-split : (c : ℕ) (t rest : Bytes) → split c (t ++ (c ∷ rest)) ≡ split c t ++ split c rest
split-split c [] rest = let same : (c == c) ≡ true = ground arith in rw same refl
split-split c (b ∷ t) rest = elim (Bool-cases (b == c)) [
  | inl e ↦ rw (e, split-split c t rest) refl
  | inr e ↦
      rw (e, split-split c t rest) (grow-append b (split c t) (split c rest) (split-truthy c t))
]

-- Parts without the separator come back.
pub split-join :
    (c : ℕ) (p : Bytes) (ps : List Bytes)
    → All (Lacks c) (p ∷ ps)
    → split c (join c (p ∷ ps)) ≡ p ∷ ps
split-join c p [] h = split-Lacks c p h.0
split-join c p (q ∷ ps) h =
    split-append c p (join c (q ∷ ps)) h.0
    ∙ ap (λ (qs : List Bytes). p ∷ qs) (split-join c q ps h.1)

pub split-join_filled :
    (c : ℕ) (ps : List Bytes) (p : Bytes) (qs : List Bytes)
    → All (Lacks c) (ps ++ (p ∷ qs))
    → split c (join c (ps ++ (p ∷ qs))) ≡ ps ++ (p ∷ qs)
split-join_filled c [] p qs h = split-join c p qs h
split-join_filled c (q ∷ ps) p qs h = split-join c q (ps ++ (p ∷ qs)) h

grow-All :
    (c b : ℕ) (ps : List Bytes) → (b == c) ≡ false → All (Lacks c) ps → All (Lacks c) (grow b ps)
grow-All c b [] other h = (rw other refl, tt)
grow-All c b (p ∷ ps) other h = (rw other h.0, h.1)

-- The parts lack the separator, and what the text lacks.
pub split-All : (c : ℕ) (t : Bytes) → All (Lacks c) (split c t)
split-All c [] = (refl, tt)
split-All c (b ∷ t) = elim (Bool-cases (b == c)) [
  | inl e ↦ rw e (refl, split-All c t)
  | inr e ↦ rw e (grow-All c b (split c t) e (split-All c t))
]

pub split-All_other : (c d : ℕ) (t : Bytes) → Lacks d t → All (Lacks d) (split c t)
split-All_other c d [] h = (refl, tt)
split-All_other c d (b ∷ t) h =
    let rest = split-All_other c d t (ground (arith, h)) in
    elim (Bool-cases (b == c)) [
      | inl e ↦ rw e (refl, rest)
      | inr e ↦ rw e (grow-All d b (split c t) (ground (arith, h)) rest)
    ]

pub join-Lacks :
    (c d : ℕ) (ps : List Bytes) → (c == d) ≡ false → All (Lacks d) ps → Lacks d (join c ps)
join-Lacks c d [] other h = refl
join-Lacks c d (p ∷ []) other h = h.0
join-Lacks c d (p ∷ (q ∷ ps)) other h =
    mem-append d p (c ∷ join c (q ∷ ps)) ∙ rw (h.0, other) (join-Lacks c d (q ∷ ps) other h.1)

pub partition-append :
    (c : ℕ) (p rest : Bytes) → Lacks c p → partition c (p ++ (c ∷ rest)) ≡ (p, true, rest)
partition-append c [] rest h = let same : (c == c) ≡ true = ground arith in rw same refl
partition-append c (b ∷ p) rest h =
    let other : (b == c) ≡ false = ground (arith, h) in
    rw (other, partition-append c p rest (ground (arith, h))) refl

pub partition-Lacks : (c : ℕ) (t : Bytes) → Lacks c (partition c t).0
partition-Lacks c [] = refl
partition-Lacks c (b ∷ t) = elim (Bool-cases (b == c)) [
  | inl e ↦ rw e refl
  | inr e ↦ rw e (rw e (partition-Lacks c t))
]

pub partition-lacking : (c : ℕ) (t : Bytes) → Lacks c t → partition c t ≡ (t, false, [])
partition-lacking c [] h = refl
partition-lacking c (b ∷ t) h =
    let other : (b == c) ≡ false = ground (arith, h) in
    rw (other, partition-lacking c t (ground (arith, h))) refl

pub partition-found :
    (c : ℕ) (t rest : Bytes)
    → mem c t ≡ true
    → ((partition c t).1 ≡ true)
      × (partition c (t ++ rest) ≡ ((partition c t).0, true, (partition c t).2 ++ rest))
partition-found c [] rest h = ground (arith, h)
partition-found c (b ∷ t) rest h = elim (Bool-cases (b == c)) [
  | inl e ↦ rw e (refl, refl)
  | inr e ↦
      let found = partition-found c t rest (ground (arith, h, e)) in rw e (found.0, rw found.1 refl)
]

pub partition-behind : (c d : ℕ) (t : Bytes) → Lacks d t → Lacks d (partition c t).2
partition-behind c d [] h = refl
partition-behind c d (b ∷ t) h = elim (Bool-cases (b == c)) [
  | inl e ↦ rw e (ground (arith, h))
  | inr e ↦ rw e (partition-behind c d t (ground (arith, h)))
]

pub All-both :
    {P Q R : Bytes → Type 0} (f : (t : Bytes) → P t → Q t → R t) (ts : List Bytes)
    → All P ts
    → All Q ts
    → All R ts
All-both f [] h k = tt
All-both f (t ∷ ts) h k = (f t h.0 k.0, All-both f ts h.1 k.1)

pub All-map :
    {P Q : Bytes → Type 0} (f : (t : Bytes) → P t → Q t) (ts : List Bytes) → All P ts → All Q ts
All-map f [] h = tt
All-map f (t ∷ ts) h = (f t h.0, All-map f ts h.1)

pub filled-All : (P : Bytes → Type 0) (ts : List Bytes) → All P ts → All P (filled ts)
filled-All P [] h = tt
filled-All P ([] ∷ ts) h = filled-All P ts h.1
filled-All P ((b ∷ t) ∷ ts) h = (h.0, filled-All P ts h.1)

pub filled-IsFilled : (ts : List Bytes) → All IsFilled (filled ts)
filled-IsFilled [] = tt
filled-IsFilled ([] ∷ ts) = filled-IsFilled ts
filled-IsFilled ((b ∷ t) ∷ ts) = (refl, filled-IsFilled ts)

-- Nothing is filtered out where nothing is empty.
pub filled_all : (ts : List Bytes) → All IsFilled ts → filled ts ≡ ts
filled_all [] h = refl
filled_all (t ∷ ts) h = rw (h.0, filled_all ts h.1) refl

pub among-append :
    (t : Bytes) (us vs : List Bytes) → among t (us ++ vs) ≡ (among t us || among t vs)
among-append t [] vs = refl
among-append t (u ∷ us) vs = ground (arith, among-append t us vs)

pub same_text_refl : (t : Bytes) → same_text t t ≡ true
unfolding same_text
same_text_refl [] = refl
same_text_refl (b ∷ t) = ground (arith, same_text_refl t)

pub same_text_sym : (t u : Bytes) → same_text t u ≡ same_text u t
unfolding same_text
same_text_sym [] [] = refl
same_text_sym [] (c ∷ u) = refl
same_text_sym (b ∷ t) [] = refl
same_text_sym (b ∷ t) (c ∷ u) = ground (arith, same_text_sym t u)
