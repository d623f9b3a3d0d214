-- ===== src/Session/Text.antt =====
-- What session/_rewrite.py uses of Python's `str`, on the bytes of a text: `split`, `join` and
-- `partition` at one character, `==` and `in`.
pub mod Laws
use xrdclient.Prelude.{ℕ, Bool, true, false, ◌||◌, List, [], ◌∷◌, ◌++◌, ◌==◌, if◌then◌else◌, truthy}
use xrdclient.Errors.{Bytes}
use xrdclient.Session.Pool.{same_text}

abbrev pub grow : ℕ → List Bytes → List Bytes
grow b [] = (b ∷ []) ∷ []
grow b (p ∷ ps) = (b ∷ p) ∷ ps

-- text.split(c)
abbrev pub split : ℕ → Bytes → List Bytes
split c [] = [] ∷ []
split c (b ∷ bs) = let rest = split c bs in if b == c then [] ∷ rest else grow b rest

-- c.join(parts)
abbrev pub join : ℕ → List Bytes → Bytes
join c [] = []
join c (p ∷ []) = p
join c (p ∷ (q ∷ ps)) = p ++ (c ∷ join c (q ∷ ps))

-- text.partition(c): what stands before it, whether it was found, and what stands behind it
abbrev pub partition : ℕ → Bytes → Bytes × Bool × Bytes
partition c [] = ([], false, [])
partition c (b ∷ bs) =
    let (before, found, behind) = partition c bs in
    if b == c then ([], true, bs) else (b ∷ before, found, behind)

-- filter(None, texts)
abbrev pub filled : List Bytes → List Bytes
filled [] = []
filled (t ∷ ts) = let rest = filled ts in if truthy t then t ∷ rest else rest

-- text in texts
abbrev pub among : Bytes → List Bytes → Bool
among t [] = false
among t (u ∷ us) = same_text u t || among t us
