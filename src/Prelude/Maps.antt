-- ===== src/Prelude/Maps.antt =====
-- Python's `dict` and `set` with integer keys. A dict keeps the order of insertion, which a loop
-- over it follows; a new value for an old key keeps the key's place.
use xrdclient.Prelude.Tests.{◌==◌, if◌then◌else◌}
use Prim.Native.Nat.{ℕ}
use mathlib.Core.Path.{◌≡◌, refl}
use mathlib.Core.Bool.{Bool, true, false, ◌||◌}
use mathlib.Core.List.{List, [], ◌∷◌}
use mathlib.Core.Option.{Option, none, some}
use native.Mathlib.Omega.{arith}

abbrev pub Dict {ℓ} : Type ℓ → Type ℓ
Dict V = List (ℕ × V)

module _ {ℓ} {V : Type ℓ} where
  -- d.get(k)
  abbrev pub lookup : ℕ → Dict V → Option V
  lookup k [] = none
  lookup k ((j, v) ∷ d) = if j == k then some v else lookup k d

  -- d[k] = v
  abbrev pub put : ℕ → V → Dict V → Dict V
  put k v [] = (k, v) ∷ []
  put k v ((j, w) ∷ d) = if j == k then (k, v) ∷ d else (j, w) ∷ put k v d

  -- what d.pop(k, None) leaves
  abbrev pub without : ℕ → Dict V → Dict V
  without k [] = []
  without k ((j, v) ∷ d) = let rest = without k d in if j == k then rest else (j, v) ∷ rest

  abbrev pub keys : Dict V → List ℕ
  keys [] = []
  keys ((j, v) ∷ d) = j ∷ keys d

-- `x in s` for a list or a set
abbrev pub mem : ℕ → List ℕ → Bool
mem x [] = false
mem x (y ∷ ys) = (y == x) || mem x ys

-- s.add(x)
abbrev pub add : ℕ → List ℕ → List ℕ
add x s = if mem x s then s else x ∷ s

-- s.discard(x)
abbrev pub discard : ℕ → List ℕ → List ℕ
discard x [] = []
discard x (y ∷ ys) = let rest = discard x ys in if y == x then rest else y ∷ rest

module _ {ℓ} {V : Type ℓ} where
  pub lookup-put :
      (k j : ℕ) (v : V) (d : Dict V)
      → lookup j (put k v d) ≡ (if k == j then some v else lookup j d)
  lookup-put k j v [] = refl
  lookup-put k j v ((i, w) ∷ d) = ground (arith, lookup-put k j v d)

  pub lookup-without :
      (k j : ℕ) (d : Dict V) → lookup j (without k d) ≡ (if k == j then none else lookup j d)
  lookup-without k j [] = ground arith
  lookup-without k j ((i, w) ∷ d) = ground (arith, lookup-without k j d)

  pub mem-keys-put :
      (k j : ℕ) (v : V) (d : Dict V) → mem j (keys (put k v d)) ≡ ((k == j) || mem j (keys d))
  mem-keys-put k j v [] = refl
  mem-keys-put k j v ((i, w) ∷ d) = ground (arith, mem-keys-put k j v d)

  pub mem-keys-without :
      (k j : ℕ) (d : Dict V)
      → mem j (keys (without k d)) ≡ (if k == j then false else mem j (keys d))
  mem-keys-without k j [] = ground arith
  mem-keys-without k j ((i, w) ∷ d) = ground (arith, mem-keys-without k j d)

  pub mem-keys-lookup : (k : ℕ) (d : Dict V) (v : V) → lookup k d ≡ some v → mem k (keys d) ≡ true
  mem-keys-lookup k [] v h = ground arith
  mem-keys-lookup k ((i, w) ∷ d) v h = ground (arith, mem-keys-lookup k d v)

pub mem-add : (x y : ℕ) (s : List ℕ) → mem y (add x s) ≡ ((x == y) || mem y s)
mem-add x y s = ground arith

pub mem-discard : (x y : ℕ) (s : List ℕ) → mem y (discard x s) ≡ (if x == y then false else mem y s)
mem-discard x y [] = ground arith
mem-discard x y (z ∷ s) = ground (arith, mem-discard x y s)
