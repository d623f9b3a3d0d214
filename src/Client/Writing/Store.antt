-- ===== src/Client/Writing/Store.antt =====
-- The bytes of a file on a server, by their offsets, and what a write changes.
use xrdclient.Prelude.{
  ℕ, zero, suc, ◌+◌, ◌-◌, ◌≤◌, ◌<◌, ◌≡◌, refl, ap, ◌∙◌, arith, true, false, [], ◌∷◌, ◌++◌, ltb,
  if◌then◌else◌, length, take, drop, Bool-cases, inl, inr,
}
use xrdclient.Errors.{Bytes}

abbrev pub Store : Type 0
Store = ℕ → ℕ

-- The byte at an index, or what was there.
abbrev pub byte_or : ℕ → Bytes → ℕ → ℕ
byte_or old [] n = old
byte_or old (b ∷ bytes) zero = b
byte_or old (b ∷ bytes) (suc n) = byte_or old bytes n

-- A store after a write.
abbrev pub put_at : ℕ → Bytes → Store → Store
put_at offset bytes s i = if ltb i offset then s i else byte_or (s i) bytes (i - offset)

byte_or-beyond : (old : ℕ) (bytes : Bytes) (n : ℕ) → length bytes ≤ n → byte_or old bytes n ≡ old
byte_or-beyond old [] n h = refl
byte_or-beyond old (b ∷ bytes) zero h = absurd (omega (arith, h))
byte_or-beyond old (b ∷ bytes) (suc n) h = byte_or-beyond old bytes n (omega (arith, h))

byte_or-within :
    (old other : ℕ) (bytes : Bytes) (n : ℕ)
    → n < length bytes
    → byte_or old bytes n ≡ byte_or other bytes n
byte_or-within old other [] n h = absurd (omega (arith, h))
byte_or-within old other (b ∷ bytes) zero h = refl
byte_or-within old other (b ∷ bytes) (suc n) h = byte_or-within old other bytes n (omega (arith, h))

byte_or-take :
    (old k : ℕ) (bytes : Bytes) (n : ℕ) → n < k → byte_or old (take k bytes) n ≡ byte_or old bytes n
byte_or-take old zero bytes n h = absurd (omega (arith, h))
byte_or-take old (suc k) [] n h = refl
byte_or-take old (suc k) (b ∷ bytes) zero h = refl
byte_or-take old (suc k) (b ∷ bytes) (suc n) h = byte_or-take old k bytes n (omega (arith, h))

byte_or-drop :
    (old m : ℕ) (bytes : Bytes) (n : ℕ) → byte_or old (drop m bytes) n ≡ byte_or old bytes (m + n)
byte_or-drop old zero bytes n = ap (byte_or old bytes) (omega arith)
byte_or-drop old (suc m) [] n = refl
byte_or-drop old (suc m) (b ∷ bytes) n =
    byte_or-drop old m bytes n
    ∙ ap (byte_or old (b ∷ bytes)) (let e : suc (m + n) ≡ suc m + n = omega arith in e)

-- Outside of what is written nothing changes, and inside it does not matter what was there.
pub put_at-behind :
    (offset : ℕ) (bytes : Bytes) (s : Store) (i : ℕ)
    → offset + length bytes ≤ i
    → put_at offset bytes s i ≡ s i
put_at-behind offset bytes s i above =
    let e : ltb i offset ≡ false = ground (arith, above) in
    rw e (byte_or-beyond (s i) bytes (i - offset) (omega (arith, above)))

pub put_at-nil : (offset : ℕ) (s : Store) (i : ℕ) → put_at offset [] s i ≡ s i
put_at-nil offset s i = elim (Bool-cases (ltb i offset)) [ inl e ↦ rw e refl | inr e ↦ rw e refl ]

pub put_at-before :
    (offset : ℕ) (bytes : Bytes) (s : Store) (i : ℕ) → i < offset → put_at offset bytes s i ≡ s i
put_at-before offset bytes s i h = let e : ltb i offset ≡ true = ground (arith, h) in rw e refl

pub put_at-inside :
    (offset : ℕ) (bytes : Bytes) (s t : Store) (i : ℕ)
    → offset ≤ i
    → i < offset + length bytes
    → put_at offset bytes s i ≡ put_at offset bytes t i
put_at-inside offset bytes s t i h k =
    let e : ltb i offset ≡ false = ground (arith, h) in
    rw e (byte_or-within (s i) (t i) bytes (i - offset) (omega (arith, h, k)))

-- Where a write agrees with a store it need not see what else the store has.
pub put_at-agree :
    (offset : ℕ) (bytes : Bytes) (s t : Store) (i : ℕ)
    → s i ≡ t i
    → put_at offset bytes s i ≡ put_at offset bytes t i
put_at-agree offset bytes s t i e =
    ap (λ (old : ℕ). if ltb i offset then old else byte_or old bytes (i - offset)) e

-- A piece of a write writes there what the write would.
pub put_at-piece :
    (offset p k : ℕ) (bytes : Bytes) (s : Store) (i : ℕ)
    → offset ≤ p
    → p ≤ i
    → i < p + k
    → put_at p (take k (drop (p - offset) bytes)) s i ≡ put_at offset bytes s i
put_at-piece offset p k bytes s i h l u =
    let e : ltb i p ≡ false = ground (arith, l) in
    let f : ltb i offset ≡ false = ground (arith, h, l) in
    let same : (p - offset) + (i - p) ≡ i - offset = omega (arith, h, l) in
    rw (e, f)
      (byte_or-take (s i) k (drop (p - offset) bytes) (i - p) (omega (arith, l, u))
        ∙ byte_or-drop (s i) (p - offset) bytes (i - p)
        ∙ ap (byte_or (s i) bytes) same)

byte_or-append :
    (old : ℕ) (xs ys : Bytes) (n : ℕ)
    → byte_or old (xs ++ ys) n
      ≡ (if ltb n (length xs) then byte_or old xs n else byte_or old ys (n - length xs))
byte_or-append old [] ys n =
    rw (let e : ltb n 0 ≡ false = ground arith in e) (ap (byte_or old ys) (omega arith))
byte_or-append old (x ∷ xs) ys zero =
    rw (let e : ltb 0 (suc (length xs)) ≡ true = ground arith in e) refl
byte_or-append old (x ∷ xs) ys (suc n) = ground (arith, byte_or-append old xs ys n)

-- Two writes, one behind the other.
pub put_at-append :
    (offset : ℕ) (xs ys : Bytes) (s : Store) (i : ℕ)
    → put_at (offset + length xs) ys (put_at offset xs s) i ≡ put_at offset (xs ++ ys) s i
put_at-append offset xs ys s i = elim (Bool-cases (ltb i offset)) [
  | inl e ↦
      let before : ltb i (offset + length xs) ≡ true = ground (arith, e) in rw (e, before) refl
  | inr e ↦ elim (Bool-cases (ltb i (offset + length xs))) [
    | inl f ↦
        let within : ltb (i - offset) (length xs) ≡ true = ground (arith, e, f) in
        rw (e, f, byte_or-append (s i) xs ys (i - offset), within) refl
    | inr f ↦
        let beyond : ltb (i - offset) (length xs) ≡ false = ground (arith, e, f) in
        let same : i - (offset + length xs) ≡ i - offset - length xs = omega arith in
        rw (e, f, byte_or-append (s i) xs ys (i - offset), beyond, same)
          (ap (λ (old : ℕ). byte_or old ys (i - offset - length xs))
            (byte_or-beyond (s i) xs (i - offset) (ground (arith, e, f))))
  ]
]
