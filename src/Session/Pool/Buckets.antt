-- ===== src/Session/Pool/Buckets.antt =====
-- The buckets of a pool (session/pool.py).
use xrdclient.Prelude.{
  ℕ, ◌≤◌, ◌≡◌, refl, sym, subst, arith, Bool, true, false, ◌&&◌, ◌||◌, List, [], ◌∷◌, Option, some,
  length, All, Bool-cases, inl, inr,
}
use xrdclient.Errors.{Bytes}
use xrdclient.Session.Pool.{
  Key, Bucket, Scene, Config, same_text, same_flag, same_key, bucket_of, put_bucket, pop_bucket,
  prune, take_from, is_stale,
}
use xrdclient.Session.Pool.Calls.{left_over}

pub same_text-eq : (xs ys : Bytes) → same_text xs ys ≡ true → xs ≡ ys
unfolding same_text
same_text-eq [] [] e = refl
same_text-eq [] (y ∷ ys) e = ground (arith, e)
same_text-eq (x ∷ xs) [] e = ground (arith, e)
same_text-eq (x ∷ xs) (y ∷ ys) e = ground (arith, same_text-eq xs ys, e)

same_flag-eq : (a b : Bool) → same_flag a b ≡ true → a ≡ b
same_flag-eq true b e = sym e
same_flag-eq false true e = ground (arith, e)
same_flag-eq false false e = refl

flags : (a b : Bool) (c : Bool) → (a && b) && c ≡ true → (a ≡ true) × (b ≡ true) × (c ≡ true)
flags a b c e = ground (arith, e)

key : Bool → Bytes → ℕ → Bytes → Key
key tls host port who = record { tls = tls; host = host; port = port; who = who }

pub same_key-eq : (a b : Key) → same_key a b ≡ true → a ≡ b
unfolding same_key
same_key-eq a b e =
    let t = same_flag a.tls b.tls in
    let h = same_text a.host b.host in
    let parts : (t ≡ true) × (h ≡ true) × (a.port ≡ b.port) × (same_text a.who b.who ≡ true) =
      ground (arith, e) in
    (λ i. record {
      tls = same_flag-eq a.tls b.tls parts.0 i;
      host = same_text-eq a.host b.host parts.1 i;
      port = parts.2 i;
      who = same_text-eq a.who b.who parts.3 i;
    })

-- A property of every bucket of a pool.
abbrev pub Buckets : (Key → Bucket → Type 0) → List (Key × Bucket) → Type 0
Buckets P [] = Unit {0}
Buckets P ((k, b) ∷ idle) = P k b × Buckets P idle

module _ (P : Key → Bucket → Type 0) where
  pub bucket_of-Buckets :
      (k : Key) (idle : List (Key × Bucket)) → P k [] → Buckets P idle → P k (bucket_of k idle)
  unfolding bucket_of
  bucket_of-Buckets k [] empty h = empty
  bucket_of-Buckets k ((j, b) ∷ idle) empty h = elim (Bool-cases (same_key j k)) [
    | inl e ↦ rw e (subst (λ (i : Key). P i b) (same_key-eq j k e) h.0)
    | inr e ↦ rw e (bucket_of-Buckets k idle empty h.1)
  ]

  pub put_bucket-Buckets :
      (k : Key) (b : Bucket) (idle : List (Key × Bucket))
      → P k b
      → Buckets P idle
      → Buckets P (put_bucket k b idle)
  unfolding put_bucket
  put_bucket-Buckets k b [] new h = (new, tt)
  put_bucket-Buckets k b ((j, c) ∷ idle) new h = elim (Bool-cases (same_key j k)) [
    | inl e ↦ rw e (subst (λ (i : Key). P i b) (sym (same_key-eq j k e)) new, h.1)
    | inr e ↦ rw e (h.0, put_bucket-Buckets k b idle new h.1)
  ]

  pub pop_bucket-Buckets :
      (k : Key) (idle : List (Key × Bucket)) → Buckets P idle → Buckets P (pop_bucket k idle)
  unfolding pop_bucket
  pop_bucket-Buckets k [] h = tt
  pop_bucket-Buckets k ((j, c) ∷ idle) h = elim (Bool-cases (same_key j k)) [
    | inl e ↦ rw e h.1
    | inr e ↦ rw e (h.0, pop_bucket-Buckets k idle h.1)
  ]

  pub left_over-Buckets :
      (k : Key) (b : Bucket) (idle : List (Key × Bucket))
      → P k b
      → Buckets P idle
      → Buckets P (left_over k b idle)
  left_over-Buckets k [] idle new h = pop_bucket-Buckets k idle h
  left_over-Buckets k (e ∷ b) idle new h = put_bucket-Buckets k (e ∷ b) idle new h

pub Buckets-map :
    (P Q : Key → Bucket → Type 0) (idle : List (Key × Bucket))
    → ((k : Key) (b : Bucket) → P k b → Q k b)
    → Buckets P idle
    → Buckets Q idle
Buckets-map P Q [] f h = tt
Buckets-map P Q ((k, b) ∷ idle) f h = (f k b h.0, Buckets-map P Q idle f h.1)

-- What pruning leaves is no more, and keeps what held of each session.
module _ (w : Scene) (config : Config) where
  pub prune-length : (b : Bucket) → length (prune w config b).0 ≤ length b
  unfolding prune
  prune-length [] = omega arith
  prune-length ((when, s) ∷ b) = ground (arith, prune-length b)

  pub prune-All : (P : ℕ × ℕ → Type 0) (b : Bucket) → All P b → All P (prune w config b).0
  unfolding prune
  prune-All P [] h = tt
  prune-All P ((when, s) ∷ b) h = elim (Bool-cases (is_stale w config when)) [
    | inl e ↦ rw e (prune-All P b h.1)
    | inr e ↦ rw e (h.0, prune-All P b h.1)
  ]

  -- What `_take` comes to: whom it finds is an entry of the bucket, and what it leaves is a part of it.
  pub take_from-All :
      (P : ℕ × ℕ → Type 0) (stale : List ℕ) (b : Bucket)
      → All P b
      → All P (take_from w config stale b).2
        × ((s : ℕ) → (take_from w config stale b).0 ≡ some s → (when : ℕ) × P (when, s))
  unfolding take_from
  take_from-All P stale [] h = (tt, λ s e. ground (arith, e))
  take_from-All P stale ((when, s) ∷ b) h = elim (Bool-cases (w.closed s || w.broken s)) [
    | inl e ↦ rw e (take_from-All P stale b h.1)
    | inr e ↦ rw e (elim (Bool-cases (is_stale w config when)) [
      | inl f ↦ rw f (take_from-All P (s ∷ stale) b h.1)
      | inr f ↦ rw f (h.1, λ (t : ℕ) (g : some s ≡ some t). (when, found s t when g h.0))
    ])
  ]
    where
      found : (s t when : ℕ) → (let o : Option ℕ = some s in o ≡ some t) → P (when, s) → P (when, t)
      found s t when g h = subst (λ (x : ℕ). P (when, x)) (ground (arith, g)) h

  pub take_from-length :
      (stale : List ℕ) (b : Bucket) → length (take_from w config stale b).2 ≤ length b
  unfolding take_from
  take_from-length stale [] = omega arith
  take_from-length stale ((when, s) ∷ b) =
      ground (arith, take_from-length stale b, take_from-length (s ∷ stale) b)
