-- ===== src/Session/Pool/Safe.antt =====
-- Whom a pool hands a session to, and how many it keeps (session/pool.py).
use xrdclient.Prelude.{
  ℕ, ◌-◌, ◌≤◌, ◌≡◌, refl, sym, subst, arith, Bool, true, false, ◌||◌, List, [], ◌∷◌, Option, none,
  some, leb, ◌==◌, if◌then◌else◌, length, truthy, Dict, lookup, put, All, Bool-cases, Option-cases,
  inl, inr, lookup-put,
}
use xrdclient.Errors.{Bytes}
use xrdclient.Session.Pool.{
  Url, Config, Scene, Key, Bucket, Loan, Orphan, Pool, key_at, key_for, or_now, bucket_of, prune,
  keep, keep_in, cannot_pool, release_now, or_close, take_from,
}
use xrdclient.Session.Pool.Calls.{
  last_out, left_by, leave_loan, give_back, reaped_for, after_rest, reap_from, reap, take_for,
  acquire,
}
use xrdclient.Session.Pool.Buckets.{
  Buckets, bucket_of-Buckets, put_bucket-Buckets, left_over-Buckets, prune-length, prune-All,
  take_from-All, take_from-length,
}

-- A session lies under the identity that it logged in as, where that is known.
abbrev pub IsOf : Dict Bytes → Bytes → ℕ → Type 0
IsOf born who s = (i : Bytes) → lookup s born ≡ some i → truthy i ≡ true → who ≡ i

abbrev pub Fits : Dict Bytes → ℕ → Key → Bucket → Type 0
Fits born n k b = (length b ≤ n) × All (λ (e : ℕ × ℕ). IsOf born k.who e.1) b

abbrev pub LoansFit : ℕ → Dict Loan → Type 0
LoansFit n loans = (l : ℕ) (loan : Loan) → lookup l loans ≡ some loan → loan.config.pool_size ≤ n

-- Every idle session lies under its identity, and no bucket has more of them than any of the
-- configurations allows.
pub record IsSound (n : ℕ) (p : Pool) : Type 0 where
  pub buckets : Buckets (Fits p.born n) p.idle
  pub queue : All (λ (o : Orphan). o.config.pool_size ≤ n) p.orphans
  pub lent : LoansFit n p.loans

who_for :
    (found : Option Bytes) (now i : Bytes) → found ≡ some i → truthy i ≡ true → or_now found now ≡ i
who_for none now i e t = ground (arith, e)
who_for (some j) now i e t =
    let same : j ≡ i = ground (arith, e) in
    subst (λ (x : Bytes). (if truthy x then x else now) ≡ i) (sym same) (rw t refl)

pub LoansFit-put :
    (n l : ℕ) (loan : Loan) (loans : Dict Loan)
    → loan.config.pool_size ≤ n
    → LoansFit n loans
    → LoansFit n (put l loan loans)
LoansFit-put n l loan loans m h j found e = elim (Bool-cases (l == j)) [
  | inl f ↦
      let same : loan ≡ found = ground (arith, lookup-put l j loan loans, e, f) in
      subst (λ (x : Loan). x.config.pool_size ≤ n) same m
  | inr f ↦ h j found (ground (arith, lookup-put l j loan loans, e, f))
]

module _ (n : ℕ) (w : Scene) where
  keep-Fits :
      (born : Dict Bytes) (s maximum : ℕ) (k : Key) (b : Bucket)
      → maximum ≤ n
      → IsOf born k.who s
      → Fits born n k b
      → Fits born n k (keep w b s maximum).1
  keep-Fits born s maximum k b m of h = elim (Bool-cases (leb maximum (length b))) [
    | inl e ↦ rw e h
    | inr e ↦ rw e (ground (arith, e, m), (of, h.1))
  ]

  keep_in-IsSound :
      (s : ℕ) (config : Config) (k : Key) (p : Pool)
      → config.pool_size ≤ n
      → IsOf p.born k.who s
      → IsSound n p
      → IsSound n (keep_in w s config k p).1
  unfolding keep_in
  keep_in-IsSound s config k p m of v =
      let b = bucket_of k p.idle in
      let old = bucket_of-Buckets (Fits p.born n) k p.idle (omega arith, tt) v.buckets in
      let fresh : Fits p.born n k (prune w config b).0 = (
        omega (arith, old.0, prune-length w config b),
        prune-All w config (λ (e : ℕ × ℕ). IsOf p.born k.who e.1) b old.1,
      ) in
      record {
        buckets =
            put_bucket-Buckets (Fits p.born n) k (keep w (prune w config b).0 s config.pool_size).1
              p.idle (keep-Fits p.born s config.pool_size k (prune w config b).0 m of fresh)
              v.buckets;
        queue = v.queue;
        lent = v.lent;
      }

  pub release_now-IsSound :
      (s : ℕ) (url : Url) (config : Config) (p : Pool)
      → config.pool_size ≤ n
      → IsSound n p
      → IsSound n (release_now w s url config p).1
  unfolding release_now key_for key_at
  release_now-IsSound s url config p m v = elim (Bool-cases (cannot_pool w s config)) [
    | inl e ↦ rw e v
    | inr e ↦ rw e (
        keep_in-IsSound s config (key_for w s url config p) p m
          (who_for (lookup s p.born) (w.identity url config)) v)
  ]

  pub or_close-IsSound : (s : ℕ) (r : Bool × Pool) → IsSound n r.1 → IsSound n (or_close s r)
  or_close-IsSound s (true, p) v = v
  or_close-IsSound s (false, p) v = record { buckets = v.buckets; queue = v.queue; lent = v.lent }

  give_back-IsSound :
      (s : ℕ) (url : Url) (config : Config) (p : Pool)
      → config.pool_size ≤ n
      → IsSound n p
      → IsSound n (give_back w s url config p)
  unfolding give_back
  give_back-IsSound s url config p m v =
      or_close-IsSound s (release_now w s url config p) (release_now-IsSound s url config p m v)

  -- A pool, and a loan that its last holder left.
  abbrev pub Ending : Option Loan × Pool → Type 0
  Ending (none, p) = IsSound n p
  Ending (some loan, p) = (loan.config.pool_size ≤ n) × IsSound n p

  last_out-Ending :
      (spoiled : Bool) (loan : Loan) (p : Pool)
      → loan.config.pool_size ≤ n
      → IsSound n p
      → Ending (last_out spoiled loan p)
  last_out-Ending true loan p m v = record { buckets = v.buckets; queue = v.queue; lent = v.lent }
  last_out-Ending false loan p m v = (m, v)

  left_by-Ending :
      (spoiled : Bool) (l : ℕ) (loan : Loan) (p : Pool)
      → loan.config.pool_size ≤ n
      → IsSound n p
      → Ending (left_by spoiled l loan p)
  left_by-Ending spoiled l loan p m v =
      let loan' = record loan { holders = loan.holders - 1; spoiled = loan.spoiled || spoiled } in
      let p' = record p { loans = put l loan' p.loans } in
      let v' : IsSound n p' = record {
        buckets = v.buckets;
        queue = v.queue;
        lent = LoansFit-put n l loan' p.loans m v.lent;
      } in
      elim (Bool-cases (loan.holders == 1)) [
        | inr e ↦ rw e v'
        | inl e ↦ rw e (last_out-Ending (loan.spoiled || spoiled) loan' p' m v')
      ]

  pub leave_loan-Ending :
      (spoiled : Bool) (l : ℕ) (p : Pool) → IsSound n p → Ending (leave_loan spoiled l p)
  unfolding leave_loan
  leave_loan-Ending spoiled l p v = elim (Option-cases (lookup l p.loans)) [
    | inl e ↦ rw e v
    | inr (loan, e) ↦ rw e (left_by-Ending spoiled l loan p (v.lent l loan e) v)
  ]

  reaped_for-Ending :
      (s : ℕ) (url : Url) (config : Config) (holder : Option ℕ) (p : Pool)
      → config.pool_size ≤ n
      → IsSound n p
      → Ending (reaped_for w s url config holder p)
  reaped_for-Ending s url config none p m v = give_back-IsSound s url config p m v
  reaped_for-Ending s url config (some l) p m v = leave_loan-Ending false l p v

  -- What a step of the loop does with the rest of the loop, a function that keeps a pool sound.
  after_rest-IsSound :
      (rest : Pool → ℕ × Pool)
      → ((p : Pool) → IsSound n p → IsSound n (rest p).1)
      → (r : Option Loan × Pool) → Ending r
      → IsSound n (after_rest w r.0 (rest r.1)).1
  after_rest-IsSound rest keeps (none, p) v = keeps p v
  after_rest-IsSound rest keeps (some loan, p) v =
      give_back-IsSound loan.session loan.url loan.config (rest p).1 v.0 (keeps p v.1)

  reap_from-IsSound :
      (orphans : List Orphan) (p : Pool)
      → All (λ (o : Orphan). o.config.pool_size ≤ n) orphans
      → IsSound n p
      → IsSound n (reap_from w orphans p).1
  unfolding reap_from
  reap_from-IsSound [] p m v = v
  reap_from-IsSound (o ∷ orphans) p m v =
      after_rest-IsSound (reap_from w orphans) (λ q. reap_from-IsSound orphans q m.1)
        (reaped_for w o.session o.url o.config o.holder p)
        (reaped_for-Ending o.session o.url o.config o.holder p m.0 v)

  pub reap-IsSound : (p : Pool) → IsSound n p → IsSound n (reap w p).1
  unfolding reap
  reap-IsSound p v =
      reap_from-IsSound p.orphans (record p { orphans = [] }) v.queue
        (record { buckets = v.buckets; queue = tt; lent = v.lent })

  -- What `acquire` does with the bucket of a key.
  take_for-IsSound :
      (config : Config) (k : Key) (p : Pool)
      → IsSound n p
      → IsSound n (take_for w config k p).1
        × ((s : ℕ) → (take_for w config k p).0 ≡ some s → IsOf p.born k.who s)
  unfolding take_for
  take_for-IsSound config k p v =
      let b = bucket_of k p.idle in
      let old = bucket_of-Buckets (Fits p.born n) k p.idle (omega arith, tt) v.buckets in
      let (left, found) =
        take_from-All w config (λ (e : ℕ × ℕ). IsOf p.born k.who e.1) [] b old.1 in
      let few : length (take_from w config [] b).2 ≤ n =
        omega (arith, old.0, take_from-length w config [] b) in
      (
        record {
          buckets =
              left_over-Buckets (Fits p.born n) k (take_from w config [] b).2 p.idle (few, left)
                v.buckets;
          queue = v.queue;
          lent = v.lent;
        },
        λ s e. (found s e).1,
      )

  pub acquire-IsSound :
      (url : Url) (config : Config) (p : Pool)
      → IsSound n p
      → IsSound n (acquire w url config p).1
        × ((s : ℕ)
            → (acquire w url config p).0 ≡ some s
            → IsOf (acquire w url config p).1.born (w.identity url config) s)
  unfolding acquire key_at
  acquire-IsSound url config p v =
      let q = (reap w p).1 in
      let sound = reap-IsSound p v in
      elim (Bool-cases (leb config.pool_size 0)) [
        | inl e ↦ rw e (sound, λ (s : ℕ) f. ground (arith, f))
        | inr e ↦ rw e (take_for-IsSound config (key_at url config (w.identity url config)) q sound)
      ]
