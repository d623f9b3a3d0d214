-- ===== src/Session/Pool/Keeps.antt =====
-- The other calls of a pool keep it sound (session/pool.py).
use xrdclient.Prelude.{
  ℕ, ◌+◌, ◌≤◌, ◌≡◌, arith, Bool, false, List, [], ◌∷◌, Option, none, some, leb, Dict, lookup, put,
  All, All-append, Bool-cases, Option-cases, inl, inr, lookup-put,
}
use xrdclient.Errors.{Bytes}
use xrdclient.Session.Pool.{Url, Config, Scene, Key, Bucket, Loan, Orphan, Pool}
use xrdclient.Session.Pool.Calls.{
  reap, adopt, connect, release, forget, clear, lend, join, left_with, leave, leave_loan,
}
use xrdclient.Session.Pool.Buckets.{Buckets}
use xrdclient.Session.Pool.Ledger.{is_it, in_bucket, in_idle, held}
use xrdclient.Session.Pool.Ledger.Moves.{reap-held}
use xrdclient.Session.Pool.Safe.{
  IsOf, Fits, IsSound, release_now-IsSound, or_close-IsSound, LoansFit-put, Ending,
  leave_loan-Ending, reap-IsSound,
}

-- The note of whom a new session logged in as changes nothing for the idle ones.
module _ (born : Dict Bytes) (s : ℕ) (who : Bytes) (n : ℕ) where
  IsOf-put : (i : Bytes) (t : ℕ) → is_it s t ≡ 0 → IsOf born i t → IsOf (put s who born) i t
  IsOf-put i t other of j found some_text =
      of j (ground (arith, lookup-put s t who born, other, found)) some_text

  bucket-put :
      (i : Bytes) (b : Bucket)
      → in_bucket s b ≡ 0
      → All (λ (e : ℕ × ℕ). IsOf born i e.1) b
      → All (λ (e : ℕ × ℕ). IsOf (put s who born) i e.1) b
  bucket-put i [] new h = tt
  bucket-put i ((when, t) ∷ b) new h =
      (IsOf-put i t (omega (arith, new)) h.0, bucket-put i b (omega (arith, new)) h.1)

  Fits-put :
      (idle : List (Key × Bucket))
      → in_idle s idle ≡ 0
      → Buckets (Fits born n) idle
      → Buckets (Fits (put s who born) n) idle
  Fits-put [] new h = tt
  Fits-put ((k, b) ∷ idle) new h = (
    (h.0.0, bucket-put k.who b (omega (arith, new)) h.0.1),
    Fits-put idle (omega (arith, new)) h.1,
  )

module _ (n : ℕ) where
  pub adopt-IsSound :
      (o : Orphan) (p : Pool) → o.config.pool_size ≤ n → IsSound n p → IsSound n (adopt o p)
  unfolding adopt
  adopt-IsSound o p m v = record {
    buckets = v.buckets;
    queue = All-append (λ (u : Orphan). u.config.pool_size ≤ n) p.orphans (o ∷ []) v.queue (m, tt);
    lent = v.lent;
  }

  pub forget-IsSound : (p : Pool) → IsSound n p → IsSound n (forget p)
  unfolding forget
  forget-IsSound p v = record { buckets = tt; queue = tt; lent = v.lent }

  pub lend-IsSound :
      (l s : ℕ) (url : Url) (config : Config) (p : Pool)
      → config.pool_size ≤ n
      → IsSound n p
      → IsSound n (lend l s url config p)
  unfolding lend
  lend-IsSound l s url config p m v =
      let loan : Loan = record {
        session = s;
        url = url;
        config = config;
        holders = 1;
        spoiled = false;
      } in
      record { buckets = v.buckets; queue = v.queue; lent = LoansFit-put n l loan p.loans m v.lent }

module _ (n : ℕ) (w : Scene) where
  pub connect-IsSound :
      (s : ℕ) (url : Url) (config : Config) (p : Pool)
      → held s p ≡ 0
      → IsSound n p
      → IsSound n (connect w (some s) url config p)
  unfolding connect
  connect-IsSound s url config p new v =
      let q = (reap w p).1 in
      let sound = reap-IsSound n w p v in
      let new' : in_idle s q.idle ≡ 0 = omega (arith, reap-held s w p, new) in
      elim (Bool-cases (leb config.pool_size 0)) [
        | inl e ↦ rw e sound
        | inr e ↦ rw e (record {
          buckets = Fits-put q.born s (w.identity url config) n q.idle new' sound.buckets;
          queue = sound.queue;
          lent = sound.lent;
        })
      ]

  pub release-IsSound :
      (s : ℕ) (url : Url) (config : Config) (p : Pool)
      → config.pool_size ≤ n
      → IsSound n p
      → IsSound n (release w s url config p).1
  unfolding release
  release-IsSound s url config p m v =
      release_now-IsSound n w s url config (reap w p).1 m (reap-IsSound n w p v)

  pub clear-IsSound : (p : Pool) → IsSound n p → IsSound n (clear w p)
  unfolding clear
  clear-IsSound p v =
      let sound = reap-IsSound n w p v in
      record { buckets = tt; queue = sound.queue; lent = sound.lent }

  pub join-IsSound : (l : ℕ) (p : Pool) → IsSound n p → IsSound n (join l p)
  unfolding join
  join-IsSound l p v = elim (Option-cases (lookup l p.loans)) [
    | inl e ↦ rw e v
    | inr (loan, e) ↦ rw e (record {
      buckets = v.buckets;
      queue = v.queue;
      lent =
          LoansFit-put n l (record loan { holders = loan.holders + 1 }) p.loans (v.lent l loan e)
            v.lent;
    })
  ]

  left_with-IsSound : (r : Option Loan × Pool) → Ending n w r → IsSound n (left_with w r)
  left_with-IsSound (none, p) v = v
  left_with-IsSound (some loan, p) v =
      or_close-IsSound n w loan.session (release w loan.session loan.url loan.config p)
        (release-IsSound loan.session loan.url loan.config p v.0 v.1)

  pub leave-IsSound :
      (spoiled : Bool) (l : ℕ) (p : Pool) → IsSound n p → IsSound n (leave w spoiled l p)
  unfolding leave
  leave-IsSound spoiled l p v =
      left_with-IsSound (leave_loan spoiled l p) (leave_loan-Ending n w spoiled l p v)
