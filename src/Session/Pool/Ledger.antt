-- ===== src/Session/Pool/Ledger.antt =====
-- Where the sessions are that a pool was given (session/pool.py): each is idle, waits to be reaped, is
-- on loan, or was closed, and what the operations do to that.
pub mod Moves
pub mod Calls
use xrdclient.Prelude.{
  ℕ, suc, ◌+◌, ◌-◌, ◌≤◌, ◌≡◌, refl, sym, ap, subst, ◌∙◌, arith, Bool, true, false, not, ◌&&◌, ◌||◌,
  List, [], ◌∷◌, ◌++◌, Option, none, some, leb, ◌==◌, if◌then◌else◌, length, truthy, Dict, lookup,
  put, Bool-cases, Option-cases, inl, inr,
}
use xrdclient.Errors.{Bytes}
use xrdclient.Session.Pool.{
  Url, Config, Scene, Key, Bucket, Loan, Orphan, Pool, key_at, key_for, bucket_of, put_bucket,
  pop_bucket, prune, keep, keep_in, cannot_pool, is_stale, release_now, close_session, or_close,
  take_from, same_key,
}
use xrdclient.Session.Pool.Calls.{
  last_out, left_by, left_loan, leave_loan, give_back, reaped_for, after_rest, reap_from, reap,
  adopt, bear, connect, take_for, acquire, release, forget, clear, lend, joined, join, left_with,
  leave, left_over, sessions_of, close_all,
}

-- For one session `x`: how often it stands somewhere.
module _ (x : ℕ) where
  abbrev pub is_it : ℕ → ℕ
  is_it s = if s == x then 1 else 0

  abbrev pub in_list : List ℕ → ℕ
  in_list [] = 0
  in_list (s ∷ ss) = is_it s + in_list ss

  abbrev pub in_bucket : Bucket → ℕ
  in_bucket [] = 0
  in_bucket ((when, s) ∷ b) = is_it s + in_bucket b

  abbrev pub in_idle : List (Key × Bucket) → ℕ
  in_idle [] = 0
  in_idle ((k, b) ∷ idle) = in_bucket b + in_idle idle

  abbrev pub of_orphan : Option ℕ → ℕ → ℕ
  of_orphan none s = is_it s
  of_orphan (some l) s = 0

  abbrev pub in_queue : List Orphan → ℕ
  in_queue [] = 0
  in_queue (o ∷ orphans) = of_orphan o.holder o.session + in_queue orphans

  -- A loan has its session for as long as it has holders.
  abbrev pub of_loan : ℕ → ℕ → ℕ
  of_loan holders s = if holders == 0 then 0 else is_it s

  abbrev pub of_lookup : Option Loan → ℕ
  of_lookup none = 0
  of_lookup (some loan) = of_loan loan.holders loan.session

  abbrev pub in_loans : Dict Loan → ℕ
  in_loans [] = 0
  in_loans ((l, loan) ∷ loans) = of_loan loan.holders loan.session + in_loans loans

  -- How often the pool has a session, or had it closed.
  abbrev pub held : Pool → ℕ
  held p = in_idle p.idle + in_queue p.orphans + in_loans p.loans + in_list p.ended

  -- A session that came out of a call.
  abbrev pub found_it : Option ℕ → ℕ
  found_it none = 0
  found_it (some s) = is_it s

  abbrev pub taken_it : Bool → ℕ → ℕ
  taken_it true s = is_it s
  taken_it false s = 0

  pub in_list-append : (xs ys : List ℕ) → in_list (xs ++ ys) ≡ in_list xs + in_list ys
  in_list-append [] ys = omega arith
  in_list-append (s ∷ xs) ys = omega (arith, in_list-append xs ys)

  pub put_bucket-in_idle :
      (k : Key) (b : Bucket) (idle : List (Key × Bucket))
      → in_idle (put_bucket k b idle) + in_bucket (bucket_of k idle) ≡ in_idle idle + in_bucket b
  unfolding put_bucket bucket_of
  put_bucket-in_idle k b [] = omega arith
  put_bucket-in_idle k b ((j, c) ∷ idle) = ground (arith, put_bucket-in_idle k b idle)

  pop_bucket-in_idle :
      (k : Key) (idle : List (Key × Bucket))
      → in_idle (pop_bucket k idle) + in_bucket (bucket_of k idle) ≡ in_idle idle
  unfolding pop_bucket bucket_of
  pop_bucket-in_idle k [] = omega arith
  pop_bucket-in_idle k ((j, c) ∷ idle) = ground (arith, pop_bucket-in_idle k idle)

  pub left_over-in_idle :
      (k : Key) (b : Bucket) (idle : List (Key × Bucket))
      → in_idle (left_over k b idle) + in_bucket (bucket_of k idle) ≡ in_idle idle + in_bucket b
  left_over-in_idle k [] idle = omega (arith, pop_bucket-in_idle k idle)
  left_over-in_idle k (e ∷ b) idle = put_bucket-in_idle k (e ∷ b) idle

  pub in_loans-put :
      (l : ℕ) (loan : Loan) (loans : Dict Loan)
      → in_loans (put l loan loans) + of_lookup (lookup l loans)
        ≡ in_loans loans + of_loan loan.holders loan.session
  in_loans-put l loan [] = omega arith
  in_loans-put l loan ((j, other) ∷ loans) = ground (arith, in_loans-put l loan loans)
