-- ===== src/Session/Pool/Ledger/Calls.antt =====
-- What the calls of a pool do with the sessions it has (session/pool.py).
use xrdclient.Prelude.{
  ℕ, ◌+◌, ◌≤◌, ◌≡◌, ap, arith, Bool, false, ◌||◌, List, [], ◌∷◌, ◌++◌, Option, none, some, leb,
  lookup, Bool-cases, Option-cases, inl, inr,
}
use xrdclient.Session.Pool.{
  Url, Config, Scene, Key, Bucket, Loan, Orphan, Pool, key_at, bucket_of, take_from,
}
use xrdclient.Session.Pool.Calls.{
  leave_loan, reap, adopt, connect, take_for, acquire, release, forget, clear, lend, join,
  left_with, leave, sessions_of, close_all,
}
use xrdclient.Session.Pool.Ledger.{
  is_it, in_list, in_bucket, in_idle, of_orphan, in_queue, of_loan, of_lookup, held, found_it,
  taken_it, in_list-append, left_over-in_idle, in_loans-put,
}
use xrdclient.Session.Pool.Ledger.Moves.{
  take_from-Taken, release_now-held, or_close-held, underway, leave_loan-held, reap-held,
}

module _ (x : ℕ) (w : Scene) where
  -- What an acquisition leaves and returns of so many.
  abbrev pub Leaves : Option ℕ × Pool → ℕ → Type 0
  Leaves r n =
      (held x r.1 + found_it x r.0 ≤ n)
      × ((w.closed x || w.broken x) ≡ false → held x r.1 + found_it x r.0 ≡ n)

  take_for-Leaves :
      (config : Config) (k : Key) (p : Pool) → Leaves (take_for w config k p) (held x p)
  unfolding take_for
  take_for-Leaves config k p =
      let b = bucket_of k p.idle in
      let r = take_from w config [] b in
      let t = take_from-Taken x w config [] b in
      let moved = left_over-in_idle x k r.2 p.idle in
      let ended' = in_list-append x r.1 p.ended in
      (
        omega (arith, t.0, moved, ended'),
        λ (e : (w.closed x || w.broken x) ≡ false). omega (arith, t.1 e, moved, ended'),
      )

  pub acquire-Leaves :
      (url : Url) (config : Config) (p : Pool) → Leaves (acquire w url config p) (held x p)
  unfolding acquire
  acquire-Leaves url config p =
      let q = (reap w p).1 in
      let k = key_at url config (w.identity url config) in
      let reaped = reap-held x w p in
      let t = take_for-Leaves config k q in
      elim (Bool-cases (leb config.pool_size 0)) [
        | inl e ↦ rw e (
          omega (arith, reaped),
          λ (f : (w.closed x || w.broken x) ≡ false). omega (arith, reaped),
        )
        | inr e ↦ rw e (
          omega (arith, reaped, t.0),
          λ (f : (w.closed x || w.broken x) ≡ false). omega (arith, reaped, t.1 f),
        )
      ]

  pub release-held :
      (s : ℕ) (url : Url) (config : Config) (p : Pool)
      → held x (release w s url config p).1 ≡ held x p + taken_it x (release w s url config p).0 s
  unfolding release
  release-held s url config p =
      omega (arith, release_now-held x w s url config (reap w p).1, reap-held x w p)

  pub connect-held :
      (dialled : Option ℕ) (url : Url) (config : Config) (p : Pool)
      → held x (connect w dialled url config p) ≡ held x p
  unfolding connect
  connect-held none url config p = ground (arith, reap-held x w p)
  connect-held (some s) url config p = ground (arith, reap-held x w p)

  left_with-held : (r : Option Loan × Pool) → held x (left_with w r) ≡ held x r.1 + underway x w r.0
  left_with-held (none, p) = omega arith
  left_with-held (some loan, p) =
      or_close-held x w loan.session (release w loan.session loan.url loan.config p) (held x p)
        (release-held loan.session loan.url loan.config p)

  -- A share that is given back moves the connection of the loan, if at all.
  pub leave-held : (spoiled : Bool) (l : ℕ) (p : Pool) → held x (leave w spoiled l p) ≡ held x p
  unfolding leave
  leave-held spoiled l p =
      omega (arith, left_with-held (leave_loan spoiled l p), leave_loan-held x w spoiled l p)

  in_list-sessions_of :
      (b : Bucket) (ended : List ℕ)
      → in_list x (sessions_of b ++ ended) ≡ in_bucket x b + in_list x ended
  in_list-sessions_of [] ended = omega arith
  in_list-sessions_of ((when, s) ∷ b) ended = omega (arith, in_list-sessions_of b ended)

  close_all-in_list :
      (idle : List (Key × Bucket)) (ended : List ℕ)
      → in_list x (close_all idle ended) ≡ in_idle x idle + in_list x ended
  unfolding close_all
  close_all-in_list [] ended = omega arith
  close_all-in_list ((k, b) ∷ idle) ended =
      omega (arith, close_all-in_list idle (sessions_of b ++ ended), in_list-sessions_of b ended)

  pub clear-held : (p : Pool) → held x (clear w p) ≡ held x p
  unfolding clear
  clear-held p =
      let q = (reap w p).1 in omega (arith, close_all-in_list q.idle q.ended, reap-held x w p)

module _ (x : ℕ) where
  in_queue-append :
      (o : Orphan) (orphans : List Orphan)
      → in_queue x (orphans ++ (o ∷ [])) ≡ in_queue x orphans + of_orphan x o.holder o.session
  in_queue-append o [] = omega arith
  in_queue-append o (u ∷ orphans) = omega (arith, in_queue-append o orphans)

  pub adopt-held :
      (o : Orphan) (p : Pool) → held x (adopt o p) ≡ held x p + of_orphan x o.holder o.session
  unfolding adopt
  adopt-held o p = omega (arith, in_queue-append o p.orphans)

  pub lend-held :
      (l s : ℕ) (url : Url) (config : Config) (p : Pool)
      → held x (lend l s url config p) + of_lookup x (lookup l p.loans) ≡ held x p + is_it x s
  unfolding lend
  lend-held l s url config p =
      let loan : Loan = record {
        session = s;
        url = url;
        config = config;
        holders = 1;
        spoiled = false;
      } in
      omega (arith, in_loans-put x l loan p.loans)

  -- A loan that is joined has its session, also if all had left it.
  abbrev pub joined_it : Option Loan → ℕ
  joined_it none = 0
  joined_it (some loan) = is_it x loan.session

  pub join-held :
      (l : ℕ) (p : Pool)
      → held x (join l p) + of_lookup x (lookup l p.loans) ≡ held x p + joined_it (lookup l p.loans)
  unfolding join
  join-held l p = elim (Option-cases (lookup l p.loans)) [
    | inr (loan, e) ↦
        let loan' = record loan { holders = loan.holders + 1 } in
        let before : of_lookup x (lookup l p.loans) ≡ of_loan x loan.holders loan.session =
          ap (of_lookup x) e in
        rw e (ground (arith, in_loans-put x l loan' p.loans, before))
    | inl e ↦ rw e (omega arith)
  ]

  -- A loan under a new name, and a loan that somebody has.
  pub lend-held_new :
      (l s : ℕ) (url : Url) (config : Config) (p : Pool)
      → lookup l p.loans ≡ none
      → held x (lend l s url config p) ≡ held x p + is_it x s
  lend-held_new l s url config p new =
      let before : of_lookup x (lookup l p.loans) ≡ 0 = ap (of_lookup x) new in
      omega (arith, lend-held l s url config p, before)

  pub join-held_same :
      (l : ℕ) (loan : Loan) (p : Pool)
      → lookup l p.loans ≡ some loan
      → 1 ≤ loan.holders
      → held x (join l p) ≡ held x p
  join-held_same l loan p found some_holder =
      let before : of_lookup x (lookup l p.loans) ≡ of_loan x loan.holders loan.session =
        ap (of_lookup x) found in
      let after : joined_it (lookup l p.loans) ≡ is_it x loan.session = ap joined_it found in
      ground (arith, join-held l p, before, after, some_holder)

  pub forget-held :
      (p : Pool) → held x (forget p) + (in_idle x p.idle + in_queue x p.orphans) ≡ held x p
  unfolding forget
  forget-held p = omega arith
