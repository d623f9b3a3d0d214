-- ===== src/Session/Pool/Ledger/Moves.antt =====
-- How the steps of a pool move sessions (session/pool.py): `_take`, `_release`, `leave`, `reap`.
use xrdclient.Prelude.{
  ℕ, ◌+◌, ◌-◌, ◌≤◌, ◌≡◌, refl, sym, ap, subst, arith, Bool, true, false, ◌||◌, List, [], ◌∷◌,
  Option, none, some, leb, ◌==◌, length, lookup, put, Bool-cases, Option-cases, inl, inr,
}
use xrdclient.Session.Pool.{
  Url, Config, Scene, Key, Bucket, Loan, Orphan, Pool, key_for, bucket_of, prune, keep_in, is_stale,
  release_now, or_close, take_from,
}
use xrdclient.Session.Pool.Calls.{
  last_out, left_by, leave_loan, give_back, reaped_for, after_rest, reap_from, reap,
}
use xrdclient.Session.Pool.Ledger.{
  is_it, in_list, in_bucket, of_orphan, in_queue, of_loan, of_lookup, held, found_it, taken_it,
  in_list-append, put_bucket-in_idle, in_loans-put,
}

module _ (x : ℕ) (w : Scene) where
  prune-in_bucket :
      (config : Config) (b : Bucket)
      → in_bucket x (prune w config b).0 + in_list x (prune w config b).1 ≡ in_bucket x b
  unfolding prune
  prune-in_bucket config [] = refl
  prune-in_bucket config ((when, s) ∷ b) = ground (arith, prune-in_bucket config b)

  -- What is found, closed and left of so many entries, whether or not all of them were alive.
  abbrev total : Option ℕ × List ℕ × Bucket → ℕ
  total (found, stale, b) = in_bucket x b + in_list x stale + found_it x found

  abbrev pub Taken : Option ℕ × List ℕ × Bucket → ℕ → Type 0
  Taken r n = (total r ≤ n) × ((w.closed x || w.broken x) ≡ false → total r ≡ n)

  dead_other :
      (s : ℕ)
      → (w.closed s || w.broken s) ≡ true
      → (w.closed x || w.broken x) ≡ false
      → is_it x s ≡ 0
  dead_other s d e = elim (Bool-cases (s == x)) [
    | inl f ↦
        let same : s ≡ x = ground (arith, f) in
        let alive : (w.closed s || w.broken s) ≡ false =
          subst (λ (y : ℕ). (w.closed y || w.broken y) ≡ false) (sym same) e in
        ground (arith, d, alive)
    | inr f ↦ rw f refl
  ]

  pub take_from-Taken :
      (config : Config) (stale : List ℕ) (b : Bucket)
      → Taken (take_from w config stale b) (in_bucket x b + in_list x stale)
  unfolding take_from
  take_from-Taken config stale [] = (omega arith, λ e. omega arith)
  take_from-Taken config stale ((when, s) ∷ b) = elim (Bool-cases (w.closed s || w.broken s)) [
    | inl d ↦
        let rest = take_from-Taken config stale b in
        rw d (
          omega (arith, rest.0),
          λ (e : (w.closed x || w.broken x) ≡ false). omega (arith, rest.1 e, dead_other s d e),
        )
    | inr d ↦ rw d (elim (Bool-cases (is_stale w config when)) [
      | inl f ↦
          let rest = take_from-Taken config (s ∷ stale) b in
          rw f (
            omega (arith, rest.0),
            λ (e : (w.closed x || w.broken x) ≡ false). omega (arith, rest.1 e),
          )
      | inr f ↦ rw f (omega arith, λ (e : (w.closed x || w.broken x) ≡ false). omega arith)
    ])
  ]

  keep_in-held :
      (s : ℕ) (config : Config) (k : Key) (p : Pool)
      → held x (keep_in w s config k p).1 ≡ held x p + taken_it x (keep_in w s config k p).0 s
  unfolding keep_in
  keep_in-held s config k p =
      let b = bucket_of k p.idle in
      let fresh = (prune w config b).0 in
      let ended' = in_list-append x (prune w config b).1 p.ended in
      elim (Bool-cases (leb config.pool_size (length fresh))) [
        | inl e ↦
            rw e
              (omega (arith, put_bucket-in_idle x k fresh p.idle, prune-in_bucket config b, ended'))
        | inr e ↦ rw e (
            omega (
              arith,
              put_bucket-in_idle x k ((w.now, s) ∷ fresh) p.idle,
              prune-in_bucket config b,
              ended',
            ))
      ]

  pub release_now-held :
      (s : ℕ) (url : Url) (config : Config) (p : Pool)
      → held x (release_now w s url config p).1
        ≡ held x p + taken_it x (release_now w s url config p).0 s
  unfolding release_now
  release_now-held s url config p =
      ground (arith, keep_in-held s config (key_for w s url config p) p)

  pub or_close-held :
      (s : ℕ) (r : Bool × Pool) (n : ℕ)
      → held x r.1 ≡ n + taken_it x r.0 s
      → held x (or_close s r) ≡ n + is_it x s
  or_close-held s (true, p) n e = e
  or_close-held s (false, p) n e = omega (arith, e)

  give_back-held :
      (s : ℕ) (url : Url) (config : Config) (p : Pool)
      → held x (give_back w s url config p) ≡ held x p + is_it x s
  unfolding give_back
  give_back-held s url config p =
      or_close-held s (release_now w s url config p) (held x p) (release_now-held s url config p)

  -- The connection of a loan that its last holder left, and that is on its way.
  abbrev pub underway : Option Loan → ℕ
  underway none = 0
  underway (some loan) = is_it x loan.session

  last_out-held :
      (spoiled : Bool) (loan : Loan) (p : Pool)
      → held x (last_out spoiled loan p).1 + underway (last_out spoiled loan p).0
        ≡ held x p + is_it x loan.session
  last_out-held true loan p = omega arith
  last_out-held false loan p = omega arith

  left_by-held :
      (spoiled : Bool) (l : ℕ) (loan : Loan) (p : Pool)
      → lookup l p.loans ≡ some loan
      → held x (left_by spoiled l loan p).1 + underway (left_by spoiled l loan p).0 ≡ held x p
  left_by-held spoiled l loan p found =
      let loan' = record loan { holders = loan.holders - 1; spoiled = loan.spoiled || spoiled } in
      let p' = record p { loans = put l loan' p.loans } in
      let moved = in_loans-put x l loan' p.loans in
      let before : of_lookup x (lookup l p.loans) ≡ of_loan x loan.holders loan.session =
        ap (of_lookup x) found in
      elim (Bool-cases (loan.holders == 1)) [
        | inr e ↦ rw e (ground (arith, moved, before, e))
        | inl e ↦
            rw e
              (ground (arith, last_out-held (loan.spoiled || spoiled) loan' p', moved, before, e))
      ]

  pub leave_loan-held :
      (spoiled : Bool) (l : ℕ) (p : Pool)
      → held x (leave_loan spoiled l p).1 + underway (leave_loan spoiled l p).0 ≡ held x p
  unfolding leave_loan
  leave_loan-held spoiled l p = elim (Option-cases (lookup l p.loans)) [
    | inl e ↦ rw e (omega arith)
    | inr (loan, e) ↦ rw e (left_by-held spoiled l loan p e)
  ]

  reaped_for-held :
      (s : ℕ) (url : Url) (config : Config) (holder : Option ℕ) (p : Pool)
      → held x (reaped_for w s url config holder p).1
          + underway (reaped_for w s url config holder p).0
        ≡ held x p + of_orphan x holder s
  reaped_for-held s url config none p = omega (arith, give_back-held s url config p)
  reaped_for-held s url config (some l) p = omega (arith, leave_loan-held false l p)

  after_rest-held :
      (rest : Pool → ℕ × Pool) (m : ℕ)
      → ((p : Pool) → held x (rest p).1 ≡ held x p + m)
      → (r : Option Loan × Pool)
      → held x (after_rest w r.0 (rest r.1)).1 ≡ held x r.1 + underway r.0 + m
  after_rest-held rest m keeps (none, p) = omega (arith, keeps p)
  after_rest-held rest m keeps (some loan, p) =
      omega (arith, keeps p, give_back-held loan.session loan.url loan.config (rest p).1)

  reap_from-held :
      (orphans : List Orphan) (p : Pool)
      → held x (reap_from w orphans p).1 ≡ held x p + in_queue x orphans
  unfolding reap_from
  reap_from-held [] p = omega arith
  reap_from-held (o ∷ orphans) p = omega (
    arith,
    after_rest-held (reap_from w orphans) (in_queue x orphans) (reap_from-held orphans)
        (reaped_for w o.session o.url o.config o.holder p),
    reaped_for-held o.session o.url o.config o.holder p,
  )

  pub reap-held : (p : Pool) → held x (reap w p).1 ≡ held x p
  unfolding reap
  reap-held p = omega (arith, reap_from-held p.orphans (record p { orphans = [] }))
