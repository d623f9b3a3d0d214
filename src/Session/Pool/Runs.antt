-- ===== src/Session/Pool/Runs.antt =====
-- Every history of a pool (session/pool.py): the calls of its routers, in any order, by routers that
-- give away only what they hold, with any time and state of the world at each.
use xrdclient.Prelude.{
  ℕ, ◌+◌, ◌≤◌, ◌≡◌, refl, ap, subst, arith, Bool, true, false, List, [], ◌∷◌, Option, none, some,
  ◌==◌, if◌then◌else◌, lookup, Bool-cases, inl, inr,
}
use xrdclient.Session.Pool.{Url, Config, Scene, Loan, Orphan, Pool, new_pool}
use xrdclient.Session.Pool.Calls.{
  reap, adopt, connect, acquire, release, forget, clear, lend, join, leave,
}
use xrdclient.Session.Pool.Buckets.{Buckets}
use xrdclient.Session.Pool.Ledger.{
  is_it, in_list, in_idle, in_queue, of_lookup, of_orphan, held, found_it, taken_it,
}
use xrdclient.Session.Pool.Ledger.Moves.{reap-held}
use xrdclient.Session.Pool.Ledger.Calls.{
  Leaves, acquire-Leaves, release-held, connect-held, leave-held, clear-held, adopt-held, lend-held,
  join-held, forget-held, lend-held_new, join-held_same, joined_it,
}
use xrdclient.Session.Pool.Safe.{IsOf, Fits, IsSound, reap-IsSound, acquire-IsSound}
use xrdclient.Session.Pool.Keeps.{
  adopt-IsSound, forget-IsSound, lend-IsSound, connect-IsSound, release-IsSound, clear-IsSound,
  join-IsSound, leave-IsSound,
}

-- A pool, and the sessions that routers hold for themselves, without a loan.
pub record Stage : Type 0 where
  pub pool : Pool
  pub used : List ℕ

abbrev pub beginning : Stage
beginning = record { pool = new_pool; used = [] }

-- What a router, the reaper, a collector or a fork does.
pub data Call : Type 0 where
  dials releases : ℕ → Url → Config → Call
  acquires : Url → Config → Call
  abandons : Orphan → Call
  lends : ℕ → ℕ → Url → Config → Call
  joins : ℕ → Call
  leaves : Bool → ℕ → Call
  reaps clears forks : Call

-- A session that goes out of a router's hands.
abbrev pub given : ℕ → List ℕ → List ℕ
given s [] = []
given s (t ∷ used) = if t == s then used else t ∷ given s used

abbrev pub taken : Option ℕ → List ℕ → List ℕ
taken none used = used
taken (some s) used = s ∷ used

abbrev pub given_by : Option ℕ → ℕ → List ℕ → List ℕ
given_by none s used = given s used
given_by (some l) s used = used

-- A release that is refused leaves the session to the router, which closes it.
unfoldable pub step : Scene → Call → Stage → Stage
step w (dials s url config) st = record {
  pool = connect w (some s) url config st.pool;
  used = s ∷ st.used;
}
step w (acquires url config) st =
    let (found, p) = acquire w url config st.pool in record { pool = p; used = taken found st.used }
step w (releases s url config) st = record {
  pool = (release w s url config st.pool).1;
  used = given s st.used;
}
step w (abandons o) st = record {
  pool = adopt o st.pool;
  used = given_by o.holder o.session st.used;
}
step w (lends l s url config) st = record {
  pool = lend l s url config st.pool;
  used = given s st.used;
}
step w (joins l) st = record st { pool = join l st.pool }
step w (leaves spoiled l) st = record st { pool = leave w spoiled l st.pool }
step w reaps st = record st { pool = (reap w st.pool).1 }
step w clears st = record st { pool = clear w st.pool }
step w forks st = record st { pool = forget st.pool }

-- An orphan without a share in a loan was a router's own.
abbrev pub OwnOrphan : Option ℕ → ℕ → List ℕ → Type 0
OwnOrphan none s used = 1 ≤ in_list s used
OwnOrphan (some l) s used = Unit {0}

-- What the routers keep to: a dialled session is a new object, and what is given back, abandoned or
-- lent was held; a loan has a new name; one joins a loan that has holders. No pool size is above `n`.
abbrev pub Allowed : ℕ → Call → Stage → Type 0
Allowed n (dials s url config) st = held s st.pool + in_list s st.used ≡ 0
Allowed n (acquires url config) st = Unit {0}
Allowed n (releases s url config) st = (1 ≤ in_list s st.used) × (config.pool_size ≤ n)
Allowed n (abandons o) st = OwnOrphan o.holder o.session st.used × (o.config.pool_size ≤ n)
Allowed n (lends l s url config) st =
    (1 ≤ in_list s st.used) × (lookup l st.pool.loans ≡ none) × (config.pool_size ≤ n)
Allowed n (joins l) st = (loan : Loan) × (lookup l st.pool.loans ≡ some loan) × (1 ≤ loan.holders)
Allowed n _ st = Unit {0}

-- No session is in two places: idle, waiting, on loan, closed, or in the hands of a router.
abbrev pub IsApart : Stage → Type 0
IsApart st = (x : ℕ) → held x st.pool + in_list x st.used ≤ 1

in_list-given : (x s : ℕ) (used : List ℕ) → in_list x (given s used) ≤ in_list x used
in_list-given x s [] = omega arith
in_list-given x s (t ∷ used) = ground (arith, in_list-given x s used)

in_list-given_own :
    (s : ℕ) (used : List ℕ) → 1 ≤ in_list s used → in_list s (given s used) + 1 ≤ in_list s used
in_list-given_own s [] h = absurd (omega (arith, h))
in_list-given_own s (t ∷ used) h = ground (arith, in_list-given_own s used, h)

-- Whom a router gives away, it has no longer.
moved :
    (x s : ℕ) (used : List ℕ)
    → 1 ≤ in_list s used
    → in_list x (given s used) + is_it x s ≤ in_list x used
moved x s used own = elim (Bool-cases (s == x)) [
  | inl e ↦
      let same : s ≡ x = ground (arith, e) in
      rw e (
        subst (λ (y : ℕ). in_list y (given s used) + 1 ≤ in_list y used) same
          (in_list-given_own s used own))
  | inr e ↦ rw e (omega (arith, in_list-given x s used))
]

in_list-taken :
    (x : ℕ) (found : Option ℕ) (used : List ℕ)
    → in_list x (taken found used) ≡ found_it x found + in_list x used
in_list-taken x none used = omega arith
in_list-taken x (some s) used = refl

taken_it-is_it : (x : ℕ) (kept : Bool) (s : ℕ) → taken_it x kept s ≤ is_it x s
taken_it-is_it x true s = omega arith
taken_it-is_it x false s = omega arith

given_by-moved :
    (x s : ℕ) (holder : Option ℕ) (used : List ℕ)
    → OwnOrphan holder s used
    → in_list x (given_by holder s used) + of_orphan x holder s ≤ in_list x used
given_by-moved x s none used own = moved x s used own
given_by-moved x s (some l) used own = omega arith

step-IsApart :
    (n : ℕ) (w : Scene) (c : Call) (st : Stage)
    → Allowed n c st
    → IsApart st
    → IsApart (step w c st)
unfolding step
step-IsApart n w (dials s url config) st new apart x =
    ground (arith, connect-held x w (some s) url config st.pool, apart x, new)
step-IsApart n w (acquires url config) st a apart x = omega (
  arith,
  (acquire-Leaves x w url config st.pool).0,
  in_list-taken x (acquire w url config st.pool).0 st.used,
  apart x,
)
step-IsApart n w (releases s url config) st a apart x = omega (
  arith,
  release-held x w s url config st.pool,
  taken_it-is_it x (release w s url config st.pool).0 s,
  moved x s st.used a.0,
  apart x,
)
step-IsApart n w (abandons o) st a apart x =
    omega (arith, adopt-held x o st.pool, given_by-moved x o.session o.holder st.used a.0, apart x)
step-IsApart n w (lends l s url config) st a apart x =
    omega (arith, lend-held_new x l s url config st.pool a.1, moved x s st.used a.0, apart x)
step-IsApart n w (joins l) st (loan, found, some_holder) apart x =
    omega (arith, join-held_same x l loan st.pool found some_holder, apart x)
step-IsApart n w (leaves spoiled l) st a apart x =
    omega (arith, leave-held x w spoiled l st.pool, apart x)
step-IsApart n w reaps st a apart x = omega (arith, reap-held x w st.pool, apart x)
step-IsApart n w clears st a apart x = omega (arith, clear-held x w st.pool, apart x)
step-IsApart n w forks st a apart x = omega (arith, forget-held x st.pool, apart x)

step-IsSound :
    (n : ℕ) (w : Scene) (c : Call) (st : Stage)
    → Allowed n c st
    → IsSound n st.pool
    → IsSound n (step w c st).pool
unfolding step
step-IsSound n w (dials s url config) st new v =
    connect-IsSound n w s url config st.pool (omega (arith, new)) v
step-IsSound n w (acquires url config) st a v = (acquire-IsSound n w url config st.pool v).0
step-IsSound n w (releases s url config) st a v = release-IsSound n w s url config st.pool a.1 v
step-IsSound n w (abandons o) st a v = adopt-IsSound n o st.pool a.1 v
step-IsSound n w (lends l s url config) st a v = lend-IsSound n l s url config st.pool a.2 v
step-IsSound n w (joins l) st a v = join-IsSound n w l st.pool v
step-IsSound n w (leaves spoiled l) st a v = leave-IsSound n w spoiled l st.pool v
step-IsSound n w reaps st a v = reap-IsSound n w st.pool v
step-IsSound n w clears st a v = clear-IsSound n w st.pool v
step-IsSound n w forks st a v = forget-IsSound n st.pool v

-- The stages that routers can bring about.
pub data Reach (n : ℕ) : Stage → Type 0 where
  here : Reach n beginning
  after : {st : Stage} (w : Scene) (c : Call) → Allowed n c st → Reach n st → Reach n (step w c st)

Reach-IsSound : (n : ℕ) {st : Stage} → Reach n st → IsSound n st.pool
Reach-IsSound n here = record { buckets = tt; queue = tt; lent = λ l loan e. ground (arith, e) }
Reach-IsSound n (after {st} w c a r) = step-IsSound n w c st a (Reach-IsSound n r)

Reach-IsApart : (n : ℕ) {st : Stage} → Reach n st → IsApart st
Reach-IsApart n here = λ x. omega arith
Reach-IsApart n (after {st} w c a r) = step-IsApart n w c st a (Reach-IsApart n r)

-- In every history of a pool, in which routers give away only what they hold: a session that `acquire`
-- returns logged in as whoever the caller is now, if the pool knows as whom it logged in; and nobody
-- else has it: it is not idle any more, waits in no queue, is on no loan, was not closed by the pool,
-- and is in the hands of no other router.
pub Reach-acquire :
    (n : ℕ) (st : Stage) (w : Scene) (url : Url) (config : Config) (s : ℕ) (p : Pool)
    → Reach n st
    → acquire w url config st.pool ≡ (some s, p)
    → IsOf p.born (w.identity url config) s × (held s p + in_list s st.used ≡ 0)
Reach-acquire n st w url config s p r e =
    let found : (acquire w url config st.pool).0 ≡ some s = ap (λ (x : Option ℕ × Pool). x.0) e in
    let left : (acquire w url config st.pool).1 ≡ p = ap (λ (x : Option ℕ × Pool). x.1) e in
    let of = (acquire-IsSound n w url config st.pool (Reach-IsSound n r)).1 s found in
    let l : Leaves s w (some s, p) (held s st.pool) =
      subst (λ (x : Option ℕ × Pool). Leaves s w x (held s st.pool)) e
        (acquire-Leaves s w url config st.pool) in
    (
      subst (λ (q : Pool). IsOf q.born (w.identity url config) s) left of,
      ground (arith, l.0, Reach-IsApart n r s),
    )

-- In every such history no key has more idle sessions than the largest pool size that a caller has
-- configured, and each of them whose login the pool remembers lies under the identity that it logged in
-- as.
pub Reach-Fits : (n : ℕ) (st : Stage) → Reach n st → Buckets (Fits st.pool.born n) st.pool.idle
Reach-Fits n st r = (Reach-IsSound n r).buckets

-- What each operation does to how often a session is idle, queued, on loan or closed by the pool,
-- whatever the world and the pool are like. What is acquired, and what remains, is all that there was,
-- unless the session is dead, and then no more than that; a release adds the session if it is kept, and
-- nothing if it is refused; an abandoned session without a loan is added; dialling, reaping, leaving a
-- loan and clearing neither add nor take away; a new loan adds its session, in the place of what a loan
-- of the same name had; joining a loan adds nothing, unless all had left it; and forgetting takes away
-- exactly the idle and the queued ones, which it does not close.
pub pool-Conserves :
    (x : ℕ) (w : Scene) (url : Url) (config : Config) (p : Pool) (s l : ℕ) (o : Orphan)
    (spoiled : Bool)
    → Leaves x w (acquire w url config p) (held x p)
      × (held x (release w s url config p).1 ≡ held x p + taken_it x (release w s url config p).0 s)
      × (held x (adopt o p) ≡ held x p + of_orphan x o.holder o.session)
      × (held x (connect w (some s) url config p) ≡ held x p)
      × (held x (reap w p).1 ≡ held x p)
      × (held x (leave w spoiled l p) ≡ held x p)
      × (held x (clear w p) ≡ held x p)
      × (held x (lend l s url config p) + of_lookup x (lookup l p.loans) ≡ held x p + is_it x s)
      × (held x (join l p) + of_lookup x (lookup l p.loans)
          ≡ held x p + joined_it x (lookup l p.loans))
      × (held x (forget p) + (in_idle x p.idle + in_queue x p.orphans) ≡ held x p)
pool-Conserves x w url config p s l o spoiled = (
  acquire-Leaves x w url config p,
  release-held x w s url config p,
  adopt-held x o p,
  connect-held x w (some s) url config p,
  reap-held x w p,
  leave-held x w spoiled l p,
  clear-held x w p,
  lend-held x l s url config p,
  join-held x l p,
  forget-held x p,
)
