-- ===== src/Session/Pool/Calls.antt =====
-- The methods of a pool (session/pool.py), and the loans that give back to it (session/router.py).
use xrdclient.Prelude.{
  ℕ, suc, ◌+◌, ◌-◌, Bool, true, false, not, ◌||◌, List, [], ◌∷◌, ◌++◌, Option, none, some, leb,
  ◌==◌, if◌then◌else◌, length, lookup, put,
}
use xrdclient.Errors.{Bytes}
use xrdclient.Session.Pool.{
  Url, Config, Scene, Key, Bucket, Loan, Orphan, Pool, bucket_of, put_bucket, pop_bucket, key_at,
  take_from, release_now, close_session, or_close,
}

-- `_Loan.leave` up to the release: the loan, where its last holder leaves an unspoiled connection. No
-- holder leaves twice, so a loan that is left has a holder.
abbrev pub last_out : Bool → Loan → Pool → Option Loan × Pool
last_out true loan p = (none, close_session loan.session p)
last_out false loan p = (some loan, p)

abbrev pub left_by : Bool → ℕ → Loan → Pool → Option Loan × Pool
left_by spoiled l loan p =
    let loan' = record loan { holders = loan.holders - 1; spoiled = loan.spoiled || spoiled } in
    let p' = record p { loans = put l loan' p.loans } in
    if not (loan.holders == 1) then (none, p') else last_out (loan.spoiled || spoiled) loan' p'

abbrev pub left_loan : Bool → ℕ → Option Loan → Pool → Option Loan × Pool
left_loan spoiled l none p = (none, p)
left_loan spoiled l (some loan) p = left_by spoiled l loan p

unfoldable pub leave_loan : Bool → ℕ → Pool → Option Loan × Pool
leave_loan spoiled l p = left_loan spoiled l (lookup l p.loans) p

-- `if not SESSIONS.release(...): self.session.close()` for the connection of a loan, once reaped
unfoldable pub give_back : Scene → ℕ → Url → Config → Pool → Pool
unfolding release_now
give_back w s url config p = or_close s (release_now w s url config p)

-- one round of the loop of `reap`, as far as a `leave` that reaps the rest of the queue
abbrev pub reaped_for : Scene → ℕ → Url → Config → Option ℕ → Pool → Option Loan × Pool
reaped_for w s url config none p = (none, give_back w s url config p)
reaped_for w s url config (some l) p = leave_loan false l p

-- the rest of the round, which has the rest of the queue behind it where the loan's release reaped it
abbrev pub after_rest : Scene → Option Loan → ℕ × Pool → ℕ × Pool
after_rest w none (n, p) = (suc n, p)
after_rest w (some loan) (n, p) = (1, give_back w loan.session loan.url loan.config p)

unfoldable pub reap_from : Scene → List Orphan → Pool → ℕ × Pool
unfolding give_back leave_loan
reap_from w [] p = (0, p)
reap_from w (o ∷ orphans) p =
    let (ending, q) = reaped_for w o.session o.url o.config o.holder p in
    after_rest w ending (reap_from w orphans q)

-- `reap`
unfoldable pub reap : Scene → Pool → ℕ × Pool
unfolding reap_from
reap w p = reap_from w p.orphans (record p { orphans = [] })

-- `adopt`
unfoldable pub adopt : Orphan → Pool → Pool
adopt o p = record p { orphans = p.orphans ++ (o ∷ []) }

-- `connect`, with the session that was dialled, unless dialling raised
abbrev pub bear : Option ℕ → Bytes → Pool → Pool
bear none who p = p
bear (some s) who p = record p { born = put s who p.born }

unfoldable pub connect : Scene → Option ℕ → Url → Config → Pool → Pool
unfolding reap
connect w dialled url config p =
    let q = (reap w p).1 in
    if leb config.pool_size 0 then q else bear dialled (w.identity url config) q

-- `if not bucket: self._idle.pop(key, None)`
abbrev pub left_over : Key → Bucket → List (Key × Bucket) → List (Key × Bucket)
left_over k [] idle = pop_bucket k idle
left_over k (e ∷ bucket) idle = put_bucket k (e ∷ bucket) idle

-- `acquire` behind its test of the pool's size
unfoldable pub take_for : Scene → Config → Key → Pool → Option ℕ × Pool
unfolding bucket_of pop_bucket put_bucket take_from
take_for w config k p =
    let (found, stale, bucket) = take_from w config [] (bucket_of k p.idle) in
    (found, record p { idle = left_over k bucket p.idle; ended = stale ++ p.ended })

-- `acquire`
unfoldable pub acquire : Scene → Url → Config → Pool → Option ℕ × Pool
unfolding reap take_for key_at
acquire w url config p =
    let q = (reap w p).1 in
    if leb config.pool_size 0
    then (none, q)
    else take_for w config (key_at url config (w.identity url config)) q

-- `release`
unfoldable pub release : Scene → ℕ → Url → Config → Pool → Bool × Pool
unfolding reap release_now
release w s url config p = release_now w s url config (reap w p).1

-- `forget`
unfoldable pub forget : Pool → Pool
forget p = record p { idle = []; born = []; orphans = [] }

-- `clear`
abbrev pub sessions_of : Bucket → List ℕ
sessions_of [] = []
sessions_of ((when, s) ∷ bucket) = s ∷ sessions_of bucket

unfoldable pub close_all : List (Key × Bucket) → List ℕ → List ℕ
close_all [] ended = ended
close_all ((k, bucket) ∷ idle) ended = close_all idle (sessions_of bucket ++ ended)

unfoldable pub clear : Scene → Pool → Pool
unfolding reap close_all
clear w p = let q = (reap w p).1 in record q { idle = []; ended = close_all q.idle q.ended }

-- `__len__`
abbrev pub kept_in : List (Key × Bucket) → ℕ
kept_in [] = 0
kept_in ((k, bucket) ∷ idle) = length bucket + kept_in idle

unfoldable pub size : Scene → Pool → ℕ × Pool
unfolding reap
size w p = let q = (reap w p).1 in (kept_in q.idle, q)

-- `_Loan`, `join` and `leave`
unfoldable pub lend : ℕ → ℕ → Url → Config → Pool → Pool
lend l s url config p = record p {
  loans =
      put l (record { session = s; url = url; config = config; holders = 1; spoiled = false })
        p.loans;
}

abbrev pub joined : ℕ → Option Loan → Pool → Pool
joined l none p = p
joined l (some loan) p = record p {
  loans = put l (record loan { holders = loan.holders + 1 }) p.loans;
}

unfoldable pub join : ℕ → Pool → Pool
join l p = joined l (lookup l p.loans) p

abbrev pub left_with : Scene → Option Loan × Pool → Pool
left_with w (none, p) = p
left_with w (some loan, p) = or_close loan.session (release w loan.session loan.url loan.config p)

unfoldable pub leave : Scene → Bool → ℕ → Pool → Pool
unfolding leave_loan release
leave w spoiled l p = left_with w (leave_loan spoiled l p)
