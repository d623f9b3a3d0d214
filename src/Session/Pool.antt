-- ===== src/Session/Pool.antt =====
-- session/pool.py: the connections that are kept for the next caller who wants the same one, and the
-- loans of session/router.py through which several routers use one.
--
-- A session is its object's identity, a natural number. What the pool asks of the world during a
-- call is a `Scene`, which stands still meanwhile. A bucket, and the log of the sessions that were
-- closed, have their newest entry first.
pub mod Calls
pub mod Credentials
pub mod Identity
pub mod Buckets
pub mod Takes
pub mod Recall
pub mod Safe
pub mod Ledger
pub mod Keeps
pub mod Runs
use xrdclient.Prelude.{
  ℕ, zero, suc, ◌+◌, ◌-◌, Bool, true, false, not, ◌&&◌, ◌||◌, List, [], ◌∷◌, ◌++◌, Option, none,
  some, map, ltb, leb, ◌==◌, if◌then◌else◌, length, truthy, Dict, lookup, put,
}
use xrdclient.Errors.{Bytes}

-- What the pool reads of an `XRootDURL`.
pub record Url : Type 0 where
  pub use_tls : Bool
  pub host : Bytes
  pub port : ℕ
  pub username : Bytes

-- What the pool reads of a `Config`. A pool size below zero counts as
-- zero, and a time to live is in whole seconds.
pub record Config : Type 0 where
  pub require_tls : Bool
  pub pool_size : ℕ
  pub pool_idle_ttl : ℕ

pub record Scene : Type 0 where
  -- `time.monotonic()`
  pub now : ℕ
  -- the flags of a session
  pub closed : ℕ → Bool
  pub broken : ℕ → Bool
  pub poolable : ℕ → Bool
  -- what `_identity` returns
  pub identity : Url → Config → Bytes

-- `Key`
pub record Key : Type 0 where
  pub tls : Bool
  pub host : Bytes
  pub port : ℕ
  pub who : Bytes

-- An idle session and since when it is.
abbrev pub Entry : Type 0
Entry = ℕ × ℕ

abbrev pub Bucket : Type 0
Bucket = List Entry

-- `_Loan`
pub record Loan : Type 0 where
  pub session : ℕ
  pub url : Url
  pub config : Config
  pub holders : ℕ
  pub spoiled : Bool

-- `Orphan`, with the loan that it has a share in
pub record Orphan : Type 0 where
  pub session : ℕ
  pub holder : Option ℕ
  pub url : Url
  pub config : Config

-- `SessionPool`, with the loans, and the sessions that were closed
pub record Pool : Type 0 where
  pub idle : List (Key × Bucket)
  pub born : Dict Bytes
  pub orphans : List Orphan
  pub loans : Dict Loan
  pub ended : List ℕ

abbrev pub new_pool : Pool
new_pool = record { idle = []; born = []; orphans = []; loans = []; ended = [] }

-- The equality of strings and of keys.
unfoldable pub same_text : Bytes → Bytes → Bool
same_text [] [] = true
same_text [] (y ∷ ys) = false
same_text (x ∷ xs) [] = false
same_text (x ∷ xs) (y ∷ ys) = (x == y) && same_text xs ys

abbrev pub same_flag : Bool → Bool → Bool
same_flag true b = b
same_flag false b = not b

unfoldable pub same_key : Key → Key → Bool
unfolding same_text
same_key a b =
    same_flag a.tls b.tls && same_text a.host b.host && (a.port == b.port) && same_text a.who b.who

-- self._idle.get(key, [])
unfoldable pub bucket_of : Key → List (Key × Bucket) → Bucket
unfolding same_key
bucket_of k [] = []
bucket_of k ((j, b) ∷ idle) = if same_key j k then b else bucket_of k idle

-- The bucket of a key changed in place, or a new one.
unfoldable pub put_bucket : Key → Bucket → List (Key × Bucket) → List (Key × Bucket)
unfolding same_key
put_bucket k b [] = (k, b) ∷ []
put_bucket k b ((j, c) ∷ idle) =
    if same_key j k then (j, b) ∷ idle else (j, c) ∷ put_bucket k b idle

-- self._idle.pop(key, None)
unfoldable pub pop_bucket : Key → List (Key × Bucket) → List (Key × Bucket)
unfolding same_key
pop_bucket k [] = []
pop_bucket k ((j, c) ∷ idle) = if same_key j k then idle else (j, c) ∷ pop_bucket k idle

-- `_where` and an identity
unfoldable pub key_at : Url → Config → Bytes → Key
key_at url config who = record {
  tls = url.use_tls || config.require_tls;
  host = url.host;
  port = url.port;
  who = who;
}

-- `_where(a, config) == _where(b, config)`
unfoldable pub same_server : Url → Url → Config → Bool
unfolding key_at same_key
same_server a b config = same_key (key_at a config []) (key_at b config [])

-- `_cannot_pool`
abbrev pub cannot_pool : Scene → ℕ → Config → Bool
cannot_pool w s config =
    if not (w.poolable s) then true else leb config.pool_size 0 || (w.closed s || w.broken s)

-- `when < cutoff`, for `cutoff = time.monotonic() - config.pool_idle_ttl`
abbrev pub is_stale : Scene → Config → ℕ → Bool
is_stale w config when = ltb (when + config.pool_idle_ttl) w.now

-- `_prune`: what stays, and the sessions of what does not
unfoldable pub prune : Scene → Config → Bucket → Bucket × List ℕ
prune w config [] = ([], [])
prune w config ((when, s) ∷ bucket) =
    let (kept, expired) = prune w config bucket in
    if is_stale w config when then (kept, s ∷ expired) else ((when, s) ∷ kept, expired)

-- `_keep`
abbrev pub keep : Scene → Bucket → ℕ → ℕ → Bool × Bucket
keep w bucket s maximum =
    if leb maximum (length bucket) then (false, bucket) else (true, (w.now, s) ∷ bucket)

-- `_take`, with the stale ones so far, the latest first
unfoldable pub take_from : Scene → Config → List ℕ → Bucket → Option ℕ × List ℕ × Bucket
take_from w config stale [] = (none, stale, [])
take_from w config stale ((when, s) ∷ bucket) =
    let dead = w.closed s || w.broken s in
    let older = take_from w config (if dead then stale else s ∷ stale) bucket in
    if dead || is_stale w config when then older else (some s, stale, bucket)

-- `_key_for`
abbrev pub or_now : Option Bytes → Bytes → Bytes
or_now none now = now
or_now (some who) now = if truthy who then who else now

unfoldable pub key_for : Scene → ℕ → Url → Config → Pool → Key
unfolding key_at
key_for w s url config p = key_at url config (or_now (lookup s p.born) (w.identity url config))

-- what `_release` does once the session may be pooled
unfoldable pub keep_in : Scene → ℕ → Config → Key → Pool → Bool × Pool
unfolding bucket_of put_bucket prune
keep_in w s config k p =
    let (fresh, expired) = prune w config (bucket_of k p.idle) in
    let (kept, bucket) = keep w fresh s config.pool_size in
    (kept, record p { idle = put_bucket k bucket p.idle; ended = expired ++ p.ended })

-- `_release`
unfoldable pub release_now : Scene → ℕ → Url → Config → Pool → Bool × Pool
unfolding keep_in key_for
release_now w s url config p =
    if cannot_pool w s config then (false, p) else keep_in w s config (key_for w s url config p) p

abbrev pub close_session : ℕ → Pool → Pool
close_session s p = record p { ended = s ∷ p.ended }

-- `if not self._release(...): session.close()`
abbrev pub or_close : ℕ → Bool × Pool → Pool
or_close s (true, p) = p
or_close s (false, p) = close_session s p
