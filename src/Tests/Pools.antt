-- ===== src/Tests/Pools.antt =====
-- The pool of sessions (session/pool.py) at concrete inputs.
use xrdclient.Prelude.{
  ℕ, ◌+◌, ◌≡◌, refl, ap, if◌then◌else◌, arith, true, false, List, [], ◌∷◌, ◌++◌, Option, none, some,
  ◌==◌, length,
}
use xrdclient.Errors.{Bytes}
use xrdclient.Session.Pool.{
  Url, Config, Scene, Orphan, Pool, Bucket, new_pool, key_at, key_for, bucket_of, put_bucket,
  pop_bucket, same_key, same_text, prune, take_from, keep_in, release_now,
}
use xrdclient.Session.Pool.Calls.{
  reap_from, reap, adopt, connect, take_for, acquire, release, leave, clear, left_over, lend, join,
  forget,
}
use xrdclient.Session.Pool.Credentials.{
  Moment, Finders, or_else, bearer_token_file, user_proxy, sss_kt, ccname, credential_files,
}
use xrdclient.Session.Pool.Identity.{Mechanisms, Digests, know, identity}
use xrdclient.Session.Pool.Recall.{Recalls, identity-Recalls}
use xrdclient.Session.Pool.Credentials.Ambient.{IsAmbient, nth}
use xrdclient.Session.Pool.Buckets.{Buckets}
use xrdclient.Session.Pool.Takes.{Newest, acquire-Newest}
use xrdclient.Session.Pool.Safe.{IsOf, Fits}
use xrdclient.Session.Pool.Ledger.{
  is_it, in_list, in_idle, in_queue, of_lookup, held, of_orphan, taken_it,
}
use xrdclient.Session.Pool.Ledger.Calls.{Leaves, joined_it}
use xrdclient.Session.Pool.Runs.{
  Stage, Call, step, Reach, beginning, Reach-acquire, Reach-Fits, pool-Conserves,
}

abbrev url : Url
url = record { use_tls = true; host = 104 ∷ []; port = 1094; username = [] }

abbrev config : Config
config = record { require_tls = false; pool_size = 2; pool_idle_ttl = 60 }

-- a scene at some second, where session 9 is closed
abbrev at : ℕ → Scene
at second = record {
  now = second;
  closed = λ s. s == 9;
  broken = λ s. false;
  poolable = λ s. true;
  identity = λ u c. 1 ∷ 2 ∷ [];
}

-- two sessions were dialled, and the first was given back
abbrev in_use : Stage
in_use =
    step (at 30) (Call.releases 5 url config)
      (step (at 20) (Call.dials 6 url config) (step (at 10) (Call.dials 5 url config) beginning))

in_use-Reach : Reach 2 in_use
unfolding step connect reap reap_from
in_use-Reach =
    Reach.after (at 30) (Call.releases 5 url config) (omega arith, omega arith)
      (Reach.after (at 20) (Call.dials 6 url config) refl
        (Reach.after (at 10) (Call.dials 5 url config) refl Reach.here))

abbrev handed_out : Option ℕ × Pool
handed_out = acquire (at 40) url config in_use.pool

handed_out_lem : handed_out ≡ (some 5, handed_out.1)
unfolding step connect release release_now reap reap_from acquire take_for take_from bucket_of
    put_bucket pop_bucket same_key same_text key_at key_for keep_in prune
handed_out_lem = refl

Reach-acquire_example :
    IsOf handed_out.1.born (1 ∷ 2 ∷ []) 5 × (held 5 handed_out.1 + in_list 5 in_use.used ≡ 0)
Reach-acquire_example =
    Reach-acquire 2 in_use (at 40) url config 5 handed_out.1 in_use-Reach handed_out_lem

Reach-Fits_example : Buckets (Fits in_use.pool.born 2) in_use.pool.idle
Reach-Fits_example = Reach-Fits 2 in_use in_use-Reach

acquire-Newest_example :
    let q = (reap (at 40) in_use.pool).1 in
    let k = key_at url config (1 ∷ 2 ∷ []) in
    (r : Option ℕ × List ℕ × Bucket) × Newest (at 40) config (bucket_of k q.idle) r
    × (acquire (at 40) url config in_use.pool
        ≡ (r.0, record q { idle = left_over k r.2 q.idle; ended = r.1 ++ q.ended }))
acquire-Newest_example = acquire-Newest (at 40) url config in_use.pool refl

abbrev orphan : Orphan
orphan = record { session = 6; holder = none; url = url; config = config }

pool-Conserves_example :
    Leaves 6
      (at 40)
      (acquire (at 40) url config (adopt orphan new_pool))
      (held 6 (adopt orphan new_pool))
    × (held 6 (release (at 40) 5 url config (adopt orphan new_pool)).1
        ≡ held 6 (adopt orphan new_pool)
          + taken_it 6 (release (at 40) 5 url config (adopt orphan new_pool)).0 5)
    × (held 6 (adopt orphan (adopt orphan new_pool))
        ≡ held 6 (adopt orphan new_pool) + of_orphan 6 orphan.holder orphan.session)
    × (held 6 (connect (at 40) (some 5) url config (adopt orphan new_pool))
        ≡ held 6 (adopt orphan new_pool))
    × (held 6 (reap (at 40) (adopt orphan new_pool)).1 ≡ held 6 (adopt orphan new_pool))
    × (held 6 (leave (at 40) false 3 (adopt orphan new_pool)) ≡ held 6 (adopt orphan new_pool))
    × (held 6 (clear (at 40) (adopt orphan new_pool)) ≡ held 6 (adopt orphan new_pool))
    × (held 6 (lend 3 5 url config (adopt orphan new_pool)) + of_lookup 6 none
        ≡ held 6 (adopt orphan new_pool) + is_it 6 5)
    × (held 6 (join 3 (adopt orphan new_pool)) + of_lookup 6 none
        ≡ held 6 (adopt orphan new_pool) + joined_it 6 none)
    × (held 6 (forget (adopt orphan new_pool))
          + (in_idle 6 [] + in_queue 6 (adopt orphan new_pool).orphans)
        ≡ held 6 (adopt orphan new_pool))
unfolding adopt
pool-Conserves_example =
    pool-Conserves 6 (at 40) url config (adopt orphan new_pool) 5 3 orphan false

-- what stands in for xrdsec: a token file and a proxy that the environment may name, and a ticket file
abbrev finders : Finders
finders = record {
  token = λ c. none;
  token_file = λ c. none;
  keytab = λ c. none;
  proxy = λ c. none;
  usercert = λ c. none;
  userkey = λ c. none;
  explicit_token_file = λ t file. file;
  bearer_token_files =
      λ t file. (or_else file (or_else (t.getenv bearer_token_file) (47 ∷ 116 ∷ [])), true) ∷ [];
  environment_proxy = λ t. or_else (t.getenv user_proxy) (47 ∷ 120 ∷ []);
  ccache_name = λ t. or_else (t.getenv ccname) (47 ∷ 107 ∷ []);
  resolve_ccache = λ t name. some name;
}

finders-IsAmbient : IsAmbient finders
finders-IsAmbient = record {
  explicit_ambient = λ t t' file env. refl;
  tokens_ambient = λ t t' file env.
      ap
        (λ (e : List (Option Bytes)). (or_else file (or_else (nth 1 e) (47 ∷ 116 ∷ [])), true) ∷ [])
        env;
  proxy_ambient =
      λ t t' env. ap (λ (e : List (Option Bytes)). or_else (nth 3 e) (47 ∷ 120 ∷ [])) env;
}

abbrev python : Mechanisms
python = record {
  id = λ c. 1000 + c;
  username = λ c. 117 ∷ [];
  finders = finders;
  repr = λ text. text;
  repr_field = λ c order n. n ∷ [];
  repr_states = λ context states. length states ∷ [];
  hexdigest = λ text. text;
}

abbrev order : List Bytes
order = (122 ∷ 116 ∷ 110 ∷ []) ∷ (115 ∷ 115 ∷ 115 ∷ []) ∷ (107 ∷ 114 ∷ 98 ∷ 53 ∷ []) ∷ []

-- the environment names a keytab, and the same ticket file throughout
abbrev environ : Bytes → Bytes → Option Bytes
environ keytab name =
    if same_text name sss_kt
    then some keytab
    else (if same_text name ccname then some (47 ∷ 99 ∷ []) else none)

abbrev moment : Bytes → Moment
moment keytab = record {
  auth_order = λ c. order;
  getenv = environ keytab;
  home = 47 ∷ 104 ∷ [];
  stat = λ path. some (1 ∷ length path ∷ []);
}

abbrev earlier : Moment
earlier = moment (47 ∷ 97 ∷ [])

-- when the keytab was another one
abbrev later : Moment
later = moment (47 ∷ 98 ∷ 98 ∷ [])

abbrev remembered : Digests
remembered = ((1007, []), know python earlier [] 7) ∷ []

identity-Recalls_example : Recalls python later [] 7 (identity python later [] 7 remembered)
unfolding same_text
identity-Recalls_example =
    identity-Recalls python later [] 7 remembered finders-IsAmbient
      ((earlier, refl, (refl, refl)), tt) (omega arith)

earlier-files :
    credential_files finders earlier 7 ≡ (47 ∷ 116 ∷ []) ∷ (47 ∷ 97 ∷ []) ∷ (47 ∷ 99 ∷ []) ∷ []
unfolding credential_files same_text
earlier-files = refl
