-- ===== src/Session/Pool/Identity.antt =====
-- session/pool.py: `_identity`, the digest that stands for whoever a connection logs in as, and its
-- memory of the digests that it worked out.
--
-- What `repr` and SHA-256 return is a parameter, and a file's `stat` is its four numbers.
use xrdclient.Prelude.{
  ℕ, zero, suc, Bool, true, false, ◌&&◌, List, [], ◌∷◌, ◌++◌, Option, none, some, map, leb, ◌==◌,
  if◌then◌else◌, length, truthy,
}
use xrdclient.Errors.{Bytes}
use xrdclient.Session.Pool.{same_text}
use xrdclient.Session.Pool.Credentials.{Account, Moment, Finders, ambient_env, credential_files}

-- The auth_order, and the ambient variables of the environment.
abbrev pub Context : Type 0
Context = List Bytes × List (Option Bytes)

abbrev pub FileState : Type 0
FileState = Bytes × Option Bytes

-- Python's own, and the frozen fields of a config.
pub record Mechanisms : Type 0 where
  pub id : Account → ℕ
  pub username : Account → Bytes
  pub finders : Finders
  -- `repr` of a text, of an identity field of a config, and of the context with the states
  pub repr : Bytes → Bytes
  pub repr_field : Account → List Bytes → ℕ → Bytes
  pub repr_states : Context → List FileState → Bytes
  pub hexdigest : Bytes → Bytes

-- `_Known`
pub record Known : Type 0 where
  pub config : Account
  pub context : Context
  pub files : List Bytes
  pub states : List FileState
  pub digest : Bytes

-- `_DIGESTS`
abbrev pub Digests : Type 0
Digests = List ((ℕ × Bytes) × Known)

abbrev pub digests_max : ℕ
digests_max = 64

-- `_context`
abbrev pub context_of : Moment → Account → Context
context_of t c = (t.auth_order c, map t.getenv ambient_env)

-- `_state`
abbrev pub state_of : Moment → Bytes → FileState
state_of t path = (path, t.stat path)

-- the identity fields, each behind a NUL
abbrev pub fields_from : Mechanisms → Account → List Bytes → ℕ → ℕ → Bytes
fields_from py c order first zero = []
fields_from py c order first (suc n) =
    0 ∷ (py.repr_field c order first ++ fields_from py c order (suc first) n)

abbrev pub identity_fields : ℕ
identity_fields = 12

-- `_digest`
unfoldable pub digest_of : Mechanisms → Bytes → Account → Context → List FileState → Bytes
digest_of py user c context states = py.hexdigest (
    py.repr (if truthy user then user else py.username c)
    ++ (fields_from py c context.0 0 identity_fields ++ (0 ∷ py.repr_states context states)))

-- Python's `==` on a tuple, and on a value that may be None
module _ {A : Type 0} (same : A → A → Bool) where
  abbrev pub same_all : List A → List A → Bool
  same_all [] [] = true
  same_all [] (y ∷ ys) = false
  same_all (x ∷ xs) [] = false
  same_all (x ∷ xs) (y ∷ ys) = same x y && same_all xs ys

  abbrev pub same_maybe : Option A → Option A → Bool
  same_maybe none none = true
  same_maybe none (some y) = false
  same_maybe (some x) none = false
  same_maybe (some x) (some y) = same x y

abbrev pub same_context : Context → Context → Bool
same_context (order, env) (order', env') =
    same_all same_text order order' && same_all (same_maybe same_text) env env'

abbrev pub same_state : FileState → FileState → Bool
same_state (path, stat) (path', stat') = same_text path path' && same_maybe same_text stat stat'

-- _DIGESTS.get(key)
unfoldable pub known_at : ℕ → Bytes → Digests → Option Known
known_at a user [] = none
known_at a user (((b, name), known) ∷ digests) =
    if (b == a) && same_text name user then some known else known_at a user digests

-- _DIGESTS[key] = known
unfoldable pub remember : ℕ → Bytes → Known → Digests → Digests
remember a user known [] = ((a, user), known) ∷ []
remember a user known (((b, name), other) ∷ digests) =
    if (b == a) && same_text name user
    then ((b, name), known) ∷ digests
    else ((b, name), other) ∷ remember a user known digests

-- whether the digest of `_Known` still holds
abbrev pub still_holds : Moment → Account → Known → Bool
still_holds t c known =
    (known.config == c)
    && same_context known.context (context_of t c)
    && same_all same_state (map (state_of t) known.files) known.states

-- what is remembered when the digest is worked out
abbrev pub know : Mechanisms → Moment → Bytes → Account → Known
know py t user c =
    let files = credential_files py.finders t c in
    let states = map (state_of t) files in
    record {
      config = c;
      context = context_of t c;
      files = files;
      states = states;
      digest = digest_of py user c (context_of t c) states;
    }

unfoldable pub work_out : Mechanisms → Moment → Bytes → Account → Digests → Bytes × Digests
unfolding digest_of remember
work_out py t user c digests =
    let known = know py t user c in
    let room = if leb digests_max (length digests) then [] else digests in
    (known.digest, remember (py.id c) user known room)

abbrev pub recall : Mechanisms → Moment → Bytes → Account → Option Known → Digests → Bytes × Digests
recall py t user c none digests = work_out py t user c digests
recall py t user c (some known) digests =
    if still_holds t c known then (known.digest, digests) else work_out py t user c digests

-- `_identity`, of a URL's user
unfoldable pub identity : Mechanisms → Moment → Bytes → Account → Digests → Bytes × Digests
unfolding known_at work_out
identity py t user c digests = recall py t user c (known_at (py.id c) user digests) digests
