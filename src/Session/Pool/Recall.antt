-- ===== src/Session/Pool/Recall.antt =====
-- The digests that `_identity` remembers are the ones that it would work out (session/pool.py).
use xrdclient.Prelude.{
  ℕ, suc, ◌≤◌, ◌≡◌, refl, sym, subst, arith, Bool, true, false, ◌&&◌, List, [], ◌∷◌, Option, none,
  some, map, leb, ◌==◌, length, Bool-cases, inl, inr, ◌∙◌, ap,
}
use xrdclient.Errors.{Bytes}
use xrdclient.Session.Pool.{same_text}
use xrdclient.Session.Pool.Buckets.{same_text-eq}
use xrdclient.Session.Pool.Credentials.{Account, Moment, credential_files}
use xrdclient.Session.Pool.Credentials.Ambient.{IsAmbient, IsSettled, credential_files-same}
use xrdclient.Session.Pool.Identity.{
  Context, FileState, Mechanisms, Known, Digests, digests_max, context_of, state_of, digest_of,
  same_all, same_maybe, same_context, same_state, known_at, remember, still_holds, know, work_out,
  recall, identity,
}

module _ {A : Type 0} (same : A → A → Bool) (eq : (x y : A) → same x y ≡ true → x ≡ y) where
  same_all-eq : (xs ys : List A) → same_all same xs ys ≡ true → xs ≡ ys
  same_all-eq [] [] e = refl
  same_all-eq [] (y ∷ ys) e = ground (arith, e)
  same_all-eq (x ∷ xs) [] e = ground (arith, e)
  same_all-eq (x ∷ xs) (y ∷ ys) e = ground (arith, eq x y, same_all-eq xs ys, e)

  same_maybe-eq : (x y : Option A) → same_maybe same x y ≡ true → x ≡ y
  same_maybe-eq none none e = refl
  same_maybe-eq none (some y) e = ground (arith, e)
  same_maybe-eq (some x) none e = ground (arith, e)
  same_maybe-eq (some x) (some y) e = ground (arith, eq x y, e)

same_context-eq : (a b : Context) → same_context a b ≡ true → a ≡ b
same_context-eq (order, env) (order', env') e = ground (
  arith,
  same_all-eq same_text same_text-eq order order',
  same_all-eq (same_maybe same_text) (same_maybe-eq same_text same_text-eq) env env',
  e,
)

same_state-eq : (a b : FileState) → same_state a b ≡ true → a ≡ b
same_state-eq (path, stat) (path', stat') e =
    ground (arith, same_text-eq path path', same_maybe-eq same_text same_text-eq stat stat', e)

same_account : (d c : Account) → (d == c) ≡ true → d ≡ c
same_account d c e = ground (arith, e)

all_true : (a b d : Bool) → (a && b && d) ≡ true → (a ≡ true) × (b ≡ true) × (d ≡ true)
all_true true true d e = (refl, refl, e)
all_true true false d e = ground (arith, e)
all_true false b d e = ground (arith, e)

-- What is remembered was worked out once, for this user and this object, when the home directory and
-- the files of Kerberos were those of now.
abbrev pub WorkedOut : Mechanisms → Moment → Bytes → Known → Type 0
WorkedOut py now user known =
    (t : Moment) × (known ≡ know py t user known.config) × IsSettled py.finders now t known.config

abbrev pub AreWorkedOut : Mechanisms → Moment → Digests → Type 0
AreWorkedOut py now [] = Unit {0}
AreWorkedOut py now (((a, name), known) ∷ digests) =
    WorkedOut py now name known × AreWorkedOut py now digests

module _ (py : Mechanisms) (now : Moment) where
  known_at-WorkedOut :
      (a : ℕ) (user : Bytes) (digests : Digests) (known : Known)
      → AreWorkedOut py now digests
      → known_at a user digests ≡ some known
      → WorkedOut py now user known
  unfolding known_at
  known_at-WorkedOut a user [] known h e = ground (arith, e)
  known_at-WorkedOut a user (((b, name), other) ∷ digests) known h e =
      elim (Bool-cases ((b == a) && same_text name user)) [
        | inl f ↦
            let same : name ≡ user = same_text-eq name user (ground (arith, f)) in
            let it : other ≡ known = ground (arith, e, f) in
            subst (λ (u : Bytes). WorkedOut py now u known) same
              (subst (λ (k : Known). WorkedOut py now name k) it h.0)
        | inr f ↦ known_at-WorkedOut a user digests known h.1 (ground (arith, e, f))
      ]

  remember-AreWorkedOut :
      (a : ℕ) (user : Bytes) (known : Known) (digests : Digests)
      → WorkedOut py now user known
      → AreWorkedOut py now digests
      → AreWorkedOut py now (remember a user known digests)
  unfolding remember
  remember-AreWorkedOut a user known [] new h = (new, tt)
  remember-AreWorkedOut a user known (((b, name), other) ∷ digests) new h =
      elim (Bool-cases ((b == a) && same_text name user)) [
        | inl f ↦
            let same : name ≡ user = same_text-eq name user (ground (arith, f)) in
            rw f (subst (λ (u : Bytes). WorkedOut py now u known) (sym same) new, h.1)
        | inr f ↦ rw f (h.0, remember-AreWorkedOut a user known digests new h.1)
      ]

  remember-length :
      (a : ℕ) (user : Bytes) (known : Known) (digests : Digests)
      → length (remember a user known digests) ≤ suc (length digests)
  unfolding remember
  remember-length a user known [] = omega arith
  remember-length a user known (((b, name), other) ∷ digests) =
      ground (arith, remember-length a user known digests)

  -- What `_identity` comes to.
  abbrev pub Recalls : Bytes → Account → Bytes × Digests → Type 0
  Recalls user c (digest, digests) =
      (digest ≡ (know py now user c).digest)
      × AreWorkedOut py now digests
      × (length digests ≤ digests_max)

  work_out-Recalls :
      (user : Bytes) (c : Account) (digests : Digests)
      → AreWorkedOut py now digests
      → length digests ≤ digests_max
      → Recalls user c (work_out py now user c digests)
  unfolding work_out
  work_out-Recalls user c digests h few =
      let known = know py now user c in
      let new : WorkedOut py now user known = (now, refl, (refl, refl)) in
      elim (Bool-cases (leb digests_max (length digests))) [
        | inl e ↦ rw e (
          refl,
          remember-AreWorkedOut (py.id c) user known [] new tt,
          omega (arith, remember-length (py.id c) user known []),
        )
        | inr e ↦ rw e (
          refl,
          remember-AreWorkedOut (py.id c) user known digests new h,
          ground (arith, remember-length (py.id c) user known digests, e),
        )
      ]

  module _ (ambient : IsAmbient py.finders) where
    same_digest :
        (t : Moment) (user : Bytes) (c : Account)
        → IsSettled py.finders now t c
        → context_of t c ≡ context_of now c
        → let files = credential_files py.finders t c in
          map (state_of now) files ≡ map (state_of t) files
          → (know py t user c).digest ≡ (know py now user c).digest
    same_digest t user c settled ctx states =
        let read = credential_files py.finders t c in
        let files = credential_files-same py.finders now t c ambient settled (sym ctx) in
        ap (λ (x : Context). digest_of py user c x (map (state_of t) read)) ctx
        ∙ ap (digest_of py user c (context_of now c))
            (sym states ∙ ap (λ (ps : List Bytes). map (state_of now) ps) (sym files))

    -- A digest that still holds is the one that would be worked out now.
    still_holds-digest :
        (t : Moment) (user : Bytes) (c d : Account)
        → IsSettled py.finders now t d
        → still_holds now c (know py t user d) ≡ true
        → (know py t user d).digest ≡ (know py now user c).digest
    still_holds-digest t user c d settled e =
        let files = credential_files py.finders t d in
        let parts =
          all_true (d == c) (same_context (context_of t d) (context_of now c))
            (same_all same_state (map (state_of now) files) (map (state_of t) files)) e in
        let is : d ≡ c = same_account d c parts.0 in
        let ctx : context_of t d ≡ context_of now c =
          same_context-eq (context_of t d) (context_of now c) parts.1 in
        let states : map (state_of now) files ≡ map (state_of t) files =
          same_all-eq same_state same_state-eq (map (state_of now) files) (map (state_of t) files)
            parts.2 in
        same_digest t user d settled
          (subst (λ (a : Account). context_of t d ≡ context_of now a) (sym is) ctx) states
        ∙ ap (λ (a : Account). (know py now user a).digest) is

    recall-Recalls :
        (user : Bytes) (c : Account) (found : Option Known) (digests : Digests)
        → ((known : Known) → found ≡ some known → WorkedOut py now user known)
        → AreWorkedOut py now digests
        → length digests ≤ digests_max
        → Recalls user c (recall py now user c found digests)
    recall-Recalls user c none digests was h few = work_out-Recalls user c digests h few
    recall-Recalls user c (some known) digests was h few =
        elim (Bool-cases (still_holds now c known)) [
          | inl e ↦
              let (t, it, settled) = was known refl in
              let holds : still_holds now c (know py t user known.config) ≡ true =
                subst (λ (k : Known). still_holds now c k ≡ true) it e in
              rw e (
                ap (λ (k : Known). k.digest) it
                    ∙ still_holds-digest t user c known.config settled holds,
                h,
                few,
              )
          | inr e ↦ rw e (work_out-Recalls user c digests h few)
        ]

-- Given that xrdsec looks at no variable of the environment but those of AMBIENT_ENV to find token files
-- and the proxy, and that what is remembered was worked out while the home directory, and which files
-- Kerberos would read if it is in the order, were as now: `_identity` returns the digest that it would
-- work out afresh, whatever else has changed since, and goes on remembering only what it worked out,
-- for at most 64 configs and users.
pub identity-Recalls :
    (py : Mechanisms) (now : Moment) (user : Bytes) (c : Account) (digests : Digests)
    → IsAmbient py.finders
    → AreWorkedOut py now digests
    → length digests ≤ digests_max
    → Recalls py now user c (identity py now user c digests)
unfolding identity
identity-Recalls py now user c digests ambient h few =
    recall-Recalls py now ambient user c (known_at (py.id c) user digests) digests
      (λ known e. known_at-WorkedOut py now (py.id c) user digests known h e) h few
