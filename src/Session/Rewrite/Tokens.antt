-- ===== src/Session/Rewrite/Tokens.antt =====
-- The token of a redirect on the paths of a request (session/_rewrite.py: `_retarget`).
use xrdclient.Prelude.{
  ℕ, ◌≡◌, refl, sym, ap, ◌∙◌, subst, arith, Bool, true, false, List, [], ◌∷◌, ◌++◌, Option, none,
  some, ◌==◌, map, Dict, lookup, put, mem, keys, lookup-put, Bool-cases, inl, inr,
}
use xrdclient.Errors.{Bytes}
use xrdclient.Session.Text.{split, partition}
use xrdclient.Session.Text.Laws.{split-split, partition-append, partition-lacking, partition-found}
use xrdclient.Session.Rewrite.{
  Field, one, many, PathFields, and_sign, question_mark, with_token, retoken, retarget,
}

-- Requests whose fields agree except where a token goes.
abbrev AgreesOutside : List ℕ → Dict Field → Dict Field → Type 0
AgreesOutside names request other =
    (j : ℕ) → mem j names ≡ false → lookup j request ≡ lookup j other

retarget-agrees :
    (token : Bytes) (original : PathFields) (request other : Dict Field)
    → AgreesOutside (keys original) request other
    → (j : ℕ)
    → lookup j (retarget request original token) ≡ lookup j (retarget other original token)
unfolding retarget
retarget-agrees token [] request other h j = h j refl
retarget-agrees token ((name, value) ∷ original) request other h j =
    retarget-agrees token original (put name (retoken token value) request)
      (put name (retoken token value) other)
      (λ i outside. ground (
        arith,
        lookup-put name i (retoken token value) request,
        lookup-put name i (retoken token value) other,
        h i,
        outside,
      ))
      j

retarget-outside :
    (token : Bytes) (original : PathFields) (request : Dict Field)
    → AgreesOutside (keys original) (retarget request original token) request
unfolding retarget
retarget-outside token [] request j outside = refl
retarget-outside token ((name, value) ∷ original) request j outside = ground (
  arith,
  retarget-outside token original (put name (retoken token value) request) j,
  lookup-put name j (retoken token value) request,
  outside,
)

-- The parameters of the query of a path, none where it has no query.
abbrev pub params_in : Bytes × Bool × Bytes → List Bytes
params_in (base, false, query) = []
params_in (base, true, query) = split and_sign query

abbrev pub params_of : Bytes → List Bytes
params_of path = params_in (partition question_mark path)

-- What a path says with a token: it has the base of the path without it, and the parameters of that
-- path and then those of the token. An empty token says nothing, and an empty path stays empty.
abbrev pub Carries : Bytes → Bytes → Bytes → Type 0
Carries [] path path' = path' ≡ path
Carries (t ∷ token) [] path' = path' ≡ []
Carries (t ∷ token) (b ∷ path) path' =
    ((partition question_mark path').0 ≡ (partition question_mark (b ∷ path)).0)
    × (params_of path' ≡ params_of (b ∷ path) ++ split and_sign (t ∷ token))

abbrev pub AllCarry : Bytes → List Bytes → List Bytes → Type 0
AllCarry token [] paths' = paths' ≡ []
AllCarry token (path ∷ paths) [] = ⊥
AllCarry token (path ∷ paths) (path' ∷ paths') =
    Carries token path path' × AllCarry token paths paths'

abbrev pub FieldCarries : Bytes → Field → Option Field → Type 0
FieldCarries token (one path) field' =
    (path' : Bytes) × (field' ≡ some (one path')) × Carries token path path'
FieldCarries token (many paths) field' =
    (paths' : List Bytes) × (field' ≡ some (many paths')) × AllCarry token paths paths'

-- What a field is after a hop: what it was, if it has no path in the snapshot, or its path of the
-- snapshot with the token.
abbrev pub Retargeted : Bytes → Option Field → Option Field → Option Field → Type 0
Retargeted token none before after = after ≡ before
Retargeted token (some value) before after = FieldCarries token value after

-- A snapshot has each field once.
abbrev pub IsSnapshot : PathFields → Type 0
IsSnapshot [] = Unit
IsSnapshot ((name, value) ∷ original) = (mem name (keys original) ≡ false) × IsSnapshot original

params_in-found : (r : Bytes × Bool × Bytes) → r.1 ≡ true → params_in r ≡ split and_sign r.2
params_in-found (base, false, query) h = ground (arith, h)
params_in-found (base, true, query) h = refl

with_token-Carries : (path token : Bytes) → Carries token path (with_token path token)
unfolding with_token
with_token-Carries path [] = refl
with_token-Carries [] (t ∷ token) = refl
with_token-Carries (b ∷ path) (t ∷ token) = elim (Bool-cases (mem question_mark (b ∷ path))) [
  | inl e ↦
      let query = (partition question_mark (b ∷ path)).2 in
      let found = partition-found question_mark (b ∷ path) (and_sign ∷ (t ∷ token)) e in
      rw (e, found.1)
        (
          refl,
          split-split and_sign query (t ∷ token)
              ∙ ap (λ (ps : List Bytes). ps ++ split and_sign (t ∷ token))
                  (sym (params_in-found (partition question_mark (b ∷ path)) found.0)),
        )
  | inr e ↦
      rw
        (
          e,
          partition-append question_mark (b ∷ path) (t ∷ token) e,
          partition-lacking question_mark (b ∷ path) e,
        )
        (refl, refl)
]

map-AllCarry :
    (token : Bytes) (paths : List Bytes)
    → AllCarry token paths (map (λ path. with_token path token) paths)
map-AllCarry token [] = refl
map-AllCarry token (path ∷ paths) = (with_token-Carries path token, map-AllCarry token paths)

retoken-FieldCarries :
    (token : Bytes) (value : Field) → FieldCarries token value (some (retoken token value))
retoken-FieldCarries token (one path) = (with_token path token, refl, with_token-Carries path token)
retoken-FieldCarries token (many paths) =
    (map (λ path. with_token path token) paths, refl, map-AllCarry token paths)

lookup-keys :
    (j : ℕ) (original : PathFields) → mem j (keys original) ≡ false → lookup j original ≡ none
lookup-keys j [] h = refl
lookup-keys j ((name, value) ∷ original) h = ground (arith, lookup-keys j original, h)

retarget-Retargeted :
    (token : Bytes) (original : PathFields) (request : Dict Field) (j : ℕ)
    → IsSnapshot original
    → Retargeted token
        (lookup j original)
        (lookup j request)
        (lookup j (retarget request original token))
unfolding retarget
retarget-Retargeted token [] request j once = refl
retarget-Retargeted token ((name, value) ∷ original) request j once =
    let new = retoken token value in
    let rest = retarget-Retargeted token original (put name new request) j once.1 in
    let after = lookup-put name j new request in
    elim (Bool-cases (name == j)) [
      | inl e ↦
          let absent : mem j (keys original) ≡ false = ground (arith, once.0, e) in
          let kept : lookup j (retarget (put name new request) original token) ≡ some new =
            retarget-outside token original (put name new request) j absent ∙ after ∙ rw e refl in
          rw (e, kept) (retoken-FieldCarries token value)
      | inr e ↦
          let put_elsewhere : lookup j (put name new request) ≡ lookup j request =
            after ∙ rw e refl in
          rw e (
            subst
              (λ (before : Option Field).
                Retargeted token (lookup j original) before
                  (lookup j (retarget (put name new request) original token)))
              put_elsewhere rest)
    ]

-- A redirect's token takes the place of the one of the redirect before, on every field, where the
-- snapshot has each field once. What a request says after both hops is what it would say after the
-- second alone: a path of the snapshot, also one in a list, keeps its base, and the token's parameters
-- stand behind its own; an empty path stays empty, and an empty token changes nothing of the snapshot;
-- and the fields that are not in the snapshot are as they were.
pub retarget-retarget :
    (request : Dict Field) (original : PathFields) (first second : Bytes)
    → IsSnapshot original
    → (j : ℕ)
    → (lookup j (retarget (retarget request original first) original second)
        ≡ lookup j (retarget request original second))
      × Retargeted second
          (lookup j original)
          (lookup j request)
          (lookup j (retarget request original second))
retarget-retarget request original first second once j = (
  retarget-agrees second original (retarget request original first) request
      (retarget-outside first original request) j,
  retarget-Retargeted second original request j once,
)
