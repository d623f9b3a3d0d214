-- ===== src/Session/Rewrite/Merge.antt =====
-- Lists of hosts that are merged (session/_rewrite.py: `tried`).
use xrdclient.Prelude.{
  ◌≡◌, refl, sym, ◌∙◌, subst, arith, true, false, ◌||◌, List, [], ◌∷◌, ◌++◌, All, All-append,
  append_assoc, append-nil, Bool-cases, inl, inr,
}
use xrdclient.Errors.{Bytes}
use xrdclient.Session.Pool.{same_text}
use xrdclient.Session.Pool.Buckets.{same_text-eq}
use xrdclient.Session.Text.{among}
use xrdclient.Session.Text.Laws.{among-append, same_text_sym}
use xrdclient.Session.Rewrite.{tried, merged}
use xrdclient.Session.Rewrite.Tried.{Distinct}

-- The merge of two lists of hosts: those of both, each once.
among-tried :
    (t : Bytes) (hosts : List Bytes) (host : Bytes)
    → among t (tried hosts host) ≡ (same_text host t || among t hosts)
unfolding tried
among-tried t hosts host = elim (Bool-cases (among host hosts)) [
  | inl e ↦ rw e (elim (Bool-cases (same_text host t)) [
    | inl f ↦
        let same : host ≡ t = same_text-eq host t f in
        rw f (subst (λ (u : Bytes). among u hosts ≡ true) same e)
    | inr f ↦ rw f refl
  ])
  | inr e ↦ rw e (ground (arith, among-append t hosts (host ∷ [])))
]

pub among-merged :
    (t : Bytes) (names more : List Bytes)
    → among t (merged names more) ≡ (among t names || among t more)
unfolding merged
among-merged t names [] = ground arith
among-merged t names (host ∷ more) =
    ground (arith, among-merged t (tried names host) more, among-tried t names host)

tried-All :
    (P : Bytes → Type 0) (names : List Bytes) (host : Bytes)
    → All P names
    → P host
    → All P (tried names host)
unfolding tried
tried-All P names host h k = elim (Bool-cases (among host names)) [
  | inl e ↦ rw e h
  | inr e ↦ rw e (All-append P names (host ∷ []) h (k, tt))
]

pub merged-All :
    (P : Bytes → Type 0) (names more : List Bytes)
    → All P names
    → All P more
    → All P (merged names more)
unfolding merged
merged-All P names [] h k = h
merged-All P names (host ∷ more) h k =
    merged-All P (tried names host) more (tried-All P names host h k.0) k.1

pub merged-append :
    (names more others : List Bytes)
    → merged names (more ++ others) ≡ merged (merged names more) others
unfolding merged
merged-append names [] others = refl
merged-append names (host ∷ more) others = merged-append (tried names host) more others

-- A text that is not in a list keeps it without repetition.
Distinct-append :
    (names : List Bytes) (host : Bytes)
    → Distinct names
    → among host names ≡ false
    → Distinct (names ++ (host ∷ []))
Distinct-append [] host d e = (refl, tt)
Distinct-append (u ∷ names) host d e = (
  ground (arith, among-append u names (host ∷ []), d.0, same_text_sym u host, e),
  Distinct-append names host d.1 (ground (arith, e)),
)

tried-Distinct : (names : List Bytes) (host : Bytes) → Distinct names → Distinct (tried names host)
unfolding tried
tried-Distinct names host d = elim (Bool-cases (among host names)) [
  | inl e ↦ rw e d
  | inr e ↦ rw e (Distinct-append names host d e)
]

pub merged-Distinct : (names more : List Bytes) → Distinct names → Distinct (merged names more)
unfolding merged
merged-Distinct names [] d = d
merged-Distinct names (host ∷ more) d =
    merged-Distinct (tried names host) more (tried-Distinct names host d)

abbrev AreNew : List Bytes → List Bytes → Type 0
AreNew names more = All (λ (t : Bytes). among t names ≡ false) more

AreNew-append :
    (names more : List Bytes) (host : Bytes)
    → AreNew names more
    → among host more ≡ false
    → AreNew (names ++ (host ∷ [])) more
AreNew-append names [] host new e = tt
AreNew-append names (t ∷ more) host new e = (
  ground (arith, among-append t names (host ∷ []), new.0, same_text_sym t host, e),
  AreNew-append names more host new.1 (ground (arith, e)),
)

merged-append_new :
    (names more : List Bytes)
    → AreNew names more
    → Distinct more
    → merged names more ≡ names ++ more
unfolding merged tried
merged-append_new names [] new d = sym (append-nil names)
merged-append_new names (host ∷ more) new d = rw new.0 (
    merged-append_new (names ++ (host ∷ [])) more (AreNew-append names more host new.1 d.0) d.1
    ∙ append_assoc names (host ∷ []) more)

-- A list without repetition is merged as it is.
pub merged-nil : (more : List Bytes) → Distinct more → merged [] more ≡ more
merged-nil more d = merged-append_new [] more (new more) d
  where
    new : (ts : List Bytes) → AreNew [] ts
    new [] = tt
    new (t ∷ ts) = (refl, new ts)
