-- ===== src/Exec.antt =====
-- Methods that change an object and may raise. What was written before a raise stays written, so
-- the state comes back beside the error too.
use xrdclient.Prelude.{Bool, true, false, ◌≡◌, refl, ap, arith}
use xrdclient.Errors.{Fault, Result, ok, err}

abbrev pub Exec {ℓ} : Type ℓ → Type ℓ → Type ℓ
Exec S A = S → Result A × S

module _ {ℓ} {S A : Type ℓ} where
  abbrev pub pure : A → Exec S A
  pure a s = (ok a, s)

  abbrev pub raise : Fault → Exec S A
  raise e s = (err e, s)

  abbrev pub lift : Result A → Exec S A
  lift r s = (r, s)

  abbrev pub gets : (S → A) → Exec S A
  gets f s = (ok (f s), s)

module _ {ℓ} {S A B : Type ℓ} where
  abbrev pub continue : Result A → S → (A → Exec S B) → Result B × S
  continue (ok a) s f = f a s
  continue (err e) s f = (err e, s)

  infixl 10 ◌>>=◌ ◌>>◌
  abbrev pub ◌>>=◌ : Exec S A → (A → Exec S B) → Exec S B
  ◌>>=◌ m f s = continue (m s).0 (m s).1 f

  abbrev pub ◌>>◌ : Exec S A → Exec S B → Exec S B
  m >> n = m >>= λ _. n

module _ {S : Type 0} where
  abbrev pub modify : (S → S) → Exec S (Unit {0})
  modify f s = (ok tt, f s)

  -- `if b: raise e`
  abbrev pub refuse_if : Bool → Fault → Exec S (Unit {0})
  refuse_if true e s = (err e, s)
  refuse_if false e s = (ok tt, s)

-- A sequence that returns has a first part that returned.
module _ {S A B : Type 0} where
  continue-ok :
      (r : Result A) (s : S) (f : A → Exec S B) (b : B) (t : S)
      → continue r s f ≡ (ok b, t)
      → (a : A) × (r ≡ ok a) × (f a s ≡ (ok b, t))
  continue-ok (ok a) s f b t e = (a, refl, e)
  continue-ok (err x) s f b t e = ground (arith, e)

  pub bind-ok :
      (m : Exec S A) (f : A → Exec S B) (s : S) (b : B) (t : S)
      → (m >>= f) s ≡ (ok b, t)
      → (a : A) × (s' : S) × (m s ≡ (ok a, s')) × (f a s' ≡ (ok b, t))
  bind-ok m f s b t e =
      let (a, first, rest) = continue-ok (m s).0 (m s).1 f b t e in
      (a, (m s).1, ap (λ (r : Result A). (r, (m s).1)) first, rest)
