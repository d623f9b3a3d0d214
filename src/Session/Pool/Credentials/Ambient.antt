-- ===== src/Session/Pool/Credentials/Ambient.antt =====
-- What decides which files the mechanisms would read a credential from (auth/__init__.py:
-- `credential_files`, `AMBIENT_ENV`).
use xrdclient.Prelude.{ℕ, zero, suc, ◌≡◌, refl, ap, ◌∙◌, List, [], ◌∷◌, ◌++◌, Option, none, map}
use xrdclient.Errors.{Bytes}
use xrdclient.Session.Pool.Credentials.{
  Account, Moment, Finders, ambient_env, sss_kt, old_sss_kt, ticket_files, other_files,
  credential_files,
}
use xrdclient.Session.Pool.Identity.{Context, context_of}

-- What xrdsec finds depends on the environment by the variables of AMBIENT_ENV alone: the discovery of
-- a token file, and the proxy that the environment names.
pub record IsAmbient (py : Finders) : Type 0 where
  pub explicit_ambient :
      (t t' : Moment) (file : Option Bytes)
      → map t.getenv ambient_env ≡ map t'.getenv ambient_env
      → py.explicit_token_file t file ≡ py.explicit_token_file t' file
  pub tokens_ambient :
      (t t' : Moment) (file : Option Bytes)
      → map t.getenv ambient_env ≡ map t'.getenv ambient_env
      → py.bearer_token_files t file ≡ py.bearer_token_files t' file
  pub proxy_ambient :
      (t t' : Moment)
      → map t.getenv ambient_env ≡ map t'.getenv ambient_env
      → py.environment_proxy t ≡ py.environment_proxy t'

-- What `_identity` does not look at: the home directory, and which files Kerberos would read.
abbrev pub IsSettled : Finders → Moment → Moment → Account → Type 0
IsSettled py now t c = (now.home ≡ t.home) × (ticket_files py now c ≡ ticket_files py t c)

abbrev pub nth : ℕ → List (Option Bytes) → Option Bytes
nth n [] = none
nth zero (x ∷ xs) = x
nth (suc n) (x ∷ xs) = nth n xs

other_files-same :
    (py : Finders) (now t : Moment) (c : Account)
    → IsAmbient py
    → now.home ≡ t.home
    → context_of now c ≡ context_of t c
    → other_files py now c ≡ other_files py t c
other_files-same py now t c ambient home ctx =
    let order : now.auth_order c ≡ t.auth_order c = ap (λ (x : Context). x.0) ctx in
    let env : map now.getenv ambient_env ≡ map t.getenv ambient_env =
      ap (λ (x : Context). x.1) ctx in
    let first : now.getenv sss_kt ≡ t.getenv sss_kt = ap (nth 4) env in
    let second : now.getenv old_sss_kt ≡ t.getenv old_sss_kt = ap (nth 5) env in
    rw
      (
        order,
        ambient.explicit_ambient now t (py.token_file c) env,
        ambient.tokens_ambient now t (py.explicit_token_file t (py.token_file c)) env,
        ambient.proxy_ambient now t env,
        first,
        second,
        home,
      )
      refl

-- Apart from these, which files are read is decided by the context.
pub credential_files-same :
    (py : Finders) (now t : Moment) (c : Account)
    → IsAmbient py
    → IsSettled py now t c
    → context_of now c ≡ context_of t c
    → credential_files py now c ≡ credential_files py t c
unfolding credential_files
credential_files-same py now t c ambient settled ctx =
    ap (λ (tickets : List Bytes). other_files py now c ++ tickets) settled.1
    ∙ ap (λ (others : List Bytes). others ++ ticket_files py t c)
        (other_files-same py now t c ambient settled.0 ctx)
