-- ===== src/Session/Pool/Credentials.antt =====
-- Which files the mechanisms would read a credential from (auth/__init__.py: `credential_files`, with
-- `_token_paths` of auth/ztn.py, `token_files` of _tokens.py, `default_proxy_path` of _gridpaths.py and
-- `default_keytab_path` of auth/sss.py).
--
-- What the package xrdsec finds (the token files, the proxy and the Kerberos cache that the environment
-- names) is a parameter. An option of a config that is None or empty counts as not set.
pub mod Ambient
use xrdclient.Prelude.{
  ℕ, Bool, true, false, not, ◌&&◌, ◌||◌, List, [], ◌∷◌, ◌++◌, Option, none, some, ◌==◌, map,
  if◌then◌else◌,
}
use xrdclient.Errors.{Bytes}
use xrdclient.Session.Pool.{same_text}
use xrdclient.Session.Text.{partition, among}

-- A config, by its object.
abbrev pub Account : Type 0
Account = ℕ

-- What the process can see at one call: what the auth_order of a config holds, the environment, the
-- home directory, and the files.
pub record Moment : Type 0 where
  pub auth_order : Account → List Bytes
  pub getenv : Bytes → Option Bytes
  pub home : Bytes
  pub stat : Bytes → Option Bytes

-- The frozen options of a config, and what xrdsec finds at a moment, for a process that does not
-- change its user.
pub record Finders : Type 0 where
  pub token : Account → Option Bytes
  pub token_file : Account → Option Bytes
  pub keytab : Account → Option Bytes
  pub proxy : Account → Option Bytes
  pub usercert : Account → Option Bytes
  pub userkey : Account → Option Bytes
  pub explicit_token_file : Moment → Option Bytes → Option Bytes
  pub bearer_token_files : Moment → Option Bytes → List (Bytes × Bool)
  pub environment_proxy : Moment → Bytes
  pub ccache_name : Moment → Bytes
  -- the path, or none where it raises CredentialError
  pub resolve_ccache : Moment → Bytes → Option Bytes

-- "BEARER_TOKEN"
abbrev pub bearer_token : Bytes
bearer_token = 66 ∷ 69 ∷ 65 ∷ 82 ∷ 69 ∷ 82 ∷ 95 ∷ 84 ∷ 79 ∷ 75 ∷ 69 ∷ 78 ∷ []

-- "BEARER_TOKEN_FILE"
abbrev pub bearer_token_file : Bytes
bearer_token_file =
    66 ∷ 69 ∷ 65 ∷ 82 ∷ 69 ∷ 82 ∷ 95 ∷ 84 ∷ 79 ∷ 75 ∷ 69 ∷ 78 ∷ 95 ∷ 70 ∷ 73 ∷ 76 ∷ 69 ∷ []

-- "XDG_RUNTIME_DIR"
abbrev pub runtime_dir : Bytes
runtime_dir = 88 ∷ 68 ∷ 71 ∷ 95 ∷ 82 ∷ 85 ∷ 78 ∷ 84 ∷ 73 ∷ 77 ∷ 69 ∷ 95 ∷ 68 ∷ 73 ∷ 82 ∷ []

-- "X509_USER_PROXY"
abbrev pub user_proxy : Bytes
user_proxy = 88 ∷ 53 ∷ 48 ∷ 57 ∷ 95 ∷ 85 ∷ 83 ∷ 69 ∷ 82 ∷ 95 ∷ 80 ∷ 82 ∷ 79 ∷ 88 ∷ 89 ∷ []

-- "XrdSecSSSKT"
abbrev pub sss_kt : Bytes
sss_kt = 88 ∷ 114 ∷ 100 ∷ 83 ∷ 101 ∷ 99 ∷ 83 ∷ 83 ∷ 83 ∷ 75 ∷ 84 ∷ []

-- "XrdSecsssKT"
abbrev pub old_sss_kt : Bytes
old_sss_kt = 88 ∷ 114 ∷ 100 ∷ 83 ∷ 101 ∷ 99 ∷ 115 ∷ 115 ∷ 115 ∷ 75 ∷ 84 ∷ []

-- "KRB5CCNAME"
abbrev pub ccname : Bytes
ccname = 75 ∷ 82 ∷ 66 ∷ 53 ∷ 67 ∷ 67 ∷ 78 ∷ 65 ∷ 77 ∷ 69 ∷ []

-- "KRB5_CONFIG"
abbrev pub krb5_config : Bytes
krb5_config = 75 ∷ 82 ∷ 66 ∷ 53 ∷ 95 ∷ 67 ∷ 79 ∷ 78 ∷ 70 ∷ 73 ∷ 71 ∷ []

-- `AMBIENT_ENV`
abbrev pub ambient_env : List Bytes
ambient_env =
    bearer_token ∷ bearer_token_file ∷ runtime_dir ∷ user_proxy ∷ sss_kt ∷ old_sss_kt ∷ ccname
    ∷ krb5_config ∷ []

-- "ztn"
abbrev ztn : Bytes
ztn = 122 ∷ 116 ∷ 110 ∷ []

-- "gsi"
abbrev gsi : Bytes
gsi = 103 ∷ 115 ∷ 105 ∷ []

-- "sss"
abbrev sss : Bytes
sss = 115 ∷ 115 ∷ 115 ∷ []

-- "krb5"
abbrev krb5 : Bytes
krb5 = 107 ∷ 114 ∷ 98 ∷ 53 ∷ []

-- "DIR"
abbrev dir_kind : Bytes
dir_kind = 68 ∷ 73 ∷ 82 ∷ []

-- "primary"
abbrev primary : Bytes
primary = 112 ∷ 114 ∷ 105 ∷ 109 ∷ 97 ∷ 114 ∷ 121 ∷ []

-- ".xrd"
abbrev xrd_dir : Bytes
xrd_dir = 46 ∷ 120 ∷ 114 ∷ 100 ∷ []

-- "sss.keytab"
abbrev keytab_name : Bytes
keytab_name = 115 ∷ 115 ∷ 115 ∷ 46 ∷ 107 ∷ 101 ∷ 121 ∷ 116 ∷ 97 ∷ 98 ∷ []

abbrev pub is_set : Option Bytes → Bool
is_set none = false
is_set (some []) = false
is_set (some (b ∷ text)) = true

-- `a or b`
abbrev pub or_else : Option Bytes → Bytes → Bytes
or_else none other = other
or_else (some []) other = other
or_else (some (b ∷ text)) other = b ∷ text

abbrev starts_with : ℕ → Bytes → Bool
starts_with c [] = false
starts_with c (b ∷ text) = b == c

abbrev ends_with : ℕ → Bytes → Bool
ends_with c [] = false
ends_with c (b ∷ []) = b == c
ends_with c (b ∷ (d ∷ text)) = ends_with c (d ∷ text)

abbrev slash : ℕ
slash = 47

abbrev colon : ℕ
colon = 58

-- os.path.join of two parts
abbrev pub path_join : Bytes → Bytes → Bytes
path_join [] b = b
path_join (a ∷ more) b =
    if starts_with slash b
    then b
    else (if ends_with slash (a ∷ more) then (a ∷ more) ++ b else (a ∷ more) ++ (slash ∷ b))

module _ (py : Finders) (t : Moment) (c : Account) where
  -- `_token_paths`, and `token_files` with `explicit_token_file`
  abbrev pub token_paths : List Bytes
  token_paths =
      map (λ (f : Bytes × Bool). f.0)
        (py.bearer_token_files t (py.explicit_token_file t (py.token_file c)))

  -- `default_proxy_path`
  abbrev pub default_proxy_path : Bytes
  default_proxy_path = or_else (py.proxy c) (py.environment_proxy t)

  -- `default_keytab_path`
  abbrev pub default_keytab_path : Bytes
  default_keytab_path = or_else (py.keytab c) (
      or_else (t.getenv sss_kt)
        (or_else (t.getenv old_sss_kt) (path_join (path_join t.home xrd_dir) keytab_name)))

  -- `_x509_files`
  abbrev pub x509_files : List Bytes
  x509_files =
      (if among gsi (t.auth_order c) || is_set (py.proxy c) then default_proxy_path ∷ [] else [])
      ++ (if is_set (py.usercert c) && (is_set (py.userkey c) && not (is_set (py.proxy c)))
          then or_else (py.usercert c) [] ∷ or_else (py.userkey c) [] ∷ []
          else [])

-- `_ccache_files`, of a name and what it resolves to
abbrev pub ccache_paths : Bytes → Option Bytes → List Bytes
ccache_paths name none = []
ccache_paths name (some path) =
    let (kind, found, rest) = partition colon name in
    if same_text kind dir_kind && not (starts_with colon rest)
    then path_join rest primary ∷ path ∷ []
    else path ∷ []

abbrev pub ccache_files : Finders → Moment → List Bytes
ccache_files py t = let name = py.ccache_name t in ccache_paths name (py.resolve_ccache t name)

-- what Kerberos would read, if it is in the order
abbrev pub ticket_files : Finders → Moment → Account → List Bytes
ticket_files py t c = if among krb5 (t.auth_order c) then ccache_files py t else []

-- what the other mechanisms would read
abbrev pub other_files : Finders → Moment → Account → List Bytes
other_files py t c =
    let order = t.auth_order c in
    (if among ztn order && not (is_set (py.token c)) then token_paths py t c else [])
    ++ (x509_files py t c ++ (if among sss order then default_keytab_path py t c ∷ [] else []))

-- `credential_files`
unfoldable pub credential_files : Finders → Moment → Account → List Bytes
credential_files py t c = other_files py t c ++ ticket_files py t c
