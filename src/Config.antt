-- ===== src/Config.antt =====
-- config.py: the settings of the process, and `Config.from_env`. Exceptions keep their class only.
pub mod Sound
pub mod Errors
use cognic_tool_oracle_schem.Base.{
  Bool, true, false, not, ◌&&◌, ◌||◌, List, [], ◌∷◌, map, Option, none, some,
}
use cognic_tool_oracle_schem.Base.{
  if◌then◌else◌, keep_if, is_empty, add, ℤ, pos, min_ℤ, max_ℤ, Text, lit, text_eq,
}
use cognic_tool_oracle_schem.Python.Exception.{
  Exc, plain_error, value_error, Result, ok, raised, ◌>>=◌, ◌>>◌, require, or_raise,
}
use cognic_tool_oracle_schem.Python.Str.{Unicode, upper, strip, split_comma}
use cognic_tool_oracle_schem.Python.Num.{int_of, show}

-- A frozenset is the list of its elements.
pub record Config : Type 0 where
  pub oracle_dsn : Text
  pub oracle_user : Text
  pub oracle_password_file : Text
  pub allowed_owners : List Text
  pub max_rows : ℤ
  pub pool_max : ℤ
  pub auth_mode : Text
  pub oauth_issuer : Option Text
  pub oauth_jwks_uri : Option Text
  pub oauth_audience : Option Text
  pub required_scopes : List Text

abbrev pub default_max_rows : ℤ
default_max_rows = pos 200

abbrev pub hard_max_rows : ℤ
hard_max_rows = pos 1000

abbrev pub config_error : Exc
config_error = plain_error (lit "ConfigError")

abbrev pub jwt : Text
jwt = lit "jwt"

abbrev pub dev_insecure : Text
dev_insecure = lit "dev_insecure"

-- `os.environ.get(k, default)`
abbrev pub or_else : Text → Option Text → Text
or_else default none = default
or_else default (some s) = s

-- `not v`, for the value of a variable or None.
abbrev pub is_falsy : Option Text → Bool
is_falsy none = true
is_falsy (some s) = is_empty s

abbrev pub is_set : Option Text → Bool
is_set none = false
is_set (some s) = true

-- `v == s`
abbrev pub is_text : Text → Option Text → Bool
is_text s none = false
is_text s (some t) = text_eq t s

-- `frozenset(...)`
unfoldable pub set_of : List Text → List Text
set_of [] = []
set_of (x ∷ xs) = add x (set_of xs)

module _ (u : Unicode) where
  -- `s.strip() for s in raw.split(",") if s.strip()`
  abbrev pub stripped : Text → List Text
  stripped raw = keep_if (λ s. not (is_empty s)) (map (strip u) (split_comma raw))

module _ (u : Unicode) (env : Text → Option Text) where
  -- `_req`
  unfoldable pub required : Text → Result Text
  required k = do require (not (is_falsy (env k))) config_error; ok (or_else [] (env k))

  unfoldable pub auth_mode_of : Result Text
  auth_mode_of = do
    let mode = or_else jwt (env (lit "COGNIC_AUTH_MODE"))
    require (not (text_eq mode dev_insecure && not (is_text (lit "dev") (env (lit "COGNIC_ENV")))))
        config_error
    require (text_eq mode jwt || text_eq mode dev_insecure) config_error
    ok mode

  abbrev pub owners_of : List Text
  owners_of =
      set_of (map (upper u) (stripped u (or_else [] (env (lit "COGNIC_ORACLE_ALLOWED_OWNERS")))))

  unfoldable pub max_rows_of : Result ℤ
  max_rows_of = do
    max_rows ←
        or_raise config_error
          (int_of u (or_else (show default_max_rows) (env (lit "COGNIC_ORACLE_MAX_ROWS"))))
    ok (max_ℤ (pos 1) (min_ℤ max_rows hard_max_rows))

  -- `not (issuer and jwks and audience)`
  abbrev pub lacks_oauth : Bool
  lacks_oauth =
      is_falsy (env (lit "COGNIC_OAUTH_ISSUER"))
      || is_falsy (env (lit "COGNIC_OAUTH_JWKS_URI"))
      || is_falsy (env (lit "COGNIC_OAUTH_AUDIENCE"))

  unfoldable pub scopes_of : Result (List Text)
  scopes_of = do
    let scopes =
        set_of
          (stripped u (or_else (lit "oracle_schema.read") (env (lit "COGNIC_REQUIRED_SCOPES"))))
    require (not (is_empty scopes)) config_error
    ok scopes

  unfoldable pub pool_max_of : Result ℤ
  pool_max_of =
      or_raise value_error (int_of u (or_else (lit "4") (env (lit "COGNIC_ORACLE_POOL_MAX"))))

  unfoldable pub from_env : Result Config
  from_env = do
    require (not (is_set (env (lit "COGNIC_ORACLE_PASSWORD")))) config_error
    auth_mode ← auth_mode_of
    max_rows ← max_rows_of
    require (not (text_eq auth_mode jwt && lacks_oauth)) config_error
    scopes ← scopes_of
    dsn ← required (lit "COGNIC_ORACLE_DSN")
    user ← required (lit "COGNIC_ORACLE_USER")
    file ← required (lit "COGNIC_ORACLE_PASSWORD_FILE")
    pool_max ← pool_max_of
    ok (record {
      oracle_dsn = dsn;
      oracle_user = user;
      oracle_password_file = file;
      allowed_owners = owners_of;
      max_rows = max_rows;
      pool_max = pool_max;
      auth_mode = auth_mode;
      oauth_issuer = env (lit "COGNIC_OAUTH_ISSUER");
      oauth_jwks_uri = env (lit "COGNIC_OAUTH_JWKS_URI");
      oauth_audience = env (lit "COGNIC_OAUTH_AUDIENCE");
      required_scopes = scopes;
    })
