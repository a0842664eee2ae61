-- ===== src/Config/Sound.antt =====
-- The settings that start the server.
use mathlib.Core.Path.{subst}
use cognic_tool_oracle_schem.Base.{◌≡◌, refl, ◌⊎◌, Bool, true, false, not, ◌&&◌, List, Option}
use cognic_tool_oracle_schem.Base.{
  arith, is_empty, ℤ, pos, min_ℤ, max_ℤ, ◌≤ℤ◌, Text, lit, text_eq, text_eq_iff,
}
use cognic_tool_oracle_schem.Python.Exception.{Exc, ok, require, >>=-eq-ok, ok-injective}
use cognic_tool_oracle_schem.Python.Str.{Unicode}
use cognic_tool_oracle_schem.Config.{
  Config, config_error, jwt, dev_insecure, or_else, is_set, is_text, required, auth_mode_of,
  max_rows_of, lacks_oauth, scopes_of, pool_max_of, from_env,
}

require-ok : (b : Bool) (e : Exc) {x : Unit {0}} → require b e ≡ ok x → b ≡ true
require-ok true e h = refl
require-ok false e h = cc

module _ (u : Unicode) (env : Text → Option Text) where
  -- The mode is `jwt` with all three OAuth variables set, or `dev_insecure` in the dev environment.
  abbrev pub IsGuardedMode : Text → Type 0
  IsGuardedMode mode =
      ((mode ≡ jwt) × (lacks_oauth u env ≡ false))
      ⊎ ((mode ≡ dev_insecure) × (is_text (lit "dev") (env (lit "COGNIC_ENV")) ≡ true))

  pub record IsSound (cfg : Config) : Type 0 where
    pub no_password : is_set (env (lit "COGNIC_ORACLE_PASSWORD")) ≡ false
    pub mode : IsGuardedMode cfg.auth_mode
    pub some_rows : pos 1 ≤ℤ cfg.max_rows
    pub row_ceiling : cfg.max_rows ≤ℤ pos 1000
    pub some_scope : is_empty cfg.required_scopes ≡ false
    pub has_dsn : is_empty cfg.oracle_dsn ≡ false
    pub has_user : is_empty cfg.oracle_user ≡ false
    pub has_file : is_empty cfg.oracle_password_file ≡ false

  auth_mode_of-ok :
      (mode : Text)
      → auth_mode_of u env ≡ ok mode
      → (mode ≡ jwt)
        ⊎ ((mode ≡ dev_insecure) × (is_text (lit "dev") (env (lit "COGNIC_ENV")) ≡ true))
  unfolding auth_mode_of
  auth_mode_of-ok mode h = ground (
    arith,
    text_eq_iff (or_else jwt (env (lit "COGNIC_AUTH_MODE"))) jwt,
    text_eq_iff (or_else jwt (env (lit "COGNIC_AUTH_MODE"))) dev_insecure,
  )

  max_rows_of-ok : (n : ℤ) → max_rows_of u env ≡ ok n → (pos 1 ≤ℤ n) × (n ≤ℤ pos 1000)
  unfolding max_rows_of min_ℤ max_ℤ
  max_rows_of-ok n h = ground arith

  scopes_of-ok : (s : List Text) → scopes_of u env ≡ ok s → is_empty s ≡ false
  unfolding scopes_of
  scopes_of-ok s h = ground arith

  required-ok : (k v : Text) → required u env k ≡ ok v → is_empty v ≡ false
  unfolding required
  required-ok k v h = ground arith

  pub from_env-IsSound : (cfg : Config) → from_env u env ≡ ok cfg → IsSound cfg
  unfolding from_env
  from_env-IsSound cfg h =
      let (_, a, h1) =
        >>=-eq-ok (require (not (is_set (env (lit "COGNIC_ORACLE_PASSWORD")))) config_error) _ h in
      let (mode, b, h2) = >>=-eq-ok (auth_mode_of u env) _ h1 in
      let (n, c, h3) = >>=-eq-ok (max_rows_of u env) _ h2 in
      let (_, d, h4) =
        >>=-eq-ok (require (not (text_eq mode jwt && lacks_oauth u env)) config_error) _ h3 in
      let (s, e, h5) = >>=-eq-ok (scopes_of u env) _ h4 in
      let (dsn, f, h6) = >>=-eq-ok (required u env (lit "COGNIC_ORACLE_DSN")) _ h5 in
      let (user, g, h7) = >>=-eq-ok (required u env (lit "COGNIC_ORACLE_USER")) _ h6 in
      let (file, i, h8) = >>=-eq-ok (required u env (lit "COGNIC_ORACLE_PASSWORD_FILE")) _ h7 in
      let (pool, j, h9) = >>=-eq-ok (pool_max_of u env) _ h8 in
      let r = max_rows_of-ok n c in
      subst IsSound (ok-injective h9) (record {
        no_password = ground (arith, require-ok _ _ a);
        mode = ground (arith, auth_mode_of-ok mode b, require-ok _ _ d, text_eq_iff mode jwt);
        some_rows = r.0;
        row_ceiling = r.1;
        some_scope = scopes_of-ok s e;
        has_dsn = required-ok (lit "COGNIC_ORACLE_DSN") dsn f;
        has_user = required-ok (lit "COGNIC_ORACLE_USER") user g;
        has_file = required-ok (lit "COGNIC_ORACLE_PASSWORD_FILE") file i;
      })
