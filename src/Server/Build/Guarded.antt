-- ===== src/Server/Build/Guarded.antt =====
-- Who gets into a server that has started.
use cognic_tool_oracle_schem.Base.{◌≡◌, refl, ap, ◌∙◌, ◌⊎◌, inl, inr, true, false, Option, some}
use mathlib.Core.Path.{subst}
use cognic_tool_oracle_schem.Base.{is_empty, Text, lit, text_eq}
use cognic_tool_oracle_schem.Python.Exception.{ok, >>=-eq-ok, ok-injective}
use cognic_tool_oracle_schem.Python.Str.{Unicode}
use cognic_tool_oracle_schem.Config.{Config, jwt, dev_insecure, is_text, from_env}
use cognic_tool_oracle_schem.Config.Sound.{IsSound, from_env-IsSound}
use cognic_tool_oracle_schem.Auth.{AccessToken, select_token_verifier}
use cognic_tool_oracle_schem.Auth.Granted.{IsGranted, select_token_verifier-IsGranted}
use cognic_tool_oracle_schem.Server.Build.{
  Packages, App, server_port, server_url, build_server, main,
}

module _ (u : Unicode) (env : Text → Option Text) (p : Packages) where
  -- The environment is one of development and the server checks no tokens, or the token is granted and
  -- some scope is required of it.
  abbrev pub IsLetIn : App → Text → AccessToken → Type 0
  IsLetIn app token access =
      ((app.cfg.auth_mode ≡ dev_insecure) × (is_text (lit "dev") (env (lit "COGNIC_ENV")) ≡ true))
      ⊎ (IsGranted u p.jwt p.str_of app.cfg token access
          × (is_empty app.cfg.required_scopes ≡ false))

  -- The settings are sound, and whoever the verifier admits is let in for a reason.
  pub record IsGuarded (app : App) : Type 0 where
    pub sound : IsSound u env app.cfg
    pub scopes : app.required_scopes ≡ app.cfg.required_scopes
    pub let_in :
        (token : Text) (access : AccessToken)
        → app.verify_token token ≡ ok (some access)
        → IsLetIn app token access

  jwt-checks : text_eq jwt dev_insecure ≡ false
  unfolding text_eq lit
  jwt-checks = refl

  let_in_lem :
      (cfg : Config) (token : Text) (access : AccessToken)
      → IsSound u env cfg
      → select_token_verifier u p.jwt p.str_of cfg token ≡ ok (some access)
      → ((cfg.auth_mode ≡ dev_insecure) × (is_text (lit "dev") (env (lit "COGNIC_ENV")) ≡ true))
        ⊎ (IsGranted u p.jwt p.str_of cfg token access × (is_empty cfg.required_scopes ≡ false))
  let_in_lem cfg token access sound e = elim sound.mode [
    | inr dev ↦ inl dev
    | inl (mode, complete) ↦ inr (
      select_token_verifier-IsGranted u p.jwt p.str_of cfg token access
          (ap (λ m. text_eq m dev_insecure) mode ∙ jwt-checks) e,
      sound.some_scope,
    )
  ]

  -- A server that starts has sound settings, and admits a token only if it is granted by them with all the
  -- required scopes, of which there is at least one, or if the mode is `dev_insecure` in the dev
  -- environment.
  pub main-IsGuarded : (app : App) → main u env p ≡ ok app → IsGuarded app
  unfolding main build_server
  main-IsGuarded app h =
      let (port, a, h1) = >>=-eq-ok (server_port u env p) _ h in
      let (cfg, b, h2) = >>=-eq-ok (from_env u env) _ h1 in
      let (issuer_url, c, h3) = >>=-eq-ok (p.any_http_url _) _ h2 in
      let (resource_server_url, d, h4) = >>=-eq-ok (p.any_http_url (server_url u env p)) _ h3 in
      let sound = from_env-IsSound u env cfg b in
      subst IsGuarded (ok-injective h4) (record {
        sound = sound;
        scopes = refl;
        let_in = λ token access e. let_in_lem cfg token access sound e;
      })
