-- ===== src/Auth/Granted.antt =====
-- What a token that the server's verifier admits has.
use cognic_tool_oracle_schem.Base.{
  ◌≡◌, refl, sym, ap, ◌∙◌, inl, inr, Bool, true, false, not, List, Option, none, some,
}
use cognic_tool_oracle_schem.Base.{Bool-cases, is_empty, Text, lit, text_eq}
use cognic_tool_oracle_schem.Python.Exception.{Exc, Result, ok, raised, ok-injective, >>=-eq-ok}
use cognic_tool_oracle_schem.Python.Str.{Unicode}
use cognic_tool_oracle_schem.Python.Value.{Value, Entries, get}
use cognic_tool_oracle_schem.Config.{Config, dev_insecure}
use cognic_tool_oracle_schem.Readonly.Scope.{sorted}
use cognic_tool_oracle_schem.Host.{is_exception}
use cognic_tool_oracle_schem.Auth.{
  AccessToken, PyJwt, verify_sync, scopes_from_claims, is_subset, decoded_scopes, admit,
  jwt_verify_token, select_token_verifier,
}

some-injective {ℓ} : {A : Type ℓ} {a b : A} → some a ≡ some b → a ≡ b
some-injective e = cc

module _ (u : Unicode) (j : PyJwt) (str_of : Value → Text) (cfg : Config) (token : Text) where
  -- The token decodes to claims whose scopes include all that are required, and the access token has
  -- these scopes and the claims' expiry.
  pub record IsGranted (access : AccessToken) : Type 0 where
    pub claims : Entries
    pub decoded : verify_sync j cfg token ≡ ok claims
    pub granted : List Text
    pub scopes : scopes_from_claims u claims ≡ ok granted
    pub enough : is_subset cfg.required_scopes granted ≡ true
    pub same_token : access.token ≡ token
    pub same_scopes : access.scopes ≡ sorted granted
    pub expiry : access.expires_at ≡ get (lit "exp") claims

  not-false : (b : Bool) → not b ≡ false → b ≡ true
  not-false true e = refl
  not-false false e = cc

  raised_ne :
      {e : Exc} {access : AccessToken}
      → Path (Result (Option AccessToken)) (raised e) (ok (some access))
      → ⊥
  raised_ne x = cc

  none_ne :
      {access : AccessToken} → Path (Result (Option AccessToken)) (ok none) (ok (some access)) → ⊥
  none_ne x = cc

  admit-some :
      (r : Result (Entries × List Text)) (access : AccessToken)
      → admit u j str_of cfg token r ≡ ok (some access)
      → (claims : Entries) × (granted : List Text) × (r ≡ ok (claims, granted))
        × (is_subset cfg.required_scopes granted ≡ true)
        × (access.token ≡ token)
        × (access.scopes ≡ sorted granted)
        × (access.expires_at ≡ get (lit "exp") claims)
  admit-some (raised e) access h = elim (Bool-cases (is_exception e)) [
    | inl caught ↦ absurd (none_ne (rw caught at h))
    | inr passes ↦ absurd (raised_ne (rw passes at h))
  ]
  admit-some (ok (claims, granted)) access h =
      elim (Bool-cases (is_subset cfg.required_scopes granted)) [
        | inr lacking ↦ absurd (none_ne (rw lacking at h))
        | inl enough ↦
            let same = sym (some-injective (ok-injective (rw enough at h))) in
            (
              claims,
              granted,
              refl,
              enough,
              ap (λ (t : AccessToken). t.token) same,
              ap (λ (t : AccessToken). t.scopes) same,
              ap (λ (t : AccessToken). t.expires_at) same,
            )
      ]

  decoded_scopes-ok :
      (claims : Entries) (granted : List Text)
      → decoded_scopes u j str_of cfg token ≡ ok (claims, granted)
      → (verify_sync j cfg token ≡ ok claims) × (scopes_from_claims u claims ≡ ok granted)
  unfolding decoded_scopes
  decoded_scopes-ok claims granted h =
      let (c, d, h') = >>=-eq-ok (verify_sync j cfg token) _ h in
      let (s, e, h'') = >>=-eq-ok (scopes_from_claims u c) _ h' in
      let same = ok-injective h'' in
      let same_claims : c ≡ claims = ap (λ (p : Entries × List Text). p.0) same in
      (
        d ∙ ap ok same_claims,
        ap (scopes_from_claims u) (sym same_claims)
            ∙ (e ∙ ap (λ (p : Entries × List Text). ok p.1) same),
      )

  -- In every mode but `dev_insecure`, the server admits a token only if it decodes, its scope claim is
  -- well formed, and all required scopes are among its scopes; the access token carries exactly these
  -- scopes and the expiry of the claims.
  pub select_token_verifier-IsGranted :
      (access : AccessToken)
      → text_eq cfg.auth_mode dev_insecure ≡ false
      → select_token_verifier u j str_of cfg token ≡ ok (some access)
      → IsGranted access
  unfolding select_token_verifier jwt_verify_token
  select_token_verifier-IsGranted access mode h = elim (Bool-cases (is_empty token)) [
    | inl empty ↦ absurd (none_ne (rw (mode, empty) at h))
    | inr given ↦
        let (claims, granted, r, enough, t, s, e) =
          admit-some (decoded_scopes u j str_of cfg token) access (rw (mode, given) at h) in
        let (decoded, scopes) = decoded_scopes-ok claims granted r in
        record {
          claims = claims;
          decoded = decoded;
          granted = granted;
          scopes = scopes;
          enough = enough;
          same_token = t;
          same_scopes = s;
          expiry = e;
        }
  ]
