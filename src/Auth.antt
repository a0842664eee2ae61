-- ===== src/Auth.antt =====
-- auth.py: the token verifiers of the server. Making the `PyJWKClient` and building the `AccessToken`
-- are taken not to fail.
pub mod Granted
pub mod Issued
use cognic_tool_oracle_schem.Base.{
  ℕ, Bool, true, false, not, ◌&&◌, ◌||◌, List, [], ◌∷◌, ◌++◌, Option, none, some,
}
use cognic_tool_oracle_schem.Base.{
  if◌then◌else◌, all, contains, is_empty, ◌==◌, ℤ, pos, negsuc, Text, lit, text_eq,
}
use cognic_tool_oracle_schem.Python.Exception.{Exc, value_error, Result, ok, raised, ◌>>=◌}
use cognic_tool_oracle_schem.Python.Str.{Unicode, is_space}
use cognic_tool_oracle_schem.Python.Value.{
  Value, null, boolean, integer, float, str, items, tuple, dict, other,
}
use cognic_tool_oracle_schem.Python.Value.{Items, nil, cons, Entries, end, entry, get}
use cognic_tool_oracle_schem.Config.{Config, dev_insecure, or_else, set_of}
use cognic_tool_oracle_schem.Readonly.Scope.{sorted}
use cognic_tool_oracle_schem.Host.{is_exception}

pub record AccessToken : Type 0 where
  pub token : Text
  pub client_id : Text
  pub scopes : List Text
  pub expires_at : Option Value
  pub resource : Option Text

-- Whether the value is true in a test.
abbrev pub is_truthy : Value → Bool
is_truthy null = false
is_truthy (boolean b) = b
is_truthy (integer (pos n)) = not (n == 0)
is_truthy (integer (negsuc n)) = true
is_truthy (float finite repr) = not (text_eq repr (lit "0.0") || text_eq repr (lit "-0.0"))
is_truthy (str s) = not (is_empty s)
is_truthy (items nil) = false
is_truthy (items (cons v vs)) = true
is_truthy (tuple nil) = false
is_truthy (tuple (cons v vs)) = true
is_truthy (dict end) = false
is_truthy (dict (entry k v d)) = true
is_truthy (other name) = true

-- `v or w`, for the value of a key or None.
abbrev pub or_value : Option Value → Value → Value
or_value none w = w
or_value (some v) w = if is_truthy v then v else w

-- `s.split()`, with the word read so far.
unfoldable pub words_from : Unicode → Text → Text → List Text
words_from u cur [] = if is_empty cur then [] else cur ∷ []
words_from u cur (c ∷ s) =
    let closed = words_from u [] s in
    let longer = words_from u (cur ++ c ∷ []) s in
    if is_space u c then (if is_empty cur then closed else cur ∷ closed) else longer

abbrev pub texts_of : Items → Result (List Text)
texts_of nil = ok []
texts_of (cons (str s) vs) = texts_of vs >>= λ rest. ok (s ∷ rest)
texts_of (cons v vs) = raised value_error

abbrev pub scopes_of_value : Unicode → Value → Result (List Text)
scopes_of_value u (str s) = ok (set_of (words_from u [] s))
scopes_of_value u (items vs) = texts_of vs >>= λ scopes. ok (set_of scopes)
scopes_of_value u (tuple vs) = texts_of vs >>= λ scopes. ok (set_of scopes)
scopes_of_value u v = raised value_error

unfoldable pub scopes_from_claims : Unicode → Entries → Result (List Text)
scopes_from_claims u claims =
    scopes_of_value u
      (or_value (get (lit "scope") claims) (or_value (get (lit "scp") claims) (str [])))

-- `required.issubset(granted)`
abbrev pub is_subset : List Text → List Text → Bool
is_subset required granted = all (λ s. contains s granted) required

-- What `jwt.decode` is asked to check.
pub record DecodeOptions : Type 0 where
  pub algorithms : List Text
  pub audience : Option Text
  pub issuer : Option Text
  pub require : List Text

-- What auth.py uses of PyJWT.
pub record PyJwt : Type 1 where
  pub Key : Type 0
  -- `PyJWKClient(uri).get_signing_key_from_jwt(token).key`
  pub signing_key : Option Text → Text → Result Key
  -- `jwt.decode(token, key, ...)`
  pub decode : Text → Key → DecodeOptions → Result Entries

abbrev pub decode_options : Config → DecodeOptions
decode_options cfg = record {
  algorithms = lit "RS256" ∷ [];
  audience = cfg.oauth_audience;
  issuer = cfg.oauth_issuer;
  require = lit "exp" ∷ lit "iat" ∷ lit "nbf" ∷ [];
}

-- `JwtTokenVerifier._verify_sync`
unfoldable pub verify_sync : PyJwt → Config → Text → Result Entries
verify_sync j cfg token = do
  key ← j.signing_key cfg.oauth_jwks_uri token
  j.decode token key (decode_options cfg)

module _ (u : Unicode) (j : PyJwt) (str_of : Value → Text) where
  -- The body of the `try`.
  unfoldable pub decoded_scopes : Config → Text → Result (Entries × List Text)
  decoded_scopes cfg token = do
    claims ← verify_sync j cfg token
    granted ← scopes_from_claims u claims
    ok (claims, granted)

  -- `str(claims.get("azp") or claims.get("client_id") or "unknown")`
  abbrev pub client_of : Entries → Text
  client_of claims = str_of (
      or_value (get (lit "azp") claims)
        (or_value (get (lit "client_id") claims) (str (lit "unknown"))))

  abbrev pub admit : Config → Text → Result (Entries × List Text) → Result (Option AccessToken)
  admit cfg token (raised e) = if is_exception e then ok none else raised e
  admit cfg token (ok (claims, granted)) =
      if not (is_subset cfg.required_scopes granted)
      then ok none
      else ok (
          some (record {
            token = token;
            client_id = client_of claims;
            scopes = sorted granted;
            expires_at = get (lit "exp") claims;
            resource = cfg.oauth_audience;
          }))

  -- `JwtTokenVerifier.verify_token`
  unfoldable pub jwt_verify_token : Config → Text → Result (Option AccessToken)
  jwt_verify_token cfg token =
      if is_empty token then ok none else admit cfg token (decoded_scopes cfg token)

  -- `DevTokenVerifier.verify_token`
  unfoldable pub dev_verify_token : Config → Text → Result (Option AccessToken)
  dev_verify_token cfg token =
      if is_empty token
      then ok none
      else ok (
          some (record {
            token = token;
            client_id = lit "dev";
            scopes = cfg.required_scopes;
            expires_at = none;
            resource = some (or_else [] cfg.oauth_audience);
          }))

  -- `select_token_verifier`
  unfoldable pub select_token_verifier : Config → Text → Result (Option AccessToken)
  select_token_verifier cfg token =
      if text_eq cfg.auth_mode dev_insecure
      then dev_verify_token cfg token
      else jwt_verify_token cfg token
