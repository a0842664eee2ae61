-- ===== src/Auth/Issued.antt =====
-- Tokens that the authorization server signed for this server, given what the documentation of PyJWT
-- says that `jwt.decode` checks.
use cognic_tool_oracle_schem.Base.{◌≡◌, Bool, true, false, ◌||◌, Option, none, some}
use cognic_tool_oracle_schem.Base.{contains, Text, lit, text_eq}
use cognic_tool_oracle_schem.Python.Exception.{ok}
use cognic_tool_oracle_schem.Python.Str.{Unicode}
use cognic_tool_oracle_schem.Python.Value.{Value, null, str, items, Items, nil, cons, Entries, get}
use cognic_tool_oracle_schem.Config.{Config}
use cognic_tool_oracle_schem.Auth.{AccessToken, PyJwt, DecodeOptions}
use cognic_tool_oracle_schem.Auth.Granted.{IsGranted}

-- The claim is there, and is not null.
abbrev pub is_given : Option Value → Bool
is_given none = false
is_given (some null) = false
is_given (some v) = true

abbrev pub lists : Text → Items → Bool
lists s nil = false
lists s (cons (str t) vs) = text_eq s t || lists s vs
lists s (cons v vs) = lists s vs

-- An "aud" claim is the audience, or a list with it.
abbrev pub is_for : Text → Option Value → Bool
is_for audience (some (str s)) = text_eq audience s
is_for audience (some (items vs)) = lists audience vs
is_for audience found = false

-- What `jwt.decode` is documented to have checked when it returns claims; `is_signed key algorithm
-- token` stands for the check of a signature.
pub record IsDocumented (j : PyJwt) (is_signed : j.Key → Text → Text → Bool) : Type 0 where
  pub signed :
      (token : Text) (key : j.Key) (o : DecodeOptions) (claims : Entries)
      → j.decode token key o ≡ ok claims
      → (algorithm : Text) × (contains algorithm o.algorithms ≡ true)
        × (is_signed key algorithm token ≡ true)
  pub requires :
      (token : Text) (key : j.Key) (o : DecodeOptions) (claims : Entries) (name : Text)
      → j.decode token key o ≡ ok claims
      → contains name o.require ≡ true
      → is_given (get name claims) ≡ true
  pub intended :
      (token : Text) (key : j.Key) (o : DecodeOptions) (claims : Entries) (audience : Text)
      → j.decode token key o ≡ ok claims
      → o.audience ≡ some audience
      → is_for audience (get (lit "aud") claims) ≡ true
  pub issued :
      (token : Text) (key : j.Key) (o : DecodeOptions) (claims : Entries) (issuer : Text)
      → j.decode token key o ≡ ok claims
      → o.issuer ≡ some issuer
      → get (lit "iss") claims ≡ some (str issuer)

module _ (u : Unicode) (j : PyJwt) (is_signed : j.Key → Text → Text → Bool) (str_of : Value → Text)
    (cfg : Config) (token : Text) where
  -- The token is signed with RS256 by a key of the configured key set, for the audience and by the issuer
  -- of the settings, and says when it was issued and when it is valid.
  pub record IsIssued (claims : Entries) : Type 0 where
    pub key : j.Key
    pub found : j.signing_key cfg.oauth_jwks_uri token ≡ ok key
    pub signed : is_signed key (lit "RS256") token ≡ true
    pub intended :
        (audience : Text)
        → cfg.oauth_audience ≡ some audience
        → is_for audience (get (lit "aud") claims) ≡ true
    pub issued :
        (issuer : Text)
        → cfg.oauth_issuer ≡ some issuer
        → get (lit "iss") claims ≡ some (str issuer)
    pub expires : is_given (get (lit "exp") claims) ≡ true
    pub dated : is_given (get (lit "iat") claims) ≡ true
    pub begins : is_given (get (lit "nbf") claims) ≡ true

  -- The access token is granted for claims that were issued for this server.
  pub record IsVouched (access : AccessToken) : Type 0 where
    pub granted : IsGranted u j str_of cfg token access
    pub issued : IsIssued granted.claims
