-- ===== src/Tests/Jwt.antt =====
-- A small token library, and the theorem on admitted tokens with it.
use cognic_tool_oracle_schem.Base.{◌≡◌, Bool, true, false, ◌&&◌, [], ◌∷◌, Option, none, some, all}
use cognic_tool_oracle_schem.Base.{contains, pos, Text, lit, text_eq}
use cognic_tool_oracle_schem.Python.Exception.{value_error, Result, ok, raised}
use cognic_tool_oracle_schem.Python.Value.{
  str_key, integer, str, items, cons, nil, Entries, entry, end, get,
}
use cognic_tool_oracle_schem.Config.{Config}
use cognic_tool_oracle_schem.Auth.{AccessToken, DecodeOptions, PyJwt}
use cognic_tool_oracle_schem.Auth.Issued.{is_given, is_for}
use cognic_tool_oracle_schem.Tests.Toy.{cfg}

abbrev jwt_claims : Entries
jwt_claims = entry (str_key (lit "scope")) (str (lit "b oracle_schema.read")) (
    entry (str_key (lit "aud")) (items (cons (str (lit "oracle")) nil)) (
      entry (str_key (lit "iss")) (str (lit "https://as")) (
        entry (str_key (lit "iat")) (integer (pos 1)) (
          entry (str_key (lit "nbf")) (integer (pos 1))
            (entry (str_key (lit "exp")) (integer (pos 9)) end)))))

-- The one token is `t`, and RS256 its algorithm.
abbrev is_signed : Text → Text → Text → Bool
is_signed key algorithm token = text_eq algorithm (lit "RS256") && text_eq token (lit "t")

abbrev suits_audience : Option Text → Bool
suits_audience none = true
suits_audience (some audience) = is_for audience (get (lit "aud") jwt_claims)

abbrev suits_issuer : Option Text → Bool
suits_issuer none = true
suits_issuer (some issuer) = text_eq (lit "https://as") issuer

abbrev has_claim : Text → Bool
has_claim name = is_given (get name jwt_claims)

abbrev suits : Text → DecodeOptions → Bool
suits token o =
    contains (lit "RS256") o.algorithms
    && (text_eq token (lit "t")
        && (all has_claim o.require && (suits_audience o.audience && suits_issuer o.issuer)))

abbrev checked : Bool → Result Entries
checked true = ok jwt_claims
checked false = raised value_error

abbrev pub toy_jwt : PyJwt
toy_jwt = record {
  Key = Text;
  signing_key = λ uri token. ok (lit "key");
  decode = λ token key o. checked (suits token o);
}

-- What the library has checked when it returns claims.
record IsChecked (token : Text) (o : DecodeOptions) (claims : Entries) : Type 0 where
  same : jwt_claims ≡ claims
  algorithm : contains (lit "RS256") o.algorithms ≡ true
  token_ok : text_eq token (lit "t") ≡ true
  given : all has_claim o.require ≡ true
  audience_ok : suits_audience o.audience ≡ true
  issuer_ok : suits_issuer o.issuer ≡ true

abbrev access : AccessToken
access = record {
  token = lit "t";
  client_id = lit "c";
  scopes = lit "b" ∷ lit "oracle_schema.read" ∷ [];
  expires_at = some (integer (pos 9));
  resource = some (lit "oracle");
}

abbrev jwt_cfg : Config
jwt_cfg = record cfg {
  auth_mode = lit "jwt";
  oauth_issuer = some (lit "https://as");
  oauth_jwks_uri = some (lit "https://as/jwks");
  oauth_audience = some (lit "oracle");
}
