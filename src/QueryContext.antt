-- ===== src/QueryContext.antt =====
-- query_context.py: the claims of a query-context token and the verifier.
-- `Jws` stands for `jws.deserialize_compact(token, RSAKey.import_key(pem), algorithms=["RS256"])` of
-- joserfc under the handler around it, and `loads` for `json.loads` on the payload.
pub mod Canonical
pub mod Verified
pub mod Claims
use cognic_tool_oracle_schem.Base.{
  ℕ, Bool, true, false, ◌&&◌, List, [], ◌∷◌, ◌++◌, map, Option, none, some,
}
use cognic_tool_oracle_schem.Base.{
  all, contains, leb_ℤ, not, if◌then◌else◌, ℤ, Text, Bytes, lit, text_eq,
}
use cognic_tool_oracle_schem.Python.Exception.{Exc}
use cognic_tool_oracle_schem.Python.Value.{
  Key, str_key, other_key, Value, integer, str, items, dict,
}
use cognic_tool_oracle_schem.Python.Value.{Items, nil, cons, Entries, end, entry, get}

pub record QueryContextClaims : Type 0 where
  pub iss : Text
  pub aud : Text
  pub sub : Text
  pub act : Text
  pub tenant_id : Text
  pub scope_id : Text
  pub objects : List Text
  pub proxy_db_identity : Text
  pub args_sha256 : Text
  pub jti : Text
  pub iat : ℤ
  pub exp : ℤ

pub data QueryContextRefusalReason : Type 0 where
  signature_invalid expired audience_mismatch claims_malformed : QueryContextRefusalReason

-- What the verifier leaves: the claims, a `QueryContextRefusal`, or another exception.
pub data Verdict {ℓ} (A : Type ℓ) : Type ℓ where
  admitted : A → Verdict A
  refused : QueryContextRefusalReason → Verdict A
  failed : Exc → Verdict A

infixl 5 ◌>>=◌ ◌>>◌
abbrev pub ◌>>=◌ {ℓ κ} : {A : Type ℓ} {B : Type κ} → Verdict A → (A → Verdict B) → Verdict B
admitted a >>= f = f a
refused r >>= f = refused r
failed e >>= f = failed e

abbrev pub ◌>>◌ {ℓ κ} : {A : Type ℓ} {B : Type κ} → Verdict A → Verdict B → Verdict B
m >> k = m >>= λ _. k

abbrev pub check : Bool → QueryContextRefusalReason → Verdict (Unit {0})
check b r = if b then admitted tt else refused r

abbrev pub issuer : Text
issuer = lit "cognic-agentos"

abbrev pub claim_str_fields : List Text
claim_str_fields =
    lit "iss"
    ∷ lit "aud"
    ∷ lit "sub"
    ∷ lit "act"
    ∷ lit "tenant_id"
    ∷ lit "scope_id"
    ∷ lit "proxy_db_identity"
    ∷ lit "args_sha256"
    ∷ lit "jti"
    ∷ []

abbrev pub claim_int_fields : List Text
claim_int_fields = lit "iat" ∷ lit "exp" ∷ []

abbrev pub claim_keys : List Text
claim_keys = claim_str_fields ++ (lit "objects" ∷ claim_int_fields)

-- The keys that are texts.
abbrev pub keys : Entries → List Text
keys end = []
keys (entry (str_key k) v d) = k ∷ keys d
keys (entry (other_key k) v d) = keys d

-- Whether every key is a text.
abbrev pub only_text_keys : Entries → Bool
only_text_keys end = true
only_text_keys (entry (str_key k) v d) = only_text_keys d
only_text_keys (entry (other_key k) v d) = false

-- `set(xs) == set(ys)`
abbrev pub same_set : List Text → List Text → Bool
same_set xs ys = all (λ x. contains x ys) xs && all (λ y. contains y xs) ys

-- The value of a field that must be a text, an integer (a Boolean is another constructor), or a list
-- of texts; any other value, or none, is refused as malformed.
abbrev pub as_str : Option Value → Verdict Text
as_str (some (str s)) = admitted s
as_str v = refused claims_malformed

abbrev pub as_int : Option Value → Verdict ℤ
as_int (some (integer n)) = admitted n
as_int v = refused claims_malformed

abbrev pub as_texts : Items → Verdict (List Text)
as_texts nil = admitted []
as_texts (cons v vs) = as_str (some v) >>= λ s. as_texts vs >>= λ r. admitted (s ∷ r)

abbrev pub as_str_list : Option Value → Verdict (List Text)
as_str_list (some (items vs)) = as_texts vs
as_str_list v = refused claims_malformed

-- `set(parsed.keys()) == _CLAIM_KEYS`
abbrev pub has_claim_keys : Entries → Bool
has_claim_keys d = only_text_keys d && same_set (keys d) claim_keys

unfoldable pub parse_entries : Entries → Verdict QueryContextClaims
parse_entries d = do
  check (has_claim_keys d) claims_malformed
  iss ← as_str (get (lit "iss") d)
  aud ← as_str (get (lit "aud") d)
  sub ← as_str (get (lit "sub") d)
  act ← as_str (get (lit "act") d)
  tenant_id ← as_str (get (lit "tenant_id") d)
  scope_id ← as_str (get (lit "scope_id") d)
  proxy_db_identity ← as_str (get (lit "proxy_db_identity") d)
  args_sha256 ← as_str (get (lit "args_sha256") d)
  jti ← as_str (get (lit "jti") d)
  iat ← as_int (get (lit "iat") d)
  exp ← as_int (get (lit "exp") d)
  objects ← as_str_list (get (lit "objects") d)
  check (text_eq iss issuer) claims_malformed
  admitted (record {
    iss = iss;
    aud = aud;
    sub = sub;
    act = act;
    tenant_id = tenant_id;
    scope_id = scope_id;
    objects = objects;
    proxy_db_identity = proxy_db_identity;
    args_sha256 = args_sha256;
    jti = jti;
    iat = iat;
    exp = exp;
  })

-- What `json.loads` does: a value, a decoding error that the code handles, or another exception.
pub data Loaded : Type 0 where
  decoded : Value → Loaded
  undecodable : Loaded
  broken : Exc → Loaded

abbrev pub parse_loaded : Loaded → Verdict QueryContextClaims
parse_loaded (decoded (dict d)) = parse_entries d
parse_loaded (decoded v) = refused claims_malformed
parse_loaded undecodable = refused claims_malformed
parse_loaded (broken e) = failed e

-- The outcome of one key: the payload, one of the three handled exceptions, or another one.
pub data Jws : Type 0 where
  verified : Bytes → Jws
  rejected : Jws
  crashed : Exc → Jws

module _ (jws : Text → Bytes → Jws) where
  -- The loop over the rotation window; the first key that verifies the token ends it.
  unfoldable pub verified_payload : Text → List Bytes → Verdict Bytes
  verified_payload token [] = refused signature_invalid
  verified_payload token (pem ∷ pems) = elim (jws token pem) [
    | verified payload ↦ admitted payload
    | rejected ↦ verified_payload token pems
    | crashed e ↦ failed e
  ]

module _ (loads : Bytes → Loaded) where
  unfoldable pub parse_claims : Bytes → Verdict QueryContextClaims
  parse_claims payload = parse_loaded (loads payload)

module _ (jws : Text → Bytes → Jws) (loads : Bytes → Loaded) where
  unfoldable pub verify_query_context : Text → List Bytes → Text → ℤ → Verdict QueryContextClaims
  verify_query_context token public_keys expected_aud now = do
    payload ← verified_payload jws token public_keys
    claims ← parse_claims loads payload
    check (not (leb_ℤ claims.exp now)) expired
    check (text_eq claims.aud expected_aud) audience_mismatch
    admitted claims
