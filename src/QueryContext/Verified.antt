-- ===== src/QueryContext/Verified.antt =====
-- What an admitted token guarantees, and the rotation of keys.
use mathlib.Core.Path.{subst}
use cognic_tool_oracle_schem.Base.{◌≡◌, refl, ap, ◌∙◌, ◌↔◌, false, not, List, [], ◌∷◌, ◌++◌, arith}
use cognic_tool_oracle_schem.Base.{ℤ, leb_ℤ, Text, Bytes, text_eq, text_eq_iff, text_eq_refl}
use cognic_tool_oracle_schem.QueryContext.{
  QueryContextClaims, expired, audience_mismatch, Verdict, admitted, refused, failed, check, ◌>>=◌,
  ◌>>◌, parse_claims, parse_loaded, Loaded, decoded, undecodable, broken, Jws, verified, rejected,
  crashed, verified_payload, verify_query_context,
}
use cognic_tool_oracle_schem.Python.Value.{dict, Entries}
use cognic_tool_oracle_schem.QueryContext.Claims.{AreClaims, parse_entries-AreClaims}

-- A block that admits got a value from its first step and admitted in the rest.
pub >>=-eq-admitted {ℓ κ} :
    {A : Type ℓ} {B : Type κ} {y : B} (first : Verdict A) (rest : A → Verdict B)
    → (first >>= rest) ≡ admitted y
    → (x : A) × (first ≡ admitted x) × (rest x ≡ admitted y)
>>=-eq-admitted (refused r) rest returns = cc
>>=-eq-admitted (failed e) rest returns = cc
>>=-eq-admitted (admitted x) rest returns = (x, refl, returns)

-- The two checks behind the parsing of the claims.
checks_lem :
    (claims c : QueryContextClaims) (aud : Text) (now : ℤ)
    → (check (not (leb_ℤ c.exp now)) expired
        >> (check (text_eq c.aud aud) audience_mismatch >> admitted c))
      ≡ admitted claims
    → (c ≡ claims) × (leb_ℤ c.exp now ≡ false) × (c.aud ≡ aud)
checks_lem claims c aud now h = ground (arith, text_eq_iff c.aud aud)

admitted_inj {ℓ} : {A : Type ℓ} {a b : A} → admitted a ≡ admitted b → a ≡ b
admitted_inj e = cc

module _ (jws : Text → Bytes → Jws) (loads : Bytes → Loaded) where
  -- Every one of these keys rejects the token.
  abbrev pub RejectAll : Text → List Bytes → Type 0
  RejectAll token [] = Unit
  RejectAll token (key ∷ keys) = (jws token key ≡ rejected) × RejectAll token keys

  -- Some key of the list verifies this payload of the token, and every key in front of it rejects it.
  pub record IsSigned (token : Text) (keys : List Bytes) (payload : Bytes) : Type 0 where
    pub old : List Bytes
    pub key : Bytes
    pub new : List Bytes
    pub window : keys ≡ old ++ key ∷ new
    pub earlier : RejectAll token old
    pub verifies : jws token key ≡ verified payload

  -- The token carries these claims for the audience, before their expiry.
  pub record IsValidAt (token : Text) (keys : List Bytes) (aud : Text) (now : ℤ)
      (claims : QueryContextClaims) : Type 0 where
    pub payload : Bytes
    pub signed : IsSigned token keys payload
    pub object : Entries
    pub loaded : loads payload ≡ decoded (dict object)
    pub parsed : AreClaims object claims
    pub unexpired : leb_ℤ claims.exp now ≡ false
    pub audience : claims.aud ≡ aud

  verified_payload_skip :
      (token : Text) (old : List Bytes) (key : Bytes) (new : List Bytes) (payload : Bytes)
      → RejectAll token old
      → jws token key ≡ verified payload
      → verified_payload jws token (old ++ key ∷ new) ≡ admitted payload
  unfolding verified_payload
  verified_payload_skip token [] key new payload r v = rw v
  verified_payload_skip token (k ∷ old) key new payload (r, rs) v =
      rw r (verified_payload_skip token old key new payload rs v)

  first-IsSigned :
      (token : Text) (key : Bytes) (keys : List Bytes) (payload : Bytes)
      → (verified_payload jws token keys ≡ admitted payload → IsSigned token keys payload)
      → (j : Jws) → jws token key ≡ j
      → elim j [
        | verified payload ↦ admitted payload
        | rejected ↦ verified_payload jws token keys
        | crashed e ↦ failed e
      ]
        ≡ admitted payload
      → IsSigned token (key ∷ keys) payload
  first-IsSigned token key keys payload rest (verified p) e q = record {
    old = [];
    key = key;
    new = keys;
    window = refl;
    earlier = tt;
    verifies = e ∙ ap verified (admitted_inj q);
  }
  first-IsSigned token key keys payload rest rejected e q =
      let s = rest q in
      record {
        old = key ∷ s.old;
        key = s.key;
        new = s.new;
        window = ap (λ r. key ∷ r) s.window;
        earlier = (e, s.earlier);
        verifies = s.verifies;
      }
  first-IsSigned token key keys payload rest (crashed x) e q = ground arith

  verified_payload-IsSigned :
      (token : Text) (keys : List Bytes) (payload : Bytes)
      → verified_payload jws token keys ≡ admitted payload
      → IsSigned token keys payload
  unfolding verified_payload
  verified_payload-IsSigned token [] payload h = ground arith
  verified_payload-IsSigned token (key ∷ keys) payload h =
      first-IsSigned token key keys payload (verified_payload-IsSigned token keys payload)
        (jws token key) refl h

  IsSigned-verified_payload :
      (token : Text) (keys : List Bytes) (payload : Bytes)
      → IsSigned token keys payload
      → verified_payload jws token keys ≡ admitted payload
  IsSigned-verified_payload token keys payload s =
      ap (verified_payload jws token) s.window
      ∙ verified_payload_skip token s.old s.key s.new payload s.earlier s.verifies

  parse_claims-AreClaims :
      (payload : Bytes) (claims : QueryContextClaims)
      → parse_claims loads payload ≡ admitted claims
      → (d : Entries) × (loads payload ≡ decoded (dict d)) × AreClaims d claims
  unfolding parse_claims
  parse_claims-AreClaims payload claims h = go (loads payload) refl h
    where
      go :
          (l : Loaded)
          → loads payload ≡ l
          → parse_loaded l ≡ admitted claims
          → (d : Entries) × (loads payload ≡ decoded (dict d)) × AreClaims d claims
      go (decoded (dict d)) e q = (d, e, (parse_entries-AreClaims d claims).0 q)
      go (decoded _) e q = ground arith
      go undecodable e q = ground arith
      go (broken x) e q = ground arith

  AreClaims-parse_claims :
      (payload : Bytes) (claims : QueryContextClaims) (d : Entries)
      → loads payload ≡ decoded (dict d)
      → AreClaims d claims
      → parse_claims loads payload ≡ admitted claims
  unfolding parse_claims
  AreClaims-parse_claims payload claims d e c =
      ap parse_loaded e ∙ (parse_entries-AreClaims d claims).1 c

  -- The verifier admits a token with some claims exactly when some key of the list verifies its payload,
  -- each key in front of that one having rejected the token, the payload is a JSON object that has the
  -- twelve keys and no others, each with its claim as the value, and names the kernel as its issuer, the
  -- clock stands before the expiry and the claims name the expected audience.
  pub verify_query_context-admitted :
      (token : Text) (keys : List Bytes) (aud : Text) (now : ℤ) (claims : QueryContextClaims)
      → (verify_query_context jws loads token keys aud now ≡ admitted claims)
        ↔ IsValidAt token keys aud now claims
  unfolding verify_query_context
  verify_query_context-admitted token keys aud now claims = (
    λ h.
        let (payload, signed, h') = >>=-eq-admitted (verified_payload jws token keys) _ h in
        let (c, parsed, h'') = >>=-eq-admitted (parse_claims loads payload) _ h' in
        let (same, unexpired, audience) = checks_lem claims c aud now h'' in
        let (d, loaded, fields) = parse_claims-AreClaims payload c parsed in
        subst (IsValidAt token keys aud now) same (record {
          payload = payload;
          signed = verified_payload-IsSigned token keys payload signed;
          object = d;
          loaded = loaded;
          parsed = fields;
          unexpired = unexpired;
          audience = audience;
        }),
    λ v. rw (
      IsSigned-verified_payload token keys v.payload v.signed,
      AreClaims-parse_claims v.payload claims v.object v.loaded v.parsed,
      v.unexpired,
      v.audience,
      text_eq_refl,
    ),
  )

  -- The rotation window: a key that verifies the token serves from any place in the list, behind
  -- keys that reject it and whatever stands after it.
  verify_query_context_rotation :
      (token : Text) (old : List Bytes) (key : Bytes) (new : List Bytes) (aud : Text) (now : ℤ)
      (payload : Bytes)
      → RejectAll token old
      → jws token key ≡ verified payload
      → verify_query_context jws loads token (old ++ key ∷ new) aud now
        ≡ verify_query_context jws loads token (key ∷ []) aud now
  unfolding verify_query_context
  verify_query_context_rotation token old key new aud now payload r v = rw (
    verified_payload_skip token old key new payload r v,
    verified_payload_skip token [] key [] payload tt v,
  )
