-- ===== src/QueryContext/Claims.antt =====
-- Which payloads hold which claims.
use mathlib.Core.Path.{subst}
use cognic_tool_oracle_schem.Base.{
  ◌≡◌, refl, sym, ap, ◌&&◌, arith, ◌↔◌, Bool, true, false, List, [], ◌∷◌, Option, none, some,
}
use cognic_tool_oracle_schem.Base.{ℤ, Text, lit, contains, text_eq, text_eq_iff}
use cognic_tool_oracle_schem.Python.Value.{
  str_key, Value, integer, str, items, Items, nil, cons, Entries, end, entry, get,
}
use cognic_tool_oracle_schem.QueryContext.{
  QueryContextClaims, QueryContextRefusalReason, Verdict, admitted, refused, failed, check, ◌>>=◌,
  ◌>>◌, issuer, claim_keys, keys, same_set, only_text_keys, as_str, as_int, as_texts, as_str_list,
  parse_entries,
}

-- The JSON list of these texts.
abbrev pub texts : List Text → Items
texts [] = nil
texts (s ∷ ss) = cons (str s) (texts ss)

-- The object has the twelve keys and no others, each with the value of its claim, and the issuer is the
-- kernel.
pub record AreClaims (d : Entries) (claims : QueryContextClaims) : Type 0 where
  pub text_keys : only_text_keys d ≡ true
  pub exact_keys : same_set (keys d) claim_keys ≡ true
  pub iss : get (lit "iss") d ≡ some (str claims.iss)
  pub aud : get (lit "aud") d ≡ some (str claims.aud)
  pub sub : get (lit "sub") d ≡ some (str claims.sub)
  pub act : get (lit "act") d ≡ some (str claims.act)
  pub tenant_id : get (lit "tenant_id") d ≡ some (str claims.tenant_id)
  pub scope_id : get (lit "scope_id") d ≡ some (str claims.scope_id)
  pub proxy_db_identity : get (lit "proxy_db_identity") d ≡ some (str claims.proxy_db_identity)
  pub args_sha256 : get (lit "args_sha256") d ≡ some (str claims.args_sha256)
  pub jti : get (lit "jti") d ≡ some (str claims.jti)
  pub iat : get (lit "iat") d ≡ some (integer claims.iat)
  pub exp : get (lit "exp") d ≡ some (integer claims.exp)
  pub objects : get (lit "objects") d ≡ some (items (texts claims.objects))
  pub by_kernel : claims.iss ≡ issuer

prepend_lem {ℓ} :
    {A : Type ℓ} (v : Verdict (List Text)) (s : Text) (f : List Text → Verdict A)
    → (v >>= (λ ss. admitted (s ∷ ss)) >>= f) ≡ (v >>= λ ss. f (s ∷ ss))
prepend_lem (admitted ss) s f = refl
prepend_lem (refused r) s f = refl
prepend_lem (failed e) s f = refl

-- Whatever is admitted has the property.
record Admits {ℓ} {A : Type ℓ} (P : A → Type 0) (v : Verdict A) : Type ℓ where
  holds : (a : A) → v ≡ admitted a → P a

module _ {ℓ} {A : Type ℓ} {P : A → Type 0} where
  Admits-admitted : (a : A) → P a → Admits P (admitted a)
  Admits-admitted a p = record { holds = λ b e. subst P (injective e) p }
    where
      injective : {b : A} → admitted a ≡ admitted b → a ≡ b
      injective e = cc

  Admits-refused : (r : QueryContextRefusalReason) → Admits P (refused r)
  Admits-refused r = record { holds = λ a e. cc }

  Admits-check :
      (b : Bool) (r : QueryContextRefusalReason) (rest : Verdict A)
      → (b ≡ true → Admits P rest)
      → Admits P (check b r >> rest)
  Admits-check true r rest good = good refl
  Admits-check false r rest good = Admits-refused r

  Admits-str :
      (v : Option Value) (f : Text → Verdict A)
      → ((s : Text) → v ≡ some (str s) → Admits P (f s))
      → Admits P (as_str v >>= f)
  Admits-str (some (str s)) f good = good s refl
  Admits-str none f good = Admits-refused _
  Admits-str (some _) f good = Admits-refused _

  Admits-int :
      (v : Option Value) (f : ℤ → Verdict A)
      → ((n : ℤ) → v ≡ some (integer n) → Admits P (f n))
      → Admits P (as_int v >>= f)
  Admits-int (some (integer n)) f good = good n refl
  Admits-int none f good = Admits-refused _
  Admits-int (some _) f good = Admits-refused _

  Admits-texts :
      (vs : Items) (f : List Text → Verdict A)
      → ((ss : List Text) → vs ≡ texts ss → Admits P (f ss))
      → Admits P (as_texts vs >>= f)
  Admits-texts nil f good = good [] refl
  Admits-texts (cons (str s) vs) f good =
      subst (Admits P) (sym (prepend_lem (as_texts vs) s f))
        (Admits-texts vs (λ ss. f (s ∷ ss)) (λ ss e. good (s ∷ ss) (ap (cons (str s)) e)))
  Admits-texts (cons _ vs) f good = Admits-refused _

  Admits-str_list :
      (v : Option Value) (f : List Text → Verdict A)
      → ((ss : List Text) → v ≡ some (items (texts ss)) → Admits P (f ss))
      → Admits P (as_str_list v >>= f)
  Admits-str_list (some (items vs)) f good =
      Admits-texts vs f (λ ss e. good ss (ap (λ x. some (items x)) e))
  Admits-str_list none f good = Admits-refused _
  Admits-str_list (some _) f good = Admits-refused _

as_texts-texts : (ss : List Text) → as_texts (texts ss) ≡ admitted ss
as_texts-texts [] = refl
as_texts-texts (s ∷ ss) = rw (as_texts-texts ss)

&&-true : (a b : Bool) → (a && b) ≡ true → (a ≡ true) × (b ≡ true)
&&-true a b h = ground arith

parse_entries-Admits : (d : Entries) → Admits (AreClaims d) (parse_entries d)
unfolding parse_entries
parse_entries-Admits d = Admits-check _ _ _ (λ exact_keys. Admits-str _ _ (λ iss e_iss.
    Admits-str _ _ (λ aud e_aud. Admits-str _ _ (λ sub e_sub. Admits-str _ _ (λ act e_act.
      Admits-str _ _ (λ tenant_id e_tenant_id. Admits-str _ _ (λ scope_id e_scope_id.
        Admits-str _ _ (λ proxy_db_identity e_proxy_db_identity.
          Admits-str _ _ (λ args_sha256 e_args_sha256. Admits-str _ _ (λ jti e_jti.
            Admits-int _ _ (λ iat e_iat. Admits-int _ _ (λ exp e_exp.
              Admits-str_list _ _ (λ objects e_objects. Admits-check _ _ _ (λ by_kernel.
                Admits-admitted _ (record {
                  text_keys = (&&-true (only_text_keys d) _ exact_keys).0;
                  exact_keys = (&&-true (only_text_keys d) _ exact_keys).1;
                  iss = e_iss;
                  aud = e_aud;
                  sub = e_sub;
                  act = e_act;
                  tenant_id = e_tenant_id;
                  scope_id = e_scope_id;
                  proxy_db_identity = e_proxy_db_identity;
                  args_sha256 = e_args_sha256;
                  jti = e_jti;
                  iat = e_iat;
                  exp = e_exp;
                  objects = e_objects;
                  by_kernel = (text_eq_iff iss issuer).0 by_kernel;
                })))))))))))))))

parse_entries-admitted :
    (d : Entries) (claims : QueryContextClaims)
    → AreClaims d claims
    → parse_entries d ≡ admitted claims
unfolding parse_entries
parse_entries-admitted d claims c =
    rw
      (
        c.text_keys,
        c.exact_keys,
        c.iss,
        c.aud,
        c.sub,
        c.act,
        c.tenant_id,
        c.scope_id,
        c.proxy_db_identity,
        c.args_sha256,
        c.jti,
        c.iat,
        c.exp,
        c.objects,
        as_texts-texts claims.objects,
        (text_eq_iff claims.iss issuer).1 c.by_kernel,
      )
      refl

-- A payload's object is read as these claims exactly when it has the twelve keys and no others, each
-- with a value of its type, which is the claim, and names the kernel as its issuer.
pub parse_entries-AreClaims :
    (d : Entries) (claims : QueryContextClaims)
    → (parse_entries d ≡ admitted claims) ↔ AreClaims d claims
parse_entries-AreClaims d claims =
    (λ e. (parse_entries-Admits d).holds claims e, parse_entries-admitted d claims)

-- An object that carries some claims.
abbrev pub entries_of : QueryContextClaims → Entries
entries_of c = entry (str_key (lit "iss")) (str c.iss) (
    entry (str_key (lit "aud")) (str c.aud) (
      entry (str_key (lit "sub")) (str c.sub) (
        entry (str_key (lit "act")) (str c.act) (
          entry (str_key (lit "tenant_id")) (str c.tenant_id) (
            entry (str_key (lit "scope_id")) (str c.scope_id) (
              entry (str_key (lit "objects")) (items (texts c.objects)) (
                entry (str_key (lit "proxy_db_identity")) (str c.proxy_db_identity) (
                  entry (str_key (lit "args_sha256")) (str c.args_sha256) (
                    entry (str_key (lit "jti")) (str c.jti) (
                      entry (str_key (lit "iat")) (integer c.iat)
                        (entry (str_key (lit "exp")) (integer c.exp) end)))))))))))

-- The object of any claims of the kernel is read back as these claims.
pub parse_entries-entries_of :
    (claims : QueryContextClaims)
    → claims.iss ≡ issuer
    → parse_entries (entries_of claims) ≡ admitted claims
unfolding get contains text_eq lit
parse_entries-entries_of claims by_kernel =
    parse_entries-admitted (entries_of claims) claims (record {
      text_keys = refl;
      exact_keys = refl;
      iss = refl;
      aud = refl;
      sub = refl;
      act = refl;
      tenant_id = refl;
      scope_id = refl;
      proxy_db_identity = refl;
      args_sha256 = refl;
      jti = refl;
      iat = refl;
      exp = refl;
      objects = refl;
      by_kernel = by_kernel;
    })
