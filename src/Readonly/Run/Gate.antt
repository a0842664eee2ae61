-- ===== src/Readonly/Run/Gate.antt =====
-- Arms 1 to 6, and what a request has passed behind them.
use cognic_tool_oracle_schem.Base.{
  ◌≡◌, refl, ◌∙◌, ◌⊎◌, inl, inr, true, false, List, [], ◌∷◌, none, some,
}
use cognic_tool_oracle_schem.Base.{ap, is_empty, Bool-cases, ℤ, Text, Bytes, text_eq, text_eq_iff}
use cognic_tool_oracle_schem.Python.Exception.{ok, Result-cases}
use cognic_tool_oracle_schem.Config.{Config}
use cognic_tool_oracle_schem.QueryContext.{
  QueryContextClaims, Verdict, admitted, refused, failed, verify_query_context,
}
use cognic_tool_oracle_schem.Readonly.Replay.{check_and_insert}
use cognic_tool_oracle_schem.Readonly.Sqlglot.{Sqlglot}
use cognic_tool_oracle_schem.Readonly.Analyze.{Analysis, reject, accept, analyze}
use cognic_tool_oracle_schem.Readonly.Scope.{referenced_objects, out_of_scope_objects}
use cognic_tool_oracle_schem.Readonly.RowBound.{apply_row_bound}
use cognic_tool_oracle_schem.Readonly.Keys.{load_public_keys}
use cognic_tool_oracle_schem.Readonly.Keys.Reads.{OnlyKeyReads, load_public_keys-IsKeyLoad}
use cognic_tool_oracle_schem.Readonly.Run.{
  expected_aud, Args, recompute_args_sha256, first_use, is_proxy_identity, proxy_arm,
  statement_arms, analysis_arm, claims_arms, verdict_arm, run,
}
use cognic_tool_oracle_schem.Host.{◌>>=◌, Host, World}

pub is_empty-nil {ℓ} : {A : Type ℓ} (xs : List A) → is_empty xs ≡ true → xs ≡ []
is_empty-nil [] h = refl
is_empty-nil (x ∷ xs) h = cc

-- The world with the token's use recorded.
abbrev pub noted : QueryContextClaims → ℤ → World → World
noted claims now w = record w { seen = (check_and_insert claims.jti claims.exp now w.seen).1 }

module _ (h : Host) (g : Sqlglot) (args : Args) (claims : QueryContextClaims) where
  -- A statement passed arms 5 and 6, with the text and the bound that go to arm 7.
  pub record IsInScope (stmt : g.Node) (sql : Text) (effective : ℤ) : Type 0 where
    pub in_scope :
        out_of_scope_objects h.unicode (referenced_objects h.unicode g stmt) claims.objects ≡ []
    pub bounded : apply_row_bound h.unicode g stmt args.max_rows ≡ ok (sql, effective)

  -- A request passed arms 2 to 6.
  pub record PassesClaims (now : ℤ) (w : World) (stmt : g.Node) (sql : Text) (effective : ℤ)
      : Type 0 where
    pub fresh : (check_and_insert claims.jti claims.exp now w.seen).0 ≡ true
    pub digest : recompute_args_sha256 h args ≡ ok claims.args_sha256
    pub plain_select : analyze h.unicode g args.sql ≡ accept stmt
    pub passed : IsInScope stmt sql effective

module _ (h : Host) (g : Sqlglot) (cfg : Config) (args : Args) (claims : QueryContextClaims) where
  -- The run changed no more than the replay cache, or it is arm 7 on what passed.
  statement_arms-cases :
      (stmt : g.Node) (w : World)
      → ((statement_arms h g cfg args claims stmt w).1 ≡ w)
        ⊎ ((sql : Text) × (effective : ℤ) × IsInScope h g args claims stmt sql effective
            × (statement_arms h g cfg args claims stmt w ≡ proxy_arm h cfg claims sql effective w))
  unfolding statement_arms ◌>>=◌
  statement_arms-cases stmt w =
      elim (Bool-cases (
        is_empty
          (out_of_scope_objects h.unicode (referenced_objects h.unicode g stmt) claims.objects))) [
            | inl inside ↦ elim (Result-cases (apply_row_bound h.unicode g stmt args.max_rows)) [
              | inl ((sql, effective), e) ↦ inr (
                sql,
                effective,
                record { in_scope = is_empty-nil _ inside; bounded = e },
                rw (inside, e),
              )
              | inr (exc, e) ↦ inl (rw (inside, e))
            ]
            | inr outside ↦ inl (rw outside)
          ]

  analysis_arm-cases :
      (a : Analysis g.Node) (w : World)
      → ((analysis_arm h g cfg args claims a w).1 ≡ w)
        ⊎ ((stmt : g.Node) × (sql : Text) × (effective : ℤ) × (a ≡ accept stmt)
            × IsInScope h g args claims stmt sql effective
            × (analysis_arm h g cfg args claims a w ≡ proxy_arm h cfg claims sql effective w))
  unfolding ◌>>=◌
  analysis_arm-cases (reject reason message) w = inl refl
  analysis_arm-cases (accept stmt) w = elim (statement_arms-cases stmt w) [
    | inl quiet ↦ inl quiet
    | inr (sql, effective, passed, e) ↦ inr (stmt, sql, effective, refl, passed, e)
  ]

  pub claims_arms-cases :
      (now : ℤ) (w : World)
      → ((claims_arms h g cfg args claims now w).1 ≡ noted claims now w)
        ⊎ ((stmt : g.Node) × (sql : Text) × (effective : ℤ) × PassesClaims h g args claims now w
              stmt sql effective
            × (claims_arms h g cfg args claims now w
                ≡ proxy_arm h cfg claims sql effective (noted claims now w)))
  unfolding claims_arms first_use ◌>>=◌
  claims_arms-cases now w =
      elim (Bool-cases (check_and_insert claims.jti claims.exp now w.seen).0) [
        | inl fresh ↦ elim (Result-cases (recompute_args_sha256 h args)) [
          | inl (digest, d) ↦ elim (Bool-cases (text_eq digest claims.args_sha256)) [
            | inl same ↦
                elim (analysis_arm-cases (analyze h.unicode g args.sql) (noted claims now w)) [
                  | inl quiet ↦ inl (rw (fresh, d, same) quiet)
                  | inr (stmt, sql, effective, plain_select, passed, e) ↦ inr (
                    stmt,
                    sql,
                    effective,
                    record {
                      fresh = fresh;
                      digest = d ∙ ap ok ((text_eq_iff _ _).0 same);
                      plain_select = plain_select;
                      passed = passed;
                    },
                    rw (fresh, d, same) e,
                  )
                ]
            | inr differ ↦ inl (rw (fresh, d, differ))
          ]
          | inr (exc, d) ↦ inl (rw (fresh, d))
        ]
        | inr used ↦ inl (rw used)
      ]

module _ (h : Host) (g : Sqlglot) (cfg : Config) (args : Args) (token : Text) where
  -- The request is cleared: the token verifies at the clock's time under the keys that are loaded,
  -- with the audience of this tool, its identifier is new, its digest is that of the arguments, the
  -- statement is a plain SELECT within the token's objects, and the identity is an Oracle identifier.
  pub record IsCleared (w : World) (keys : List Bytes) (now : ℤ) (claims : QueryContextClaims)
      (stmt : g.Node) (sql : Text) (effective : ℤ) : Type 0 where
    pub has_token : is_empty token ≡ false
    pub verified : verify_query_context h.jws h.loads token keys expected_aud now ≡ admitted claims
    pub passed : PassesClaims h g args claims now w stmt sql effective
    pub identity : is_proxy_identity claims.proxy_db_identity ≡ true

  -- What a run that gets past arm 6 does: arm 7 is all of it.
  abbrev pub ReachesDatabase : World → Type 0
  ReachesDatabase w =
      (keys : List Bytes) × (claims : QueryContextClaims) × (stmt : g.Node) × (sql : Text)
      × (effective : ℤ) × ((load_public_keys h w).0 ≡ ok (some keys))
      × (let loaded = (load_public_keys h w).1 in
          IsCleared loaded keys (h.clock loaded.events) claims stmt sql effective
          × (run h g cfg args token w
              ≡ proxy_arm h cfg claims sql effective (noted claims (h.clock loaded.events) loaded)))

  proxy_arm-cases :
      (claims : QueryContextClaims) (sql : Text) (effective : ℤ) (w : World)
      → ((proxy_arm h cfg claims sql effective w).1 ≡ w)
        ⊎ (is_proxy_identity claims.proxy_db_identity ≡ true)
  unfolding proxy_arm ◌>>=◌
  proxy_arm-cases claims sql effective w =
      elim (Bool-cases (is_proxy_identity claims.proxy_db_identity)) [
        | inl good ↦ inr good
        | inr bad ↦ inl (rw bad)
      ]

  -- Past the empty token.
  claims_arms-gate :
      (claims : QueryContextClaims) (now : ℤ) (w : World)
      → ((claims_arms h g cfg args claims now w).1.events ≡ w.events)
        ⊎ ((stmt : g.Node) × (sql : Text) × (effective : ℤ) × PassesClaims h g args claims now w
              stmt sql effective
            × (is_proxy_identity claims.proxy_db_identity ≡ true)
            × (claims_arms h g cfg args claims now w
                ≡ proxy_arm h cfg claims sql effective (noted claims now w)))
  claims_arms-gate claims now w = elim (claims_arms-cases h g cfg args claims now w) [
    | inl quiet ↦ inl (ap (λ (v : World). v.events) quiet)
    | inr (stmt, sql, effective, passed, e) ↦
        elim (proxy_arm-cases claims sql effective (noted claims now w)) [
          | inl quiet ↦ inl (rw e (ap (λ (v : World). v.events) quiet))
          | inr good ↦ inr (stmt, sql, effective, passed, good, e)
        ]
  ]

  -- The verdict on the token at the time when the keys were loaded.
  abbrev pub verdict_of : World → List Bytes → Verdict QueryContextClaims
  verdict_of w keys =
      verify_query_context h.jws h.loads token keys expected_aud
        (h.clock (load_public_keys h w).1.events)

  verdict_arm-gate :
      (v : Verdict QueryContextClaims) (now : ℤ) (w : World)
      → ((verdict_arm h g cfg args now v w).1.events ≡ w.events)
        ⊎ ((claims : QueryContextClaims) × (stmt : g.Node) × (sql : Text) × (effective : ℤ) × (v
              ≡ admitted claims)
            × PassesClaims h g args claims now w stmt sql effective
            × (is_proxy_identity claims.proxy_db_identity ≡ true)
            × (verdict_arm h g cfg args now v w
                ≡ proxy_arm h cfg claims sql effective (noted claims now w)))
  unfolding ◌>>=◌
  verdict_arm-gate (refused reason) now w = inl refl
  verdict_arm-gate (failed exc) now w = inl refl
  verdict_arm-gate (admitted claims) now w = elim (claims_arms-gate claims now w) [
    | inl quiet ↦ inl quiet
    | inr (stmt, sql, effective, passed, good, e) ↦
        inr (claims, stmt, sql, effective, refl, passed, good, e)
  ]

  -- A run of the tool only reads key files, or the whole request is cleared and arm 7, with the text and
  -- the bound of arm 6 and the token's use recorded, is all that follows the loading of the keys.
  pub run-gate :
      (w : World) → OnlyKeyReads w.events (run h g cfg args token w).1.events ⊎ ReachesDatabase w
  unfolding run ◌>>=◌
  run-gate w =
      let k = load_public_keys-IsKeyLoad h w in
      elim (Result-cases (load_public_keys h w).0) [
        | inr (exc, e) ↦ inl (rw e k.reads)
        | inl (none, e) ↦ inl (rw e k.reads)
        | inl (some keys, e) ↦ elim (Bool-cases (is_empty token)) [
          | inl empty ↦ inl (rw (e, empty) k.reads)
          | inr has_token ↦
              elim (verdict_arm-gate (verdict_of w keys) (h.clock (load_public_keys h w).1.events)
                (load_public_keys h w).1) [
                  | inl quiet ↦ inl (rw (e, has_token, quiet) k.reads)
                  | inr (claims, stmt, sql, effective, verified, passed, good, f) ↦ inr (
                    keys,
                    claims,
                    stmt,
                    sql,
                    effective,
                    e,
                    (
                      record {
                        has_token = has_token;
                        verified = verified;
                        passed = passed;
                        identity = good;
                      },
                      rw (e, has_token) f,
                    ),
                  )
                ]
        ]
      ]
