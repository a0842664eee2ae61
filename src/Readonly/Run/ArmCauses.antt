-- ===== src/Readonly/Run/ArmCauses.antt =====
-- For what a request with verified claims is refused, behind arm 1.
use cognic_tool_oracle_schem.Base.{◌≡◌, refl, sym, ap, ◌∙◌, true, false}
use cognic_tool_oracle_schem.Base.{is_empty, ℤ, Text, text_eq, text_eq_iff}
use mathlib.Core.Path.{subst}
use cognic_tool_oracle_schem.Python.Exception.{Exc, ok, raised, ok-injective}
use cognic_tool_oracle_schem.Config.{Config}
use cognic_tool_oracle_schem.QueryContext.{QueryContextClaims}
use cognic_tool_oracle_schem.Readonly.Reason.{
  RefusalReason, query_context_replayed, query_context_args_mismatch, agent_sql_object_out_of_scope,
  query_identity_stamp_failed, query_execution_failed, Envelope, refusal, success,
}
use cognic_tool_oracle_schem.Readonly.Replay.{check_and_insert}
use cognic_tool_oracle_schem.Readonly.Sqlglot.{Sqlglot}
use cognic_tool_oracle_schem.Readonly.Analyze.{Analysis, reject, accept, analyze}
use cognic_tool_oracle_schem.Readonly.Scope.{referenced_objects, out_of_scope_objects}
use cognic_tool_oracle_schem.Readonly.Keys.{query_timeout_s}
use cognic_tool_oracle_schem.Readonly.Execute.{Fetched, unstamped, fetched, envelope_of, execute}
use cognic_tool_oracle_schem.Host.Yields.{Yields, Yields-bind, Yields-pure}
use cognic_tool_oracle_schem.Readonly.Run.{
  Args, recompute_args_sha256, first_use, is_proxy_identity, proxy_arm, statement_arms,
  analysis_arm, claims_arms,
}
use cognic_tool_oracle_schem.Readonly.Run.Gate.{noted, PassesClaims, is_empty-nil}
use cognic_tool_oracle_schem.Host.{Host, World, M, lift, is_exception}
use cognic_tool_oracle_schem.Host.Answers.{
  Answers, Answers-pure, Answers-if_not, Answers-bind, Answers-catch,
}

-- A refusal, if it is one, is that of the stamp.
abbrev IsStamp : Envelope → Type 0
IsStamp (refusal reason message) = reason ≡ query_identity_stamp_failed
IsStamp (success rows row_count truncated ref) = Unit

envelope_of-IsStamp :
    (result : Fetched) (effective : ℤ) (ref : Text) → IsStamp (envelope_of result effective ref)
unfolding envelope_of
envelope_of-IsStamp unstamped effective ref = refl
envelope_of-IsStamp (fetched columns found) effective ref = tt

execute-IsStamp :
    (h : Host) (cfg : Config) (identity subject sql : Text) (effective : ℤ) (timeout_s : h.Seconds)
    → Yields IsStamp (execute h cfg identity subject sql effective timeout_s)
unfolding execute
execute-IsStamp h cfg identity subject sql effective timeout_s = Yields-bind _ _ (λ bytes.
    Yields-bind _ _ (λ c.
      Yields-bind _ _
        (λ result. Yields-pure _ (envelope_of-IsStamp result effective c.0.rotation_ref))))

module _ (h : Host) (g : Sqlglot) (cfg : Config) (args : Args) (claims : QueryContextClaims)
    (now : ℤ) (w : World) where
  -- Arm 7 on what passed arms 2 to 6.
  abbrev executed_at : Text → ℤ → M Envelope
  executed_at sql effective =
      execute h cfg claims.proxy_db_identity claims.sub sql effective (query_timeout_s h)

  -- Why a request with these claims is refused behind arm 1.
  pub data ClaimsCause : RefusalReason → Type 0 where
    replayed :
        (check_and_insert claims.jti claims.exp now w.seen).0 ≡ false
        → ClaimsCause query_context_replayed
    mismatched :
        (digest : Text)
        → (check_and_insert claims.jti claims.exp now w.seen).0 ≡ true
        → recompute_args_sha256 h args ≡ ok digest
        → text_eq digest claims.args_sha256 ≡ false
        → ClaimsCause query_context_args_mismatch
    unacceptable :
        (reason : RefusalReason) (message : Text)
        → (check_and_insert claims.jti claims.exp now w.seen).0 ≡ true
        → recompute_args_sha256 h args ≡ ok claims.args_sha256
        → analyze h.unicode g args.sql ≡ reject reason message
        → ClaimsCause reason
    out_of_scope :
        (stmt : g.Node)
        → (check_and_insert claims.jti claims.exp now w.seen).0 ≡ true
        → recompute_args_sha256 h args ≡ ok claims.args_sha256
        → analyze h.unicode g args.sql ≡ accept stmt
        → is_empty
            (out_of_scope_objects h.unicode (referenced_objects h.unicode g stmt) claims.objects)
          ≡ false
        → ClaimsCause agent_sql_object_out_of_scope
    not_identifier :
        (stmt : g.Node) (sql : Text) (effective : ℤ)
        → PassesClaims h g args claims now w stmt sql effective
        → is_proxy_identity claims.proxy_db_identity ≡ false
        → ClaimsCause query_execution_failed
    not_executed :
        (stmt : g.Node) (sql : Text) (effective : ℤ) (e : Exc)
        → PassesClaims h g args claims now w stmt sql effective
        → (executed_at sql effective (noted claims now w)).0 ≡ raised e
        → is_exception e ≡ true
        → ClaimsCause query_execution_failed
    not_stamped :
        (stmt : g.Node) (sql : Text) (effective : ℤ) (message : Text)
        → PassesClaims h g args claims now w stmt sql effective
        → (executed_at sql effective (noted claims now w)).0
          ≡ ok (refusal query_identity_stamp_failed message)
        → ClaimsCause query_identity_stamp_failed

  abbrev Explains : Envelope → Type 0
  Explains (refusal reason message) = ClaimsCause reason
  Explains (success rows row_count truncated ref) = Unit

  executed-Explains :
      (stmt : g.Node) (sql : Text) (effective : ℤ)
      → PassesClaims h g args claims now w stmt sql effective
      → (answer : Envelope) → (executed_at sql effective (noted claims now w)).0 ≡ ok answer
      → Explains answer
  executed-Explains stmt sql effective p (refusal reason message) e =
      let same = (execute-IsStamp h cfg _ _ _ _ _).holds _ (refusal reason message) e in
      subst ClaimsCause (sym same)
        (not_stamped stmt sql effective message p (e ∙ ap (λ r. ok (refusal r message)) same))
  executed-Explains stmt sql effective p (success rows row_count truncated ref) e = tt

  proxy_arm-Explains :
      (stmt : g.Node) (sql : Text) (effective : ℤ)
      → PassesClaims h g args claims now w stmt sql effective
      → Answers Explains (noted claims now w) (proxy_arm h cfg claims sql effective)
  unfolding proxy_arm
  proxy_arm-Explains stmt sql effective p =
      Answers-if_not _ _ _ _ (λ bad. Answers-pure _ _ (not_identifier stmt sql effective p bad))
        (λ good.
          Answers-catch _ _ _ _ (record { holds = executed-Explains stmt sql effective p })
            (λ e failed caught.
              Answers-pure _ _ (not_executed stmt sql effective e p failed caught)))

  module _ (fresh : (check_and_insert claims.jti claims.exp now w.seen).0 ≡ true)
      (digest : recompute_args_sha256 h args ≡ ok claims.args_sha256) where
    analysis_arm-Explains :
        (a : Analysis g.Node)
        → analyze h.unicode g args.sql ≡ a
        → Answers Explains (noted claims now w) (analysis_arm h g cfg args claims a)
    unfolding statement_arms lift
    analysis_arm-Explains (reject reason message) e =
        Answers-pure _ _ (unacceptable reason message fresh digest e)
    analysis_arm-Explains (accept stmt) e =
        Answers-if_not _ _ _ _
          (λ outside. Answers-pure _ _ (out_of_scope stmt fresh digest e outside))
          (λ inside. Answers-bind _ _ _ (λ bound b.
            proxy_arm-Explains stmt bound.0 bound.1 (record {
              fresh = fresh;
              digest = digest;
              plain_select = e;
              passed = record { in_scope = is_empty-nil _ inside; bounded = b };
            })))

  pub claims_arms-Explains : Answers Explains w (claims_arms h g cfg args claims now)
  unfolding claims_arms first_use lift
  claims_arms-Explains = Answers-bind _ _ _ (λ fresh f.
      Answers-if_not _ _ _ _ (λ used. Answers-pure _ _ (replayed (ok-injective f ∙ used)))
        (λ new. Answers-bind _ _ _ (λ digest d.
          Answers-if_not _ _ _ _
            (λ differ. Answers-pure _ _ (mismatched digest (ok-injective f ∙ new) d differ))
            (λ same.
              analysis_arm-Explains (ok-injective f ∙ new) (d ∙ ap ok ((text_eq_iff _ _).0 same)) _
                refl))))
