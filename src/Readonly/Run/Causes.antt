-- ===== src/Readonly/Run/Causes.antt =====
-- For what a run of the governed tool is refused.
use cognic_tool_oracle_schem.Base.{◌≡◌, refl, true, List, Option, none, some}
use cognic_tool_oracle_schem.Base.{is_empty, Text, Bytes}
use mathlib.Core.Path.{subst}
use cognic_tool_oracle_schem.Python.Exception.{ok, ok-injective}
use cognic_tool_oracle_schem.Config.{Config}
use cognic_tool_oracle_schem.QueryContext.{
  QueryContextClaims, QueryContextRefusalReason, Verdict, admitted, refused, failed,
  verify_query_context,
}
use cognic_tool_oracle_schem.Readonly.Reason.{
  RefusalReason, query_context_missing_or_invalid, Envelope, refusal, success,
}
use cognic_tool_oracle_schem.Readonly.Sqlglot.{Sqlglot}
use cognic_tool_oracle_schem.Readonly.Keys.{load_public_keys}
use cognic_tool_oracle_schem.Readonly.Run.{
  expected_aud, Args, claims_arms, verdict_arm, token_arm, run,
}
use cognic_tool_oracle_schem.Host.{Host, World, gets}
use cognic_tool_oracle_schem.Host.Answers.{
  Answers, Answers-pure, Answers-raise, Answers-if, Answers-bind,
}
use cognic_tool_oracle_schem.Readonly.Run.ArmCauses.{ClaimsCause, claims_arms-Explains}

module _ (h : Host) (g : Sqlglot) (cfg : Config) (args : Args) (token : Text) (w : World) where
  -- The verdict on the token under these keys, at the time when they have been loaded.
  abbrev pub judged : List Bytes → Verdict QueryContextClaims
  judged keys =
      verify_query_context h.jws h.loads token keys expected_aud
        (h.clock (load_public_keys h w).1.events)

  -- Why a request is refused.
  pub data Cause : RefusalReason → Type 0 where
    no_keys : (load_public_keys h w).0 ≡ ok none → Cause query_context_missing_or_invalid
    no_token : is_empty token ≡ true → Cause query_context_missing_or_invalid
    unverified :
        (keys : List Bytes) (reason : QueryContextRefusalReason)
        → (load_public_keys h w).0 ≡ ok (some keys)
        → judged keys ≡ refused reason
        → Cause query_context_missing_or_invalid
    behind_arm_1 :
        (keys : List Bytes) (claims : QueryContextClaims) (reason : RefusalReason)
        → (load_public_keys h w).0 ≡ ok (some keys)
        → judged keys ≡ admitted claims
        → ClaimsCause h g cfg args claims
            (h.clock (load_public_keys h w).1.events)
            (load_public_keys h w).1
            reason
        → Cause reason

  -- A refusal has its cause.
  abbrev pub HasCause : Envelope → Type 0
  HasCause (refusal reason message) = Cause reason
  HasCause (success rows row_count truncated ref) = Unit

  verdict_arm-HasCause :
      (keys : List Bytes) (v : Verdict QueryContextClaims)
      → (load_public_keys h w).0 ≡ ok (some keys)
      → judged keys ≡ v
      → Answers HasCause
          (load_public_keys h w).1
          (verdict_arm h g cfg args (h.clock (load_public_keys h w).1.events) v)
  verdict_arm-HasCause keys (refused reason) k e = Answers-pure _ _ (unverified keys reason k e)
  verdict_arm-HasCause keys (failed exc) k e = Answers-raise _ _
  verdict_arm-HasCause keys (admitted claims) k e = record { holds = explained }
    where
      explained :
          (answer : Envelope)
          → (claims_arms h g cfg args claims
              (h.clock (load_public_keys h w).1.events)
              (load_public_keys h w).1).0
            ≡ ok answer
          → HasCause answer
      explained (refusal reason message) a =
          behind_arm_1 keys claims reason k e
            ((claims_arms-Explains h g cfg args claims _ _).holds (refusal reason message) a)
      explained (success rows row_count truncated ref) a = tt

  token_arm-HasCause :
      (keys : Option (List Bytes))
      → (load_public_keys h w).0 ≡ ok keys
      → Answers HasCause (load_public_keys h w).1 (token_arm h g cfg args token keys)
  unfolding gets
  token_arm-HasCause none k = Answers-pure _ _ (no_keys k)
  token_arm-HasCause (some keys) k =
      Answers-if _ _ _ _ (λ empty. Answers-pure _ _ (no_token empty))
        (λ has_token. Answers-bind _ _ _ (λ now n.
          subst
            (λ t. Answers HasCause (load_public_keys h w).1 (
              verdict_arm h g cfg args t
                (verify_query_context h.jws h.loads token keys expected_aud t)))
            (ok-injective n) (verdict_arm-HasCause keys _ k refl)))

  -- Every refusal of the tool has the cause that its reason names: the keys, the token or its
  -- verification for a missing or invalid context, a sighting of the identifier for a replay, the
  -- digest for other arguments, the verdict on the statement for what arm 4 refuses, an object
  -- outside the token's list for the scope, the stamp for an unstamped session, and the identity or
  -- an exception of arm 7 for a failed execution; and each arm is reached only by what passed the
  -- earlier ones.
  pub run-HasCause :
      (answer : Envelope) → (run h g cfg args token w).0 ≡ ok answer → HasCause answer
  unfolding run
  run-HasCause answer e = (Answers-bind w (load_public_keys h) _ token_arm-HasCause).holds answer e
