-- ===== src/Readonly/Run/Entry.antt =====
-- `run` of readonly_query.py, cut at its one await: arms 1 to 6 run without a break, and only the
-- execution of arm 7 gives way to other requests.
pub mod Whole
pub mod Keeps
pub mod Seen
use cognic_tool_oracle_schem.Base.{
  not, List, Option, none, some, is_empty, if◌then◌else◌, ℤ, Text, Bytes, text_eq,
}
use cognic_tool_oracle_schem.Config.{Config}
use cognic_tool_oracle_schem.QueryContext.{
  QueryContextClaims, Verdict, admitted, refused, failed, verify_query_context,
}
use cognic_tool_oracle_schem.Readonly.Reason.{
  RefusalReason, query_context_missing_or_invalid, query_context_replayed,
  query_context_args_mismatch, agent_sql_object_out_of_scope, Envelope, refusal,
}
use cognic_tool_oracle_schem.Readonly.Sqlglot.{Sqlglot}
use cognic_tool_oracle_schem.Readonly.Analyze.{Analysis, reject, accept, analyze}
use cognic_tool_oracle_schem.Readonly.Scope.{referenced_objects, out_of_scope_objects}
use cognic_tool_oracle_schem.Readonly.RowBound.{apply_row_bound}
use cognic_tool_oracle_schem.Readonly.Keys.{load_public_keys}
use cognic_tool_oracle_schem.Readonly.Run.{
  expected_aud, Args, no_keys_message, no_token_message, unverified_message, replayed_message,
  mismatch_message, scope_message, or_refused, first_use, recompute_args_sha256, proxy_arm,
}
use cognic_tool_oracle_schem.Host.{Host, M, pure, raise, lift, gets, ◌>>=◌}

-- What arms 1 to 6 come to: an answer, or what goes to arm 7.
pub data Entry : Type 0 where
  answered : Envelope → Entry
  cleared : QueryContextClaims → Text → ℤ → Entry

abbrev pub refuse_entry : RefusalReason → Text → M Entry
refuse_entry reason message = pure (answered (refusal reason message))

module _ (h : Host) (g : Sqlglot) (args : Args) where
  -- Arms 5 and 6.
  unfoldable pub statement_entry : QueryContextClaims → g.Node → M Entry
  statement_entry claims stmt =
      let outside =
        out_of_scope_objects h.unicode (referenced_objects h.unicode g stmt) claims.objects in
      if not (is_empty outside)
      then refuse_entry agent_sql_object_out_of_scope (scope_message outside)
      else (do
        bound ← lift (apply_row_bound h.unicode g stmt args.max_rows)
        pure (cleared claims bound.0 bound.1))

  -- Arm 4.
  abbrev pub analysis_entry : QueryContextClaims → Analysis g.Node → M Entry
  analysis_entry claims (reject reason message) = refuse_entry reason (or_refused message)
  analysis_entry claims (accept stmt) = statement_entry claims stmt

  -- Arms 2 and 3.
  unfoldable pub claims_entry : QueryContextClaims → ℤ → M Entry
  claims_entry claims now = do
    fresh ← first_use claims now
    if not fresh then refuse_entry query_context_replayed replayed_message else (do
      digest ← lift (recompute_args_sha256 h args)
      if not (text_eq digest claims.args_sha256)
          then refuse_entry query_context_args_mismatch mismatch_message
          else analysis_entry claims (analyze h.unicode g args.sql))

  abbrev pub verdict_entry : ℤ → Verdict QueryContextClaims → M Entry
  verdict_entry now (refused reason) =
      refuse_entry query_context_missing_or_invalid unverified_message
  verdict_entry now (failed exc) = raise exc
  verdict_entry now (admitted claims) = claims_entry claims now

  -- Arm 1.
  abbrev pub token_entry : Text → Option (List Bytes) → M Entry
  token_entry token none = refuse_entry query_context_missing_or_invalid no_keys_message
  token_entry token (some public_keys) =
      if is_empty token then refuse_entry query_context_missing_or_invalid no_token_message else (do
        now ← gets h.clock
        verdict_entry now (verify_query_context h.jws h.loads token public_keys expected_aud now))

  unfoldable pub enter : Text → M Entry
  enter token = do public_keys ← load_public_keys h; token_entry token public_keys

-- Arm 7, where there is no answer yet.
abbrev pub finish_entry : Host → Config → Entry → M Envelope
finish_entry h cfg (answered envelope) = pure envelope
finish_entry h cfg (cleared claims sql effective) = proxy_arm h cfg claims sql effective
