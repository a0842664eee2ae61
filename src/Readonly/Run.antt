-- ===== src/Readonly/Run.antt =====
-- `run` of readonly_query.py: the seven arms in their order.
pub mod Gate
pub mod Safety
pub mod Entry
pub mod SingleUse
pub mod Binding
pub mod Digest
pub mod Answer
pub mod Errors
pub mod Events
pub mod ArmCauses
pub mod Causes
pub mod Live
pub mod Raises
use cognic_tool_oracle_schem.Base.{
  ℕ, Bool, true, false, not, ◌&&◌, ◌||◌, List, [], ◌∷◌, ◌++◌, Option, none, some,
}
use cognic_tool_oracle_schem.Base.{
  ltb, leb, ◌==◌, length, all, is_empty, join, if◌then◌else◌, ℤ, Text, Bytes, lit, text_eq,
}
use cognic_tool_oracle_schem.Python.Exception.{Exc, Result, ok, raised}
use cognic_tool_oracle_schem.Python.Str.{between}
use cognic_tool_oracle_schem.Python.Value.{str_key, Value, integer, str, dict, Entries, end, entry}
use cognic_tool_oracle_schem.Config.{Config}
use cognic_tool_oracle_schem.QueryContext.{
  QueryContextClaims, QueryContextRefusalReason, Verdict, admitted, refused, failed,
  verify_query_context,
}
use cognic_tool_oracle_schem.QueryContext.Canonical.{canonical_bytes}
use cognic_tool_oracle_schem.Readonly.Reason.{
  RefusalReason, query_context_missing_or_invalid, query_context_replayed,
  query_context_args_mismatch, agent_sql_object_out_of_scope, query_execution_failed, Envelope,
  refusal,
}
use cognic_tool_oracle_schem.Readonly.Replay.{check_and_insert}
use cognic_tool_oracle_schem.Readonly.Sqlglot.{Sqlglot}
use cognic_tool_oracle_schem.Readonly.Analyze.{Analysis, reject, accept, analyze}
use cognic_tool_oracle_schem.Readonly.Scope.{referenced_objects, out_of_scope_objects}
use cognic_tool_oracle_schem.Readonly.RowBound.{apply_row_bound}
use cognic_tool_oracle_schem.Readonly.Keys.{public_keys_env, load_public_keys, query_timeout_s}
use cognic_tool_oracle_schem.Readonly.Execute.{execute}
use cognic_tool_oracle_schem.Host.{
  Host, M, pure, raise, lift, gets, catch, is_exception, ◌>>=◌, ◌>>◌,
}

abbrev pub expected_aud : Text
expected_aud = lit "cognic-tool-oracle-schema/run_readonly_query"

-- `[A-Za-z][A-Za-z0-9_$#]{0,127}`, matched in full.
abbrev pub is_letter : ℕ → Bool
is_letter c = between b'A' b'Z' c || between b'a' b'z' c

abbrev pub is_identifier_char : ℕ → Bool
is_identifier_char c = is_letter c || between b'0' b'9' c || c == b'_' || c == b'$' || c == b'#'

unfoldable pub is_proxy_identity : Text → Bool
is_proxy_identity [] = false
is_proxy_identity (c ∷ s) = is_letter c && all is_identifier_char s && leb (length s) 127

-- The arguments of a call.
pub record Args : Type 0 where
  pub scope_id : Text
  pub sql : Text
  pub max_rows : Option ℤ

-- The dict that is digested: `max_rows` enters only when the wire carried it.
abbrev pub max_rows_entry : Option ℤ → Entries
max_rows_entry none = end
max_rows_entry (some n) = entry (str_key (lit "max_rows")) (integer n) end

unfoldable pub basis : Args → Value
basis args = dict (
    entry (str_key (lit "scope_id")) (str args.scope_id)
      (entry (str_key (lit "sql")) (str args.sql) (max_rows_entry args.max_rows)))

abbrev pub hashed : (Bytes → Text) → Result Bytes → Result Text
hashed sha256 (ok b) = ok (sha256 b)
hashed sha256 (raised e) = raised e

abbrev pub refuse : RefusalReason → Text → M Envelope
refuse reason message = pure (refusal reason message)

abbrev pub no_keys_message : Text
no_keys_message =
    lit "query-context verification keys are not configured on this server ("
    ++ (public_keys_env ++ lit "); governed queries cannot run")

abbrev pub no_token_message : Text
no_token_message =
    lit
      "a kernel-signed query-context token is required (this tool only runs on the governed agent dispatch path)"

abbrev pub unverified_message : Text
unverified_message =
    lit
      "the query-context token did not verify (missing, invalid, expired, or for another audience)"

abbrev pub replayed_message : Text
replayed_message = lit "this query-context token was already used (replay refused)"

abbrev pub mismatch_message : Text
mismatch_message =
    lit "the call arguments do not match the arguments this query context was minted for"

abbrev pub scope_message : List Text → Text
scope_message names =
    lit "the query references objects outside the entitled data scope: " ++ join (lit ", ") names

abbrev pub identity_message : Text
identity_message = lit "the token's proxy database identity is not a valid Oracle identifier"

-- `message or "the SQL statement was refused"`
abbrev pub or_refused : Text → Text
or_refused message = if is_empty message then lit "the SQL statement was refused" else message

-- The replay cache of the process.
unfoldable pub first_use : QueryContextClaims → ℤ → M Bool
first_use claims now w =
    let (fresh, seen) = check_and_insert claims.jti claims.exp now w.seen in
    (ok fresh, record w { seen = seen })

module _ (h : Host) where
  unfoldable pub recompute_args_sha256 : Args → Result Text
  recompute_args_sha256 args = hashed h.sha256 (canonical_bytes (basis args))

  -- The handler around the execution.
  abbrev pub execution_failed : Exc → M Envelope
  execution_failed exc =
      refuse query_execution_failed (lit "query execution failed (" ++ (exc.class_name ++ lit ")"))

  -- Arm 7.
  unfoldable pub proxy_arm : Config → QueryContextClaims → Text → ℤ → M Envelope
  proxy_arm cfg claims bounded_sql effective =
      if not (is_proxy_identity claims.proxy_db_identity)
      then refuse query_execution_failed identity_message
      else catch is_exception
          (execute h cfg claims.proxy_db_identity claims.sub bounded_sql effective
            (query_timeout_s h))
          execution_failed

module _ (h : Host) (g : Sqlglot) where
  -- Arms 5 and 6, for a statement that arm 4 let through.
  unfoldable pub statement_arms : Config → Args → QueryContextClaims → g.Node → M Envelope
  statement_arms cfg args claims stmt =
      let outside =
        out_of_scope_objects h.unicode (referenced_objects h.unicode g stmt) claims.objects in
      if not (is_empty outside)
      then refuse agent_sql_object_out_of_scope (scope_message outside)
      else (do
        bound ← lift (apply_row_bound h.unicode g stmt args.max_rows)
        proxy_arm h cfg claims bound.0 bound.1)

  -- Arm 4.
  abbrev pub analysis_arm : Config → Args → QueryContextClaims → Analysis g.Node → M Envelope
  analysis_arm cfg args claims (reject reason message) = refuse reason (or_refused message)
  analysis_arm cfg args claims (accept stmt) = statement_arms cfg args claims stmt

  -- Arms 2 and 3.
  unfoldable pub claims_arms : Config → Args → QueryContextClaims → ℤ → M Envelope
  claims_arms cfg args claims now = do
    fresh ← first_use claims now
    if not fresh then refuse query_context_replayed replayed_message else (do
      digest ← lift (recompute_args_sha256 h args)
      if not (text_eq digest claims.args_sha256)
          then refuse query_context_args_mismatch mismatch_message
          else analysis_arm cfg args claims (analyze h.unicode g args.sql))

  abbrev pub verdict_arm : Config → Args → ℤ → Verdict QueryContextClaims → M Envelope
  verdict_arm cfg args now (refused reason) =
      refuse query_context_missing_or_invalid unverified_message
  verdict_arm cfg args now (failed exc) = raise exc
  verdict_arm cfg args now (admitted claims) = claims_arms cfg args claims now

  -- Arm 1.
  abbrev pub token_arm : Config → Args → Text → Option (List Bytes) → M Envelope
  token_arm cfg args token none = refuse query_context_missing_or_invalid no_keys_message
  token_arm cfg args token (some public_keys) =
      if is_empty token then refuse query_context_missing_or_invalid no_token_message else (do
        now ← gets h.clock
        verdict_arm cfg args now
            (verify_query_context h.jws h.loads token public_keys expected_aud now))

  unfoldable pub run : Config → Args → Text → M Envelope
  run cfg args token = do public_keys ← load_public_keys h; token_arm cfg args token public_keys
