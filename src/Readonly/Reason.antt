-- ===== src/Readonly/Reason.antt =====
-- `RefusalReason`, and the result envelope of readonly_query.py.
use cognic_tool_oracle_schem.Base.{ℕ, Bool, List, Text}
use cognic_tool_oracle_schem.Readonly.Cell.{Cell}

pub data RefusalReason : Type 0 where
  query_context_missing_or_invalid query_context_replayed query_context_args_mismatch :
      RefusalReason
  sql_parse_failed sql_not_select_only agent_sql_object_out_of_scope : RefusalReason
  query_identity_stamp_failed query_execution_failed : RefusalReason

-- A row is the dict of its columns.
abbrev pub Row : Type 0
Row = List (Text × Cell)

-- `{"ok": False, "reason", "message"}`, or `{"ok": True, "rows", "row_count", "truncated",
-- "credential_rotation_ref"}`.
pub data Envelope : Type 0 where
  refusal : RefusalReason → Text → Envelope
  success : (rows : List Row) (row_count : ℕ) (truncated : Bool) (rotation_ref : Text) → Envelope
