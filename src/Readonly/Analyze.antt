-- ===== src/Readonly/Analyze.antt =====
-- Arm 4 of readonly_query.py: `_classify_parse_failure` and `_analyze`.
pub mod Accepts
use cognic_tool_oracle_schem.Base.{
  Bool, true, false, not, ◌&&◌, List, [], ◌∷◌, ◌++◌, Option, none, some,
}
use cognic_tool_oracle_schem.Base.{any, present, contains, if◌then◌else◌, Text, lit, text_eq}
use cognic_tool_oracle_schem.Python.Str.{Unicode, upper}
use cognic_tool_oracle_schem.Readonly.Reason.{RefusalReason, sql_parse_failed, sql_not_select_only}
use cognic_tool_oracle_schem.Readonly.Sqlglot.{
  NodeClass, command, insert, update, delete, merge, create, drop, alter, grant, truncate_table,
  transaction, commit, rollback, select, Parsed, statements, parse_error, parse_crash, Sqlglot,
}

abbrev pub denied_node_types : List NodeClass
denied_node_types =
    command ∷ insert ∷ update ∷ delete ∷ merge ∷ create ∷ drop ∷ alter ∷ grant ∷ truncate_table
    ∷ transaction ∷ commit ∷ rollback ∷ []

-- The triple that `_analyze` returns: a reason with its message, or the statement.
pub data Analysis {ℓ} (N : Type ℓ) : Type ℓ where
  reject : RefusalReason → Text → Analysis N
  accept : N → Analysis N

abbrev pub unparsed : Text
unparsed = lit "the SQL statement could not be parsed"

abbrev pub no_statement : Text
no_statement = lit "no SQL statement was provided"

abbrev pub routine_message : Text
routine_message = lit "WITH FUNCTION / WITH PROCEDURE is not allowed; submit a single SELECT"

module _ (u : Unicode) where
  -- `len(tokens) > 1 and tokens[1].text.upper() in {"FUNCTION", "PROCEDURE"}`
  abbrev pub second_is_routine : List Text → Bool
  second_is_routine [] = false
  second_is_routine (second ∷ rest) =
      contains (upper u second) (lit "FUNCTION" ∷ lit "PROCEDURE" ∷ [])

  -- The second token is read only behind a leading WITH.
  unfoldable pub classify_tokens : Option (List Text) → RefusalReason × Text
  classify_tokens none = (sql_parse_failed, unparsed)
  classify_tokens (some []) = (sql_parse_failed, no_statement)
  classify_tokens (some (first ∷ rest)) =
      if contains (upper u first) (lit "BEGIN" ∷ lit "DECLARE" ∷ [])
      then (sql_not_select_only, lit "PL/SQL blocks are not allowed; submit a single SELECT")
      else if text_eq (upper u first) (lit "WITH") && second_is_routine rest
      then (sql_not_select_only, routine_message)
      else (sql_parse_failed, unparsed)

module _ (u : Unicode) (g : Sqlglot) where
  unfoldable pub classify_parse_failure : Text → RefusalReason × Text
  classify_parse_failure sql = classify_tokens u (g.tokenize sql)

  -- `isinstance(node, _DENIED_NODE_TYPES)`
  unfoldable pub is_denied : g.Node → Bool
  is_denied node = any (g.is_instance node) denied_node_types

  -- The loop over `stmt.walk()`.
  unfoldable pub first_denied : List g.Node → Option g.Node
  first_denied [] = none
  first_denied (node ∷ nodes) = if is_denied node then some node else first_denied nodes

  abbrev pub by_walk : g.Node → Option g.Node → Analysis g.Node
  by_walk stmt none = accept stmt
  by_walk stmt (some node) =
      reject sql_not_select_only
        (lit "only read-only SELECT syntax is allowed (found " ++ (g.type_name node ++ lit ")"))

  unfoldable pub analyze_statement : g.Node → Analysis g.Node
  analyze_statement stmt =
      if not (g.is_instance stmt select)
      then reject sql_not_select_only (
          lit "only a single plain SELECT statement is allowed (got "
          ++ (g.type_name stmt ++ lit ")"))
      else if g.has_locks stmt
      then reject sql_not_select_only
          (lit "SELECT ... FOR UPDATE is not allowed (read-only queries only)")
      else if g.has_into stmt
      then reject sql_not_select_only
          (lit "SELECT ... INTO is not allowed (read-only queries only)")
      else by_walk stmt (first_denied (g.walk stmt))

  unfoldable pub analyze_statements : List g.Node → Analysis g.Node
  analyze_statements [] = reject sql_parse_failed no_statement
  analyze_statements (stmt ∷ []) = analyze_statement stmt
  analyze_statements (stmt ∷ other ∷ more) =
      reject sql_not_select_only (lit "multi-statement SQL is not allowed; submit a single SELECT")

  unfoldable pub analyze_parsed : Text → Parsed g.Node → Analysis g.Node
  analyze_parsed sql parse_error =
      let (reason, message) = classify_parse_failure sql in reject reason message
  analyze_parsed sql parse_crash = reject sql_parse_failed unparsed
  analyze_parsed sql (statements found) = analyze_statements (present found)

  unfoldable pub analyze : Text → Analysis g.Node
  analyze sql = analyze_parsed sql (g.parse sql)
