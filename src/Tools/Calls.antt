-- ===== src/Tools/Calls.antt =====
-- tools.py: the six read-only metadata tools.
use cognic_tool_oracle_schem.Base.{[], ◌∷◌, Option, none, some, Text, lit}
use cognic_tool_oracle_schem.Python.Str.{upper, strip}
use cognic_tool_oracle_schem.Config.{Config}
use cognic_tool_oracle_schem.Oracle.{guard_owner, fetch}
use cognic_tool_oracle_schem.Tools.{
  Listing, owner_predicate, list_schemas_sql, list_tables_sql, describe_table_sql, find_columns_sql,
  list_relationships_sql, get_constraints_sql, item_of, each, column_of,
}
use cognic_tool_oracle_schem.Host.{Binds, Host, M, pure, lift, ◌>>=◌}

module _ (h : Host) where
  unfoldable pub list_schemas : Config → M Listing
  list_schemas cfg = do
    pred ← lift (owner_predicate h.unicode (lit "owner") cfg none)
    page ← fetch h (list_schemas_sql pred.0) pred.1 cfg.max_rows cfg
    items ← lift (each (item_of (lit "owner" ∷ [])) page.0)
    pure (record { items = items; truncated = page.1 })

  unfoldable pub list_tables : Config → Text → M Listing
  list_tables cfg owner = do
    norm ← lift (guard_owner h.unicode owner cfg)
    page ← fetch h list_tables_sql ((lit "owner", norm) ∷ []) cfg.max_rows cfg
    items ← lift (each (item_of (lit "table_name" ∷ lit "comments" ∷ [])) page.0)
    pure (record { items = items; truncated = page.1 })

  -- `table.strip().upper()`
  abbrev pub table_name : Text → Text
  table_name table = upper h.unicode (strip h.unicode table)

  unfoldable pub describe_table : Config → Text → Text → M Listing
  describe_table cfg owner table = do
    norm ← lift (guard_owner h.unicode owner cfg)
    page ←
        fetch h describe_table_sql ((lit "owner", norm) ∷ (lit "tname", table_name table) ∷ [])
          cfg.max_rows cfg
    items ← lift (each (column_of h) page.0)
    pure (record { items = items; truncated = page.1 })

  unfoldable pub find_columns : Config → Text → Option Text → M Listing
  find_columns cfg name_pattern owner = do
    pred ← lift (owner_predicate h.unicode (lit "owner") cfg owner)
    page ← fetch h (find_columns_sql pred.0) ((lit "pat", name_pattern) ∷ pred.1) cfg.max_rows cfg
    items ← lift (
        each (item_of (lit "owner" ∷ lit "table_name" ∷ lit "column_name" ∷ lit "data_type" ∷ []))
          page.0)
    pure (record { items = items; truncated = page.1 })

  -- The filter by the table, and its bind variable.
  abbrev pub table_filter : Option Text → Text × Binds
  table_filter none = ([], [])
  table_filter (some table) =
      (lit "AND c.table_name = :tname", (lit "tname", table_name table) ∷ [])

  unfoldable pub list_relationships : Config → Text → Option Text → M Listing
  list_relationships cfg owner table = do
    norm ← lift (guard_owner h.unicode owner cfg)
    page ←
        fetch h (list_relationships_sql (table_filter table).0)
          ((lit "owner", norm) ∷ (table_filter table).1) cfg.max_rows cfg
    items ← lift (
        each
          (item_of (
            lit "constraint_name"
            ∷ lit "child_owner"
            ∷ lit "child_table"
            ∷ lit "child_column"
            ∷ lit "parent_owner"
            ∷ lit "parent_table"
            ∷ lit "parent_column"
            ∷ []))
          page.0)
    pure (record { items = items; truncated = page.1 })

  unfoldable pub get_constraints : Config → Text → Text → M Listing
  get_constraints cfg owner table = do
    norm ← lift (guard_owner h.unicode owner cfg)
    page ←
        fetch h get_constraints_sql ((lit "owner", norm) ∷ (lit "tname", table_name table) ∷ [])
          cfg.max_rows cfg
    items ← lift (
        each
          (item_of (
            lit "constraint_name"
            ∷ lit "constraint_type"
            ∷ lit "column_name"
            ∷ lit "search_condition"
            ∷ lit "r_owner"
            ∷ lit "r_constraint_name"
            ∷ []))
          page.0)
    pure (record { items = items; truncated = page.1 })
