-- ===== src/Tools.antt =====
-- tools.py: the statements of the six metadata tools, the owner predicate, and the shape of the items.
pub mod Owners
pub mod Calls
pub mod Bounds
use cognic_tool_oracle_schem.Base.{
  ℕ, suc, Bool, true, false, List, [], ◌∷◌, ◌++◌, map, Option, none, some,
}
use cognic_tool_oracle_schem.Base.{if◌then◌else◌, is_empty, join, Text, lit, text_eq}
use cognic_tool_oracle_schem.Python.Exception.{Exc, plain_error, Result, ok, raised, ◌>>=◌}
use cognic_tool_oracle_schem.Python.Str.{Unicode, upper, strip}
use cognic_tool_oracle_schem.Python.Num.{show_ℕ}
use cognic_tool_oracle_schem.Config.{Config}
use cognic_tool_oracle_schem.Readonly.Cell.{Cell}
use cognic_tool_oracle_schem.Readonly.Reason.{Row}
use cognic_tool_oracle_schem.Readonly.Scope.{sorted}
use cognic_tool_oracle_schem.Oracle.{guard_owner}
use cognic_tool_oracle_schem.Host.{Binds, Host}

-- `{"items": ..., "truncated": ...}`; `describe_table` says "columns" for "items".
pub record Listing : Type 0 where
  pub items : List Row
  pub truncated : Bool

-- `{f"owner_{i}": value for i, value in enumerate(owners)}`, counted from `i`.
unfoldable pub numbered : ℕ → List Text → Binds
numbered i [] = []
numbered i (owner ∷ owners) = (lit "owner_" ++ show_ℕ i, owner) ∷ numbered (suc i) owners

abbrev pub placeholders : Binds → Text
placeholders binds = join (lit ", ") (map (λ b. lit ":" ++ b.0) binds)

module _ (u : Unicode) where
  unfoldable pub owner_predicate : Text → Config → Option Text → Result (Text × Binds)
  owner_predicate column cfg (some owner) = do
    norm ← guard_owner u owner cfg
    ok (column ++ lit " = :owner", (lit "owner", norm) ∷ [])
  owner_predicate column cfg none =
      if is_empty cfg.allowed_owners
      then ok (lit "1 = 1", [])
      else (let binds = numbered 0 (sorted cfg.allowed_owners) in
          ok (column ++ (lit " IN (" ++ (placeholders binds ++ lit ")")), binds))

-- The fixed statements; three have one gap.
abbrev pub list_schemas_sql : Text → Text
list_schemas_sql owner_filter =
    lit "SELECT DISTINCT owner FROM all_tables WHERE " ++ (owner_filter ++ lit " ORDER BY owner")

abbrev pub list_tables_sql : Text
list_tables_sql =
    lit
      "SELECT t.table_name, c.comments FROM all_tables t LEFT JOIN all_tab_comments c ON c.owner = t.owner AND c.table_name = t.table_name WHERE t.owner = :owner ORDER BY t.table_name"

abbrev pub describe_table_sql : Text
describe_table_sql =
    lit
      "SELECT col.column_name, col.data_type, col.nullable, col.data_default, cc.comments FROM all_tab_columns col LEFT JOIN all_col_comments cc ON cc.owner = col.owner AND cc.table_name = col.table_name AND cc.column_name = col.column_name WHERE col.owner = :owner AND col.table_name = :tname ORDER BY col.column_id"

abbrev pub find_columns_sql : Text → Text
find_columns_sql owner_filter =
    lit
      "SELECT owner, table_name, column_name, data_type FROM all_tab_columns WHERE column_name LIKE :pat AND "
    ++ (owner_filter ++ lit " ORDER BY owner, table_name, column_name")

abbrev pub list_relationships_sql : Text → Text
list_relationships_sql table_filter =
    lit
      "SELECT c.constraint_name, c.owner AS child_owner, c.table_name AS child_table, cc.column_name AS child_column, rc.owner AS parent_owner, rc.table_name AS parent_table, rcc.column_name AS parent_column FROM all_constraints c JOIN all_cons_columns cc ON cc.owner = c.owner AND cc.constraint_name = c.constraint_name JOIN all_constraints rc ON rc.owner = c.r_owner AND rc.constraint_name = c.r_constraint_name JOIN all_cons_columns rcc ON rcc.owner = rc.owner AND rcc.constraint_name = rc.constraint_name AND rcc.position = cc.position WHERE c.constraint_type = 'R' AND c.owner = :owner "
    ++ (table_filter ++ lit " ORDER BY c.constraint_name, cc.position")

abbrev pub get_constraints_sql : Text
get_constraints_sql =
    lit
      "SELECT c.constraint_name, c.constraint_type, cc.column_name, c.search_condition, c.r_owner, c.r_constraint_name FROM all_constraints c LEFT JOIN all_cons_columns cc ON cc.owner = c.owner AND cc.constraint_name = c.constraint_name WHERE c.owner = :owner AND c.table_name = :tname ORDER BY c.constraint_name, cc.position"

abbrev pub index_error : Exc
index_error = plain_error (lit "IndexError")

-- `{name: r[i], ...}` for the names in their order.
unfoldable pub item_of : List Text → List Cell → Result Row
item_of [] values = ok []
item_of (name ∷ names) [] = raised index_error
item_of (name ∷ names) (v ∷ values) = do rest ← item_of names values; ok ((name, v) ∷ rest)

-- `[f(r) for r in rows]`
unfoldable pub each : (List Cell → Result Row) → List (List Cell) → Result (List Row)
each f [] = ok []
each f (r ∷ rows) = do item ← f r; items ← each f rows; ok (item ∷ items)

-- `r[2] == "Y"`
abbrev pub is_yes : Cell → Bool
is_yes (Cell.str s) = text_eq s (lit "Y")
is_yes _ = false

module _ (h : Host) where
  -- `r[3].strip() if r[3] else None`
  abbrev pub default_of : Cell → Result Cell
  default_of Cell.null = ok Cell.null
  default_of (Cell.str s) = ok (if is_empty s then Cell.null else Cell.str (strip h.unicode s))
  default_of v = h.strip_value v

  -- The values of a column's row, with the flag and the default in their shown form.
  abbrev pub shown_column : List Cell → Result (List Cell)
  shown_column (name ∷ data_type ∷ nullable ∷ data_default ∷ rest) = do
    default ← default_of data_default
    ok (name ∷ data_type ∷ Cell.boolean (is_yes nullable) ∷ default ∷ rest)
  shown_column values = raised index_error

  abbrev pub column_of : List Cell → Result Row
  column_of values = do
    shown ← shown_column values
    item_of
        (lit "column_name"
          ∷ lit "data_type"
          ∷ lit "nullable"
          ∷ lit "data_default"
          ∷ lit "comments"
          ∷ [])
        shown
