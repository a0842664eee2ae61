-- ===== src/Readonly/Scope.antt =====
-- Arm 5 of readonly_query.py: `_referenced_objects` and `_out_of_scope_objects`.
pub mod Members
pub mod Allowed
pub mod Sets
use cognic_tool_oracle_schem.Base.{Bool, true, false, not, List, [], ◌∷◌, ◌++◌, map, if◌then◌else◌}
use cognic_tool_oracle_schem.Base.{keep_if, contains, add, join, is_empty, Text, lit}
use cognic_tool_oracle_schem.Python.Str.{Unicode, upper}
use cognic_tool_oracle_schem.Python.Json.{text_lt}
use cognic_tool_oracle_schem.Readonly.Sqlglot.{cte, table, Sqlglot}

abbrev pub always_allowed_objects : List Text
always_allowed_objects = lit "DUAL" ∷ lit "SYS.DUAL" ∷ []

-- `sorted` of texts that differ.
unfoldable pub place_text : Text → List Text → List Text
place_text a [] = a ∷ []
place_text a (x ∷ xs) = if text_lt a x then a ∷ x ∷ xs else x ∷ place_text a xs

unfoldable pub sorted : List Text → List Text
sorted [] = []
sorted (x ∷ xs) = place_text x (sorted xs)

module _ (u : Unicode) (g : Sqlglot) where
  -- The set comprehension over the CTEs that have an alias.
  unfoldable pub alias_set : List g.Node → List Text
  alias_set [] = []
  alias_set (node ∷ nodes) =
      let rest = alias_set nodes in
      if is_empty (g.alias_or_name node) then rest else add (upper u (g.alias_or_name node)) rest

  unfoldable pub cte_aliases : g.Node → List Text
  cte_aliases stmt = alias_set (g.find_all stmt cte)

  -- `[p for p in (table.catalog, table.db) if p]`
  abbrev pub qualifiers : g.Node → List Text
  qualifiers node = keep_if (λ p. not (is_empty p)) (g.catalog node ∷ g.db node ∷ [])

  -- One round of the loop over the tables.
  unfoldable pub note_table : List Text → g.Node → List Text → List Text
  note_table aliases node refs =
      if is_empty (g.name node)
      then refs
      else if not (is_empty (qualifiers node))
      then add (upper u (join (lit ".") (qualifiers node ++ g.name node ∷ []))) refs
      else if not (contains (upper u (g.name node)) aliases)
      then add (upper u (g.name node)) refs
      else refs

  unfoldable pub note_tables : List Text → List g.Node → List Text → List Text
  note_tables aliases [] refs = refs
  note_tables aliases (node ∷ nodes) refs = note_tables aliases nodes (note_table aliases node refs)

  unfoldable pub referenced_objects : g.Node → List Text
  referenced_objects stmt = note_tables (cte_aliases stmt) (g.find_all stmt table) []

module _ (u : Unicode) where
  -- `{o.upper() for o in allowed_objects} | _ALWAYS_ALLOWED_OBJECTS`
  abbrev pub allowed_set : List Text → List Text
  allowed_set objects = map (upper u) objects ++ always_allowed_objects

  unfoldable pub out_of_scope_objects : List Text → List Text → List Text
  out_of_scope_objects referenced objects =
      sorted (keep_if (λ ref. not (contains ref (allowed_set objects))) referenced)
