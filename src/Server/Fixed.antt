-- ===== src/Server/Fixed.antt =====
-- Which statements reach the pool of the metadata tools.
use cognic_tool_oracle_schem.Base.{
  ◌≡◌, sym, ap, inl, inr, List, [], ◌++◌, Option, none, some, Text, lit, is_empty, if◌then◌else◌,
  Bool-cases,
}
use mathlib.Core.Path.{subst}
use cognic_tool_oracle_schem.Python.Exception.{Result, ok, >>=-eq-ok, ok-injective}
use cognic_tool_oracle_schem.Python.Str.{Unicode}
use cognic_tool_oracle_schem.Config.{Config}
use cognic_tool_oracle_schem.Readonly.Scope.{sorted}
use cognic_tool_oracle_schem.Oracle.{fetch, guard_owner}
use cognic_tool_oracle_schem.Readonly.Sqlglot.{Sqlglot}
use cognic_tool_oracle_schem.Readonly.Cell.{Cell}
use cognic_tool_oracle_schem.Readonly.Reason.{Row}
use cognic_tool_oracle_schem.Tools.{
  Listing, each, numbered, placeholders, owner_predicate, list_schemas_sql, list_tables_sql,
  describe_table_sql, find_columns_sql, list_relationships_sql, get_constraints_sql,
}
use cognic_tool_oracle_schem.Tools.Calls.{
  list_schemas, list_tables, describe_table, find_columns, list_relationships, get_constraints,
  table_filter,
}
use cognic_tool_oracle_schem.Server.{
  Request, schemas, tables, columns, matching, relationships, constraints, answer, ToolCall, serve,
}
use cognic_tool_oracle_schem.Server.Serve.{serve-Keeps}
use cognic_tool_oracle_schem.Host.{Binds, Event, Host, World, pure, ◌>>=◌, lift}
use cognic_tool_oracle_schem.Host.Keeps.{Keeps, Keeps-bind, Keeps-pure, Keeps-lift, Keeps-lift_bind}
use cognic_tool_oracle_schem.Oracle.Asks.{AreAsked, Asks, Asks-IsPoolProperty, fetch-Keeps}

-- The condition on the owner where none is asked for.
abbrev pub allowed_condition : Config → Text
allowed_condition cfg =
    if is_empty cfg.allowed_owners
    then lit "1 = 1"
    else lit "owner"
      ++ (lit " IN (" ++ (placeholders (numbered 0 (sorted cfg.allowed_owners)) ++ lit ")"))

-- The eight statements of the tools. They depend on the settings alone, which give the number of the
-- owners' placeholders.
pub data IsFixed (cfg : Config) : Text → Type 0 where
  of_schemas : IsFixed cfg (list_schemas_sql (allowed_condition cfg))
  of_tables : IsFixed cfg list_tables_sql
  of_columns : IsFixed cfg describe_table_sql
  of_matching : IsFixed cfg (find_columns_sql (allowed_condition cfg))
  of_matching_owner : IsFixed cfg (find_columns_sql (lit "owner" ++ lit " = :owner"))
  of_relationships : IsFixed cfg (list_relationships_sql [])
  of_relationships_table : IsFixed cfg (list_relationships_sql (lit "AND c.table_name = :tname"))
  of_constraints : IsFixed cfg get_constraints_sql

-- Every query of the pool among the events is one of them.
abbrev pub AreFixed : Config → List Event → Type 0
AreFixed cfg past = AreAsked (IsFixed cfg) past

module _ (u : Unicode) (cfg : Config) where
  allowed_condition-eq :
      (pred : Text × Binds)
      → owner_predicate u (lit "owner") cfg none ≡ ok pred
      → pred.0 ≡ allowed_condition cfg
  unfolding owner_predicate
  allowed_condition-eq pred e = elim (Bool-cases (is_empty cfg.allowed_owners)) [
    | inl empty ↦ rw empty (ap (λ p. p.0) (sym (ok-injective (rw empty at e))))
    | inr listed ↦ rw listed (ap (λ p. p.0) (sym (ok-injective (rw listed at e))))
  ]

  one_owner-eq :
      (owner : Text) (pred : Text × Binds)
      → owner_predicate u (lit "owner") cfg (some owner) ≡ ok pred
      → pred.0 ≡ lit "owner" ++ lit " = :owner"
  unfolding owner_predicate
  one_owner-eq owner pred e =
      let (norm, guarded, d) = >>=-eq-ok (guard_owner u owner cfg) _ e in
      ap (λ p. p.0) (sym (ok-injective d))

  matching-IsFixed :
      (owner : Option Text) (pred : Text × Binds)
      → owner_predicate u (lit "owner") cfg owner ≡ ok pred
      → IsFixed cfg (find_columns_sql pred.0)
  matching-IsFixed none pred e =
      subst (λ s. IsFixed cfg (find_columns_sql s)) (sym (allowed_condition-eq pred e)) of_matching
  matching-IsFixed (some owner) pred e =
      subst (λ s. IsFixed cfg (find_columns_sql s)) (sym (one_owner-eq owner pred e))
        of_matching_owner

module _ (h : Host) (cfg : Config) where
  listing-Keeps :
      (sql : Text) (binds : Binds) (f : List Cell → Result Row)
      → IsFixed cfg sql
      → Keeps {A = Listing} (Asks (IsFixed cfg)) (do
        page ← fetch h sql binds cfg.max_rows cfg
        items ← lift (each f page.0)
        pure (record { items = items; truncated = page.1 }))
  listing-Keeps sql binds f fixed =
      Keeps-bind _ _ (fetch-Keeps h cfg sql binds cfg.max_rows fixed)
        (λ page. Keeps-bind _ _ (Keeps-lift _) (λ items. Keeps-pure _))

  relationships-IsFixed :
      (table : Option Text) → IsFixed cfg (list_relationships_sql (table_filter h table).0)
  relationships-IsFixed none = of_relationships
  relationships-IsFixed (some table) = of_relationships_table

  pub answer-AsksFixed : (request : Request) → Keeps (Asks (IsFixed cfg)) (answer h cfg request)
  unfolding list_schemas list_tables describe_table find_columns list_relationships get_constraints
  answer-AsksFixed schemas = Keeps-lift_bind _ _ (λ pred e. listing-Keeps _ _ _ (
      subst (λ s. IsFixed cfg (list_schemas_sql s))
        (sym (allowed_condition-eq h.unicode cfg pred e)) of_schemas))
  answer-AsksFixed (tables owner) =
      Keeps-bind _ _ (Keeps-lift _) (λ norm. listing-Keeps _ _ _ of_tables)
  answer-AsksFixed (columns owner table) =
      Keeps-bind _ _ (Keeps-lift _) (λ norm. listing-Keeps _ _ _ of_columns)
  answer-AsksFixed (matching name_pattern owner) =
      Keeps-lift_bind _ _
        (λ pred e. listing-Keeps _ _ _ (matching-IsFixed h.unicode cfg owner pred e))
  answer-AsksFixed (relationships owner table) =
      Keeps-bind _ _ (Keeps-lift _) (λ norm. listing-Keeps _ _ _ (relationships-IsFixed table))
  answer-AsksFixed (constraints owner table) =
      Keeps-bind _ _ (Keeps-lift _) (λ norm. listing-Keeps _ _ _ of_constraints)

-- Whatever tools are called with whatever arguments, every query that the calls send to the pool is one
-- of the eight fixed statements of the settings.
pub serve-AreFixed :
    (h : Host) (g : Sqlglot) (cfg : Config) (calls : List ToolCall) (w : World)
    → AreFixed cfg w.events
    → AreFixed cfg (serve h g cfg calls w).1.events
serve-AreFixed h g cfg calls w fixed =
    ((serve-Keeps h g cfg (Asks-IsPoolProperty (IsFixed cfg)) (answer-AsksFixed h cfg) calls).at w
      (record { all_asked = fixed })).all_asked
