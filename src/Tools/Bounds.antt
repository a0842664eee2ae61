-- ===== src/Tools/Bounds.antt =====
-- How many items a metadata tool answers with.
use cognic_tool_oracle_schem.Base.{
  ℕ, ◌≤◌, ◌≡◌, sym, ap, ◌∙◌, Bool, List, [], ◌∷◌, arith, length, length-take-le, pos, Text,
}
use mathlib.Core.Path.{subst}
use cognic_tool_oracle_schem.Python.Exception.{Result, ok, >>=-eq-ok, ok-injective}
use cognic_tool_oracle_schem.Config.{Config}
use cognic_tool_oracle_schem.Readonly.Cell.{Cell}
use cognic_tool_oracle_schem.Readonly.Reason.{Row}
use cognic_tool_oracle_schem.Oracle.{slice_to, fetch}
use cognic_tool_oracle_schem.Oracle.Page.{IsPage, fetch-IsPage}
use cognic_tool_oracle_schem.Tools.{Listing, each}
use cognic_tool_oracle_schem.Tools.Calls.{
  list_schemas, list_tables, describe_table, find_columns, list_relationships, get_constraints,
}
use cognic_tool_oracle_schem.Server.{
  Request, schemas, tables, columns, matching, relationships, constraints, answer,
}
use cognic_tool_oracle_schem.Host.{Binds, Host, World, pure, lift, ◌>>=◌}
use cognic_tool_oracle_schem.Host.Yields.{
  Yields, Yields-bind, Yields-then, Yields-lift, Yields-pure,
}

length-each :
    (f : List Cell → Result Row) (rows : List (List Cell)) (items : List Row)
    → each f rows ≡ ok items
    → length items ≡ length rows
unfolding each
length-each f [] items e = ap length (sym (ok-injective e))
length-each f (r ∷ rows) items e =
    let (item, a, e') = >>=-eq-ok (f r) _ e in
    let (rest, b, e'') = >>=-eq-ok (each f rows) _ e' in
    let shorter = length-each f rows rest b in
    let same : length (item ∷ rest) ≡ length items = ap length (ok-injective e'') in
    omega (arith, shorter, same)

module _ (h : Host) (cfg : Config) (n : ℕ) (bound : cfg.max_rows ≡ pos n) where
  -- No more than `n` items.
  abbrev AtMost : Listing → Type 0
  AtMost listing = length listing.items ≤ n

  page-le :
      (sql : Text) (binds : Binds) (page : List (List Cell) × Bool)
      → IsPage h sql binds (cfg.max_rows) page
      → length page.0 ≤ n
  page-le sql binds page p =
      subst (λ xs. length xs ≤ n) (sym (p.rows ∙ ap (λ z. slice_to z p.fetched) bound))
        (length-take-le n p.fetched)

  -- What all tools do once their statement and their values are made.
  listing-Yields :
      (sql : Text) (binds : Binds) (f : List Cell → Result Row)
      → Yields AtMost (do
        page ← fetch h sql binds cfg.max_rows cfg
        items ← lift (each f page.0)
        pure (record { items = items; truncated = page.1 }))
  listing-Yields sql binds f =
      Yields-then {P = IsPage h sql binds cfg.max_rows} _ _
        (record { holds = λ w page e. fetch-IsPage h sql binds cfg.max_rows cfg w page e })
        (λ page p.
          Yields-then {P = λ items. length items ≡ length page.0} _ _
            (Yields-lift _ (λ items e. length-each f page.0 items e))
            (λ items same. Yields-pure _ (omega (arith, same, page-le sql binds page p))))

  answer-Yields : (request : Request) → Yields AtMost (answer h cfg request)
  unfolding list_schemas list_tables describe_table find_columns list_relationships get_constraints
  answer-Yields schemas = Yields-bind _ _ (λ pred. listing-Yields _ _ _)
  answer-Yields (tables owner) = Yields-bind _ _ (λ norm. listing-Yields _ _ _)
  answer-Yields (columns owner table) = Yields-bind _ _ (λ norm. listing-Yields _ _ _)
  answer-Yields (matching name_pattern owner) = Yields-bind _ _ (λ pred. listing-Yields _ _ _)
  answer-Yields (relationships owner table) = Yields-bind _ _ (λ norm. listing-Yields _ _ _)
  answer-Yields (constraints owner table) = Yields-bind _ _ (λ norm. listing-Yields _ _ _)

  -- Under a row bound of `n`, every metadata tool that answers does so with at most `n` items, whatever
  -- its arguments.
  pub answer-AtMost :
      (request : Request) (w : World) (listing : Listing)
      → (answer h cfg request w).0 ≡ ok listing
      → length listing.items ≤ n
  answer-AtMost request w listing e = (answer-Yields request).holds w listing e
