-- ===== src/Readonly/RowBound/Raises.antt =====
-- Which exceptions the bounding of a statement (arm 6) raises.
use mathlib.Core.Path.{subst}
use cognic_tool_oracle_schem.Base.{◌≡◌, sym, ap, ◌∙◌, inl, inr, Option, arith}
use cognic_tool_oracle_schem.Base.{ℤ}
use cognic_tool_oracle_schem.Python.Exception.{Exc, value_error, ok, raised, >>=-eq-raised}
use cognic_tool_oracle_schem.Python.Str.{Unicode}
use cognic_tool_oracle_schem.Readonly.Sqlglot.{Sqlglot}
use cognic_tool_oracle_schem.Readonly.RowBound.{author_row_bound, apply_row_bound}

module _ (u : Unicode) (g : Sqlglot) (stmt : g.Node) where
  -- Where an exception of arm 6 comes from.
  pub data BoundEscape : Exc → Type 0 where
    numeral : author_row_bound u g stmt ≡ raised value_error → BoundEscape value_error
    limiting : (effective : ℤ) (e : Exc) → g.set_limit stmt effective ≡ raised e → BoundEscape e
    printing :
        (effective : ℤ) (bounded : g.Node) (e : Exc)
        → g.set_limit stmt effective ≡ ok bounded
        → g.sql bounded ≡ raised e
        → BoundEscape e

  author-raised : (e : Exc) → author_row_bound u g stmt ≡ raised e → e ≡ value_error
  unfolding author_row_bound
  author-raised e hit = ground arith

  pub bound-raised :
      (max_rows : Option ℤ) (e : Exc) → apply_row_bound u g stmt max_rows ≡ raised e → BoundEscape e
  unfolding apply_row_bound
  bound-raised max_rows e hit = elim (>>=-eq-raised (author_row_bound u g stmt) _ e hit) [
    | inl author ↦
        let same = author-raised e author in
        subst BoundEscape (sym same) (numeral (author ∙ ap raised same))
    | inr (bound, _, rest) ↦ elim (>>=-eq-raised (g.set_limit stmt _) _ e rest) [
      | inl limited ↦ limiting _ e limited
      | inr (bounded, limited, last) ↦ elim (>>=-eq-raised (g.sql bounded) _ e last) [
        | inl printed ↦ printing _ bounded e limited printed
        | inr (_, _, done) ↦ ground arith
      ]
    ]
  ]
