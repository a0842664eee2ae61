-- ===== src/Readonly/RowBound.antt =====
-- Arm 6 of readonly_query.py: `_author_row_bound` and `_apply_row_bound`.
pub mod Caps
pub mod Raises
use cognic_tool_oracle_schem.Base.{
  ◌||◌, ◌&&◌, Option, none, some, ℤ, pos, min_ℤ, max_ℤ, Text, if◌then◌else◌, ◌==◌,
}
use cognic_tool_oracle_schem.Base.{Bool, true, false}
use cognic_tool_oracle_schem.Python.Exception.{Result, ok, raised, ◌>>=◌, or_raise, value_error}
use cognic_tool_oracle_schem.Python.Str.{Unicode}
use cognic_tool_oracle_schem.Python.Num.{int_of}
use cognic_tool_oracle_schem.Readonly.Sqlglot.{fetch, limit, literal, Sqlglot}

abbrev pub max_rows_default : ℤ
max_rows_default = pos 100

abbrev pub max_rows_ceiling : ℤ
max_rows_ceiling = pos 500

-- `max_rows or _MAX_ROWS_DEFAULT`: None and 0 are false.
abbrev pub or_default : Option ℤ → ℤ
or_default none = max_rows_default
or_default (some (pos n)) = if n == 0 then max_rows_default else pos n
or_default (some n) = n

-- `max(1, min(max_rows or 100, 500))`
unfoldable pub requested_rows : Option ℤ → ℤ
requested_rows max_rows = max_ℤ (pos 1) (min_ℤ (or_default max_rows) max_rows_ceiling)

-- The author's bound, when there is one, caps the requested one.
unfoldable pub capped : ℤ → Option ℤ → ℤ
capped effective none = effective
capped effective (some bound) = min_ℤ effective bound

module _ (u : Unicode) (g : Sqlglot) where
  -- `int(count.name)` of a whole literal, None for anything else.
  abbrev pub literal_bound : Option g.Node → Result (Option ℤ)
  literal_bound none = ok none
  literal_bound (some count) =
      if g.is_instance count literal && g.is_int count
      then (do n ← or_raise value_error (int_of u (g.name count)); ok (some n))
      else ok none

  abbrev pub is_percent : Option g.Node → Bool
  is_percent none = false
  is_percent (some options) = g.has_percent options

  abbrev pub bound_of : Option g.Node → Result (Option ℤ)
  bound_of none = ok none
  bound_of (some existing) =
      if g.is_instance existing fetch
      then (if is_percent (g.limit_options existing)
          then ok none
          else literal_bound (g.count existing))
      else if g.is_instance existing limit
      then literal_bound (g.expression existing)
      else ok none

  unfoldable pub author_row_bound : g.Node → Result (Option ℤ)
  author_row_bound stmt = bound_of (g.limit_arg stmt)

  unfoldable pub apply_row_bound : g.Node → Option ℤ → Result (Text × ℤ)
  apply_row_bound stmt max_rows = do
    author_bound ← author_row_bound stmt
    let effective = capped (requested_rows max_rows) author_bound
    bounded ← g.set_limit stmt effective
    text ← g.sql bounded
    ok (text, effective)
