-- ===== src/Readonly/Run/Answer.antt =====
-- What an answer of the governed tool looks like.
use cognic_tool_oracle_schem.Base.{
  ◌≡◌, refl, inl, inr, true, false, List, [], ◌∷◌, map, Option, none, some,
}
use cognic_tool_oracle_schem.Base.{Bool-cases, length, ℤ, Text, Bytes, text_eq}
use cognic_tool_oracle_schem.Python.Exception.{Exc, ok}
use cognic_tool_oracle_schem.Config.{Config}
use cognic_tool_oracle_schem.QueryContext.{QueryContextClaims, Verdict, admitted, refused, failed}
use cognic_tool_oracle_schem.Readonly.Cell.{Cell, json_safe}
use cognic_tool_oracle_schem.Readonly.Reason.{RefusalReason, Row, Envelope, refusal, success}
use cognic_tool_oracle_schem.Readonly.Sqlglot.{Sqlglot}
use cognic_tool_oracle_schem.Readonly.Analyze.{Analysis, reject, accept}
use cognic_tool_oracle_schem.Readonly.Execute.{
  set_column, fill_row, Fetched, unstamped, fetched, envelope_of, execute,
}
use cognic_tool_oracle_schem.Readonly.Run.{
  Args, refuse, execution_failed, proxy_arm, statement_arms, analysis_arm, claims_arms, verdict_arm,
  token_arm, run,
}
use cognic_tool_oracle_schem.Host.{Host, World}
use cognic_tool_oracle_schem.Host.Yields.{
  Yields, Yields-bind, Yields-raise, Yields-catch, Yields-if, Yields-pure,
}

-- The value is one that JSON has: None, a Boolean, an integer, a text or a finite float.
abbrev pub IsJson : Cell → Type 0
IsJson (Cell.float false text) = ⊥
IsJson (Cell.bytes b) = ⊥
IsJson (Cell.dated iso) = ⊥
IsJson (Cell.other text) = ⊥
IsJson value = Unit

abbrev pub IsJsonRow : Row → Type 0
IsJsonRow [] = Unit
IsJsonRow ((c, v) ∷ row) = IsJson v × IsJsonRow row

abbrev pub AreJsonRows : List Row → Type 0
AreJsonRows [] = Unit
AreJsonRows (row ∷ rows) = IsJsonRow row × AreJsonRows rows

-- A refusal, or rows of JSON values with their number.
abbrev pub IsAnswer : Envelope → Type 0
IsAnswer (refusal reason message) = Unit
IsAnswer (success rows row_count truncated ref) = (row_count ≡ length rows) × AreJsonRows rows

json_safe-IsJson : (v : Cell) → IsJson (json_safe v)
unfolding json_safe
json_safe-IsJson Cell.null = tt
json_safe-IsJson (Cell.boolean b) = tt
json_safe-IsJson (Cell.integer n) = tt
json_safe-IsJson (Cell.str s) = tt
json_safe-IsJson (Cell.float true s) = tt
json_safe-IsJson (Cell.float false s) = tt
json_safe-IsJson (Cell.bytes b) = tt
json_safe-IsJson (Cell.dated s) = tt
json_safe-IsJson (Cell.other s) = tt

set_column-IsJsonRow :
    (c : Text) (v : Cell) (row : Row) → IsJson v → IsJsonRow row → IsJsonRow (set_column c v row)
unfolding set_column
set_column-IsJsonRow c v [] j r = (j, tt)
set_column-IsJsonRow c v ((d, x) ∷ row) j (k, r) = elim (Bool-cases (text_eq c d)) [
  | inl same ↦ rw same (j, r)
  | inr differ ↦ rw differ (k, set_column-IsJsonRow c v row j r)
]

fill_row-IsJsonRow :
    (columns : List Text) (values : List Cell) (row : Row)
    → IsJsonRow row
    → IsJsonRow (fill_row columns values row)
unfolding fill_row
fill_row-IsJsonRow [] values row r = r
fill_row-IsJsonRow (c ∷ columns) [] row r = r
fill_row-IsJsonRow (c ∷ columns) (v ∷ values) row r =
    fill_row-IsJsonRow columns values _
      (set_column-IsJsonRow c (json_safe v) row (json_safe-IsJson v) r)

rows-AreJsonRows :
    (columns : List Text) (found : List (List Cell))
    → AreJsonRows (map (λ row. fill_row columns row []) found)
rows-AreJsonRows columns [] = tt
rows-AreJsonRows columns (r ∷ found) =
    (fill_row-IsJsonRow columns r [] tt, rows-AreJsonRows columns found)

envelope_of-IsAnswer :
    (result : Fetched) (effective : ℤ) (ref : Text) → IsAnswer (envelope_of result effective ref)
unfolding envelope_of
envelope_of-IsAnswer unstamped effective ref = tt
envelope_of-IsAnswer (fetched columns found) effective ref = (refl, rows-AreJsonRows columns found)

refuse-Yields : (reason : RefusalReason) (message : Text) → Yields IsAnswer (refuse reason message)
refuse-Yields reason message = Yields-pure (refusal reason message) tt

module _ (h : Host) (cfg : Config) where
  execute-Yields :
      (identity subject sql : Text) (effective : ℤ) (timeout_s : h.Seconds)
      → Yields IsAnswer (execute h cfg identity subject sql effective timeout_s)
  unfolding execute
  execute-Yields identity subject sql effective timeout_s = Yields-bind _ _ (λ bytes.
      Yields-bind _ _ (λ c.
        Yields-bind _ _
          (λ result. Yields-pure _ (envelope_of-IsAnswer result effective c.0.rotation_ref))))

  failed-Yields : (e : Exc) → Yields IsAnswer (execution_failed h e)
  failed-Yields e = refuse-Yields _ _

  proxy_arm-Yields :
      (claims : QueryContextClaims) (sql : Text) (effective : ℤ)
      → Yields IsAnswer (proxy_arm h cfg claims sql effective)
  unfolding proxy_arm
  proxy_arm-Yields claims sql effective =
      Yields-if _ _ _ (refuse-Yields _ _)
        (Yields-catch _ _ _ (execute-Yields _ _ _ _ _) failed-Yields)

module _ (h : Host) (g : Sqlglot) (cfg : Config) (args : Args) where
  statement_arms-Yields :
      (claims : QueryContextClaims) (stmt : g.Node)
      → Yields IsAnswer (statement_arms h g cfg args claims stmt)
  unfolding statement_arms
  statement_arms-Yields claims stmt =
      Yields-if _ _ _ (refuse-Yields _ _)
        (Yields-bind _ _ (λ bound. proxy_arm-Yields h cfg claims bound.0 bound.1))

  analysis_arm-Yields :
      (claims : QueryContextClaims) (a : Analysis g.Node)
      → Yields IsAnswer (analysis_arm h g cfg args claims a)
  analysis_arm-Yields claims (reject reason message) = refuse-Yields _ _
  analysis_arm-Yields claims (accept stmt) = statement_arms-Yields claims stmt

  claims_arms-Yields :
      (claims : QueryContextClaims) (now : ℤ)
      → Yields IsAnswer (claims_arms h g cfg args claims now)
  unfolding claims_arms
  claims_arms-Yields claims now = Yields-bind _ _ (λ fresh. Yields-if _ _ _ (refuse-Yields _ _) (
      Yields-bind _ _
        (λ digest. Yields-if _ _ _ (refuse-Yields _ _) (analysis_arm-Yields claims _))))

  verdict_arm-Yields :
      (now : ℤ) (v : Verdict QueryContextClaims) → Yields IsAnswer (verdict_arm h g cfg args now v)
  verdict_arm-Yields now (refused reason) = refuse-Yields _ _
  verdict_arm-Yields now (failed e) = Yields-raise e
  verdict_arm-Yields now (admitted claims) = claims_arms-Yields claims now

  token_arm-Yields :
      (token : Text) (keys : Option (List Bytes))
      → Yields IsAnswer (token_arm h g cfg args token keys)
  token_arm-Yields token none = refuse-Yields _ _
  token_arm-Yields token (some keys) =
      Yields-if _ _ _ (refuse-Yields _ _) (Yields-bind _ _ (λ now. verdict_arm-Yields now _))

  -- Every answer of the tool is a refusal, or a success in which the count is the number of rows and
  -- every value is None, a Boolean, an integer, a text or a finite float.
  pub run-IsAnswer :
      (token : Text) (w : World) (answer : Envelope)
      → (run h g cfg args token w).0 ≡ ok answer
      → IsAnswer answer
  unfolding run
  run-IsAnswer token w answer e =
      (Yields-bind _ _ (λ keys. token_arm-Yields token keys)).holds w answer e
