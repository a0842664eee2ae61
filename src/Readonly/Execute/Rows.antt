-- ===== src/Readonly/Execute/Rows.antt =====
-- What a row of an answer holds.
use cognic_tool_oracle_schem.Base.{
  ◌≡◌, refl, ap, ◌∙◌, Bool, true, false, List, [], ◌∷◌, Option, none, some, arith, if◌then◌else◌,
}
use cognic_tool_oracle_schem.Base.{Text, text_eq, text_eq_iff}
use cognic_tool_oracle_schem.Readonly.Cell.{Cell, json_safe}
use cognic_tool_oracle_schem.Readonly.Reason.{Row}
use cognic_tool_oracle_schem.Readonly.Execute.{set_column, fill_row}

-- The value under a name.
abbrev pub cell : Text → Row → Option Cell
cell c [] = none
cell c ((d, v) ∷ row) = if text_eq c d then some v else cell c row

abbrev pub or_later : Option Cell → Option Cell → Option Cell
or_later earlier none = earlier
or_later earlier (some v) = some v

-- The value of the last column with this name.
abbrev pub last_of : Text → List Text → List Cell → Option Cell
last_of c [] values = none
last_of c (d ∷ columns) [] = none
last_of c (d ∷ columns) (v ∷ values) =
    or_later (if text_eq c d then some v else none) (last_of c columns values)

abbrev pub shown : Option Cell → Option Cell
shown none = none
shown (some v) = some (json_safe v)

cell-set_column :
    (c d : Text) (v : Cell) (row : Row)
    → cell c (set_column d v row) ≡ (if text_eq c d then some v else cell c row)
unfolding set_column
cell-set_column c d v [] = refl
cell-set_column c d v ((k, x) ∷ row) =
    ground (arith, text_eq_iff d k, text_eq_iff c d, text_eq_iff c k, cell-set_column c d v row)

or_later-shown :
    (b : Bool) (v : Cell) (o p : Option Cell)
    → or_later (if b then some (json_safe v) else o) (shown p)
      ≡ or_later o (shown (or_later (if b then some v else none) p))
or_later-shown true v o none = refl
or_later-shown false v o none = refl
or_later-shown true v o (some x) = refl
or_later-shown false v o (some x) = refl

cell-fill_row-onto :
    (c : Text) (columns : List Text) (values : List Cell) (row : Row)
    → cell c (fill_row columns values row)
      ≡ or_later (cell c row) (shown (last_of c columns values))
unfolding fill_row
cell-fill_row-onto c [] values row = refl
cell-fill_row-onto c (d ∷ columns) [] row = refl
cell-fill_row-onto c (d ∷ columns) (v ∷ values) row =
    cell-fill_row-onto c columns values (set_column d (json_safe v) row)
    ∙ (ap (λ o. or_later o (shown (last_of c columns values)))
          (cell-set_column c d (json_safe v) row)
        ∙ or_later-shown (text_eq c d) v (cell c row) (last_of c columns values))

or_later-none : (o : Option Cell) → or_later none o ≡ o
or_later-none none = refl
or_later-none (some v) = refl

-- A row of an answer has, under each name, the value of the last column of that name in its JSON form,
-- and nothing under any other name: of columns that share a name, only the last one is answered.
pub cell-fill_row :
    (c : Text) (columns : List Text) (values : List Cell)
    → cell c (fill_row columns values []) ≡ shown (last_of c columns values)
cell-fill_row c columns values =
    cell-fill_row-onto c columns values [] ∙ or_later-none (shown (last_of c columns values))
