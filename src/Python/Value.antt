-- ===== src/Python/Value.antt =====
-- The Python values that are decoded from JSON or serialised to it.
use cognic_tool_oracle_schem.Base.{Bool, List, [], ◌∷◌, ℤ, Text, Option, none, some, text_eq}
use cognic_tool_oracle_schem.Base.{if◌then◌else◌}

-- The key of a dict entry: a text, or a value of another type, known by its type's name.
pub data Key : Type 0 where
  str_key : Text → Key
  other_key : Text → Key

mutual
  pub data Value : Type 0 where
    null : Value
    boolean : Bool → Value
    integer : ℤ → Value
    -- whether it is finite, and its `repr`
    float : Bool → Text → Value
    str : Text → Value
    items : Items → Value
    tuple : Items → Value
    dict : Entries → Value
    -- any other type, by its name
    other : Text → Value

  pub data Items : Type 0 where
    nil : Items
    cons : Value → Items → Items

  pub data Entries : Type 0 where
    end : Entries
    entry : Key → Value → Entries → Entries

abbrev pub to_list : Items → List Value
to_list nil = []
to_list (cons v vs) = v ∷ to_list vs

-- `d.get(k)`
unfoldable pub get : Text → Entries → Option Value
get k end = none
get k (entry (str_key j) v d) = if text_eq k j then some v else get k d
get k (entry (other_key j) v d) = get k d
