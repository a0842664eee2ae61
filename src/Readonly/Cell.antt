-- ===== src/Readonly/Cell.antt =====
-- The values of result cells, and `_json_safe` of readonly_query.py.
use cognic_tool_oracle_schem.Base.{◌/◌, ◌%◌, Bool, false, [], ◌∷◌, ℤ, Text, Bytes}
use cognic_tool_oracle_schem.Python.Json.{hex_digit}

pub data Cell : Type 0 where
  null : Cell
  boolean : Bool → Cell
  integer : ℤ → Cell
  str : Text → Cell
  -- whether it is finite, and its `str`
  float : Bool → Text → Cell
  -- `bytes` or `bytearray`
  bytes : Bytes → Cell
  -- a value with an `isoformat` method, and what that returns
  dated : Text → Cell
  -- any other type, by its `str`
  other : Text → Cell

-- `value.hex()`
unfoldable pub hex : Bytes → Text
hex [] = []
hex (b ∷ bs) = hex_digit (b / 16) ∷ hex_digit (b % 16) ∷ hex bs

unfoldable pub json_safe : Cell → Cell
json_safe (float false text) = str text
json_safe (bytes b) = str (hex b)
json_safe (dated iso) = str iso
json_safe (other text) = str text
json_safe value = value
