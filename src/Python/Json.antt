-- ===== src/Python/Json.antt =====
-- `json.dumps(obj, sort_keys=True, separators=(",", ":"), ensure_ascii=False)` on the values that the
-- walk in front of it lets through: a dict with a key that is no text is refused there already.
pub mod Strings
use cognic_tool_oracle_schem.Base.{ℕ, ◌+◌, ◌/◌, ◌%◌, ◌≡◌, Bool, true, false, List, [], ◌∷◌, ◌++◌}
use cognic_tool_oracle_schem.Base.{ltb, ◌==◌, ◌&&◌, ◌||◌, if◌then◌else◌, Text, lit, text_eq}
use cognic_tool_oracle_schem.Python.Num.{repr}
use cognic_tool_oracle_schem.Python.Exception.{Result, ok, raised, type_error}
use cognic_tool_oracle_schem.Python.Value.{Key, str_key, other_key, Value, null, boolean, integer}
use cognic_tool_oracle_schem.Python.Value.{float, str, items, tuple, dict, other}
use cognic_tool_oracle_schem.Python.Value.{Items, nil, cons, Entries, end, entry}

abbrev pub quote : ℕ
quote = 34

abbrev pub backslash : ℕ
backslash = 92

abbrev pub hex_digit : ℕ → ℕ
hex_digit n = if ltb n 10 then b'0' + n else 87 + n

-- One character of a string literal; `ensure_ascii=False` leaves all but controls as they are.
unfoldable pub escape_char : ℕ → Text
escape_char c =
    if c == quote
    then backslash ∷ quote ∷ []
    else if c == backslash
    then backslash ∷ backslash ∷ []
    else if c == 10
    then backslash ∷ b'n' ∷ []
    else if c == 13
    then backslash ∷ b'r' ∷ []
    else if c == 9
    then backslash ∷ b't' ∷ []
    else if c == 12
    then backslash ∷ b'f' ∷ []
    else if c == 8
    then backslash ∷ b'b' ∷ []
    else if ltb c 32
    then backslash ∷ b'u' ∷ b'0' ∷ b'0' ∷ hex_digit (c / 16) ∷ hex_digit (c % 16) ∷ []
    else c ∷ []

-- The body of a string literal and its closing quote, in front of `rest`.
unfoldable pub escape_onto : Text → Text → Text
escape_onto [] rest = quote ∷ rest
escape_onto (c ∷ s) rest = escape_char c ++ escape_onto s rest

unfoldable pub show_str : Text → Text
show_str s = quote ∷ escape_onto s []

-- The order of `str`, by code points.
unfoldable pub text_lt : Text → Text → Bool
text_lt [] [] = false
text_lt [] (y ∷ ys) = true
text_lt (x ∷ xs) [] = false
text_lt (x ∷ xs) (y ∷ ys) = ltb x y || (x == y && text_lt xs ys)

-- `sorted(d.items())` for keys that differ: an insertion sort by the key.
abbrev key_text : Key → Text
key_text (str_key k) = k
key_text (other_key k) = k

unfoldable pub place : Key → Value → Entries → Entries
place k v end = entry k v end
place k v (entry j w d) =
    if text_lt (key_text k) (key_text j) then entry k v (entry j w d) else entry j w (place k v d)

-- The value with the entries of every dict in it sorted.
unfoldable mutual
  pub sort_keys : Value → Value
  sort_keys (items vs) = items (sort_items vs)
  sort_keys (tuple vs) = tuple (sort_items vs)
  sort_keys (dict d) = dict (sort_entries d)
  sort_keys v = v

  pub sort_items : Items → Items
  sort_items nil = nil
  sort_items (cons v vs) = cons (sort_keys v) (sort_items vs)

  pub sort_entries : Entries → Entries
  sort_entries end = end
  sort_entries (entry k v d) = place k (sort_keys v) (sort_entries d)

-- Some texts, put together; or the first exception: the `TypeError` of `default`, or the
-- `ValueError` of a number that is too long.
infixr 60 ◌⧺◌
abbrev pub ◌⧺◌ : Result Text → Result Text → Result Text
ok a ⧺ ok b = ok (a ++ b)
ok a ⧺ raised e = raised e
raised e ⧺ r = raised e

unfoldable mutual
  pub dumps : Value → Result Text
  dumps null = ok (lit "null")
  dumps (boolean true) = ok (lit "true")
  dumps (boolean false) = ok (lit "false")
  dumps (integer n) = repr n
  dumps (float finite digits) = ok digits
  dumps (str s) = ok (show_str s)
  dumps (items nil) = ok (lit "[]")
  dumps (items (cons v vs)) = ok (lit "[") ⧺ dumps v ⧺ dumps_items vs
  dumps (dict d) = ok (lit "{") ⧺ dumps_entries (lit "") d
  dumps (tuple nil) = ok (lit "[]")
  dumps (tuple (cons v vs)) = ok (lit "[") ⧺ dumps v ⧺ dumps_items vs
  dumps (other type_name) = raised type_error

  pub dumps_items : Items → Result Text
  dumps_items nil = ok (lit "]")
  dumps_items (cons v vs) = ok (lit ",") ⧺ dumps v ⧺ dumps_items vs

  pub dumps_entries : Text → Entries → Result Text
  dumps_entries sep end = ok (lit "}")
  dumps_entries sep (entry (str_key k) v d) =
      ok (sep ++ (show_str k ++ lit ":")) ⧺ dumps v ⧺ dumps_entries (lit ",") d
  dumps_entries sep (entry (other_key k) v d) = raised type_error

-- `json.dumps` with its keys sorted.
unfoldable pub dumps_sorted : Value → Result Text
dumps_sorted v = dumps (sort_keys v)
