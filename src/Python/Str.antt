-- ===== src/Python/Str.antt =====
-- The methods of Python's `str` that the program calls, as the language documents them. Code points
-- below 128 are written out; the Unicode tables above that are a parameter.
use cognic_tool_oracle_schem.Base.{ℕ, ◌-◌, Bool, ◌&&◌, ◌||◌, List, [], ◌∷◌}
use cognic_tool_oracle_schem.Base.{◌++◌, reverse, Option, ltb, leb, ◌==◌, if◌then◌else◌}
use cognic_tool_oracle_schem.Base.{Text, all}

-- What the Unicode database says of code points from 128 on: the upper case of a character (one to
-- three characters), white space, and the value of a decimal digit.
pub record Unicode : Type 0 where
  pub upper_wide : ℕ → Text
  pub is_space_wide : ℕ → Bool
  pub digit_wide : ℕ → Option ℕ

abbrev pub between : ℕ → ℕ → ℕ → Bool
between lo hi c = leb lo c && leb c hi

module _ (u : Unicode) where
  unfoldable pub upper_char : ℕ → Text
  upper_char c =
      if ltb c 128 then (if between b'a' b'z' c then c - 32 else c) ∷ [] else u.upper_wide c

  -- `s.upper()`
  unfoldable pub upper : Text → Text
  upper [] = []
  upper (c ∷ s) = upper_char c ++ upper s

  -- Tab to carriage return, the four separators, and the space.
  unfoldable pub is_space : ℕ → Bool
  is_space c = if ltb c 128 then between 9 13 c || between 28 32 c else u.is_space_wide c

  unfoldable pub left_strip : Text → Text
  left_strip [] = []
  left_strip (c ∷ s) = let rest = left_strip s in if is_space c then rest else c ∷ s

  -- `s.strip()`
  unfoldable pub strip : Text → Text
  strip s = reverse (left_strip (reverse (left_strip s)))

-- The loop of `s.split(sep)` for a separator of one character, with the piece read so far.
unfoldable pub split_from : ℕ → Text → Text → List Text
split_from sep cur [] = cur ∷ []
split_from sep cur (c ∷ s) =
    let closed = split_from sep [] s in
    let longer = split_from sep (cur ++ c ∷ []) s in if c == sep then cur ∷ closed else longer

-- `s.split(",")`
unfoldable pub split_comma : Text → List Text
split_comma s = split_from b',' [] s

-- White space of `bytes.strip()`: space and tab to carriage return.
unfoldable pub is_byte_space : ℕ → Bool
is_byte_space c = between 9 13 c || c == 32

-- `not b.strip()`
unfoldable pub is_blank_bytes : List ℕ → Bool
is_blank_bytes b = all is_byte_space b
