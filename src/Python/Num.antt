-- ===== src/Python/Num.antt =====
-- The text of an `int` and `int(text)` of Python.
pub mod Injective
use cognic_tool_oracle_schem.Base.{ℕ, zero, suc, ◌+◌, ◌*◌, ◌-◌, ◌/◌, ◌%◌, Bool, true, false, not}
use cognic_tool_oracle_schem.Base.{◌&&◌, List, [], ◌∷◌, ◌++◌, Option, none, some, ltb, leb, ◌==◌}
use cognic_tool_oracle_schem.Base.{if◌then◌else◌, ℤ, pos, negsuc, Text, length, reverse, ◌||◌}
use cognic_tool_oracle_schem.Python.Exception.{Result, ok, raised, value_error}
use cognic_tool_oracle_schem.Python.Str.{Unicode, between}

-- The decimal digits of `n`, most significant first, in front of `tail`. One round removes a digit,
-- so `n + 1` rounds are enough.
unfoldable pub digits_onto : ℕ → ℕ → Text → Text
digits_onto zero n tail = tail
digits_onto (suc fuel) n tail =
    let more = digits_onto fuel (n / 10) ((b'0' + n % 10) ∷ tail) in
    if ltb n 10 then (b'0' + n) ∷ tail else more

unfoldable pub show_ℕ : ℕ → Text
show_ℕ n = digits_onto (suc n) n []

-- The decimal text of `n`.
unfoldable pub show : ℤ → Text
show (pos n) = show_ℕ n
show (negsuc n) = b'-' ∷ show_ℕ (suc n)

-- Whether `n` has more digits than Python converts, the sign not counted.
unfoldable pub is_too_long : ℤ → Bool
is_too_long (pos n) = ltb 4300 (length (show_ℕ n))
is_too_long (negsuc n) = ltb 4300 (length (show_ℕ (suc n)))

-- `int.__repr__(n)`, which refuses a number of more than 4300 digits.
unfoldable pub repr : ℤ → Result Text
repr n = if is_too_long n then raised value_error else ok (show n)

abbrev pub negate : ℕ → ℤ
negate zero = pos 0
negate (suc n) = negsuc n

-- The characters that are not underscores.
unfoldable pub digit_count : Text → ℕ
digit_count [] = 0
digit_count (c ∷ s) = if c == b'_' then digit_count s else suc (digit_count s)

module _ (u : Unicode) where
  unfoldable pub digit_of : ℕ → Option ℕ
  digit_of c =
      if ltb c 128 then (if between b'0' b'9' c then some (c - b'0') else none) else u.digit_wide c

  -- Digits with single underscores between them. The flag says that a digit must follow.
  unfoldable pub digits_of : Bool → ℕ → Text → Option ℕ
  digits_of true n [] = none
  digits_of false n [] = some n
  digits_of needed n (c ∷ s) =
      let after_underscore = digits_of true n s in
      let fail : Option ℕ = if not needed && c == b'_' then after_underscore else none in
      let next = λ (d : ℕ). digits_of false (n * 10 + d) s in
      elim (digit_of c) [ some d ↦ next d | none ↦ fail ]

  -- Python refuses a numeral of more than 4300 digits.
  unfoldable pub magnitude_of : Text → Option ℕ
  magnitude_of s = if ltb 4300 (digit_count s) then none else digits_of true 0 s

  unfoldable pub signed_of : Text → Option ℤ
  signed_of [] = none
  signed_of (c ∷ s) =
      if c == b'-'
      then elim (magnitude_of s) [ none ↦ none | some n ↦ some (negate n) ]
      else if c == b'+'
      then elim (magnitude_of s) [ none ↦ none | some n ↦ some (pos n) ]
      else elim (magnitude_of (c ∷ s)) [ none ↦ none | some n ↦ some (pos n) ]

  -- The white space that `int` skips at both ends, which the four separators are not.
  unfoldable pub is_int_space : ℕ → Bool
  is_int_space c = if ltb c 128 then between 9 13 c || c == 32 else u.is_space_wide c

  unfoldable pub skip_spaces : Text → Text
  skip_spaces [] = []
  skip_spaces (c ∷ s) = let rest = skip_spaces s in if is_int_space c then rest else c ∷ s

  -- `int(text)`; `none` is a `ValueError`.
  unfoldable pub int_of : Text → Option ℤ
  int_of s = signed_of (reverse (skip_spaces (reverse (skip_spaces s))))
