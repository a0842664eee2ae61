-- ===== src/Python/Utf8.antt =====
-- `text.encode("utf-8")` and the strict `bytes.decode("utf-8")`.
pub mod Injective
pub mod RoundTrip
use cognic_tool_oracle_schem.Base.{
  ℕ, zero, suc, not, ◌+◌, ◌-◌, ◌*◌, ◌/◌, ◌%◌, List, [], ◌∷◌, ◌++◌, Option, none, some, ltb,
}
use cognic_tool_oracle_schem.Base.{if◌then◌else◌, Text, Bytes}
use cognic_tool_oracle_schem.Python.Str.{between}

-- A continuation byte.
abbrev pub low6 : ℕ → ℕ
low6 c = 128 + c % 64

-- The bytes of one code point; a surrogate has none, and the encoder raises `UnicodeEncodeError`.
unfoldable pub encode_char : ℕ → Option Bytes
encode_char c =
    if ltb c 128
    then some (c ∷ [])
    else if ltb c 2048
    then some ((192 + c / 64) ∷ low6 c ∷ [])
    else if between 55296 57343 c
    then none
    else if ltb c 65536
    then some ((224 + c / 4096) ∷ low6 (c / 64) ∷ low6 c ∷ [])
    else some ((240 + c / 262144) ∷ low6 (c / 4096) ∷ low6 (c / 64) ∷ low6 c ∷ [])

abbrev pub append_encoded : Option Bytes → Option Bytes → Option Bytes
append_encoded (some b) (some bs) = some (b ++ bs)
append_encoded (some b) none = none
append_encoded none r = none

unfoldable pub encode : Text → Option Bytes
encode [] = some []
encode (c ∷ s) = append_encoded (encode_char c) (encode s)

-- Where the decoder stands: between characters, or in one, with the continuation bytes that it still
-- needs beside the next one, the least code point of that length and the bits so far.
pub data Place : Type 0 where
  outside : Place
  inside : (needed : ℕ) (least : ℕ) (bits : ℕ) → Place

-- A byte leads to a fault, to another place, or ends a character.
pub data Move : Type 0 where
  fault : Move
  move : Place → Move
  emit : ℕ → Move

unfoldable pub lead : ℕ → Move
lead b =
    if ltb b 128
    then emit b
    else if between 194 223 b
    then move (inside 0 128 (b - 192))
    else if between 224 239 b
    then move (inside 1 2048 (b - 224))
    else if between 240 244 b
    then move (inside 2 65536 (b - 240))
    else fault

-- A code point that is not overlong, no surrogate and in range.
unfoldable pub finish : ℕ → ℕ → Move
finish least c =
    if ltb c least
    then fault
    else if between 55296 57343 c
    then fault
    else if ltb 1114111 c
    then fault
    else emit c

abbrev pub more : ℕ → ℕ → ℕ → Move
more zero least bits = finish least bits
more (suc needed) least bits = move (inside needed least bits)

abbrev pub put : ℕ → Option Text → Option Text
put c none = none
put c (some s) = some (c ∷ s)

unfoldable pub step : Place → ℕ → Move
step outside b = lead b
step (inside needed least bits) b =
    if not (between 128 191 b) then fault else more needed least (bits * 64 + (b - 128))

unfoldable pub decode_from : Place → Bytes → Option Text
decode_from outside [] = some []
decode_from (inside needed least bits) [] = none
decode_from place (b ∷ bs) = elim (step place b) [
  | fault ↦ none
  | move next ↦ decode_from next bs
  | emit c ↦ put c (decode_from outside bs)
]

unfoldable pub decode : Bytes → Option Text
decode b = decode_from outside b
