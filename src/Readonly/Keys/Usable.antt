-- ===== src/Readonly/Keys/Usable.antt =====
-- The keys that `_load_public_keys` yields.
use cognic_tool_oracle_schem.Base.{◌≡◌, true, false, not, List, Option, none, some, Bytes, Text}
use cognic_tool_oracle_schem.Base.{all, length, is_empty}
use cognic_tool_oracle_schem.Python.Str.{is_blank_bytes}
use cognic_tool_oracle_schem.Host.{Host, ◌>>=◌}
use cognic_tool_oracle_schem.Host.Yields.{Yields}

-- One key for each path, none of them blank.
abbrev pub Usable : List Text → Option (List Bytes) → Type 0
Usable paths none = Unit
Usable paths (some keys) =
    (length keys ≡ length paths) × (all (λ k. not (is_blank_bytes k)) keys ≡ true)

-- There is a key, besides.
abbrev Listed : List Text → Option (List Bytes) → Type 0
Listed paths none = Unit
Listed paths (some keys) = (is_empty keys ≡ false) × Usable paths (some keys)
