-- ===== src/Readonly/Keys.antt =====
-- `_load_public_keys` and `_query_timeout_s` of readonly_query.py.
pub mod Reads
pub mod Usable
use cognic_tool_oracle_schem.Base.{Bool, true, false, not, List, [], ◌∷◌, map, Option, none, some}
use cognic_tool_oracle_schem.Base.{keep_if, is_empty, if◌then◌else◌, Text, Bytes, lit}
use cognic_tool_oracle_schem.Python.Exception.{Exc}
use cognic_tool_oracle_schem.Python.Str.{Unicode, strip, split_comma, is_blank_bytes}
use cognic_tool_oracle_schem.Host.{
  Host, key_file_read, M, pure, perform, catch, is_os_error, ◌>>=◌, ◌>>◌,
}

abbrev pub public_keys_env : Text
public_keys_env = lit "COGNIC_QUERY_CONTEXT_PUBLIC_KEYS"

abbrev pub timeout_env : Text
timeout_env = lit "COGNIC_ORACLE_QUERY_TIMEOUT_S"

-- `os.environ.get(name, "")`
abbrev pub or_blank : Option Text → Text
or_blank none = []
or_blank (some s) = s

-- `[p.strip() for p in raw.split(",") if p.strip()]`
unfoldable pub listed : Unicode → Text → List Text
listed u raw = keep_if (λ p. not (is_empty p)) (map (strip u) (split_comma raw))

module _ (h : Host) where
  abbrev pub with_key : Bytes → Option (List Bytes) → Option (List Bytes)
  with_key pem none = none
  with_key pem (some keys) = some (pem ∷ keys)

  -- `except OSError: return None`
  abbrev pub read_or_none : Text → M (Option Bytes)
  read_or_none path =
      catch is_os_error
        (do pem ← perform (λ past. h.read_key past path) (λ _. key_file_read path); pure (some pem))
        (λ _. pure none)

  -- The loop over the paths; an unreadable or an empty file ends it with None.
  unfoldable pub read_keys : List Text → M (Option (List Bytes))
  read_keys [] = pure (some [])
  read_keys (path ∷ paths) =
      let rest = read_keys paths in
      do
        found ← read_or_none path
        elim found [
          | none ↦ pure none
          | some pem ↦
              if is_blank_bytes pem then pure none else (do keys ← rest; pure (with_key pem keys))
        ]

  abbrev pub load_paths : List Text → M (Option (List Bytes))
  load_paths paths = if is_empty paths then pure none else read_keys paths

  unfoldable pub load_public_keys : M (Option (List Bytes))
  load_public_keys = load_paths (listed h.unicode (or_blank (h.env public_keys_env)))

  abbrev pub positive_or_default : Option h.Seconds → h.Seconds
  positive_or_default none = h.default_timeout
  positive_or_default (some value) = if h.is_positive value then value else h.default_timeout

  unfoldable pub query_timeout_s : h.Seconds
  query_timeout_s =
      let raw = or_blank (h.env timeout_env) in
      if is_empty (strip h.unicode raw)
      then h.default_timeout
      else positive_or_default (h.float_of raw)
