-- ===== src/QueryContext/Canonical.antt =====
-- `canonical_bytes` and the walk in front of it, of query_context.py.
use cognic_tool_oracle_schem.Base.{true, false, Bytes}
use cognic_tool_oracle_schem.Python.Exception.{Result, ok, raised, ◌>>=◌, ◌>>◌, or_raise}
use cognic_tool_oracle_schem.Python.Exception.{value_error, type_error, unicode_encode_error}
use cognic_tool_oracle_schem.Python.Value.{str_key, other_key, Value, float, items, tuple, dict}
use cognic_tool_oracle_schem.Python.Value.{Items, nil, cons, Entries, end, entry}
use cognic_tool_oracle_schem.Python.Json.{dumps_sorted}
use cognic_tool_oracle_schem.Python.Utf8.{encode}

unfoldable mutual
  pub reject_unsafe_values : Value → Result (Unit {0})
  reject_unsafe_values (tuple vs) = raised type_error
  reject_unsafe_values (float true repr) = ok tt
  reject_unsafe_values (float false repr) = raised value_error
  reject_unsafe_values (dict d) = reject_unsafe_entries d
  reject_unsafe_values (items vs) = reject_unsafe_items vs
  reject_unsafe_values v = ok tt

  pub reject_unsafe_items : Items → Result (Unit {0})
  reject_unsafe_items nil = ok tt
  reject_unsafe_items (cons v vs) = reject_unsafe_values v >> reject_unsafe_items vs

  pub reject_unsafe_entries : Entries → Result (Unit {0})
  reject_unsafe_entries end = ok tt
  reject_unsafe_entries (entry (other_key k) v d) = raised value_error
  reject_unsafe_entries (entry (str_key k) v d) = reject_unsafe_values v >> reject_unsafe_entries d

unfoldable pub canonical_bytes : Value → Result Bytes
canonical_bytes obj = do
  reject_unsafe_values obj
  text ← dumps_sorted obj
  or_raise unicode_encode_error (encode text)
