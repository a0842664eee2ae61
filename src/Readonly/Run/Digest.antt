-- ===== src/Readonly/Run/Digest.antt =====
-- Which exceptions the digest of the arguments (arm 3) raises.
use cognic_tool_oracle_schem.Base.{
  ◌≡◌, sym, ◌∙◌, ◌⊎◌, inl, inr, true, Bool-cases, Option, none, some, arith, if◌then◌else◌,
}
use cognic_tool_oracle_schem.Base.{ℤ, Text, Bytes}
use cognic_tool_oracle_schem.Python.Exception.{
  Exc, Result, value_error, unicode_encode_error, ok, raised, or_raise, raised_inj,
}
use cognic_tool_oracle_schem.Python.Num.{is_too_long}
use cognic_tool_oracle_schem.QueryContext.Canonical.{canonical_bytes}
use cognic_tool_oracle_schem.Readonly.Run.{Args, basis, hashed, recompute_args_sha256}
use cognic_tool_oracle_schem.Readonly.Run.Binding.{is_too_long_bound, canonical_bytes-eq}
use cognic_tool_oracle_schem.Host.{Host}

hashed-raised :
    (sha256 : Bytes → Text) (r : Result Bytes) (e : Exc) → hashed sha256 r ≡ raised e → r ≡ raised e
hashed-raised sha256 (ok b) e h = ground arith
hashed-raised sha256 (raised x) e h = ground arith

-- A number of rows that Python does not write out: one of more than 4300 digits.
abbrev pub TooLong : Option ℤ → Type 0
TooLong none = ⊥
TooLong (some n) = is_too_long n ≡ true

encode-raised :
    (encoded : Option Bytes) (e : Exc)
    → or_raise unicode_encode_error encoded ≡ raised e
    → e ≡ unicode_encode_error
encode-raised none e h = raised_inj (sym h)
encode-raised (some b) e h = ground arith

canonical-raised :
    (m : Option ℤ) (encoded : Option Bytes) (e : Exc)
    → (if is_too_long_bound m then raised value_error else or_raise unicode_encode_error encoded)
      ≡ raised e
    → (e ≡ unicode_encode_error) ⊎ ((e ≡ value_error) × TooLong m)
canonical-raised none encoded e h = inl (encode-raised encoded e h)
canonical-raised (some n) encoded e h = elim (Bool-cases (is_too_long n)) [
  | inl long ↦ inr (ground arith, long)
  | inr short ↦ inl (encode-raised encoded e (ground arith))
]

pub digest-raised :
    (h : Host) (args : Args) (e : Exc)
    → recompute_args_sha256 h args ≡ raised e
    → (e ≡ unicode_encode_error) ⊎ ((e ≡ value_error) × TooLong args.max_rows)
unfolding recompute_args_sha256
digest-raised h args e hit =
    canonical-raised args.max_rows _ e
      (sym (canonical_bytes-eq args) ∙ hashed-raised h.sha256 (canonical_bytes (basis args)) e hit)
