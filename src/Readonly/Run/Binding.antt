-- ===== src/Readonly/Run/Binding.antt =====
-- The digest of the arguments (arm 3), read back through SHA-256, UTF-8 and JSON.
use mathlib.Core.List.{append_cancel_left}
use cognic_tool_oracle_schem.Base.{
  ◌≡◌, refl, sym, ap, ◌∙◌, ◌⊎◌, inl, inr, ◌++◌, Option, none, some, ℤ, Text, Bytes, lit, arith,
  Bool, if◌then◌else◌, true, false, Bool-cases, text_eq, text_eq_iff,
}
use cognic_tool_oracle_schem.Python.Exception.{
  Result, ok, raised, or_raise, value_error, unicode_encode_error, ok-injective,
}
use cognic_tool_oracle_schem.Python.Num.{show, is_too_long, repr}
use cognic_tool_oracle_schem.Python.Num.Injective.{NoDigit, show_inj}
use cognic_tool_oracle_schem.Python.Utf8.{encode}
use cognic_tool_oracle_schem.Python.Utf8.Injective.{encode-injective}
use cognic_tool_oracle_schem.Python.Json.{
  escape_char, escape_onto, show_str, text_lt, place, sort_keys, dumps, dumps_sorted,
}
use cognic_tool_oracle_schem.Python.Json.Strings.{escape_onto_inj, escape_onto-append}
use cognic_tool_oracle_schem.QueryContext.Canonical.{reject_unsafe_values, canonical_bytes}
use cognic_tool_oracle_schem.Readonly.Run.{Args, basis, hashed, recompute_args_sha256}
use cognic_tool_oracle_schem.Host.{Host}

-- `"scope_id":` and the rest of the object.
scope_part : Text → Text → Text
scope_part scope_id sql =
    lit "\"scope_id\":\"" ++ escape_onto scope_id (lit ",\"sql\":\"" ++ escape_onto sql (lit "}"))

-- The JSON text of the arguments.
pub basis_text : Text → Text → Option ℤ → Text
basis_text scope_id sql none = lit "{" ++ scope_part scope_id sql
basis_text scope_id sql (some n) =
    lit "{\"max_rows\":" ++ (show n ++ (lit "," ++ scope_part scope_id sql))

-- The number of rows is one that Python does not write out.
abbrev pub is_too_long_bound : Option ℤ → Bool
is_too_long_bound none = false
is_too_long_bound (some n) = is_too_long n

dumps_sorted-basis :
    (args : Args)
    → dumps_sorted (basis args) ≡ (
        if is_too_long_bound args.max_rows
        then raised value_error
        else ok (basis_text args.scope_id args.sql args.max_rows))
dumps_sorted-basis args = go args.scope_id args.sql args.max_rows
  where
    written :
        (scope_id sql : Text) (n : ℤ)
        → is_too_long n ≡ false
        → dumps_sorted (basis (record { scope_id = scope_id; sql = sql; max_rows = some n }))
          ≡ ok (basis_text scope_id sql (some n))
    written scope_id sql n h =
        unfold dumps_sorted basis sort_keys place text_lt dumps repr show_str escape_onto
          escape_char lit basis_text scope_part in
        simp (h, escape_onto-append)

    refused :
        (scope_id sql : Text) (n : ℤ)
        → is_too_long n ≡ true
        → dumps_sorted (basis (record { scope_id = scope_id; sql = sql; max_rows = some n }))
          ≡ raised value_error
    refused scope_id sql n h =
        unfold dumps_sorted basis sort_keys place text_lt dumps repr show_str escape_onto
          escape_char lit basis_text scope_part in
        simp h

    go :
        (scope_id sql : Text) (m : Option ℤ)
        → dumps_sorted (basis (record { scope_id = scope_id; sql = sql; max_rows = m }))
          ≡ (if is_too_long_bound m then raised value_error else ok (basis_text scope_id sql m))
    go scope_id sql none =
        unfold dumps_sorted basis sort_keys place text_lt dumps show_str escape_onto escape_char lit
          basis_text scope_part in
        simp escape_onto-append
    go scope_id sql (some n) = elim (Bool-cases (is_too_long n)) [
      | inl long ↦ rw (long, refused scope_id sql n long)
      | inr short ↦ rw (short, written scope_id sql n short)
    ]

scope_part_inj : (s q s' q' : Text) → scope_part s q ≡ scope_part s' q' → (s ≡ s') × (q ≡ q')
unfolding scope_part
scope_part_inj s q s' q' e =
    let (scopes, more) = escape_onto_inj s s' _ _ (append_cancel_left _ _ _ e) in
    let (statements, _) = escape_onto_inj q q' _ _ (append_cancel_left _ _ _ more) in
    (scopes, statements)

-- With and without `max_rows` the texts differ in their third character.
with_max_rows_ne : (s q s' q' : Text) (n : ℤ) → basis_text s q none ≡ basis_text s' q' (some n) → ⊥
unfolding basis_text scope_part lit
with_max_rows_ne s q s' q' n e = ground arith

comma-NoDigit : (r : Text) → NoDigit (lit "," ++ r)
unfolding lit
comma-NoDigit r = (refl, λ e. absurd (omega arith))

basis_text_inj :
    (s q s' q' : Text) (m m' : Option ℤ)
    → basis_text s q m ≡ basis_text s' q' m'
    → (s ≡ s') × (q ≡ q') × (m ≡ m')
unfolding basis_text
basis_text_inj s q s' q' none none e =
    let (a, b) = scope_part_inj s q s' q' (append_cancel_left _ _ _ e) in (a, b, refl)
basis_text_inj s q s' q' none (some n) e = absurd (with_max_rows_ne s q s' q' n e)
basis_text_inj s q s' q' (some n) none e = absurd (with_max_rows_ne s' q' s q n (sym e))
basis_text_inj s q s' q' (some m) (some n) e =
    let (same, rest) =
      show_inj m n _ _ (comma-NoDigit _) (comma-NoDigit _) (append_cancel_left _ _ _ e) in
    let (a, b) = scope_part_inj s q s' q' (append_cancel_left _ _ _ rest) in (a, b, ap some same)

reject_unsafe_values-basis : (args : Args) → reject_unsafe_values (basis args) ≡ ok tt
reject_unsafe_values-basis args = go args.scope_id args.sql args.max_rows
  where
    go :
        (scope_id sql : Text) (m : Option ℤ)
        → reject_unsafe_values (basis (record { scope_id = scope_id; sql = sql; max_rows = m }))
          ≡ ok tt
    go scope_id sql none = unfold reject_unsafe_values basis in refl
    go scope_id sql (some n) = unfold reject_unsafe_values basis in refl

encoded : {b : Bytes} (o : Option Bytes) → or_raise unicode_encode_error o ≡ ok b → o ≡ some b
encoded (some c) e = ap some (ok-injective e)
encoded none e = ground arith

not_raised :
    {b : Bytes} (long : Bool) (r : Result Bytes)
    → (if long then raised value_error else r) ≡ ok b
    → r ≡ ok b
not_raised true r e = ground arith
not_raised false r e = e

pub canonical_bytes-eq :
    (args : Args)
    → canonical_bytes (basis args) ≡ (
        if is_too_long_bound args.max_rows
        then raised value_error
        else or_raise unicode_encode_error
            (encode (basis_text args.scope_id args.sql args.max_rows)))
unfolding canonical_bytes
canonical_bytes-eq args =
    rw (reject_unsafe_values-basis args, dumps_sorted-basis args)
      (elim (Bool-cases (is_too_long_bound args.max_rows)) [
        | inl long ↦ rw long refl
        | inr short ↦ rw short refl
      ])

-- The canonical form of the arguments is the UTF-8 form of their JSON text.
canonical_bytes-basis :
    (args : Args) (b : Bytes)
    → canonical_bytes (basis args) ≡ ok b
    → encode (basis_text args.scope_id args.sql args.max_rows) ≡ some b
canonical_bytes-basis args b e =
    encoded _ (not_raised (is_too_long_bound args.max_rows) _ (sym (canonical_bytes-eq args) ∙ e))

-- Calls with the same canonical form have the same scope, the same statement and the same row bound,
-- the absence of one included.
pub canonical_bytes-basis_injective :
    (args args' : Args) (b : Bytes)
    → canonical_bytes (basis args) ≡ ok b
    → canonical_bytes (basis args') ≡ ok b
    → (args.scope_id ≡ args'.scope_id) × (args.sql ≡ args'.sql) × (args.max_rows ≡ args'.max_rows)
canonical_bytes-basis_injective args args' b e e' =
    basis_text_inj _ _ _ _ _ _
      (encode-injective _ _ b (canonical_bytes-basis args b e) (canonical_bytes-basis args' b e'))

true-false : ¬ (true ≡ false)
true-false e = cc

hashed-ok :
    (sha256 : Bytes → Text) (r : Result Bytes) (d : Text)
    → hashed sha256 r ≡ ok d
    → (b : Bytes) × (r ≡ ok b) × (sha256 b ≡ d)
hashed-ok sha256 (ok b) d e = (b, refl, ok-injective e)
hashed-ok sha256 (raised x) d e = ground arith

module _ (h : Host) where
  -- The two calls are one call.
  abbrev pub SameCall : Args → Args → Type 0
  SameCall args args' =
      (args.scope_id ≡ args'.scope_id) × (args.sql ≡ args'.sql) × (args.max_rows ≡ args'.max_rows)

  -- The canonical forms of the calls are a collision of the hash.
  abbrev pub Collision : Args → Args → Type 0
  Collision args args' =
      (b b' : Bytes) × (canonical_bytes (basis args) ≡ ok b)
      × (canonical_bytes (basis args') ≡ ok b')
      × ¬ (b ≡ b')
      × (h.sha256 b ≡ h.sha256 b')

  -- Two calls whose arguments have one digest have the same scope, the same statement and the same row
  -- bound, the absence of a bound included, or else their canonical forms are two different byte
  -- strings with one SHA-256 digest.
  pub recompute_args_sha256_binds :
      (args args' : Args) (d : Text)
      → recompute_args_sha256 h args ≡ ok d
      → recompute_args_sha256 h args' ≡ ok d
      → SameCall args args' ⊎ Collision args args'
  unfolding recompute_args_sha256
  recompute_args_sha256_binds args args' d e e' =
      let (b, c, x) = hashed-ok h.sha256 (canonical_bytes (basis args)) d e in
      let (b', c', x') = hashed-ok h.sha256 (canonical_bytes (basis args')) d e' in
      elim (Bool-cases (text_eq b b')) [
        | inl same ↦
            inl (canonical_bytes-basis_injective args args' b c (rw ((text_eq_iff b b').0 same) c'))
        | inr differ ↦ inr (
          b,
          b',
          c,
          c',
          λ same. true-false (sym ((text_eq_iff b b').1 same) ∙ differ),
          x ∙ sym x',
        )
      ]
