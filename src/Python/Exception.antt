-- ===== src/Python/Exception.antt =====
-- Exceptions as values, and what a call leaves: a value, or the exception that it raised.
use cognic_tool_oracle_schem.Base.{List, [], Option, none, some, Text, lit, ◌≡◌, refl, ap, Bool}
use cognic_tool_oracle_schem.Base.{if◌then◌else◌, true, false, ◌⊎◌, inl, inr}

-- Where the class stands: `os_error` is an `OSError`; `base` is no `Exception` (a cancellation, an
-- interrupt), so `except Exception` lets it pass; all else is `plain`.
pub data Kind : Type 0 where
  os_error plain base : Kind

-- `args` keeps of each argument the value of its attribute `full_code`, if it has one.
pub record Exc : Type 0 where
  pub kind : Kind
  pub class_name : Text
  pub args : List (Option Text)

pub data Result {ℓ} (A : Type ℓ) : Type ℓ where
  ok : A → Result A
  raised : Exc → Result A

abbrev pub plain_error : Text → Exc
plain_error name = record { kind = plain; class_name = name; args = [] }

abbrev pub value_error : Exc
value_error = plain_error (lit "ValueError")

abbrev pub type_error : Exc
type_error = plain_error (lit "TypeError")

abbrev pub unicode_encode_error : Exc
unicode_encode_error = plain_error (lit "UnicodeEncodeError")

infixl 5 ◌>>=◌ ◌>>◌
abbrev pub ◌>>=◌ {ℓ κ} : {A : Type ℓ} {B : Type κ} → Result A → (A → Result B) → Result B
raised e >>= k = raised e
ok a >>= k = k a

abbrev pub ◌>>◌ {ℓ κ} : {A : Type ℓ} {B : Type κ} → Result A → Result B → Result B
m >> k = m >>= λ _. k

-- `raise e` where the test fails.
abbrev pub require : Bool → Exc → Result (Unit {0})
require b e = if b then ok tt else raised e

-- The value of an `Option`, or the exception.
abbrev pub or_raise {ℓ} : {A : Type ℓ} → Exc → Option A → Result A
or_raise e none = raised e
or_raise e (some a) = ok a

abbrev pub is_ok {ℓ} : {A : Type ℓ} → Result A → Bool
is_ok (ok a) = true
is_ok (raised e) = false

abbrev pub value_of {ℓ} : {A : Type ℓ} → Result A → Option A
value_of (ok a) = some a
value_of (raised e) = none

pub Result-cases {ℓ} :
    {A : Type ℓ} (r : Result A) → ((a : A) × (r ≡ ok a)) ⊎ ((e : Exc) × (r ≡ raised e))
Result-cases (ok a) = inl (a, refl)
Result-cases (raised e) = inr (e, refl)

-- A block that returns got a value from its first step and returned from the rest.
pub >>=-eq-ok {ℓ κ} :
    {A : Type ℓ} {B : Type κ} {y : B} (first : Result A) (rest : A → Result B)
    → (first >>= rest) ≡ ok y
    → (x : A) × (first ≡ ok x) × (rest x ≡ ok y)
>>=-eq-ok (raised e) rest returns = cc
>>=-eq-ok (ok x) rest returns = (x, refl, returns)

pub ok-injective {ℓ} : {A : Type ℓ} {a b : A} → ok a ≡ ok b → a ≡ b
ok-injective h = cc

pub ok_value {ℓ} : {A : Type ℓ} (r : Result A) → is_ok r ≡ true → (a : A) × (r ≡ ok a)
ok_value (ok a) e = (a, refl)
ok_value (raised x) e = cc

pub raised_inj {ℓ} : {A : Type ℓ} {x y : Exc} → ◌≡◌ {A = Result A} (raised x) (raised y) → x ≡ y
raised_inj e = cc

-- An exception of a block is one of its first step, or one of the rest.
pub >>=-eq-raised {ℓ κ} :
    {A : Type ℓ} {B : Type κ} (first : Result A) (rest : A → Result B) (e : Exc)
    → (first >>= rest) ≡ raised e
    → (first ≡ raised e) ⊎ ((x : A) × (first ≡ ok x) × (rest x ≡ raised e))
>>=-eq-raised (ok x) rest e h = inr (x, refl, h)
>>=-eq-raised {A} (raised x) rest e h = inl (ap raised (raised_inj h))
