-- ===== src/Python/Num/Injective.antt =====
-- Reading a number back from its decimal numeral, in front of other text.
use mathlib.Core.Path.{subst}
use cognic_tool_oracle_schem.Base.{
  ℕ, zero, suc, ◌+◌, ◌*◌, ◌-◌, ◌/◌, ◌%◌, ◌<◌, ◌≡◌, refl, ap, ◌∙◌, sym,
}
use cognic_tool_oracle_schem.Base.{[], ◌∷◌, ◌++◌, arith, false, ltb, if◌then◌else◌, Bool-cases}
use cognic_tool_oracle_schem.Base.{inl, inr, ◌≢◌, Text, ℤ, pos, negsuc}
use cognic_tool_oracle_schem.Python.Str.{between}
use cognic_tool_oracle_schem.Python.Num.{digits_onto, show_ℕ, show}

-- The number that a text begins with, onto a number read before, and the rest.
read : ℕ → Text → ℕ × Text
read acc [] = (acc, [])
read acc (c ∷ s) = if between b'0' b'9' c then read (acc * 10 + (c - b'0')) s else (acc, c ∷ s)

read-digits_onto :
    (fuel n : ℕ) (tail : Text) → n < fuel → read 0 (digits_onto fuel n tail) ≡ read n tail
unfolding digits_onto read
read-digits_onto zero n tail h = absurd (omega arith)
read-digits_onto (suc fuel) n tail h = elim (Bool-cases (ltb n 10)) [
  | inl small ↦ rw small (ground arith)
  | inr large ↦
      rw large
        (read-digits_onto fuel (n / 10) ((b'0' + n % 10) ∷ tail) (ground arith) ∙ ground arith)
]

digits_onto-append :
    (fuel n : ℕ) (tail r : Text) → digits_onto fuel n tail ++ r ≡ digits_onto fuel n (tail ++ r)
unfolding digits_onto
digits_onto-append zero n tail r = refl
digits_onto-append (suc fuel) n tail r = elim (Bool-cases (ltb n 10)) [
  | inl small ↦ rw small
  | inr large ↦ rw large (digits_onto-append fuel (n / 10) ((b'0' + n % 10) ∷ tail) r)
]

-- The text begins with no digit and no sign.
abbrev pub NoDigit : Text → Type 0
NoDigit [] = Unit
NoDigit (c ∷ s) = (between b'0' b'9' c ≡ false) × (c ≢ b'-')

read-NoDigit : (n : ℕ) (r : Text) → NoDigit r → read n r ≡ (n, r)
unfolding read
read-NoDigit n [] h = refl
read-NoDigit n (c ∷ s) h = rw (h.0)

read-show_ℕ : (n : ℕ) (r : Text) → NoDigit r → read 0 (show_ℕ n ++ r) ≡ (n, r)
unfolding show_ℕ
read-show_ℕ n r h =
    rw (digits_onto-append (suc n) n [] r, read-digits_onto (suc n) n r (omega arith))
      (read-NoDigit n r h)

read-minus : (s : Text) → read 0 (b'-' ∷ s) ≡ (0, b'-' ∷ s)
unfolding read
read-minus s = refl

not_minus : (n : ℕ) (r s : Text) → NoDigit r → show_ℕ n ++ r ≡ b'-' ∷ s → ⊥
not_minus n r s h q =
    let e : ◌≡◌ {A = ℕ × Text} (n, r) (0, b'-' ∷ s) =
      sym (read-show_ℕ n r h) ∙ (ap (read 0) q ∙ read-minus s) in
    (subst NoDigit (ap (λ (p : ℕ × Text). p.1) e) h).1 refl

-- Equal texts that begin with the numerals of two integers have the same integers and rests.
pub show_inj :
    (m n : ℤ) (r r' : Text)
    → NoDigit r
    → NoDigit r'
    → show m ++ r ≡ show n ++ r'
    → (m ≡ n) × (r ≡ r')
unfolding show
show_inj (pos m) (pos n) r r' h h' q =
    let e : ◌≡◌ {A = ℕ × Text} (m, r) (n, r') =
      sym (read-show_ℕ m r h) ∙ (ap (read 0) q ∙ read-show_ℕ n r' h') in
    (cc, cc)
show_inj (pos m) (negsuc n) r r' h h' q = absurd (not_minus m r (show_ℕ (suc n) ++ r') h q)
show_inj (negsuc m) (pos n) r r' h h' q = absurd (not_minus n r' (show_ℕ (suc m) ++ r) h' (sym q))
show_inj (negsuc m) (negsuc n) r r' h h' q =
    let e : ◌≡◌ {A = ℕ × Text} (suc m, r) (suc n, r') =
      sym (read-show_ℕ (suc m) r h) ∙ (ap (read 0) (tails q) ∙ read-show_ℕ (suc n) r' h') in
    (cc, cc)
  where
    tails : {c : ℕ} {s t : Text} → c ∷ s ≡ c ∷ t → s ≡ t
    tails p = cc
