-- ===== src/Python/Json/Strings.antt =====
-- Reading a text back from its JSON string literal.
use mathlib.Core.List.{append_assoc}
use cognic_tool_oracle_schem.Base.{ℕ, ◌≡◌, refl, ap, ◌∙◌, sym, [], ◌∷◌, ◌++◌, arith}
use cognic_tool_oracle_schem.Base.{Text}
use cognic_tool_oracle_schem.Python.Json.{quote, escape_char, escape_onto}

escape_char_inj :
    (c d : ℕ) (r r' : Text) → escape_char c ++ r ≡ escape_char d ++ r' → (c ≡ d) × (r ≡ r')
unfolding escape_char
escape_char_inj c d r r' q = ground arith

escape_char-ne-quote : (c : ℕ) (r r' : Text) → escape_char c ++ r ≡ quote ∷ r' → ⊥
unfolding escape_char
escape_char-ne-quote c r r' q = ground arith

pub escape_onto_inj : (s t r r' : Text) → escape_onto s r ≡ escape_onto t r' → (s ≡ t) × (r ≡ r')
unfolding escape_onto
escape_onto_inj [] [] r r' q = ground arith
escape_onto_inj [] (d ∷ t) r r' q = absurd (escape_char-ne-quote d _ r (sym q))
escape_onto_inj (c ∷ s) [] r r' q = absurd (escape_char-ne-quote c _ r' q)
escape_onto_inj (c ∷ s) (d ∷ t) r r' q =
    let (same, rest) = escape_char_inj c d _ _ q in
    let (later, tail) = escape_onto_inj s t r r' rest in (cc, tail)

pub escape_onto-append : (s r t : Text) → escape_onto s r ++ t ≡ escape_onto s (r ++ t)
unfolding escape_onto
escape_onto-append [] r t = refl
escape_onto-append (c ∷ s) r t =
    append_assoc (escape_char c) (escape_onto s r) t
    ∙ ap (λ x. escape_char c ++ x) (escape_onto-append s r t)
