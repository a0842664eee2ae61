-- ===== src/Python/Utf8/Injective.antt =====
-- Reading a text back from its UTF-8 form.
use cognic_tool_oracle_schem.Base.{
  ℕ, ◌≡◌, refl, ap, ◌∙◌, sym, [], ◌∷◌, ◌++◌, Option, none, some, arith,
}
use cognic_tool_oracle_schem.Base.{Text, Bytes}
use cognic_tool_oracle_schem.Python.Utf8.{encode_char, append_encoded, encode}

encode_char_inj :
    (c d : ℕ) (b b' r r' : Bytes)
    → encode_char c ≡ some b
    → encode_char d ≡ some b'
    → b ++ r ≡ b' ++ r'
    → (c ≡ d) × (r ≡ r')
unfolding encode_char
encode_char_inj c d b b' r r' e e' q = ground arith

encode_char-ne-nil : (c : ℕ) (b r : Bytes) → encode_char c ≡ some b → [] ≡ b ++ r → ⊥
unfolding encode_char
encode_char-ne-nil c b r e q = ground arith

-- The form of a text that begins with a character.
pub encode-cons :
    (c : ℕ) (s : Text) (b : Bytes)
    → encode (c ∷ s) ≡ some b
    → (p : Bytes) × (q : Bytes) × (encode_char c ≡ some p) × (encode s ≡ some q) × (b ≡ p ++ q)
unfolding encode
encode-cons c s b e = parts (encode_char c) (encode s) refl refl e
  where
    parts :
        (x y : Option Bytes)
        → encode_char c ≡ x
        → encode s ≡ y
        → append_encoded x y ≡ some b
        → (p : Bytes) × (q : Bytes) × (encode_char c ≡ some p) × (encode s ≡ some q) × (b ≡ p ++ q)
    parts none y ex ey h = cc
    parts (some p) none ex ey h = cc
    parts (some p) (some q) ex ey h = (p, q, ex, ey, cc)

-- Two texts with the same UTF-8 form are the same text.
pub encode-injective : (s t : Text) (b : Bytes) → encode s ≡ some b → encode t ≡ some b → s ≡ t
unfolding encode
encode-injective [] [] b e f = refl
encode-injective [] (d ∷ t) b e f =
    let (p, q, ep, eq, h) = encode-cons d t b f in absurd (encode_char-ne-nil d p q ep (cc))
encode-injective (c ∷ s) [] b e f =
    let (p, q, ep, eq, h) = encode-cons c s b e in absurd (encode_char-ne-nil c p q ep (cc))
encode-injective (c ∷ s) (d ∷ t) b e f =
    let (p, q, ep, eq, h) = encode-cons c s b e in
    let (p', q', ep', eq', h') = encode-cons d t b f in
    let (same, rest) = encode_char_inj c d p p' q q' ep ep' (sym h ∙ h') in
    let later = encode-injective s t q eq (eq' ∙ ap some (sym rest)) in cc
