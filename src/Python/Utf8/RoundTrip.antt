-- ===== src/Python/Utf8/RoundTrip.antt =====
-- Decoding what was encoded.
use cognic_tool_oracle_schem.Base.{
  ℕ, suc, ◌+◌, ◌*◌, ◌/◌, ◌%◌, ◌≤◌, ◌≡◌, ap, sym, ◌∙◌, inl, inr, true, false, [], ◌∷◌, ◌++◌, Option,
  none, some, arith, ltb, Bool-cases,
}
use cognic_tool_oracle_schem.Base.{Text, Bytes}
use cognic_tool_oracle_schem.Python.Utf8.Injective.{encode-cons}
use cognic_tool_oracle_schem.Python.Str.{between}
use cognic_tool_oracle_schem.Python.Utf8.{
  low6, encode_char, encode, Place, outside, inside, Move, fault, move, emit, lead, finish, put,
  step, decode_from, decode,
}

some-injective : {x y : Bytes} → some x ≡ some y → x ≡ y
some-injective h = cc

lead-two :
    (c : ℕ)
    → ltb c 128 ≡ false
    → ltb c 2048 ≡ true
    → lead (192 + c / 64) ≡ move (inside 0 128 (c / 64))
unfolding lead
lead-two c a b = ground arith

lead-three :
    (c : ℕ)
    → ltb c 2048 ≡ false
    → ltb c 65536 ≡ true
    → lead (224 + c / 4096) ≡ move (inside 1 2048 (c / 4096))
unfolding lead
lead-three c a b = ground arith

lead-four :
    (c : ℕ)
    → ltb c 65536 ≡ false
    → c ≤ 1114111
    → lead (240 + c / 262144) ≡ move (inside 2 65536 (c / 262144))
unfolding lead
lead-four c a b = ground arith

step-more :
    (needed least bits c : ℕ)
    → step (inside (suc needed) least bits) (low6 c)
      ≡ move (inside needed least (bits * 64 + c % 64))
unfolding step
step-more needed least bits c = ground arith

step-last :
    (least bits c d : ℕ)
    → bits * 64 + c % 64 ≡ d
    → ltb d least ≡ false
    → between 55296 57343 d ≡ false
    → d ≤ 1114111
    → step (inside 0 least bits) (low6 c) ≡ emit d
unfolding step finish
step-last least bits c d e enough plain range = ground arith

-- The rest of the bytes, after a move.
follow : Bytes → Move → Option Text
follow bs m = elim m [
  | fault ↦ none
  | move next ↦ decode_from next bs
  | emit c ↦ put c (decode_from outside bs)
]

decode-move :
    (place next : Place) (b : ℕ) (bs : Bytes)
    → step place b ≡ move next
    → decode_from place (b ∷ bs) ≡ decode_from next bs
unfolding decode_from follow
decode-move outside next b bs e = ap (follow bs) e
decode-move (inside n l k) next b bs e = ap (follow bs) e

decode-emit :
    (place : Place) (b c : ℕ) (bs : Bytes)
    → step place b ≡ emit c
    → decode_from place (b ∷ bs) ≡ put c (decode_from outside bs)
unfolding decode_from follow
decode-emit outside b c bs e = ap (follow bs) e
decode-emit (inside n l k) b c bs e = ap (follow bs) e

outside-lead : (b : ℕ) (m : Move) → lead b ≡ m → step outside b ≡ m
unfolding step
outside-lead b m e = e

lead-one : (c : ℕ) → ltb c 128 ≡ true → lead c ≡ emit c
unfolding lead
lead-one c a = ground arith

-- The bytes of a code point are read as the code point, whatever follows.
decode-encode_char :
    (c : ℕ) (p r : Bytes)
    → encode_char c ≡ some p
    → c ≤ 1114111
    → decode_from outside (p ++ r) ≡ put c (decode_from outside r)
unfolding encode_char
decode-encode_char c p r e range = elim (Bool-cases (ltb c 128)) [
  | inl a ↦
      rw⁻¹ (some-injective (rw a at e))
        (decode-emit outside c c r (outside-lead c _ (lead-one c a)))
  | inr a ↦ elim (Bool-cases (ltb c 2048)) [
    | inl b ↦ rw⁻¹ (some-injective (rw (a, b) at e)) (
        decode-move outside _ _ _ (outside-lead _ _ (lead-two c a b))
        ∙ decode-emit _ _ c r (step-last 128 (c / 64) c c (omega arith) a (ground arith) range))
    | inr b ↦ elim (Bool-cases (between 55296 57343 c)) [
      | inl s ↦ absurd (ground arith)
      | inr s ↦ elim (Bool-cases (ltb c 65536)) [
        | inl d ↦ rw⁻¹ (some-injective (rw (a, b, s, d) at e)) (
            decode-move outside _ _ _ (outside-lead _ _ (lead-three c b d))
            ∙ (decode-move _ _ _ _ (step-more 0 2048 (c / 4096) (c / 64))
                ∙ decode-emit _ _ c r
                    (step-last 2048 (c / 4096 * 64 + c / 64 % 64) c c (omega arith) b s range)))
        | inr d ↦ rw⁻¹ (some-injective (rw (a, b, s, d) at e)) (
            decode-move outside _ _ _ (outside-lead _ _ (lead-four c d range))
            ∙ (decode-move _ _ _ _ (step-more 1 65536 (c / 262144) (c / 4096))
                ∙ (decode-move _ _ _ _
                      (step-more 0 65536 (c / 262144 * 64 + c / 4096 % 64) (c / 64))
                    ∙ decode-emit _ _ c r (
                        step-last 65536 ((c / 262144 * 64 + c / 4096 % 64) * 64 + c / 64 % 64) c c
                          (omega arith) d s range))))
      ]
    ]
  ]
]

-- Every element is a code point.
abbrev pub AreCodePoints : Text → Type 0
AreCodePoints [] = Unit
AreCodePoints (c ∷ s) = (c ≤ 1114111) × AreCodePoints s

decode-encode_from :
    (s : Text) (b : Bytes) → AreCodePoints s → encode s ≡ some b → decode_from outside b ≡ some s
unfolding encode decode_from
decode-encode_from [] b range e = ap (decode_from outside) (sym (some-injective e))
decode-encode_from (c ∷ s) b (here, later) e =
    let (p, q, first, rest, same) = encode-cons c s b e in
    let tail = decode-encode_from s q later rest in
    ap (decode_from outside) same ∙ (decode-encode_char c p q first here ∙ ap (put c) tail)

-- The UTF-8 form of a text is read back as the text.
pub decode-encode : (s : Text) (b : Bytes) → AreCodePoints s → encode s ≡ some b → decode b ≡ some s
unfolding decode
decode-encode s b range e = decode-encode_from s b range e
