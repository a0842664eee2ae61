-- ===== src/Readonly/RowBound/Caps.antt =====
-- The bound that reaches the statement (arm 6), beside what was asked for and what the author wrote.
use cognic_tool_oracle_schem.Base.{
  ◌≡◌, ◌↔◌, sym, ap, if◌then◌else◌, Bool-cases, inl, inr, zero, suc, negsuc, true, false, Option,
  none, some, ℤ, pos, ◌≤ℤ◌, min_ℤ, max_ℤ, Text, arith, ◌⊎◌,
}
use mathlib.Core.Path.{subst}
use cognic_tool_oracle_schem.Python.Exception.{ok, >>=-eq-ok, ok-injective}
use cognic_tool_oracle_schem.Python.Str.{Unicode}
use cognic_tool_oracle_schem.Python.Num.{int_of}
use cognic_tool_oracle_schem.Readonly.Sqlglot.{fetch, limit, literal, Sqlglot}
use cognic_tool_oracle_schem.Readonly.RowBound.{
  requested_rows, capped, literal_bound, is_percent, bound_of, author_row_bound, apply_row_bound,
}

-- What was asked for: 100 rows if nothing or 0 was, 1 if the number is negative.
abbrev pub Asked : Option ℤ → ℤ → Type 0
Asked none effective = effective ≤ℤ pos 100
Asked (some (pos zero)) effective = effective ≤ℤ pos 100
Asked (some (pos (suc n))) effective = effective ≤ℤ pos (suc n)
Asked (some (negsuc n)) effective = effective ≤ℤ pos 1

requested_rows-Asked : (max_rows : Option ℤ) → Asked max_rows (requested_rows max_rows)
unfolding requested_rows min_ℤ max_ℤ
requested_rows-Asked none = ground arith
requested_rows-Asked (some (pos zero)) = ground arith
requested_rows-Asked (some (pos (suc n))) = ground arith
requested_rows-Asked (some (negsuc n)) = ground arith

requested_rows_bounds :
    (max_rows : Option ℤ)
    → (pos 1 ≤ℤ requested_rows max_rows) × (requested_rows max_rows ≤ℤ pos 500)
unfolding requested_rows min_ℤ max_ℤ
requested_rows_bounds max_rows = ground arith

Asked-mono : (max_rows : Option ℤ) (a b : ℤ) → a ≤ℤ b → Asked max_rows b → Asked max_rows a
Asked-mono none a b h asked = omega arith
Asked-mono (some (pos zero)) a b h asked = omega arith
Asked-mono (some (pos (suc n))) a b h asked = omega arith
Asked-mono (some (negsuc n)) a b h asked = omega arith

module _ (u : Unicode) (g : Sqlglot) where
  -- The node is a whole number's literal, of this number.
  abbrev pub IsNumeral : Option g.Node → ℤ → Type 0
  IsNumeral none n = ⊥
  IsNumeral (some node) n =
      (g.is_instance node literal ≡ true)
      × (g.is_int node ≡ true)
      × (int_of u (g.name node) ≡ some n)

  -- The options of a FETCH do not say PERCENT.
  abbrev pub NoPercent : Option g.Node → Type 0
  NoPercent none = Unit
  NoPercent (some options) = g.has_percent options ≡ false

  -- The limit node is `FETCH FIRST n ROWS` or `LIMIT n`.
  abbrev pub Limits : Option g.Node → ℤ → Type 0
  Limits none n = ⊥
  Limits (some node) n =
      ((g.is_instance node fetch ≡ true)
        × NoPercent (g.limit_options node)
        × IsNumeral (g.count node) n)
      ⊎ ((g.is_instance node fetch ≡ false)
          × (g.is_instance node limit ≡ true)
          × IsNumeral (g.expression node) n)

  -- The author bounds the rows of the statement to this number.
  abbrev pub HasLiteralBound : g.Node → ℤ → Type 0
  HasLiteralBound stmt n = Limits (g.limit_arg stmt) n

  literal_bound-IsNumeral :
      (node : Option g.Node) (author : Option ℤ)
      → literal_bound u g node ≡ ok author
      → (n : ℤ) → (author ≡ some n) ↔ IsNumeral node n
  literal_bound-IsNumeral none author h n = (λ e. cc, λ e. absurd e)
  literal_bound-IsNumeral (some node) author h n = (λ e. ground arith, λ e. ground arith)

  fetched-Limits :
      (options count : Option g.Node) (author : Option ℤ)
      → (if is_percent u g options then ok none else literal_bound u g count) ≡ ok author
      → (n : ℤ) → (author ≡ some n) ↔ (NoPercent options × IsNumeral count n)
  fetched-Limits none count author h n =
      let (there, back) = literal_bound-IsNumeral count author h n in
      (λ e. (tt, there e), λ (_, numeral). back numeral)
  fetched-Limits (some options) count author h n = elim (Bool-cases (g.has_percent options)) [
    | inl percent ↦ (λ e. ground arith, λ (whole, numeral). ground arith)
    | inr whole ↦
        let (there, back) = literal_bound-IsNumeral count author (ground arith) n in
        (λ e. (whole, there e), λ (_, numeral). back numeral)
  ]

  -- The bound that the code finds is the author's.
  bound_of-Limits :
      (node : Option g.Node) (author : Option ℤ)
      → bound_of u g node ≡ ok author
      → (n : ℤ) → (author ≡ some n) ↔ Limits node n
  bound_of-Limits none author h n = (λ e. ground arith, λ e. absurd e)
  bound_of-Limits (some node) author h n = elim (Bool-cases (g.is_instance node fetch)) [
    | inl fetched ↦
        let (there, back) =
          fetched-Limits (g.limit_options node) (g.count node) author (ground arith) n in
        (
          λ e. let (whole, numeral) = there e in inl (fetched, whole, numeral),
          λ b. elim b [
            | inl (_, whole, numeral) ↦ back (whole, numeral)
            | inr (other, _, _) ↦ ground arith
          ],
        )
    | inr other ↦ elim (Bool-cases (g.is_instance node limit)) [
      | inl limited ↦
          let (there, back) = literal_bound-IsNumeral (g.expression node) author (ground arith) n in
          (
            λ e. inr (other, limited, there e),
            λ b. elim b [ inl (fetched, _, _) ↦ ground arith | inr (_, _, numeral) ↦ back numeral ],
          )
      | inr unlimited ↦ (λ e. ground arith, λ b. ground arith)
    ]
  ]

-- The smaller of two numbers is one of them, and at most both.
min_ℤ-cases : (a b : ℤ) → (min_ℤ a b ≤ℤ a) × (min_ℤ a b ≤ℤ b) × ((min_ℤ a b ≡ a) ⊎ (min_ℤ a b ≡ b))
unfolding min_ℤ
min_ℤ-cases a b = ground arith

some_inj : {A : Type 0} {a b : A} → some a ≡ some b → a ≡ b
some_inj e = cc

-- What a successful bounding guarantees of the bound that it returns and of the text that it sends.
pub record IsBounded (u : Unicode) (g : Sqlglot) (stmt : g.Node) (max_rows : Option ℤ) (sql : Text)
    (effective : ℤ) : Type 0 where
  -- the statement is the author's, with its row limit set to the returned bound
  pub bounded : g.Node
  pub limited : g.set_limit stmt effective ≡ ok bounded
  pub sent : g.sql bounded ≡ ok sql
  -- never above 500, what was asked for, and the author's bound
  pub ceiling : effective ≤ℤ pos 500
  pub asked : Asked max_rows effective
  pub author : (n : ℤ) → HasLiteralBound u g stmt n → effective ≤ℤ n
  -- positive, or the author's own
  pub positive : (pos 1 ≤ℤ effective) ⊎ HasLiteralBound u g stmt effective

module _ (u : Unicode) (g : Sqlglot) (stmt : g.Node) (max_rows : Option ℤ) where
  IsBounded-capped :
      (author : Option ℤ) (bounded : g.Node) (sql : Text)
      → ((n : ℤ) → (author ≡ some n) ↔ HasLiteralBound u g stmt n)
      → g.set_limit stmt (capped (requested_rows max_rows) author) ≡ ok bounded
      → g.sql bounded ≡ ok sql
      → IsBounded u g stmt max_rows sql (capped (requested_rows max_rows) author)
  unfolding capped
  IsBounded-capped none bounded sql same e e' =
      let r = requested_rows_bounds max_rows in
      record {
        bounded = bounded;
        limited = e;
        sent = e';
        ceiling = r.1;
        asked = requested_rows-Asked max_rows;
        author = λ n b. absurd (none-some n ((same n).1 b));
        positive = inl r.0;
      }
    where
      none-some : (n : ℤ) → ¬ (none ≡ some n)
      none-some n e = ground arith
  IsBounded-capped (some bound) bounded sql same e e' =
      let r = requested_rows_bounds max_rows in
      let (below, under, is) = min_ℤ-cases (requested_rows max_rows) bound in
      record {
        bounded = bounded;
        limited = e;
        sent = e';
        ceiling = omega (arith, below, r.1);
        asked = Asked-mono max_rows _ _ below (requested_rows-Asked max_rows);
        author = λ n b.
            subst (λ m. min_ℤ (requested_rows max_rows) bound ≤ℤ m) (some_inj ((same n).1 b)) under;
        positive = elim is [
          | inl requested ↦ inl (subst (λ m. pos 1 ≤ℤ m) (sym requested) r.0)
          | inr authors ↦ inr ((same _).0 (ap some (sym authors)))
        ];
      }

  -- When the bounding of a statement succeeds, the text that is sent is the statement limited to the
  -- returned bound, which is at most 500, at most the number of rows that was asked for (100 if none or
  -- 0 was, 1 if it was negative) and at most the n of the author's FETCH FIRST n ROWS, when it has no
  -- PERCENT, or LIMIT n, when n is a literal whole number, and is positive or that n.
  pub apply_row_bound-IsBounded :
      (sql : Text) (effective : ℤ)
      → apply_row_bound u g stmt max_rows ≡ ok (sql, effective)
      → IsBounded u g stmt max_rows sql effective
  unfolding apply_row_bound author_row_bound
  apply_row_bound-IsBounded sql effective h =
      let (author, e, h') = >>=-eq-ok (author_row_bound u g stmt) _ h in
      let (bounded, e', h'') =
        >>=-eq-ok (g.set_limit stmt (capped (requested_rows max_rows) author)) _ h' in
      let (text, e'', q) = >>=-eq-ok (g.sql bounded) _ h'' in
      subst (λ (p : Text × ℤ). IsBounded u g stmt max_rows p.0 p.1) (ok-injective q)
        (IsBounded-capped author bounded text (bound_of-Limits u g (g.limit_arg stmt) author e) e'
          e'')
