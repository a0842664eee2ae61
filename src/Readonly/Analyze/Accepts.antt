-- ===== src/Readonly/Analyze/Accepts.antt =====
-- Which statements arm 4 accepts.
use cognic_tool_oracle_schem.Base.{◌≡◌, refl, ◌↔◌, true, false, List, [], ◌∷◌}
use cognic_tool_oracle_schem.Base.{Option, none, present, any, arith, Text}
use cognic_tool_oracle_schem.Python.Str.{Unicode}
use cognic_tool_oracle_schem.Readonly.Sqlglot.{
  NodeClass, select, Parsed, statements, parse_error, parse_crash, Sqlglot,
}
use cognic_tool_oracle_schem.Readonly.Analyze.{
  denied_node_types, accept, is_denied, first_denied, analyze_statement, analyze_statements,
  analyze_parsed, analyze,
}

-- Every element passes.
abbrev pub All {ℓ κ} : {A : Type ℓ} → (A → Type κ) → List A → Type κ
All P [] = Unit
All P (x ∷ xs) = P x × All P xs

module _ (u : Unicode) (g : Sqlglot) where
  -- The node is of none of the classes that must not appear.
  abbrev pub IsHarmless : g.Node → Type 0
  IsHarmless node = All (λ c. g.is_instance node c ≡ false) denied_node_types

  any-false :
      (node : g.Node) (classes : List NodeClass)
      → (any (g.is_instance node) classes ≡ false) ↔ All (λ c. g.is_instance node c ≡ false) classes
  any-false node [] = (λ _. tt, λ _. refl)
  any-false node (c ∷ classes) = ground (arith, any-false node classes)

  is_denied-false : (node : g.Node) → (is_denied u g node ≡ false) ↔ IsHarmless node
  unfolding is_denied
  is_denied-false node = any-false node denied_node_types

  first_denied-eq-none :
      (nodes : List g.Node) → (first_denied u g nodes ≡ none) ↔ All IsHarmless nodes
  unfolding first_denied
  first_denied-eq-none [] = (λ _. tt, λ _. refl)
  first_denied-eq-none (node ∷ nodes) =
      grind (arith, is_denied-false node, first_denied-eq-none nodes)

  -- The statement is a SELECT with no lock and no INTO, and every node below it is harmless.
  pub record IsPlainSelect (stmt : g.Node) : Type 0 where
    pub is_select : g.is_instance stmt select ≡ true
    pub no_locks : g.has_locks stmt ≡ false
    pub no_into : g.has_into stmt ≡ false
    pub harmless : All IsHarmless (g.walk stmt)

  analyze_statement-accept :
      (stmt s : g.Node)
      → (analyze_statement u g stmt ≡ accept s) ↔ ((stmt ≡ s) × IsPlainSelect stmt)
  unfolding analyze_statement
  analyze_statement-accept stmt s = ground (arith, first_denied-eq-none (g.walk stmt))

  -- What the parser found is one statement, beside empty ones.
  abbrev pub IsSingle : Text → g.Node → Type 0
  IsSingle sql stmt =
      (found : List (Option g.Node)) × (g.parse sql ≡ statements found)
      × (present found ≡ stmt ∷ [])

  analyze_statements-accept :
      (found : List g.Node) (s : g.Node)
      → (analyze_statements u g found ≡ accept s) ↔ ((found ≡ s ∷ []) × IsPlainSelect s)
  unfolding analyze_statements
  analyze_statements-accept [] s = (λ h. cc, λ h. cc (h.0))
  analyze_statements-accept (x ∷ []) s = ground (arith, analyze_statement-accept x s)
  analyze_statements-accept (x ∷ y ∷ more) s = (λ h. cc, λ h. cc (h.0))

  analyze_parsed-accept :
      (sql : Text) (p : Parsed g.Node) (s : g.Node)
      → (analyze_parsed u g sql p ≡ accept s) ↔ (
          (found : List (Option g.Node)) × (p ≡ statements found)
          × (present found ≡ s ∷ [])
          × IsPlainSelect s)
  unfolding analyze_parsed
  analyze_parsed-accept sql parse_error s = (λ h. cc, λ h. cc (h.1))
  analyze_parsed-accept sql parse_crash s = (λ h. cc, λ h. cc (h.1))
  analyze_parsed-accept sql (statements found) s =
      let (to, from) = analyze_statements-accept (present found) s in
      (λ h. (found, refl, (to h).0, (to h).1), λ h. from (transfer h.1 h.2, h.3))
    where
      transfer :
          {other : List (Option g.Node)}
          → statements found ≡ statements other
          → present other ≡ s ∷ []
          → present found ≡ s ∷ []
      transfer e f = cc

  -- Arm 4 accepts a text with a statement exactly when sqlglot parses the text into that statement
  -- alone, empty ones aside, and it is a SELECT with no lock and no INTO in which no node, however
  -- deep, is of a denied class.
  pub analyze-accept :
      (sql : Text) (s : g.Node) → (analyze u g sql ≡ accept s) ↔ (IsSingle sql s × IsPlainSelect s)
  unfolding analyze
  analyze-accept sql s =
      let (to, from) = analyze_parsed-accept sql (g.parse sql) s in
      (λ h. (((to h).0, (to h).1, (to h).2), (to h).3), λ (p, q). from (p.0, p.1, p.2, q))
