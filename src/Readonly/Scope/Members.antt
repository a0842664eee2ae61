-- ===== src/Readonly/Scope/Members.antt =====
-- Which names arm 5 collects, and what it means that none is out of scope.
use cognic_tool_oracle_schem.Base.{
  ◌≡◌, refl, ◌↔◌, ◌⊎◌, inl, inr, true, false, not, ◌&&◌, ◌||◌, List, [], ◌∷◌, ◌++◌, ◌∙◌,
}
use cognic_tool_oracle_schem.Base.{
  keep_if, contains, contains-add, is_empty, arith, Text, text_eq, text_eq_iff, text_eq_refl, lit,
  join, Bool-cases,
}
use cognic_tool_oracle_schem.Python.Str.{Unicode, upper}
use cognic_tool_oracle_schem.Readonly.Sqlglot.{table, Sqlglot}
use cognic_tool_oracle_schem.Readonly.Scope.{
  place_text, sorted, cte_aliases, qualifiers, note_table, note_tables, referenced_objects,
  allowed_set, out_of_scope_objects,
}

contains-place_text :
    (a b : Text) (xs : List Text) → contains a (place_text b xs) ≡ (text_eq a b || contains a xs)
unfolding place_text contains
contains-place_text a b [] = refl
contains-place_text a b (x ∷ xs) = ground (arith, contains-place_text a b xs)

pub contains-sorted : (a : Text) (xs : List Text) → contains a (sorted xs) ≡ contains a xs
unfolding sorted contains
contains-sorted a [] = refl
contains-sorted a (x ∷ xs) =
    ground (arith, contains-place_text a x (sorted xs), contains-sorted a xs)

place_text-ne-nil : (b : Text) (xs : List Text) → place_text b xs ≡ [] → ⊥
unfolding place_text
place_text-ne-nil b [] h = cc
place_text-ne-nil b (x ∷ xs) h = ground arith

sorted-eq-nil : (xs : List Text) → (sorted xs ≡ []) ↔ (xs ≡ [])
unfolding sorted
sorted-eq-nil [] = (λ _. refl, λ _. refl)
sorted-eq-nil (x ∷ xs) = (λ h. absurd (place_text-ne-nil x (sorted xs) h), λ h. cc)

keep_if-eq-nil :
    (xs allowed : List Text)
    → (keep_if (λ x. not (contains x allowed)) xs ≡ [])
      ↔ ((a : Text) → contains a xs ≡ true → contains a allowed ≡ true)
unfolding contains
keep_if-eq-nil [] allowed = (λ h a m. cc, λ h. refl)
keep_if-eq-nil (x ∷ xs) allowed =
    let (there, back) = keep_if-eq-nil xs allowed in
    elim (Bool-cases (contains x allowed)) [
      | inl inside ↦ (
        λ h a m. ground (arith, there (ground arith) a, text_eq_iff a x),
        λ h. ground (arith, back (λ a m. h a (ground arith))),
      )
      | inr outside ↦ (λ h a m. ground arith, λ h. ground (arith, h x, text_eq_refl x))
    ]

-- Some element has the property.
abbrev pub Any {ℓ} : {A : Type ℓ} → (A → Type 0) → List A → Type 0
Any P [] = ⊥
Any P (x ∷ xs) = P x ⊎ Any P xs

-- The two steps of a loop put together.
regroup : {P Q R S T : Type 0} → S ↔ (Q ⊎ T) → T ↔ (P ⊎ R) → S ↔ ((P ⊎ Q) ⊎ R)
regroup {P} {Q} {R} {S} {T} (to, from) (here, back) = (λ s. forth (to s), again)
  where
    inner : P ⊎ R → (P ⊎ Q) ⊎ R
    inner (inl p) = inl (inl p)
    inner (inr r) = inr r

    forth : Q ⊎ T → (P ⊎ Q) ⊎ R
    forth (inl q) = inl (inr q)
    forth (inr t) = inner (here t)

    again : (P ⊎ Q) ⊎ R → S
    again (inl (inl p)) = from (inr (back (inl p)))
    again (inl (inr q)) = from (inl q)
    again (inr r) = from (inr (back (inr r)))

module _ (u : Unicode) (g : Sqlglot) where
  -- The table node stands for the object of this name: its dotted name in upper case if it has a
  -- qualifier, else its name in upper case unless a CTE of the statement has it as its alias.
  abbrev pub RefersTo : List Text → g.Node → Text → Type 0
  RefersTo aliases node ref =
      (is_empty (g.name node) ≡ false)
      × (((is_empty (qualifiers u g node) ≡ false)
            × (ref ≡ upper u (join (lit ".") (qualifiers u g node ++ g.name node ∷ []))))
          ⊎ ((is_empty (qualifiers u g node) ≡ true)
              × (contains (upper u (g.name node)) aliases ≡ false)
              × (ref ≡ upper u (g.name node))))

  contains-note_table :
      (aliases : List Text) (node : g.Node) (refs : List Text) (ref : Text)
      → (contains ref (note_table u g aliases node refs) ≡ true)
        ↔ (RefersTo aliases node ref ⊎ (contains ref refs ≡ true))
  unfolding note_table
  contains-note_table aliases node refs ref = ground (
    arith,
    contains-add ref (upper u (join (lit ".") (qualifiers u g node ++ g.name node ∷ []))) refs,
    contains-add ref (upper u (g.name node)) refs,
    text_eq_iff ref (upper u (join (lit ".") (qualifiers u g node ++ g.name node ∷ []))),
    text_eq_iff ref (upper u (g.name node)),
  )

  contains-note_tables :
      (aliases : List Text) (nodes : List g.Node) (refs : List Text) (ref : Text)
      → (contains ref (note_tables u g aliases nodes refs) ≡ true)
        ↔ (Any (λ node. RefersTo aliases node ref) nodes ⊎ (contains ref refs ≡ true))
  unfolding note_tables
  contains-note_tables aliases [] refs ref = ground arith
  contains-note_tables aliases (node ∷ nodes) refs ref =
      regroup (contains-note_tables aliases nodes (note_table u g aliases node refs) ref)
        (contains-note_table aliases node refs ref)

  -- The collected names are those of the objects that the tables of the statement refer to.
  pub contains-referenced_objects :
      (stmt : g.Node) (ref : Text)
      → (contains ref (referenced_objects u g stmt) ≡ true)
        ↔ Any (λ node. RefersTo (cte_aliases u g stmt) node ref) (g.find_all stmt table)
  unfolding referenced_objects
  contains-referenced_objects stmt ref =
      let (to, from) = contains-note_tables (cte_aliases u g stmt) (g.find_all stmt table) [] ref in
      (λ h. drop_nil (to h), λ a. from (inl a))
    where
      drop_nil : {P : Type 0} → P ⊎ (contains ref [] ≡ true) → P
      drop_nil (inl p) = p
      drop_nil (inr e) = unfold contains in cc

  -- Arm 5 refuses nothing exactly when every name that it collects is allowed.
  pub out_of_scope_objects_lem :
      (stmt : g.Node) (objects : List Text)
      → (out_of_scope_objects u (referenced_objects u g stmt) objects ≡ []) ↔ (
          (ref : Text)
          → Any (λ node. RefersTo (cte_aliases u g stmt) node ref) (g.find_all stmt table)
          → contains ref (allowed_set u objects) ≡ true)
  unfolding out_of_scope_objects
  out_of_scope_objects_lem stmt objects =
      let (gone, kept) = sorted-eq-nil (
        keep_if (λ ref. not (contains ref (allowed_set u objects)))
          (referenced_objects u g stmt)) in
      let (to, from) = keep_if-eq-nil (referenced_objects u g stmt) (allowed_set u objects) in
      (
        λ h ref a. to (gone h) ref ((contains-referenced_objects stmt ref).1 a),
        λ f. kept (from (λ ref c. f ref ((contains-referenced_objects stmt ref).0 c))),
      )

  -- Every table of the statement is unqualified, and its name is, in upper case, the alias of a CTE that
  -- stands anywhere in the statement.
  abbrev pub IsShadowed : g.Node → List g.Node → Type 0
  IsShadowed stmt [] = Unit
  IsShadowed stmt (node ∷ nodes) =
      (is_empty (qualifiers u g node) ≡ true)
      × (contains (upper u (g.name node)) (cte_aliases u g stmt) ≡ true)
      × IsShadowed stmt nodes

contains-keep_if :
    (a : Text) (xs allowed : List Text)
    → contains a (keep_if (λ x. not (contains x allowed)) xs)
      ≡ (contains a xs && not (contains a allowed))
unfolding contains
contains-keep_if a [] allowed = refl
contains-keep_if a (x ∷ xs) allowed = ground (arith, contains-keep_if a xs allowed, text_eq_iff a x)

-- The names that arm 5 reports are those that were collected and are not allowed.
contains-out_of_scope_objects :
    (u : Unicode) (a : Text) (referenced objects : List Text)
    → contains a (out_of_scope_objects u referenced objects)
      ≡ (contains a referenced && not (contains a (allowed_set u objects)))
unfolding out_of_scope_objects
contains-out_of_scope_objects u a referenced objects =
    contains-sorted a _ ∙ contains-keep_if a referenced (allowed_set u objects)
