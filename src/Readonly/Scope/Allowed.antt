-- ===== src/Readonly/Scope/Allowed.antt =====
-- What arm 5 lets through, said of the tables, the CTEs and the token's objects.
use cognic_tool_oracle_schem.Base.{
  ◌≡◌, refl, sym, ap, ◌∙◌, ◌↔◌, ◌⊎◌, inl, inr, true, false, List, [], ◌∷◌, ◌++◌, map,
}
use cognic_tool_oracle_schem.Base.{
  contains, is_empty, join, arith, Text, text_eq_iff, lit, Bool-cases, contains-add,
}
use cognic_tool_oracle_schem.Python.Str.{Unicode, upper}
use cognic_tool_oracle_schem.Readonly.Sqlglot.{cte, table, Sqlglot}
use cognic_tool_oracle_schem.Readonly.Scope.{
  alias_set, cte_aliases, qualifiers, referenced_objects, out_of_scope_objects,
  always_allowed_objects,
}
use cognic_tool_oracle_schem.Readonly.Scope.Members.{Any, RefersTo, out_of_scope_objects_lem}

module _ (u : Unicode) where
  -- The name is DUAL, or one of the objects in upper case.
  abbrev pub IsAllowed : List Text → Text → Type 0
  IsAllowed objects ref =
      (ref ≡ lit "DUAL") ⊎ ((ref ≡ lit "SYS.DUAL") ⊎ Any (λ o. ref ≡ upper u o) objects)

  contains-map :
      (ref : Text) (objects : List Text)
      → (contains ref (map (upper u) objects ++ always_allowed_objects) ≡ true)
        ↔ IsAllowed objects ref
  unfolding contains
  contains-map ref [] =
      ground (arith, text_eq_iff ref (lit "DUAL"), text_eq_iff ref (lit "SYS.DUAL"))
  contains-map ref (o ∷ objects) =
      ground (arith, contains-map ref objects, text_eq_iff ref (upper u o))

module _ (u : Unicode) (g : Sqlglot) where
  -- Some CTE, wherever it stands in the statement, has the name as its alias, in upper case.
  abbrev pub IsAlias : g.Node → Text → Type 0
  IsAlias stmt name =
      Any
        (λ node.
          (is_empty (g.alias_or_name node) ≡ false) × (name ≡ upper u (g.alias_or_name node)))
        (g.find_all stmt cte)

  contains-alias_set :
      (name : Text) (nodes : List g.Node)
      → (contains name (alias_set u g nodes) ≡ true)
        ↔ Any
            (λ node.
              (is_empty (g.alias_or_name node) ≡ false) × (name ≡ upper u (g.alias_or_name node)))
            nodes
  unfolding alias_set contains
  contains-alias_set name [] = ground arith
  contains-alias_set name (node ∷ nodes) = ground (
    arith,
    contains-alias_set name nodes,
    contains-add name (upper u (g.alias_or_name node)) (alias_set u g nodes),
    text_eq_iff name (upper u (g.alias_or_name node)),
  )

  -- The dotted name of a table that has a catalog, a schema or both.
  abbrev pub Dotted : g.Node → Text → Type 0
  Dotted node path =
      ((is_empty (g.catalog node) ≡ false)
        × (is_empty (g.db node) ≡ false)
        × (path ≡ g.catalog node ++ (lit "." ++ (g.db node ++ (lit "." ++ g.name node)))))
      ⊎ (((is_empty (g.catalog node) ≡ false)
            × (is_empty (g.db node) ≡ true)
            × (path ≡ g.catalog node ++ (lit "." ++ g.name node)))
          ⊎ ((is_empty (g.catalog node) ≡ true)
              × (is_empty (g.db node) ≡ false)
              × (path ≡ g.db node ++ (lit "." ++ g.name node))))

  dotted :
      (node : g.Node) (path : Text)
      → Dotted node path
      → (is_empty (qualifiers u g node) ≡ false)
        × (join (lit ".") (qualifiers u g node ++ g.name node ∷ []) ≡ path)
  unfolding join
  dotted node path (inl (c, d, e)) = rw (c, d) (refl, sym e)
  dotted node path (inr (inl (c, d, e))) = rw (c, d) (refl, sym e)
  dotted node path (inr (inr (c, d, e))) = rw (c, d) (refl, sym e)

  undotted :
      (node : g.Node)
      → is_empty (qualifiers u g node) ≡ false
      → Dotted node (join (lit ".") (qualifiers u g node ++ g.name node ∷ []))
  unfolding join
  undotted node h = ground arith

  plain :
      (node : g.Node)
      → (is_empty (qualifiers u g node) ≡ true)
        ↔ ((is_empty (g.catalog node) ≡ true) × (is_empty (g.db node) ≡ true))
  plain node = ground arith

  -- The table node stands for the object of this name: its dotted name in upper case, or its name in
  -- upper case if it has no qualifier and the name is not the alias of a CTE.
  abbrev pub Names : g.Node → g.Node → Text → Type 0
  Names stmt node ref =
      (is_empty (g.name node) ≡ false)
      × (((path : Text) × Dotted node path × (ref ≡ upper u path))
          ⊎ ((is_empty (g.catalog node) ≡ true)
              × (is_empty (g.db node) ≡ true)
              × ¬ IsAlias stmt (upper u (g.name node))
              × (ref ≡ upper u (g.name node))))

  not-IsAlias :
      (stmt : g.Node) (name : Text)
      → (contains name (cte_aliases u g stmt) ≡ false) ↔ (¬ IsAlias stmt name)
  unfolding cte_aliases
  not-IsAlias stmt name =
      let (there, back) = contains-alias_set name (g.find_all stmt cte) in
      (
        λ h alias. true-false (sym (back alias) ∙ h),
        λ free. elim (Bool-cases _) [ inl h ↦ absurd (free (there h)) | inr h ↦ h ],
      )
    where
      true-false : ¬ (true ≡ false)
      true-false e = cc

  Names-RefersTo :
      (stmt node : g.Node) (ref : Text)
      → Names stmt node ref ↔ RefersTo u g (cte_aliases u g stmt) node ref
  Names-RefersTo stmt node ref =
      let (apart, here) = plain node in
      let (denied, outside) = not-IsAlias stmt (upper u (g.name node)) in
      (
        λ (named, which). (
          named,
          elim which [
            | inl (path, d, e) ↦
                let (qualified, same) = dotted node path d in
                inl (qualified, e ∙ ap (upper u) (sym same))
            | inr (catalog, db, free, e) ↦ inr (here (catalog, db), outside free, e)
          ],
        ),
        λ (named, which). (
          named,
          elim which [
            | inl (qualified, e) ↦ inl (_, undotted node qualified, e)
            | inr (bare, free, e) ↦
                let (catalog, db) = apart bare in inr (catalog, db, denied free, e)
          ],
        ),
      )

  Any-map :
      {P Q : g.Node → Type 0} (f : (node : g.Node) → P node → Q node) (nodes : List g.Node)
      → Any P nodes
      → Any Q nodes
  Any-map f [] none_of = absurd none_of
  Any-map f (node ∷ nodes) (inl p) = inl (f node p)
  Any-map f (node ∷ nodes) (inr ps) = inr (Any-map f nodes ps)

  -- Arm 5 refuses nothing exactly when every object that a table of the statement names is DUAL, SYS.DUAL
  -- or, in upper case, one of the token's objects. A table with a qualifier names the object of its
  -- dotted name. One without names the object of its own name, unless a CTE that stands anywhere in the
  -- statement, in scope or not where the table stands, has that name as its alias: then it names none.
  pub in_scope_iff :
      (stmt : g.Node) (objects : List Text)
      → (out_of_scope_objects u (referenced_objects u g stmt) objects ≡ []) ↔ (
          (ref : Text)
          → Any (λ node. Names stmt node ref) (g.find_all stmt table)
          → IsAllowed u objects ref)
  in_scope_iff stmt objects =
      let (there, back) = out_of_scope_objects_lem u g stmt objects in
      (
        λ h ref named.
            (contains-map u ref objects).0
              (there h ref (Any-map (λ node. (Names-RefersTo stmt node ref).0) _ named)),
        λ f. back (λ ref named.
            (contains-map u ref objects).1
              (f ref (Any-map (λ node. (Names-RefersTo stmt node ref).1) _ named))),
      )
