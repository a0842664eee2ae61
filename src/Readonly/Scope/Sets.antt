-- ===== src/Readonly/Scope/Sets.antt =====
-- The sets of arm 5 are lists here: their order does not show.
use cognic_tool_oracle_schem.Base.{
  ◌≡◌, refl, sym, ◌∙◌, inl, inr, Bool, true, false, not, ◌&&◌, ◌||◌, List, [], ◌∷◌, ◌++◌,
}
use cognic_tool_oracle_schem.Base.{
  keep_if, contains, add, is_empty, arith, Text, text_eq, text_eq_iff, text_eq_refl, Bool-cases,
  if◌then◌else◌, join, lit,
}
use cognic_tool_oracle_schem.Python.Str.{Unicode, upper}
use cognic_tool_oracle_schem.Python.Json.{text_lt}
use cognic_tool_oracle_schem.Readonly.Sqlglot.{table, Sqlglot}
use cognic_tool_oracle_schem.Readonly.Scope.{
  place_text, sorted, cte_aliases, qualifiers, note_table, note_tables, referenced_objects,
  allowed_set, out_of_scope_objects,
}
use cognic_tool_oracle_schem.Readonly.Scope.Members.{contains-sorted}

text_lt_irrefl : (a : Text) → text_lt a a ≡ false
unfolding text_lt
text_lt_irrefl [] = refl
text_lt_irrefl (x ∷ xs) = ground (arith, text_lt_irrefl xs)

text_lt_asym : (a b : Text) → text_lt a b ≡ true → text_lt b a ≡ false
unfolding text_lt
text_lt_asym [] [] h = refl
text_lt_asym [] (y ∷ ys) h = refl
text_lt_asym (x ∷ xs) [] h = cc
text_lt_asym (x ∷ xs) (y ∷ ys) h = ground (arith, text_lt_asym xs ys)

text_lt_trans : (a b c : Text) → text_lt a b ≡ true → text_lt b c ≡ true → text_lt a c ≡ true
unfolding text_lt
text_lt_trans a [] [] h k = cc
text_lt_trans a (y ∷ ys) [] h k = cc
text_lt_trans [] b (z ∷ zs) h k = refl
text_lt_trans (x ∷ xs) [] (z ∷ zs) h k = cc
text_lt_trans (x ∷ xs) (y ∷ ys) (z ∷ zs) h k = ground (arith, text_lt_trans xs ys zs)

text_lt_total : (a b : Text) → text_lt a b ≡ false → text_eq a b ≡ false → text_lt b a ≡ true
unfolding text_lt text_eq
text_lt_total [] [] h k = cc
text_lt_total [] (y ∷ ys) h k = cc
text_lt_total (x ∷ xs) [] h k = refl
text_lt_total (x ∷ xs) (y ∷ ys) h k = ground (arith, text_lt_total xs ys)

-- Both have the same elements.
abbrev pub AreSame : List Text → List Text → Type 0
AreSame xs ys = (a : Text) → contains a xs ≡ contains a ys

-- No element stands twice.
abbrev pub IsDistinct : List Text → Type 0
IsDistinct [] = Unit
IsDistinct (x ∷ xs) = (contains x xs ≡ false) × IsDistinct xs

-- Every element is above the ones in front of it.
abbrev IsAscending : List Text → Type 0
IsAscending [] = Unit
IsAscending (x ∷ xs) = ((a : Text) → contains a xs ≡ true → text_lt x a ≡ true) × IsAscending xs

contains-place_text :
    (a b : Text) (xs : List Text) → contains a (place_text b xs) ≡ (text_eq a b || contains a xs)
unfolding place_text contains
contains-place_text a b [] = refl
contains-place_text a b (x ∷ xs) = ground (arith, contains-place_text a b xs)

place_text-IsAscending :
    (b : Text) (xs : List Text)
    → contains b xs ≡ false
    → IsAscending xs
    → IsAscending (place_text b xs)
unfolding place_text contains
place_text-IsAscending b [] new up = (λ a h. cc, tt)
place_text-IsAscending b (x ∷ xs) new (above, up) = elim (Bool-cases (text_lt b x)) [
  | inl lt ↦
      rw lt (λ a h. ground (arith, text_eq_iff a x, above a, text_lt_trans b x a), (above, up))
  | inr ge ↦ rw ge (
    λ a h. ground (arith, contains-place_text a b xs, text_eq_iff a b, above a, text_lt_total b x),
    place_text-IsAscending b xs (ground arith) up,
  )
]

sorted-IsAscending : (xs : List Text) → IsDistinct xs → IsAscending (sorted xs)
unfolding sorted
sorted-IsAscending [] d = tt
sorted-IsAscending (x ∷ xs) (new, d) =
    place_text-IsAscending x (sorted xs) (contains-sorted x xs ∙ new) (sorted-IsAscending xs d)

not_in_tail :
    (x : Text) (xs : List Text)
    → ((a : Text) → contains a xs ≡ true → text_lt x a ≡ true)
    → contains x xs ≡ false
not_in_tail x xs above = elim (Bool-cases (contains x xs)) [
  | inl inside ↦ let below = above x inside in ground (arith, text_lt_irrefl x)
  | inr outside ↦ outside
]

ascending-eq : (xs ys : List Text) → IsAscending xs → IsAscending ys → AreSame xs ys → xs ≡ ys
unfolding contains
ascending-eq [] [] up up' same = refl
ascending-eq [] (y ∷ ys) up up' same = ground (arith, same y, text_eq_refl y)
ascending-eq (x ∷ xs) [] up up' same = ground (arith, same x, text_eq_refl x)
ascending-eq (x ∷ xs) (y ∷ ys) (above, up) (above', up') same =
    let heads : x ≡ y = ground (
      arith,
      same x,
      same y,
      text_eq_refl x,
      text_eq_refl y,
      text_eq_iff x y,
      text_eq_iff y x,
      above y,
      above' x,
      text_lt_asym x y,
    ) in
    let new = not_in_tail x xs above in
    let new' = not_in_tail y ys above' in
    let tails =
      ascending-eq xs ys up up'
        (λ a. ground (arith, same a, new, new', text_eq_iff a x, text_eq_iff a y, heads)) in
    cc

contains-keep_if :
    (a : Text) (xs allowed : List Text)
    → contains a (keep_if (λ x. not (contains x allowed)) xs)
      ≡ (contains a xs && not (contains a allowed))
unfolding contains
contains-keep_if a [] allowed = refl
contains-keep_if a (x ∷ xs) allowed = elim (Bool-cases (contains x allowed)) [
  | inl inside ↦ ground (arith, contains-keep_if a xs allowed, text_eq_iff a x)
  | inr outside ↦ ground (arith, contains-keep_if a xs allowed, text_eq_iff a x)
]

keep_if-IsDistinct :
    (xs allowed : List Text)
    → IsDistinct xs
    → IsDistinct (keep_if (λ x. not (contains x allowed)) xs)
keep_if-IsDistinct [] allowed d = tt
keep_if-IsDistinct (x ∷ xs) allowed (new, d) = elim (Bool-cases (contains x allowed)) [
  | inl inside ↦ rw inside (keep_if-IsDistinct xs allowed d)
  | inr outside ↦
      rw outside
        (ground (arith, contains-keep_if x xs allowed, new), keep_if-IsDistinct xs allowed d)
]

-- The names and their order depend on the sets alone.
out_of_scope_objects-order :
    (u : Unicode) (referenced referenced' objects objects' : List Text)
    → IsDistinct referenced
    → IsDistinct referenced'
    → AreSame referenced referenced'
    → AreSame (allowed_set u objects) (allowed_set u objects')
    → out_of_scope_objects u referenced objects ≡ out_of_scope_objects u referenced' objects'
unfolding out_of_scope_objects
out_of_scope_objects-order u referenced referenced' objects objects' d d' same allowed =
    ascending-eq _ _ (sorted-IsAscending _ (keep_if-IsDistinct referenced _ d))
      (sorted-IsAscending _ (keep_if-IsDistinct referenced' _ d'))
      (λ a.
        contains-sorted a _
        ∙ (contains-keep_if a referenced _
            ∙ (ground (arith, same a, allowed a)
                ∙ (sym (contains-keep_if a referenced' _) ∙ sym (contains-sorted a _)))))

-- What the loop collects stands there once.
module _ (u : Unicode) (g : Sqlglot) where
  record IsCollected (xs : List Text) : Type 0 where
    distinct : IsDistinct xs

  add-IsCollected : (a : Text) (xs : List Text) → IsCollected xs → IsCollected (add a xs)
  unfolding add
  add-IsCollected a xs d = elim (Bool-cases (contains a xs)) [
    | inl inside ↦ rw inside d
    | inr outside ↦ rw outside (record { distinct = (outside, d.distinct) })
  ]

  if-IsCollected :
      (b : Bool) (xs ys : List Text)
      → IsCollected xs
      → IsCollected ys
      → IsCollected (if b then xs else ys)
  if-IsCollected true xs ys d e = d
  if-IsCollected false xs ys d e = e

  note_table-IsCollected :
      (aliases : List Text) (node : g.Node) (refs : List Text)
      → IsCollected refs
      → IsCollected (note_table u g aliases node refs)
  unfolding note_table
  note_table-IsCollected aliases node refs d = if-IsCollected (is_empty (g.name node)) _ _ d (
      if-IsCollected (not (is_empty (qualifiers u g node))) _ _
        (add-IsCollected (upper u (join (lit ".") (qualifiers u g node ++ g.name node ∷ []))) refs
          d)
        (if-IsCollected (not (contains (upper u (g.name node)) aliases)) _ _
          (add-IsCollected (upper u (g.name node)) refs d) d))

  note_tables-IsDistinct :
      (aliases : List Text) (nodes : List g.Node) (refs : List Text)
      → IsDistinct refs
      → IsDistinct (note_tables u g aliases nodes refs)
  unfolding note_tables
  note_tables-IsDistinct aliases [] refs d = d
  note_tables-IsDistinct aliases (node ∷ nodes) refs d =
      note_tables-IsDistinct aliases nodes _
        (note_table-IsCollected aliases node refs (record { distinct = d })).distinct

  referenced_objects-IsDistinct : (stmt : g.Node) → IsDistinct (referenced_objects u g stmt)
  unfolding referenced_objects
  referenced_objects-IsDistinct stmt =
      note_tables-IsDistinct (cte_aliases u g stmt) (g.find_all stmt table) [] tt

  -- The names that arm 5 reports for a statement, and the order in which it reports them, are the same
  -- for any list of the referenced names, each once, and for any token whose objects allow the same names.
  pub reported_order :
      (stmt : g.Node) (referenced objects objects' : List Text)
      → IsDistinct referenced
      → AreSame (referenced_objects u g stmt) referenced
      → AreSame (allowed_set u objects) (allowed_set u objects')
      → out_of_scope_objects u (referenced_objects u g stmt) objects
        ≡ out_of_scope_objects u referenced objects'
  reported_order stmt referenced objects objects' d same allowed =
      out_of_scope_objects-order u (referenced_objects u g stmt) referenced objects objects'
        (referenced_objects-IsDistinct stmt) d same allowed
