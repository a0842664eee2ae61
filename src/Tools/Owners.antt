-- ===== src/Tools/Owners.antt =====
-- Which owners the tools ask for.
use cognic_tool_oracle_schem.Base.{
  ℕ, suc, ◌≡◌, refl, sym, ap, ◌∙◌, true, false, List, [], ◌∷◌, map, Option, none, some,
}
use cognic_tool_oracle_schem.Base.{arith, contains, is_empty, Text}
use cognic_tool_oracle_schem.Python.Exception.{ok, >>=-eq-ok, ok-injective}
use cognic_tool_oracle_schem.Python.Str.{Unicode}
use cognic_tool_oracle_schem.Config.{Config}
use cognic_tool_oracle_schem.Readonly.Scope.{sorted}
use cognic_tool_oracle_schem.Readonly.Scope.Members.{contains-sorted}
use cognic_tool_oracle_schem.Oracle.{guard_owner}
use cognic_tool_oracle_schem.Oracle.Page.{guard_owner_iff}
use cognic_tool_oracle_schem.Tools.{numbered, owner_predicate}
use cognic_tool_oracle_schem.Host.{Binds}

abbrev pub values : Binds → List Text
values binds = map (λ b. b.1) binds

values-numbered : (i : ℕ) (owners : List Text) → values (numbered i owners) ≡ owners
unfolding numbered
values-numbered i [] = refl
values-numbered i (o ∷ owners) = ap (λ xs. o ∷ xs) (values-numbered (suc i) owners)

-- With an allow-list, the values that the predicate binds are owners of it: the one that was asked for,
-- or, if none was, all of them.
abbrev pub Confined : Config → Option Text → Binds → Type 0
Confined cfg (some owner) binds =
    (norm : Text) × (values binds ≡ norm ∷ []) × (contains norm cfg.allowed_owners ≡ true)
Confined cfg none binds = (a : Text) → contains a (values binds) ≡ contains a cfg.allowed_owners

module _ (u : Unicode) (column : Text) (cfg : Config) where
  -- With an allow-list that is not empty, the predicate for an owner binds one value, which is in the
  -- list, and the predicate without an owner binds exactly the owners of the list.
  pub owner_predicate-Confined :
      (owner : Option Text) (pred : Text) (binds : Binds)
      → is_empty cfg.allowed_owners ≡ false
      → owner_predicate u column cfg owner ≡ ok (pred, binds)
      → Confined cfg owner binds
  unfolding owner_predicate
  owner_predicate-Confined (some owner) pred binds listed e =
      let (norm, guarded, d) = >>=-eq-ok (guard_owner u owner cfg) _ e in
      let (same, inside) = (guard_owner_iff u owner cfg norm).0 guarded in
      (
        norm,
        ap (λ (p : Text × Binds). values p.1) (sym (ok-injective d)),
        ground (arith, inside, listed),
      )
  owner_predicate-Confined none pred binds listed e = λ a.
      ap (λ (p : Text × Binds). contains a (values p.1)) (sym (ok-injective (rw listed at e)))
      ∙ (ap (contains a) (values-numbered 0 (sorted cfg.allowed_owners))
          ∙ contains-sorted a cfg.allowed_owners)
