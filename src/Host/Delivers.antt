-- ===== src/Host/Delivers.antt =====
-- Blocks that return from every world, with what they return: a rule for each way to build a block.
use cognic_tool_oracle_schem.Base.{◌≡◌, refl, ap, ◌∙◌, Bool, true, List}
use cognic_tool_oracle_schem.Python.Exception.{Exc, Result, ok, is_ok, ok_value}
use cognic_tool_oracle_schem.Host.{
  Event, World, M, pure, lift, gets, perform, catch, finally, continue, handle, after_cleanup,
  ◌>>=◌,
}

-- From every world the block returns, and a value with the property.
pub record Delivers {ℓ} {A : Type ℓ} (P : A → Type 0) (m : M A) : Type ℓ where
  pub at : (w : World) → (a : A) × ((m w).0 ≡ ok a) × P a

abbrev pub Anything {ℓ} : {A : Type ℓ} → A → Type 0
Anything a = Unit

module _ {ℓ} {A : Type ℓ} {P : A → Type 0} where
  pub Delivers-pure : (a : A) → P a → Delivers P (pure a)
  unfolding pure
  Delivers-pure a p = record { at = λ w. (a, refl, p) }

  pub Delivers-lift : (r : Result A) (a : A) → r ≡ ok a → P a → Delivers P (lift r)
  unfolding lift
  Delivers-lift r a e p = record { at = λ w. (a, e, p) }

  pub Delivers-bind {κ} :
      {B : Type κ} {Q : B → Type 0} (m : M B) (f : B → M A)
      → Delivers Q m
      → ((b : B) → Q b → Delivers P (f b))
      → Delivers P (m >>= f)
  unfolding ◌>>=◌
  Delivers-bind m f d k = record {
    at = λ w.
        let (b, e, q) = d.at w in
        let (a, e', p) = (k b q).at (m w).1 in (a, ap (λ r. (continue r f (m w).1).0) e ∙ e', p);
  }

  pub Delivers-catch :
      (test : Exc → Bool) (m : M A) (handler : Exc → M A)
      → Delivers P m
      → Delivers P (catch test m handler)
  unfolding catch
  Delivers-catch test m handler d = record {
    at = λ w. let (a, e, p) = d.at w in (a, ap (λ r. (handle r handler test (m w).1).0) e, p);
  }

  pub Delivers-finally :
      (m : M A) (cleanup : M (Unit {0}))
      → Delivers P m
      → Delivers Anything cleanup
      → Delivers P (finally m cleanup)
  unfolding finally
  Delivers-finally m cleanup d c = record {
    at = λ w.
        let (a, e, p) = d.at w in
        let (done, f, q) = c.at (m w).1 in (a, ap (after_cleanup (m w).0) f ∙ e, p);
  }

pub Delivers-gets {ℓ} : {A : Type ℓ} (f : List Event → A) → Delivers Anything (gets f)
unfolding gets
Delivers-gets f = record { at = λ w. (f w.events, refl, tt) }

pub Delivers-perform {ℓ} :
    {A : Type ℓ} (respond : List Event → Result A) (event : Result A → Event)
    → ((past : List Event) → is_ok (respond past) ≡ true)
    → Delivers Anything (perform respond event)
unfolding perform
Delivers-perform respond event answers = record {
  at = λ w. let (a, e) = ok_value (respond w.events) (answers w.events) in (a, e, tt);
}
