-- ===== src/Host/Yields.antt =====
-- What every value that a block returns has, whatever the world.
use cognic_tool_oracle_schem.Base.{
  ◌≡◌, refl, inl, inr, Bool, true, false, if◌then◌else◌, Bool-cases,
}
use mathlib.Core.Path.{subst}
use cognic_tool_oracle_schem.Python.Exception.{Exc, Result, ok, raised, ok-injective}
use cognic_tool_oracle_schem.Host.{World, M, pure, lift, raise, catch, continue, handle, ◌>>=◌}

-- Every value that the block returns has the property.
pub record Yields {ℓ} {A : Type ℓ} (P : A → Type 0) (m : M A) : Type ℓ where
  pub holds : (w : World) (a : A) → (m w).0 ≡ ok a → P a

pub Yields-bind {ℓ κ} :
    {A : Type ℓ} {B : Type κ} {P : B → Type 0} (m : M A) (f : A → M B)
    → ((a : A) → Yields P (f a))
    → Yields P (m >>= f)
unfolding ◌>>=◌
Yields-bind {A = A} {B = B} {P = P} m f p = record { holds = λ w b. go (m w).0 (m w).1 b }
  where
    go : (r : Result A) (w : World) (b : B) → (continue r f w).0 ≡ ok b → P b
    go (ok a) w b h = (p a).holds w b h
    go (raised e) w b h = cc

pub Yields-raise {ℓ} : {A : Type ℓ} {P : A → Type 0} (e : Exc) → Yields P (raise {A = A} e)
unfolding raise
Yields-raise e = record { holds = λ w a h. cc }

pub Yields-catch {ℓ} :
    {A : Type ℓ} {P : A → Type 0} (test : Exc → Bool) (m : M A) (handler : Exc → M A)
    → Yields P m
    → ((e : Exc) → Yields P (handler e))
    → Yields P (catch test m handler)
unfolding catch
Yields-catch {A = A} {P = P} test m handler p q = record {
  holds = λ w a h. go (m w).0 (m w).1 a (λ b e. p.holds w b e) h;
}
  where
    go :
        (r : Result A) (w : World) (a : A)
        → ((b : A) → r ≡ ok b → P b)
        → (handle r handler test w).0 ≡ ok a
        → P a
    go (ok b) w a good h = good a h
    go (raised e) w a good h = elim (Bool-cases (test e)) [
      | inl caught ↦ (q e).holds w a (rw caught at h)
      | inr passes ↦ absurd (raised_ne (rw passes at h))
    ]
      where
        raised_ne : {x : A} → Path (Result A) (raised e) (ok x) → ⊥
        raised_ne d = cc

pub Yields-if {ℓ} :
    {A : Type ℓ} {P : A → Type 0} (b : Bool) (m k : M A)
    → Yields P m
    → Yields P k
    → Yields P (if b then m else k)
Yields-if true m k p q = p
Yields-if false m k p q = q

pub Yields-pure {ℓ} : {A : Type ℓ} {P : A → Type 0} (a : A) → P a → Yields P (pure a)
unfolding pure
Yields-pure {P = P} a p = record { holds = λ w b e. subst P (ok-injective e) p }

-- The rest may rely on what the first step yields.
pub Yields-then {ℓ κ} :
    {A : Type ℓ} {B : Type κ} {P : A → Type 0} {Q : B → Type 0} (m : M A) (f : A → M B)
    → Yields P m
    → ((a : A) → P a → Yields Q (f a))
    → Yields Q (m >>= f)
unfolding ◌>>=◌
Yields-then {A = A} {B = B} {P = P} {Q = Q} m f p q = record {
  holds = λ w b. go (m w).0 (m w).1 b (λ a. p.holds w a);
}
  where
    go :
        (r : Result A) (w : World) (b : B)
        → ((a : A) → r ≡ ok a → P a)
        → (continue r f w).0 ≡ ok b
        → Q b
    go (ok a) w b good h = (q a (good a refl)).holds w b h
    go (raised e) w b good h = cc

pub Yields-lift {ℓ} :
    {A : Type ℓ} {P : A → Type 0} (r : Result A) → ((a : A) → r ≡ ok a → P a) → Yields P (lift r)
unfolding lift
Yields-lift r p = record { holds = λ w a e. p a e }
