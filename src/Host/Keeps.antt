-- ===== src/Host/Keeps.antt =====
-- Properties of the world that a block keeps, whether it returns or raises: a rule for each way to
-- build a block.
use cognic_tool_oracle_schem.Base.{
  ◌≡◌, refl, inl, inr, Bool-cases, Bool, true, false, List, if◌then◌else◌,
}
use cognic_tool_oracle_schem.Python.Exception.{Exc, Result, ok, raised}
use cognic_tool_oracle_schem.Host.{
  Event, World, M, pure, raise, lift, catch, finally, gets, handle, continue, ◌>>=◌,
}

pub record Keeps {ℓ} {A : Type ℓ} (P : World → Type 0) (m : M A) : Type ℓ where
  pub at : (w : World) → P w → P (m w).1

module _ {P : World → Type 0} where
  pub Keeps-pure {ℓ} : {A : Type ℓ} (a : A) → Keeps P (pure a)
  unfolding pure
  Keeps-pure a = record { at = λ w p. p }

  pub Keeps-raise {ℓ} : {A : Type ℓ} (e : Exc) → Keeps P (raise {A = A} e)
  unfolding raise
  Keeps-raise e = record { at = λ w p. p }

  pub Keeps-lift {ℓ} : {A : Type ℓ} (r : Result A) → Keeps P (lift r)
  unfolding lift
  Keeps-lift r = record { at = λ w p. p }

  pub Keeps-gets {ℓ} : {A : Type ℓ} (f : List Event → A) → Keeps P (gets f)
  unfolding gets
  Keeps-gets f = record { at = λ w p. p }

  pub Keeps-bind {ℓ κ} :
      {A : Type ℓ} {B : Type κ} (m : M A) (f : A → M B)
      → Keeps P m
      → ((a : A) → Keeps P (f a))
      → Keeps P (m >>= f)
  unfolding ◌>>=◌
  Keeps-bind {A} {B} m f km kf = record { at = λ w p. go (m w).0 (m w).1 (km.at w p) }
    where
      go : (r : Result A) (w : World) → P w → P (continue r f w).1
      go (ok a) w p = (kf a).at w p
      go (raised e) w p = p

  -- The rest may rely on what a pure result is.
  pub Keeps-lift_bind {ℓ κ} :
      {A : Type ℓ} {B : Type κ} (r : Result A) (f : A → M B)
      → ((a : A) → r ≡ ok a → Keeps P (f a))
      → Keeps P (lift r >>= f)
  unfolding lift ◌>>=◌
  Keeps-lift_bind (ok a) f kf = kf a refl
  Keeps-lift_bind (raised e) f kf = record { at = λ w p. p }

  pub Keeps-catch {ℓ} :
      {A : Type ℓ} (test : Exc → Bool) (m : M A) (handler : Exc → M A)
      → Keeps P m
      → ((e : Exc) → Keeps P (handler e))
      → Keeps P (catch test m handler)
  unfolding catch
  Keeps-catch {A} test m handler km kh = record { at = λ w p. go (m w).0 (m w).1 (km.at w p) }
    where
      branch :
          (b : Bool) (e : Exc) (w : World) → P w → P (if b then handler e w else (raised e, w)).1
      branch true e w p = (kh e).at w p
      branch false e w p = p

      go : (r : Result A) (w : World) → P w → P (handle r handler test w).1
      go (ok a) w p = p
      go (raised e) w p = branch (test e) e w p

  pub Keeps-finally {ℓ} :
      {A : Type ℓ} (m : M A) (cleanup : M (Unit {0}))
      → Keeps P m
      → Keeps P cleanup
      → Keeps P (finally m cleanup)
  unfolding finally
  Keeps-finally m cleanup km kc = record { at = λ w p. kc.at (m w).1 (km.at w p) }

  pub Keeps-if {ℓ} :
      {A : Type ℓ} (b : Bool) (m n : M A) → Keeps P m → Keeps P n → Keeps P (if b then m else n)
  Keeps-if true m n km kn = km
  Keeps-if false m n km kn = kn

-- A block leads from a property of the world to one of its result and the world behind it.
pub record Leads {ℓ} {A : Type ℓ} (P : World → Type 0) (Q : Result A → World → Type 0) (m : M A)
    : Type ℓ where
  pub at : (w : World) → P w → Q (m w).0 (m w).1

module _ {ℓ κ} {A : Type ℓ} {B : Type κ} {P : World → Type 0} where
  -- The first part of a block, then the rest from each value that it returns.
  pub Leads-bind :
      {R : Result A → World → Type 0} {Q : Result B → World → Type 0} (m : M A) (f : A → M B)
      → Leads P R m
      → ((e : Exc) (w : World) → R (raised e) w → Q (raised e) w)
      → ((a : A) → Leads (R (ok a)) Q (f a))
      → Leads P Q (m >>= f)
  unfolding ◌>>=◌
  Leads-bind {R} {Q} m f lm fails lf = record { at = λ w p. go (m w).0 (m w).1 (lm.at w p) }
    where
      go : (r : Result A) (w : World) → R r w → Q (continue r f w).0 (continue r f w).1
      go (ok a) w p = (lf a).at w p
      go (raised e) w p = fails e w p

module _ {ℓ} {A : Type ℓ} {P : World → Type 0} {Q : Result A → World → Type 0} where
  pub Leads-catch :
      (test : Exc → Bool) (m : M A) (handler : Exc → M A)
      → Leads P Q m
      → ((e : Exc) → Leads (Q (raised e)) Q (handler e))
      → Leads P Q (catch test m handler)
  unfolding catch
  Leads-catch test m handler lm lh = record { at = λ w p. go (m w).0 (m w).1 (lm.at w p) }
    where
      branch :
          (b : Bool) (e : Exc) (w : World)
          → Q (raised e) w
          → Q
              (if b then handler e w else (raised e, w)).0
              (if b then handler e w else (raised e, w)).1
      branch true e w p = (lh e).at w p
      branch false e w p = p

      go :
          (r : Result A) (w : World)
          → Q r w
          → Q (handle r handler test w).0 (handle r handler test w).1
      go (ok a) w p = p
      go (raised e) w p = branch (test e) e w p

  -- The handler starts from what the block raised; R is what the block leads to.
  pub Leads-try :
      {R : Result A → World → Type 0} (test : Exc → Bool) (m : M A) (handler : Exc → M A)
      → Leads P R m
      → ((a : A) (w : World) → R (ok a) w → Q (ok a) w)
      → ((e : Exc) (w : World) → test e ≡ false → R (raised e) w → Q (raised e) w)
      → ((e : Exc) → Leads (R (raised e)) Q (handler e))
      → Leads P Q (catch test m handler)
  unfolding catch
  Leads-try {R} test m handler lm returns passes lh = record {
    at = λ w p. go (m w).0 (m w).1 (lm.at w p);
  }
    where
      go :
          (r : Result A) (w : World)
          → R r w
          → Q (handle r handler test w).0 (handle r handler test w).1
      go (ok a) w p = returns a w p
      go (raised e) w p = elim (Bool-cases (test e)) [
        | inl caught ↦ rw caught ((lh e).at w p)
        | inr through ↦ rw through (passes e w through p)
      ]

pub ruleset keeps_rules = (
  Keeps-pure, Keeps-raise, Keeps-lift, Keeps-gets, Keeps-bind, Keeps-catch, Keeps-finally, Keeps-if,
)
