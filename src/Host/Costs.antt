-- ===== src/Host/Costs.antt =====
-- How many calls of one kind a block makes at most: a rule for each way to build a block.
use cognic_tool_oracle_schem.Base.{
  ℕ, ◌+◌, ◌≤◌, ◌≡◌, inl, inr, Bool, true, false, List, [], ◌∷◌, arith, if◌then◌else◌, Bool-cases,
}
use cognic_tool_oracle_schem.Python.Exception.{Exc, Result, ok, raised}
use cognic_tool_oracle_schem.Host.{
  Event, World, M, pure, raise, lift, gets, perform, catch, finally, continue, handle, ◌>>=◌,
}

-- The number of events that pass the test.
abbrev pub count : (Event → Bool) → List Event → ℕ
count test [] = 0
count test (e ∷ past) = let rest = count test past in if test e then 1 + rest else rest

-- At most this many more of them.
pub record Costs {ℓ} {A : Type ℓ} (test : Event → Bool) (n : ℕ) (m : M A) : Type ℓ where
  pub at : (w : World) → count test (m w).1.events ≤ n + count test w.events

module _ {test : Event → Bool} where
  pub Costs-pure {ℓ} : {A : Type ℓ} (a : A) → Costs test 0 (pure a)
  unfolding pure
  Costs-pure a = record { at = λ w. omega arith }

  pub Costs-raise {ℓ} : {A : Type ℓ} (e : Exc) → Costs {A = A} test 0 (raise e)
  unfolding raise
  Costs-raise e = record { at = λ w. omega arith }

  pub Costs-lift {ℓ} : {A : Type ℓ} (r : Result A) → Costs test 0 (lift r)
  unfolding lift
  Costs-lift r = record { at = λ w. omega arith }

  pub Costs-gets {ℓ} : {A : Type ℓ} (f : List Event → A) → Costs test 0 (gets f)
  unfolding gets
  Costs-gets f = record { at = λ w. omega arith }

  -- A call of another kind.
  pub Costs-other {ℓ} :
      {A : Type ℓ} (respond : List Event → Result A) (event : Result A → Event)
      → ((r : Result A) → test (event r) ≡ false)
      → Costs test 0 (perform respond event)
  unfolding perform
  Costs-other respond event other = record { at = λ w. rw (other (respond w.events)) (omega arith) }

  pub Costs-perform {ℓ} :
      {A : Type ℓ} (respond : List Event → Result A) (event : Result A → Event)
      → Costs test 1 (perform respond event)
  unfolding perform
  Costs-perform respond event = record { at = λ w. ground arith }

  pub Costs-more {ℓ} : {A : Type ℓ} (n k : ℕ) (m : M A) → n ≤ k → Costs test n m → Costs test k m
  Costs-more n k m more c = record { at = λ w. let within = c.at w in omega (arith, within, more) }

  pub Costs-bind {ℓ κ} :
      {A : Type ℓ} {B : Type κ} (n k : ℕ) (m : M A) (f : A → M B)
      → Costs test n m
      → ((a : A) → Costs test k (f a))
      → Costs test (n + k) (m >>= f)
  unfolding ◌>>=◌
  Costs-bind {A} {B} n k m f cm cf = record {
    at = λ w. let first = cm.at w in let rest = go (m w).0 (m w).1 in omega (arith, first, rest);
  }
    where
      go :
          (r : Result A) (v : World)
          → count test (continue r f v).1.events ≤ k + count test v.events
      go (ok a) v = (cf a).at v
      go (raised e) v = omega arith

  pub Costs-catch {ℓ} :
      {A : Type ℓ} (n k : ℕ) (rescue : Exc → Bool) (m : M A) (handler : Exc → M A)
      → Costs test n m
      → ((e : Exc) → Costs test k (handler e))
      → Costs test (n + k) (catch rescue m handler)
  unfolding catch
  Costs-catch {A} n k rescue m handler cm ch = record {
    at = λ w. let first = cm.at w in let rest = go (m w).0 (m w).1 in omega (arith, first, rest);
  }
    where
      go :
          (r : Result A) (v : World)
          → count test (handle r handler rescue v).1.events ≤ k + count test v.events
      go (ok a) v = omega arith
      go (raised e) v = elim (Bool-cases (rescue e)) [
        | inl caught ↦ rw caught ((ch e).at v)
        | inr passes ↦ rw passes (omega arith)
      ]

  pub Costs-finally {ℓ} :
      {A : Type ℓ} (n k : ℕ) (m : M A) (cleanup : M (Unit {0}))
      → Costs test n m
      → Costs test k cleanup
      → Costs test (n + k) (finally m cleanup)
  unfolding finally
  Costs-finally n k m cleanup cm cc_ = record {
    at = λ w. let first = cm.at w in let rest = cc_.at (m w).1 in omega (arith, first, rest);
  }

  pub Costs-if {ℓ} :
      {A : Type ℓ} (n : ℕ) (b : Bool) (m k : M A)
      → Costs test n m
      → Costs test n k
      → Costs test n (if b then m else k)
  Costs-if n true m k cm ck = cm
  Costs-if n false m k cm ck = ck
