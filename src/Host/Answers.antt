-- ===== src/Host/Answers.antt =====
-- What a block answers from one world: a rule for each way to build a block, each with what is known on
-- the way.
use cognic_tool_oracle_schem.Base.{
  ◌≡◌, refl, inl, inr, Bool, true, false, not, if◌then◌else◌, Bool-cases,
}
use mathlib.Core.Path.{subst}
use cognic_tool_oracle_schem.Python.Exception.{Exc, Result, ok, raised, ok-injective}
use cognic_tool_oracle_schem.Host.{World, M, pure, lift, raise, catch, continue, handle, ◌>>=◌}

-- The value that the block returns from this world, if it returns, has the property.
pub record Answers {ℓ} {A : Type ℓ} (P : A → Type 0) (w : World) (m : M A) : Type ℓ where
  pub holds : (a : A) → (m w).0 ≡ ok a → P a

module _ {ℓ} {A : Type ℓ} {P : A → Type 0} where
  pub Answers-pure : (w : World) (a : A) → P a → Answers P w (pure a)
  unfolding pure
  Answers-pure w a p = record { holds = λ b e. subst P (ok-injective e) p }

  pub Answers-raise : (w : World) (e : Exc) → Answers P w (raise e)
  unfolding raise
  Answers-raise w e = record { holds = λ a h. cc }

  pub Answers-if :
      (w : World) (b : Bool) (m k : M A)
      → (b ≡ true → Answers P w m)
      → (b ≡ false → Answers P w k)
      → Answers P w (if b then m else k)
  Answers-if w true m k p q = p refl
  Answers-if w false m k p q = q refl

  pub Answers-if_not :
      (w : World) (b : Bool) (m k : M A)
      → (b ≡ false → Answers P w m)
      → (b ≡ true → Answers P w k)
      → Answers P w (if not b then m else k)
  Answers-if_not w true m k p q = q refl
  Answers-if_not w false m k p q = p refl

  pub Answers-lift : (w : World) (r : Result A) → ((a : A) → r ≡ ok a → P a) → Answers P w (lift r)
  unfolding lift
  Answers-lift w r p = record { holds = p }

  pub Answers-bind {κ} :
      {B : Type κ} (w : World) (m : M B) (f : B → M A)
      → ((b : B) → (m w).0 ≡ ok b → Answers P (m w).1 (f b))
      → Answers P w (m >>= f)
  unfolding ◌>>=◌
  Answers-bind {B} w m f p = record { holds = λ a. go (m w).0 (m w).1 a (λ b e. (p b e).holds a) }
    where
      go :
          (r : Result B) (v : World) (a : A)
          → ((b : B) → r ≡ ok b → (f b v).0 ≡ ok a → P a)
          → (continue r f v).0 ≡ ok a
          → P a
      go (ok b) v a good h = good b refl h
      go (raised e) v a good h = cc

  pub Answers-catch :
      (w : World) (test : Exc → Bool) (m : M A) (handler : Exc → M A)
      → Answers P w m
      → ((e : Exc) → (m w).0 ≡ raised e → test e ≡ true → Answers P (m w).1 (handler e))
      → Answers P w (catch test m handler)
  unfolding catch
  Answers-catch w test m handler p q = record {
    holds = λ a. go (m w).0 (m w).1 a (p.holds a) (λ e failed caught. (q e failed caught).holds a);
  }
    where
      go :
          (r : Result A) (v : World) (a : A)
          → (r ≡ ok a → P a)
          → ((e : Exc) → r ≡ raised e → test e ≡ true → (handler e v).0 ≡ ok a → P a)
          → (handle r handler test v).0 ≡ ok a
          → P a
      go (ok b) v a good other h = good h
      go (raised e) v a good other h = elim (Bool-cases (test e)) [
        | inl caught ↦ other e refl caught (rw caught at h)
        | inr passes ↦ absurd (raised_ne (rw passes at h))
      ]
        where
          raised_ne : Path (Result A) (raised e) (ok a) → ⊥
          raised_ne d = cc
