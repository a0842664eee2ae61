-- ===== src/Host/Escapes.antt =====
-- What a block raises from one world: a rule for each way to build a block, each with what is known on
-- the way.
use cognic_tool_oracle_schem.Base.{
  ◌≡◌, refl, ap, inl, inr, Bool, true, false, not, if◌then◌else◌, Bool-cases,
}
use mathlib.Core.Path.{subst}
use cognic_tool_oracle_schem.Python.Exception.{Exc, Result, ok, raised}
use cognic_tool_oracle_schem.Host.{World, M, pure, lift, raise, catch, continue, handle, ◌>>=◌}

-- The exception that the block raises from this world, if it raises one, has the property.
pub record Escapes {ℓ} {A : Type ℓ} (P : Exc → Type 0) (w : World) (m : M A) : Type ℓ where
  pub holds : (e : Exc) → (m w).0 ≡ raised e → P e

raised-injective {ℓ} : {A : Type ℓ} {e f : Exc} → Path (Result A) (raised e) (raised f) → e ≡ f
raised-injective d = cc

module _ {ℓ} {A : Type ℓ} {P : Exc → Type 0} where
  pub Escapes-pure : (w : World) (a : A) → Escapes P w (pure a)
  unfolding pure
  Escapes-pure w a = record { holds = λ e h. cc }

  pub Escapes-raise : (w : World) (x : Exc) → P x → Escapes {A = A} P w (raise x)
  unfolding raise
  Escapes-raise w x p = record { holds = λ e h. subst P (raised-injective h) p }

  pub Escapes-lift :
      (w : World) (r : Result A) → ((e : Exc) → r ≡ raised e → P e) → Escapes P w (lift r)
  unfolding lift
  Escapes-lift w r p = record { holds = p }

  pub Escapes-if_not :
      (w : World) (b : Bool) (m k : M A)
      → (b ≡ false → Escapes P w m)
      → (b ≡ true → Escapes P w k)
      → Escapes P w (if not b then m else k)
  Escapes-if_not w true m k p q = q refl
  Escapes-if_not w false m k p q = p refl

  pub Escapes-if :
      (w : World) (b : Bool) (m k : M A)
      → (b ≡ true → Escapes P w m)
      → (b ≡ false → Escapes P w k)
      → Escapes P w (if b then m else k)
  Escapes-if w true m k p q = p refl
  Escapes-if w false m k p q = q refl

  pub Escapes-bind {κ} :
      {B : Type κ} (w : World) (m : M B) (f : B → M A)
      → Escapes P w m
      → ((b : B) → (m w).0 ≡ ok b → Escapes P (m w).1 (f b))
      → Escapes P w (m >>= f)
  unfolding ◌>>=◌
  Escapes-bind {B} w m f q p = record {
    holds = λ e. go (m w).0 (m w).1 e (q.holds e) (λ b h. (p b h).holds e);
  }
    where
      go :
          (r : Result B) (v : World) (e : Exc)
          → (r ≡ raised e → P e)
          → ((b : B) → r ≡ ok b → (f b v).0 ≡ raised e → P e)
          → (continue r f v).0 ≡ raised e
          → P e
      go (ok b) v e first good h = good b refl h
      go (raised x) v e first good h = first (ap raised (raised-injective h))

  -- Only what the handler does not take, or raises itself, gets out.
  pub Escapes-catch :
      (w : World) (test : Exc → Bool) (m : M A) (handler : Exc → M A)
      → ((e : Exc) → (m w).0 ≡ raised e → test e ≡ false → P e)
      → ((e : Exc) → (m w).0 ≡ raised e → test e ≡ true → Escapes P (m w).1 (handler e))
      → Escapes P w (catch test m handler)
  unfolding catch
  Escapes-catch w test m handler p q = record {
    holds = λ e. go (m w).0 (m w).1 e p (λ x failed caught. (q x failed caught).holds e);
  }
    where
      go :
          (r : Result A) (v : World) (e : Exc)
          → ((x : Exc) → r ≡ raised x → test x ≡ false → P x)
          → ((x : Exc) → r ≡ raised x → test x ≡ true → (handler x v).0 ≡ raised e → P e)
          → (handle r handler test v).0 ≡ raised e
          → P e
      go (ok b) v e through other h = absurd (ok_ne h)
        where
          ok_ne : Path (Result A) (ok b) (raised e) → ⊥
          ok_ne d = cc
      go (raised x) v e through other h = elim (Bool-cases (test x)) [
        | inl caught ↦ other x refl caught (rw caught at h)
        | inr passes ↦ subst P (raised-injective (rw passes at h)) (through x refl passes)
      ]
