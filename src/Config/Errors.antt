-- ===== src/Config/Errors.antt =====
-- Which exceptions the reading of the environment raises.
use cognic_tool_oracle_schem.Base.{◌≡◌, refl, ◌⊎◌, inl, inr, Bool, true, false, Option, none, some}
use cognic_tool_oracle_schem.Base.{Text, lit}
use cognic_tool_oracle_schem.Python.Exception.{
  Exc, value_error, Result, ok, raised, ◌>>=◌, require, or_raise,
}
use cognic_tool_oracle_schem.Python.Str.{Unicode}
use cognic_tool_oracle_schem.Python.Num.{int_of}
use cognic_tool_oracle_schem.Config.{
  config_error, or_else, required, auth_mode_of, max_rows_of, scopes_of, pool_max_of, from_env,
}

raised-injective {ℓ} : {A : Type ℓ} {e x : Exc} → Path (Result A) (raised e) (raised x) → e ≡ x
raised-injective h = cc

-- Every exception of the block has the property.
pub record Raises {ℓ} {A : Type ℓ} (P : Exc → Type 0) (m : Result A) : Type ℓ where
  pub holds : (e : Exc) → m ≡ raised e → P e

module _ {P : Exc → Type 0} where
  Raises-bind {ℓ κ} :
      {A : Type ℓ} {B : Type κ} (m : Result A) (f : A → Result B)
      → Raises P m
      → ((a : A) → Raises P (f a))
      → Raises P (m >>= f)
  Raises-bind (ok a) f p q = q a
  Raises-bind (raised e) f p q = record { holds = λ x h. p.holds x (cc) }

  Raises-ok {ℓ} : {A : Type ℓ} (a : A) → Raises P (ok a)
  Raises-ok a = record { holds = λ e h. cc }

  Raises-require : (b : Bool) (e : Exc) → P e → Raises P (require b e)
  Raises-require true e p = record { holds = λ x h. cc }
  Raises-require false e p = record { holds = λ x h. rw (← raised-injective h) p }

  Raises-or_raise {ℓ} :
      {A : Type ℓ} (e : Exc) (o : Option A) → (o ≡ none → P e) → Raises P (or_raise e o)
  Raises-or_raise e (some a) p = record { holds = λ x h. cc }
  Raises-or_raise {A = A} e none p = record { holds = λ x h. rw (← raised-injective h) (p refl) }

module _ (u : Unicode) (env : Text → Option Text) where
  -- A `ConfigError`, or a bare `ValueError` for a pool size that is no integer.
  abbrev pub IsStartError : Exc → Type 0
  IsStartError e =
      (e ≡ config_error)
      ⊎ ((e ≡ value_error)
          × (int_of u (or_else (lit "4") (env (lit "COGNIC_ORACLE_POOL_MAX"))) ≡ none))

  is_config : IsStartError config_error
  is_config = inl refl

  required-Raises : (k : Text) → Raises IsStartError (required u env k)
  unfolding required
  required-Raises k = Raises-bind _ _ (Raises-require _ config_error (inl refl)) (λ _. Raises-ok _)

  auth_mode_of-Raises : Raises IsStartError (auth_mode_of u env)
  unfolding auth_mode_of
  auth_mode_of-Raises = search (Raises-bind, Raises-require, Raises-ok, is_config)

  max_rows_of-Raises : Raises IsStartError (max_rows_of u env)
  unfolding max_rows_of
  max_rows_of-Raises =
      Raises-bind _ _ (Raises-or_raise config_error _ (λ _. inl refl)) (λ _. Raises-ok _)

  scopes_of-Raises : Raises IsStartError (scopes_of u env)
  unfolding scopes_of
  scopes_of-Raises = Raises-bind _ _ (Raises-require _ config_error (inl refl)) (λ _. Raises-ok _)

  pool_max_of-Raises : Raises IsStartError (pool_max_of u env)
  unfolding pool_max_of
  pool_max_of-Raises = Raises-or_raise value_error _ (λ e. inr (refl, e))

  from_env-Raises : Raises IsStartError (from_env u env)
  unfolding from_env
  from_env-Raises = Raises-bind _ _ (Raises-require _ config_error (inl refl)) (λ _.
      Raises-bind _ _ auth_mode_of-Raises (λ mode. Raises-bind _ _ max_rows_of-Raises (λ n.
        Raises-bind _ _ (Raises-require _ config_error (inl refl)) (λ _.
          Raises-bind _ _ scopes_of-Raises (λ s. Raises-bind _ _ (required-Raises _) (λ dsn.
            Raises-bind _ _ (required-Raises _) (λ user.
              Raises-bind _ _ (required-Raises _)
                (λ file. Raises-bind _ _ pool_max_of-Raises (λ pool. Raises-ok _)))))))))

  -- Reading the settings from an environment raises a `ConfigError`, or else a bare `ValueError`, and
  -- this only if `COGNIC_ORACLE_POOL_MAX` is no integer.
  pub from_env-IsStartError : (e : Exc) → from_env u env ≡ raised e → IsStartError e
  from_env-IsStartError = from_env-Raises.holds
