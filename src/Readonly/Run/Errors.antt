-- ===== src/Readonly/Run/Errors.antt =====
-- Which exceptions leave arm 7.
use cognic_tool_oracle_schem.Base.{◌≡◌, inl, inr, false, ℤ, Text}
use cognic_tool_oracle_schem.Base.{Bool-cases}
use cognic_tool_oracle_schem.Python.Exception.{Exc, Result, ok, raised}
use cognic_tool_oracle_schem.Config.{Config}
use cognic_tool_oracle_schem.QueryContext.{QueryContextClaims}
use cognic_tool_oracle_schem.Readonly.Reason.{Envelope}
use cognic_tool_oracle_schem.Readonly.Keys.{query_timeout_s}
use cognic_tool_oracle_schem.Readonly.Execute.{execute}
use cognic_tool_oracle_schem.Readonly.Run.{is_proxy_identity, execution_failed, proxy_arm}
use cognic_tool_oracle_schem.Host.{Host, World, pure, catch, handle, is_exception}

module _ (h : Host) where
  -- The handler answers, so what passes it is no `Exception`.
  handle_lem :
      (r : Result Envelope) (w : World) (e : Exc)
      → (handle r (execution_failed h) is_exception w).0 ≡ raised e
      → (is_exception e ≡ false) × (r ≡ raised e)
  unfolding pure
  handle_lem (ok a) w e d = absurd (ok_ne d)
    where
      ok_ne : Path (Result Envelope) (ok a) (raised e) → ⊥
      ok_ne x = cc
  handle_lem (raised x) w e d = elim (Bool-cases (is_exception x)) [
    | inl caught ↦ absurd (ok_ne (rw caught at d))
    | inr passes ↦
        let same : Path (Result Envelope) (raised x) (raised e) = rw passes at d in
        (subst_lem (same_exc same) passes, same)
  ]
    where
      ok_ne : {a : Envelope} → Path (Result Envelope) (ok a) (raised e) → ⊥
      ok_ne y = cc

      same_exc : Path (Result Envelope) (raised x) (raised e) → x ≡ e
      same_exc y = cc

      subst_lem : x ≡ e → is_exception x ≡ false → is_exception e ≡ false
      subst_lem y p = cc

  -- An exception that leaves arm 7 is one that its execution raised and no `Exception` (a cancellation,
  -- an interrupt): every other failure of the credential file or of the database is an answer.
  pub proxy_arm_total :
      (cfg : Config) (claims : QueryContextClaims) (sql : Text) (effective : ℤ) (w : World)
      (e : Exc)
      → (proxy_arm h cfg claims sql effective w).0 ≡ raised e
      → (is_exception e ≡ false)
        × ((execute h cfg claims.proxy_db_identity claims.sub sql effective (query_timeout_s h) w).0
            ≡ raised e)
  unfolding proxy_arm catch pure
  proxy_arm_total cfg claims sql effective w e d =
      elim (Bool-cases (is_proxy_identity claims.proxy_db_identity)) [
        | inr bad ↦ absurd (ok_ne (rw bad at d))
        | inl good ↦ handle_lem _ _ e (rw good at d)
      ]
    where
      ok_ne : {a : Envelope} → Path (Result Envelope) (ok a) (raised e) → ⊥
      ok_ne y = cc
