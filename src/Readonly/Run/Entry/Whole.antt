-- ===== src/Readonly/Run/Entry/Whole.antt =====
-- Arms 1 to 6, and then arm 7, are `run`.
use cognic_tool_oracle_schem.Base.{
  ◌≡◌, refl, Bool, true, false, not, List, Option, none, some, is_empty, ℤ, Text, Bytes, text_eq,
  if◌then◌else◌,
}
use cognic_tool_oracle_schem.Python.Exception.{Exc, Result, ok, raised}
use cognic_tool_oracle_schem.Config.{Config}
use cognic_tool_oracle_schem.QueryContext.{QueryContextClaims, Verdict, admitted, refused, failed}
use cognic_tool_oracle_schem.Readonly.Reason.{RefusalReason, Envelope}
use cognic_tool_oracle_schem.Readonly.Sqlglot.{Sqlglot}
use cognic_tool_oracle_schem.Readonly.Analyze.{Analysis, reject, accept}
use cognic_tool_oracle_schem.Readonly.Run.{
  Args, refuse, proxy_arm, statement_arms, analysis_arm, claims_arms, verdict_arm, token_arm, run,
}
use cognic_tool_oracle_schem.Readonly.Run.Entry.{
  Entry, cleared, refuse_entry, statement_entry, analysis_entry, claims_entry, verdict_entry,
  token_entry, enter, finish_entry,
}
use cognic_tool_oracle_schem.Host.{Host, World, M, pure, raise, continue, ◌>>=◌}

module _ (h : Host) (g : Sqlglot) (cfg : Config) (args : Args) where
  -- The whole is the entry, and then arm 7.
  record Splits (m : M Envelope) (n : M Entry) : Type 0 where
    at : (w : World) → m w ≡ (n >>= finish_entry h cfg) w

  Splits-bind {ℓ} :
      {A : Type ℓ} (m : M A) (f : A → M Envelope) (k : A → M Entry)
      → ((a : A) → Splits (f a) (k a))
      → Splits (m >>= f) (m >>= k)
  unfolding ◌>>=◌
  Splits-bind {A} m f k s = record { at = λ w. go (m w).0 (m w).1 }
    where
      go :
          (r : Result A) (w : World)
          → continue r f w ≡ continue (continue r k w).0 (finish_entry h cfg) (continue r k w).1
      go (ok a) w = (s a).at w
      go (raised e) w = refl

  Splits-refuse :
      (reason : RefusalReason) (message : Text)
      → Splits (refuse reason message) (refuse_entry reason message)
  unfolding pure ◌>>=◌
  Splits-refuse reason message = record { at = λ w. refl }

  Splits-raise : (e : Exc) → Splits (raise e) (raise e)
  unfolding raise ◌>>=◌
  Splits-raise e = record { at = λ w. refl }

  Splits-cleared :
      (claims : QueryContextClaims) (sql : Text) (effective : ℤ)
      → Splits (proxy_arm h cfg claims sql effective) (pure (cleared claims sql effective))
  unfolding pure ◌>>=◌
  Splits-cleared claims sql effective = record { at = λ w. refl }

  Splits-if :
      (b : Bool) (m m' : M Envelope) (n n' : M Entry)
      → Splits m n
      → Splits m' n'
      → Splits (if b then m else m') (if b then n else n')
  Splits-if true m m' n n' s s' = s
  Splits-if false m m' n n' s s' = s'

  statement-Splits :
      (claims : QueryContextClaims) (stmt : g.Node)
      → Splits (statement_arms h g cfg args claims stmt) (statement_entry h g args claims stmt)
  unfolding statement_arms statement_entry
  statement-Splits claims stmt =
      Splits-if _ _ _ _ _ (Splits-refuse _ _)
        (Splits-bind _ _ _ (λ bound. Splits-cleared claims bound.0 bound.1))

  analysis-Splits :
      (claims : QueryContextClaims) (a : Analysis g.Node)
      → Splits (analysis_arm h g cfg args claims a) (analysis_entry h g args claims a)
  analysis-Splits claims (reject reason message) = Splits-refuse _ _
  analysis-Splits claims (accept stmt) = statement-Splits claims stmt

  claims-Splits :
      (claims : QueryContextClaims) (now : ℤ)
      → Splits (claims_arms h g cfg args claims now) (claims_entry h g args claims now)
  unfolding claims_arms claims_entry
  claims-Splits claims now = Splits-bind _ _ _ (λ fresh.
      Splits-if (not fresh) _ _ _ _ (Splits-refuse _ _) (
        Splits-bind _ _ _ (λ digest.
          Splits-if (not (text_eq digest claims.args_sha256)) _ _ _ _ (Splits-refuse _ _)
            (analysis-Splits claims _))))

  verdict-Splits :
      (now : ℤ) (v : Verdict QueryContextClaims)
      → Splits (verdict_arm h g cfg args now v) (verdict_entry h g args now v)
  verdict-Splits now (refused reason) = Splits-refuse _ _
  verdict-Splits now (failed e) = Splits-raise e
  verdict-Splits now (admitted claims) = claims-Splits claims now

  token-Splits :
      (token : Text) (keys : Option (List Bytes))
      → Splits (token_arm h g cfg args token keys) (token_entry h g args token keys)
  token-Splits token none = Splits-refuse _ _
  token-Splits token (some keys) =
      Splits-if (is_empty token) _ _ _ _ (Splits-refuse _ _)
        (Splits-bind _ _ _ (λ now. verdict-Splits now _))

  -- A run is the entry with nothing in between, and then arm 7: with the same answer or exception, and
  -- the same world.
  pub run-enter :
      (token : Text) (w : World)
      → run h g cfg args token w ≡ (enter h g args token >>= finish_entry h cfg) w
  unfolding run enter
  run-enter token w = (Splits-bind _ _ _ (token-Splits token)).at w
