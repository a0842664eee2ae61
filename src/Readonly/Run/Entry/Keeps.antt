-- ===== src/Readonly/Run/Entry/Keeps.antt =====
-- Arms 1 to 6 and the properties of the world that only the pool's events can change.
use cognic_tool_oracle_schem.Base.{Option, none, some, List, ℤ, Text, Bytes}
use cognic_tool_oracle_schem.QueryContext.{QueryContextClaims, Verdict, admitted, refused, failed}
use cognic_tool_oracle_schem.Readonly.Sqlglot.{Sqlglot}
use cognic_tool_oracle_schem.Readonly.Analyze.{Analysis, reject, accept}
use cognic_tool_oracle_schem.Readonly.Run.{Args}
use cognic_tool_oracle_schem.Readonly.Run.Events.{
  IsPoolProperty, first_use-Keeps, load_public_keys-Keeps,
}
use cognic_tool_oracle_schem.Readonly.Run.Entry.{
  statement_entry, analysis_entry, claims_entry, verdict_entry, token_entry, enter,
}
use cognic_tool_oracle_schem.Host.{Host, World}
use cognic_tool_oracle_schem.Host.Keeps.{
  Keeps, Keeps-bind, Keeps-if, Keeps-pure, Keeps-lift, Keeps-raise, keeps_rules,
}

module _ (h : Host) (g : Sqlglot) {P : World → Type 0} (p : IsPoolProperty P) (args : Args) where
  statement-Keeps :
      (claims : QueryContextClaims) (stmt : g.Node) → Keeps P (statement_entry h g args claims stmt)
  unfolding statement_entry
  statement-Keeps claims stmt = search keeps_rules depth 6

  analysis-Keeps :
      (claims : QueryContextClaims) (a : Analysis g.Node)
      → Keeps P (analysis_entry h g args claims a)
  analysis-Keeps claims (reject reason message) = Keeps-pure _
  analysis-Keeps claims (accept stmt) = statement-Keeps claims stmt

  claims-Keeps :
      (claims : QueryContextClaims) (now : ℤ) → Keeps P (claims_entry h g args claims now)
  unfolding claims_entry
  claims-Keeps claims now = Keeps-bind _ _ (first_use-Keeps h p claims now) (λ fresh.
      Keeps-if _ _ _ (Keeps-pure _) (
        Keeps-bind _ _ (Keeps-lift _)
          (λ digest. Keeps-if _ _ _ (Keeps-pure _) (analysis-Keeps claims _))))

  verdict-Keeps :
      (now : ℤ) (v : Verdict QueryContextClaims) → Keeps P (verdict_entry h g args now v)
  verdict-Keeps now (refused reason) = Keeps-pure _
  verdict-Keeps now (failed e) = Keeps-raise e
  verdict-Keeps now (admitted claims) = claims-Keeps claims now

  token-Keeps :
      (token : Text) (keys : Option (List Bytes)) → Keeps P (token_entry h g args token keys)
  token-Keeps token none = Keeps-pure _
  token-Keeps token (some keys) = search (keeps_rules, verdict-Keeps) depth 9

  pub enter-Keeps : (token : Text) → Keeps P (enter h g args token)
  unfolding enter
  enter-Keeps token = search (keeps_rules, load_public_keys-Keeps h p, token-Keeps) depth 6
