-- ===== src/Server/Serve.antt =====
-- A property of the world that the metadata tools keep and the governed tool cannot touch holds through
-- every sequence of calls.
use cognic_tool_oracle_schem.Base.{List, [], ◌∷◌}
use cognic_tool_oracle_schem.Config.{Config}
use cognic_tool_oracle_schem.Readonly.Sqlglot.{Sqlglot}
use cognic_tool_oracle_schem.Readonly.Run.Events.{IsPoolProperty, run-Keeps}
use cognic_tool_oracle_schem.Host.{Host, World, M, pure}
use cognic_tool_oracle_schem.Host.Keeps.{Keeps, Keeps-bind, Keeps-pure, keeps_rules}
use cognic_tool_oracle_schem.Server.{
  Request, answer, ToolCall, metadata, governed, run_readonly_query, handle_call, attempt, serve,
}

Keeps-attempt {ℓ} : {A : Type ℓ} {P : World → Type 0} (m : M A) → Keeps P m → Keeps P (attempt m)
unfolding attempt pure
Keeps-attempt m km = record { at = λ w p. km.at w p }

module _ (h : Host) (g : Sqlglot) (cfg : Config) {P : World → Type 0} (p : IsPoolProperty P)
    (answers : (request : Request) → Keeps P (answer h cfg request)) where
  pub handle_call-Keeps : (c : ToolCall) → Keeps P (handle_call h g cfg c)
  unfolding run_readonly_query
  handle_call-Keeps (metadata request) = search (keeps_rules, answers) depth 6
  handle_call-Keeps (governed scope_id sql max_rows token) =
      search (keeps_rules, run-Keeps h g p) depth 6

  pub serve-Keeps : (calls : List ToolCall) → Keeps P (serve h g cfg calls)
  unfolding serve
  serve-Keeps [] = search keeps_rules
  serve-Keeps (c ∷ calls) =
      Keeps-bind _ _ (Keeps-attempt _ (handle_call-Keeps c))
        (λ reply. Keeps-bind _ _ (serve-Keeps calls) (λ replies. Keeps-pure _))
