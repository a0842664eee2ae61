-- ===== src/Tests/Witnesses.antt =====
-- The theorems at concrete inputs.
use cognic_tool_oracle_schem.Base.{◌≡◌, refl, ◌↔◌, ◌⊎◌, false, [], ◌∷◌, some, pos, Text, lit}
use cognic_tool_oracle_schem.QueryContext.{admitted, verify_query_context}
use cognic_tool_oracle_schem.QueryContext.Verified.{IsValidAt, verify_query_context-admitted}
use cognic_tool_oracle_schem.Readonly.Sqlglot.{table}
use cognic_tool_oracle_schem.Readonly.Analyze.{accept, analyze}
use cognic_tool_oracle_schem.Readonly.Analyze.Accepts.{IsSingle, IsPlainSelect, analyze-accept}
use cognic_tool_oracle_schem.Readonly.Scope.{referenced_objects, out_of_scope_objects}
use cognic_tool_oracle_schem.Readonly.Scope.Members.{Any}
use cognic_tool_oracle_schem.Readonly.Scope.Allowed.{Names, IsAllowed, in_scope_iff}
use cognic_tool_oracle_schem.Readonly.RowBound.Caps.{IsBounded, apply_row_bound-IsBounded}
use cognic_tool_oracle_schem.Readonly.Keys.Reads.{OnlyKeyReads}
use cognic_tool_oracle_schem.Readonly.Execute.{execute}
use cognic_tool_oracle_schem.Readonly.Execute.Protocol.{Follows, outside}
use cognic_tool_oracle_schem.Readonly.Execute.Order.{subject_reference, execute-Follows}
use cognic_tool_oracle_schem.Readonly.Run.{run}
use cognic_tool_oracle_schem.Readonly.Run.Safety.{RunsCleared, run-RunsCleared}
use cognic_tool_oracle_schem.Readonly.Run.Binding.{SameCall, Collision, recompute_args_sha256_binds}
use cognic_tool_oracle_schem.Readonly.Cell.{Cell}
use cognic_tool_oracle_schem.Readonly.Reason.{success}
use cognic_tool_oracle_schem.Readonly.Run.Answer.{IsAnswer, run-IsAnswer}
use cognic_tool_oracle_schem.Readonly.Keys.Usable.{Usable}
use cognic_tool_oracle_schem.Tests.Toy.{
  host, toy, toy_jws, toy_loads, ascii, cfg, args, claims, employees, fresh_world,
}
use cognic_tool_oracle_schem.Tests.Program.{program}

run-RunsCleared_example :
    OnlyKeyReads [] (run host toy cfg args (lit "token") fresh_world).1.events
    ⊎ RunsCleared host toy cfg args (lit "token") fresh_world
run-RunsCleared_example = run-RunsCleared host toy cfg args (lit "token") fresh_world

recompute_args_sha256_binds_example : SameCall host args args ⊎ Collision host args args
unfolding program
recompute_args_sha256_binds_example =
    recompute_args_sha256_binds host args args claims.args_sha256 refl refl

execute-Follows_example :
    Follows
      (lit "cognic[ANN$1]")
      (subject_reference host (lit "ann"))
      (lit "SELECT")
      []
      outside
      (execute host cfg (lit "ANN$1") (lit "ann") (lit "SELECT") (pos 40) 30 fresh_world).1.events
unfolding program
execute-Follows_example =
    execute-Follows host cfg (lit "ANN$1") (lit "ann") (lit "SELECT") (pos 40) 30 fresh_world

in_scope_iff_example :
    (out_of_scope_objects ascii (referenced_objects ascii toy employees) claims.objects ≡ []) ↔ (
      (ref : Text)
      → Any (λ node. Names ascii toy employees node ref) (toy.find_all employees table)
      → IsAllowed ascii claims.objects ref)
in_scope_iff_example = in_scope_iff ascii toy employees claims.objects

analyze-accept_example :
    (analyze ascii toy args.sql ≡ accept employees)
    ↔ (IsSingle ascii toy args.sql employees × IsPlainSelect ascii toy employees)
analyze-accept_example = analyze-accept ascii toy args.sql employees

verify_query_context-admitted_example :
    (verify_query_context toy_jws toy_loads (lit "token") (lit "key" ∷ []) claims.aud (pos 150)
      ≡ admitted claims)
    ↔ IsValidAt toy_jws toy_loads (lit "token") (lit "key" ∷ []) claims.aud (pos 150) claims
verify_query_context-admitted_example =
    verify_query_context-admitted toy_jws toy_loads (lit "token") (lit "key" ∷ []) claims.aud
      (pos 150) claims

apply_row_bound-IsBounded_example :
    IsBounded ascii toy employees (some (pos 90)) (lit "SELECT FETCH 40") (pos 40)
unfolding program
apply_row_bound-IsBounded_example =
    apply_row_bound-IsBounded ascii toy employees (some (pos 90)) (lit "SELECT FETCH 40") (pos 40)
      refl

run-IsAnswer_example : IsAnswer (
    success
      (((lit "ID", Cell.integer (pos 1)) ∷ []) ∷ ((lit "ID", Cell.str (lit "ff")) ∷ []) ∷ [])
      2
      false
      (lit "1970"))
unfolding program
run-IsAnswer_example =
    run-IsAnswer host toy cfg args (lit "token") fresh_world
      (success
        (((lit "ID", Cell.integer (pos 1)) ∷ []) ∷ ((lit "ID", Cell.str (lit "ff")) ∷ []) ∷ []) 2
        false (lit "1970"))
      refl
