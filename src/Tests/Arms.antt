-- ===== src/Tests/Arms.antt =====
-- The governed tool: more of its theorems at concrete inputs.
use cognic_tool_oracle_schem.Base.{
  ◌≤◌, ◌+◌, List, Text, arith, ◌≡◌, refl, ◌↔◌, [], ◌∷◌, none, pos, lit,
}
use cognic_tool_oracle_schem.Python.Exception.{ok}
use cognic_tool_oracle_schem.QueryContext.{admitted, parse_entries}
use cognic_tool_oracle_schem.QueryContext.Claims.{
  AreClaims, entries_of, parse_entries-AreClaims, parse_entries-entries_of,
}
use cognic_tool_oracle_schem.Readonly.Reason.{refusal, query_context_args_mismatch, Envelope}
use cognic_tool_oracle_schem.Readonly.Replay.Once.{Calls}
use cognic_tool_oracle_schem.Readonly.Replay.Spec.{answers, sightings, cache_refines_map}
use cognic_tool_oracle_schem.Readonly.Run.{Args, run, mismatch_message}
use cognic_tool_oracle_schem.Readonly.Run.Causes.{HasCause, run-HasCause}
use cognic_tool_oracle_schem.Readonly.Run.Live.{IsServing, IsSuccess, run_succeeds}
use cognic_tool_oracle_schem.Readonly.Scope.{referenced_objects, out_of_scope_objects}
use cognic_tool_oracle_schem.Readonly.Scope.Sets.{AreSame, reported_order}
use cognic_tool_oracle_schem.Readonly.Keys.{query_timeout_s}
use cognic_tool_oracle_schem.Readonly.Execute.{execute}
use cognic_tool_oracle_schem.Readonly.Execute.Retries.{is_connect, execute-two_tries}
use cognic_tool_oracle_schem.Host.Costs.{count}
use cognic_tool_oracle_schem.Readonly.Cell.{Cell}
use cognic_tool_oracle_schem.Readonly.Execute.{fill_row}
use cognic_tool_oracle_schem.Readonly.Execute.Rows.{cell, last_of, shown, cell-fill_row}
use cognic_tool_oracle_schem.Tests.Toy.{
  ToyNode, select_of, ascii, host, toy, cfg, args, claims, employees, fresh_world,
}
use cognic_tool_oracle_schem.Tests.Program.{program}

abbrev unbounded : Args
unbounded = record args { max_rows = none }

run-HasCause_example :
    HasCause host toy cfg unbounded
      (lit "token")
      fresh_world
      (refusal query_context_args_mismatch mismatch_message)
unfolding program
run-HasCause_example =
    run-HasCause host toy cfg unbounded (lit "token") fresh_world
      (refusal query_context_args_mismatch mismatch_message) refl

abbrev serving : IsServing host cfg
unfolding program
serving = record {
  reads = λ w. refl;
  milliseconds = λ s. refl;
  connects = λ past a. refl;
  limits = λ past conn ms. refl;
  opens = λ past conn. refl;
  calls = λ past conn name given. refl;
  executes = λ past conn sql. refl;
  fetches = λ past conn. refl;
  closes = λ past conn. refl;
}

run_succeeds_example :
    (answer : Envelope) × ((run host toy cfg args (lit "token") fresh_world).0 ≡ ok answer)
    × IsSuccess answer
unfolding program
run_succeeds_example =
    run_succeeds host toy cfg args (lit "token") fresh_world (lit "key" ∷ []) claims employees
      (lit "SELECT FETCH 40") (pos 40) (lit "ann") serving refl
      (record {
        has_token = refl;
        verified = refl;
        passed = record {
          fresh = refl;
          digest = refl;
          plain_select = refl;
          passed = record { in_scope = refl; bounded = refl };
        };
        identity = refl;
      })
      refl

abbrev presented : Calls
presented =
    (lit "j1", pos 200, pos 150)
    ∷ (lit "j1", pos 300, pos 160)
    ∷ (lit "j2", pos 300, pos 140)
    ∷ (lit "j1", pos 300, pos 250)
    ∷ []

cache_refines_map_example : answers presented [] ≡ sightings presented (λ j. none)
cache_refines_map_example = cache_refines_map presented

parse_entries-AreClaims_example :
    (parse_entries (entries_of claims) ≡ admitted claims) ↔ AreClaims (entries_of claims) claims
parse_entries-AreClaims_example = parse_entries-AreClaims (entries_of claims) claims

parse_entries-entries_of_example : parse_entries (entries_of claims) ≡ admitted claims
unfolding program
parse_entries-entries_of_example = parse_entries-entries_of claims refl

-- A lone surrogate has no UTF-8 form.
abbrev unencodable : Args
unencodable = record args { sql = 55296 ∷ [] }

-- Two tables, none of them allowed, collected in the one order or the other.
abbrev two_tables : ToyNode
two_tables = select_of ((lit "hr", lit "salaries") ∷ (lit "hr", lit "bonuses") ∷ []) [] none

abbrev other_order : List Text
other_order = lit "HR.SALARIES" ∷ lit "HR.BONUSES" ∷ []

same_names : AreSame (referenced_objects ascii toy two_tables) other_order
unfolding program
same_names = λ a. ground arith

reported_order_example :
    out_of_scope_objects ascii (referenced_objects ascii toy two_tables) (lit "hr.employees" ∷ [])
    ≡ out_of_scope_objects ascii other_order (lit "hr.employees" ∷ [])
unfolding program
reported_order_example =
    reported_order ascii toy two_tables other_order (lit "hr.employees" ∷ [])
      (lit "hr.employees" ∷ []) (refl, (refl, tt)) same_names (λ a. refl)

execute-two_tries_example :
    count is_connect
      (execute host cfg
        (lit "ANN")
        (lit "ann")
        (lit "SELECT")
        (pos 40)
        (query_timeout_s host)
        fresh_world).1.events
    ≤ 2 + count is_connect []
execute-two_tries_example =
    execute-two_tries host cfg (lit "ANN") (lit "ann") (lit "SELECT") (pos 40)
      (query_timeout_s host) fresh_world

cell-fill_row_example :
    cell (lit "ID") (
      fill_row
        (lit "ID" ∷ lit "NAME" ∷ lit "ID" ∷ [])
        (Cell.integer (pos 1) ∷ Cell.null ∷ Cell.integer (pos 2) ∷ [])
        [])
    ≡ shown (
        last_of
          (lit "ID")
          (lit "ID" ∷ lit "NAME" ∷ lit "ID" ∷ [])
          (Cell.integer (pos 1) ∷ Cell.null ∷ Cell.integer (pos 2) ∷ []))
cell-fill_row_example =
    cell-fill_row (lit "ID") (lit "ID" ∷ lit "NAME" ∷ lit "ID" ∷ [])
      (Cell.integer (pos 1) ∷ Cell.null ∷ Cell.integer (pos 2) ∷ [])
