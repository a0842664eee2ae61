-- ===== src/Tests/Process.antt =====
-- The server at work: its theorems on interleaved requests at concrete inputs.
use cognic_tool_oracle_schem.Base.{
  ℕ, ◌==◌, ◌≡◌, refl, sym, ◌∙◌, inl, inr, false, [], ◌∷◌, lit, Bool-cases, ==_iff,
}
use cognic_tool_oracle_schem.Python.Exception.{ok}
use cognic_tool_oracle_schem.Credential.Keeps.{with_event}
use cognic_tool_oracle_schem.Readonly.Reason.{refusal, query_context_replayed}
use cognic_tool_oracle_schem.Readonly.Execute.{connect_args}
use cognic_tool_oracle_schem.Readonly.Run.{replayed_message, run}
use cognic_tool_oracle_schem.Readonly.Run.SingleUse.{Presents, Call}
use cognic_tool_oracle_schem.Readonly.Run.Entry.{answered, enter}
use cognic_tool_oracle_schem.Oracle.Tasks.{System, turn, init}
use cognic_tool_oracle_schem.Oracle.Tasks.Frame.{IsClosing}
use cognic_tool_oracle_schem.Server.Process.{Step, resumed, entered, elsewhere, Trace, here, later}
use cognic_tool_oracle_schem.Server.Process.Pools.{IsSerial, IsHealthy, Serial, Trace-IsHealthy}
use cognic_tool_oracle_schem.Oracle.{init_pool, close_pool}
use cognic_tool_oracle_schem.Server.Process.Lifetime.{LeavesNone, lifetime_leaves_no_pool}
use cognic_tool_oracle_schem.Base.{◌<◌, ◌≤◌, ◌+◌, arith}
use cognic_tool_oracle_schem.Oracle.Tasks.Spends.{is_making}
use cognic_tool_oracle_schem.Host.Costs.{count}
use cognic_tool_oracle_schem.Server.Process.Ends.{IsEnded, metadata_request_ends}
use cognic_tool_oracle_schem.Server.Process.Bounded.{Among, requests_make_few_pools}
use cognic_tool_oracle_schem.Server.Process.Once.{Before, process_single_use}
use cognic_tool_oracle_schem.Host.{Event, connected}
use cognic_tool_oracle_schem.Tests.Tasks.{changed, pool_eight, requests, turns}
use cognic_tool_oracle_schem.Tests.Toy.{host, toy, cfg, args, claims, fresh_world}
use cognic_tool_oracle_schem.Tests.Program.{program}

abbrev call : Call
call = record { cfg = cfg; args = args; token = lit "token" }

-- Request 0 meets ORA-01017 while request 1 waits for its first query and a governed call comes in.
abbrev queried_once : System
queried_once =
    turn changed requests 0 (turn changed requests 1 (turn changed requests 0 (init pool_eight)))

abbrev and_entered : System
and_entered = record queried_once {
  world = (enter changed toy args (lit "token") queried_once.world).1;
}

abbrev reopened : System
reopened = turn changed requests 0 and_entered

-- Only request `k` may be closing.
IsSerial-only :
    (s : System) (k : ℕ) → ((j : ℕ) → (k == j) ≡ false → IsClosing (s.stage j) → ⊥) → IsSerial s
IsSerial-only s k apart = record { same = λ i j a b. only i a ∙ sym (only j b) }
  where
    only : (i : ℕ) → IsClosing (s.stage i) → i ≡ k
    only i a = elim (Bool-cases (k == i)) [
      | inl same ↦ sym ((==_iff k i).0 same)
      | inr other ↦ absurd (apart i other a)
    ]

one_at_a_time : Trace changed toy requests (Serial changed toy requests) (init pool_eight) reopened
unfolding program
one_at_a_time =
    later
      (later
        (later (later (later here (resumed 0) zero_steps) (resumed 1) one_step) (resumed 0)
          two_steps)
        (entered call) three_steps)
      (resumed 0) four_steps
  where
    zero_steps : IsSerial (init pool_eight)
    zero_steps = IsSerial-only _ 0 (λ j other c. c)

    one_step : IsSerial (turn changed requests 0 (init pool_eight))
    one_step = IsSerial-only _ 0 (λ j other. rw other (λ c. c))

    two_steps : IsSerial (turn changed requests 1 (turn changed requests 0 (init pool_eight)))
    two_steps = IsSerial-only _ 0 (λ j other. elim (Bool-cases (1 == j)) [
      | inl e ↦ rw e (λ c. c)
      | inr e ↦ rw (e, other) (λ c. c)
    ])

    three_steps : IsSerial queried_once
    three_steps = IsSerial-only _ 0 (λ j other. elim (Bool-cases (1 == j)) [
      | inl e ↦ rw (other, e) (λ c. c)
      | inr e ↦ rw (other, e) (λ c. c)
    ])

    four_steps : IsSerial and_entered
    four_steps = record { same = three_steps.same }

Trace-IsHealthy_example : IsHealthy reopened
Trace-IsHealthy_example =
    Trace-IsHealthy changed toy requests (init pool_eight) reopened
      (record { orderly = record { held = refl; orderly = (refl, tt) }; fits = λ i. tt })
      one_at_a_time

-- The server has started, a governed call has come in, and a request is at its first query.
abbrev opened_system : System
opened_system = init (init_pool changed cfg fresh_world).1

abbrev opened_entered : System
opened_entered = record opened_system {
  world = (enter changed toy args (lit "token") opened_system.world).1;
}

abbrev reopened_later : System
reopened_later = turn changed requests 0 opened_entered

later_steps : Trace changed toy requests (Serial changed toy requests) opened_system reopened_later
unfolding program
later_steps = later (later here (entered call) all_starting) (resumed 0) still_starting
  where
    all_starting : IsSerial opened_system
    all_starting = IsSerial-only _ 0 (λ j other c. c)

    still_starting : IsSerial opened_entered
    still_starting = IsSerial-only _ 0 (λ j other c. c)

lifetime_leaves_no_pool_example : LeavesNone (close_pool changed reopened_later.world).1
lifetime_leaves_no_pool_example =
    lifetime_leaves_no_pool changed toy requests cfg fresh_world reopened_later
      (record { kept = record { held = refl; orderly = tt }; empty = refl }) later_steps

abbrev started : System
started = init fresh_world

abbrev presented : Presents host toy cfg args (lit "token") claims started.world
unfolding program
presented = record { keys = lit "key" ∷ []; loaded = refl; has_token = refl; verified = refl }

-- The first call has come in and executes: its connection is made. Then a metadata tool is called, and
-- the token comes in a second time.
abbrev entered_once : System
entered_once = record started { world = (enter host toy args (lit "token") started.world).1 }

abbrev connection : Event
connection = connected (connect_args cfg (lit "ANN$1") (lit "pw")) 7

abbrev executing : System
executing = record entered_once { world = with_event connection entered_once.world }

abbrev called : System
called = turn host requests 0 executing

abbrev entered_twice : System
entered_twice = record called { world = (enter host toy args (lit "token") called.world).1 }

abbrev presented_again : Presents host toy cfg args (lit "token") claims entered_twice.world
unfolding program
presented_again = record { keys = lit "key" ∷ []; loaded = refl; has_token = refl; verified = refl }

interleaved :
    Trace host toy requests (Before host toy requests claims.exp) entered_once entered_twice
unfolding program
interleaved =
    later (later (later here (elsewhere connection tt) tt) (resumed 0) tt) (entered call) refl

process_single_use_example :
    ((enter host toy args (lit "token") entered_twice.world).0
      ≡ ok (answered (refusal query_context_replayed replayed_message)))
    × ((run host toy cfg args (lit "token") entered_twice.world).0
        ≡ ok (refusal query_context_replayed replayed_message))
unfolding program
process_single_use_example =
    process_single_use host toy requests call call claims started entered_twice presented refl
      interleaved presented_again

-- Two requests whose first queries are both refused, and who both make a new pool.
abbrev both_queried : System
both_queried = turns (0 ∷ 1 ∷ 0 ∷ 1 ∷ []) (init pool_eight)

abbrev both_reopened : System
both_reopened = turns (0 ∷ 1 ∷ []) both_queried

two_requests :
    Trace changed toy requests (Among changed toy requests 2) (init pool_eight) both_reopened
two_requests =
    later
      (later
        (later
          (later (later (later here (resumed 0) zero_below) (resumed 1) one_below) (resumed 0)
            zero_below)
          (resumed 1) one_below)
        (resumed 0) zero_below)
      (resumed 1) one_below
  where
    zero_below : 0 < 2
    zero_below = omega arith

    one_below : 1 < 2
    one_below = omega arith

requests_make_few_pools_example :
    count is_making both_reopened.world.events ≤ 2 + count is_making pool_eight.events
requests_make_few_pools_example =
    requests_make_few_pools changed toy requests 2 pool_eight both_reopened two_requests

-- They use up what they may.
most_pools_run : count is_making both_reopened.world.events ≡ 3
unfolding program
most_pools_run = refl

abbrev AnyStep : (s t : System) → Step changed toy requests s t → Type 0
AnyStep s t step = Unit

-- Request 0 goes on four times, and request 1 twice in between.
abbrev four_turns :
    Trace changed toy requests AnyStep (init pool_eight) (turns (0 ∷ 0 ∷ []) both_queried)
four_turns =
    later
      (later
        (later (later (later (later here (resumed 0) tt) (resumed 1) tt) (resumed 0) tt) (resumed 1)
          tt)
        (resumed 0) tt)
      (resumed 0) tt

metadata_request_ends_example : IsEnded ((turns (0 ∷ 0 ∷ []) both_queried).stage 0)
unfolding program
metadata_request_ends_example =
    metadata_request_ends changed toy requests AnyStep 0 (init pool_eight)
      (turns (0 ∷ 0 ∷ []) both_queried) four_turns (omega arith)
