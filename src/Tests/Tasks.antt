-- ===== src/Tests/Tasks.antt =====
-- Requests of the metadata tools side by side: runs, and the theorems at concrete inputs.
use cognic_tool_oracle_schem.Base.{
  ℕ, ◌==◌, ◌≡◌, refl, List, [], ◌∷◌, some, pos, lit, length, if◌then◌else◌,
}
use cognic_tool_oracle_schem.Python.Exception.{ok, raised}
use cognic_tool_oracle_schem.Oracle.Tasks.{Query, System, turn, init}
use cognic_tool_oracle_schem.Host.{
  ConnectArgs, Event, pool_created, pool_closed, pool_queried, Host, World,
}
use cognic_tool_oracle_schem.Tests.Pool.{bad_password, rows_of}
use cognic_tool_oracle_schem.Tests.Toy.{host, cfg, fresh_world}
use cognic_tool_oracle_schem.Tests.Program.{program}

-- A host whose password was changed under pool 8. It gives each pool a number of its own.
abbrev pub changed : Host
changed = record host {
  create_pool = λ past args n. ok (length past);
  fetch_many =
      λ past pool sql binds n. if pool == 8 then raised bad_password else rows_of (some pool);
}

abbrev first_args : ConnectArgs
first_args = record { user = lit "cognic"; password = lit "pw"; dsn = lit "db" }

abbrev pub pool_eight : World
pool_eight = record fresh_world { events = pool_created first_args (some 8) ∷ []; pool = some 8 }

abbrev pub requests : ℕ → Query
requests i = record { sql = lit "SELECT"; binds = []; limit = pos 1; cfg = cfg }

-- The system when the requests have gone on in this order.
abbrev pub turns : List ℕ → System → System
turns [] s = s
turns (i ∷ order) s = turns order (turn changed requests i s)

-- The pool of each event of the pools, and whether the event is a query, a making or a close.
data Mark : Type 0 where
  made : ℕ → Mark
  closed : ℕ → Mark
  asked : ℕ → Mark

abbrev marks : List Event → List Mark
marks [] = []
marks (pool_created args (some pool) ∷ past) = made pool ∷ marks past
marks (pool_closed pool done ∷ past) = closed pool ∷ marks past
marks (pool_queried pool sql binds done ∷ past) = asked pool ∷ marks past
marks (e ∷ past) = marks past

-- One request after the other: the second one uses the pool that the first one made.
in_turn_run :
    marks (turns (0 ∷ 0 ∷ 0 ∷ 0 ∷ 1 ∷ 1 ∷ []) (init pool_eight)).world.events
    ≡ (asked 6 ∷ asked 6 ∷ made 6 ∷ closed 8 ∷ asked 8 ∷ made 8 ∷ [])
unfolding program
in_turn_run = refl

-- Two requests whose first queries are both refused close the same pool, and the second one to come
-- back drops the pool that the first one has made in the meantime, which stays open.
dropped_pool_run :
    marks (turns (0 ∷ 1 ∷ 0 ∷ 1 ∷ 0 ∷ 1 ∷ []) (init pool_eight)).world.events
    ≡ (made 12 ∷ closed 8 ∷ made 7 ∷ closed 8 ∷ asked 8 ∷ asked 8 ∷ made 8 ∷ [])
unfolding program
dropped_pool_run = refl

-- A query that is refused after another request has made a new pool closes that one.
closed_new_pool_run :
    marks (turns (0 ∷ 1 ∷ 0 ∷ 0 ∷ 1 ∷ 1 ∷ []) (init pool_eight)).world.events
    ≡ (made 12 ∷ closed 6 ∷ asked 8 ∷ made 6 ∷ closed 8 ∷ asked 8 ∷ made 8 ∷ [])
unfolding program
closed_new_pool_run = refl
