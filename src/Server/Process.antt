-- ===== src/Server/Process.antt =====
-- The server at work: the requests of the metadata tools and the governed calls, interleaved at their
-- awaits. A governed call runs up to its await in one step; the driver calls of its execution, and all
-- else that the process does outside of the pool, are steps of their own.
pub mod Pools
pub mod Once
pub mod Lifetime
pub mod Bounded
pub mod Ends
use cognic_tool_oracle_schem.Base.{ℕ, List}
use cognic_tool_oracle_schem.Credential.Keeps.{with_event}
use cognic_tool_oracle_schem.Readonly.Sqlglot.{Sqlglot}
use cognic_tool_oracle_schem.Readonly.Run.Events.{IsPoolFree}
use cognic_tool_oracle_schem.Readonly.Run.SingleUse.{Call}
use cognic_tool_oracle_schem.Readonly.Run.Entry.{enter}
use cognic_tool_oracle_schem.Oracle.Tasks.{Query, System, turn}
use cognic_tool_oracle_schem.Host.{Event, Host}

module _ (h : Host) (g : Sqlglot) (query : ℕ → Query) where
  pub data Step (s : System) : System → Type 0 where
    -- a request of a metadata tool goes on
    resumed : (i : ℕ) → Step s (turn h query i s)
    -- a governed call comes in
    entered : (c : Call) → Step s (record s { world = (enter h g c.args c.token s.world).1 })
    -- an event that is none of the pool's
    elsewhere : (e : Event) → IsPoolFree e → Step s (record s { world = with_event e s.world })

  -- Some steps, one after the other, each of them a fine one.
  pub data Trace (fine : (s t : System) → Step s t → Type 0) (s : System) : System → Type 0 where
    here : Trace fine s s
    later : {t u : System} → Trace fine s t → (step : Step t u) → fine t u step → Trace fine s u
