-- ===== src/Oracle/Tasks.antt =====
-- oracle.py: requests of the metadata tools that run side by side in the event loop. A request gives
-- way to the others at its awaits: the first query, the close of the pool and the second query. What
-- stands between two awaits is one step, in which the answer of the earlier await arrives. How the
-- steps follow each other, and other steps of the process, is in Server/Process.
pub mod Alone
pub mod Serial
pub mod Frame
pub mod Spends
use cognic_tool_oracle_schem.Base.{
  ℕ, ◌==◌, Bool, true, false, not, List, Option, none, some, if◌then◌else◌, ℤ, Text,
}
use cognic_tool_oracle_schem.Python.Exception.{Exc, Result, ok, raised, is_ok}
use cognic_tool_oracle_schem.Config.{Config}
use cognic_tool_oracle_schem.Readonly.Cell.{Cell}
use cognic_tool_oracle_schem.Readonly.Execute.{is_auth_error}
use cognic_tool_oracle_schem.Oracle.{set_pool, get_pool, require_pool, init_pool, fetch_once}
use cognic_tool_oracle_schem.Host.{
  Binds, Event, pool_closed, Host, World, M, pure, raise, perform, catch, is_exception, ◌>>=◌, ◌>>◌,
}

-- The arguments of `fetch`.
pub record Query : Type 0 where
  pub sql : Text
  pub binds : Binds
  pub limit : ℤ
  pub cfg : Config

-- Where a request stands: before its first step, at one of its awaits, or behind its end.
pub data Stage : Type 0 where
  starting : Stage
  querying : ℕ → Stage
  closing : ℕ → Stage
  querying_again : ℕ → Stage
  returned : List (List Cell) × Bool → Stage
  escaped : Exc → Stage

module _ (h : Host) where
  -- `init_pool(cfg)` and `_require_pool()`, between which nothing is awaited.
  unfoldable pub reopen : Query → M Stage
  reopen q = do init_pool h q.cfg; pool ← require_pool; pure (querying_again pool)

  -- The handler of the first try, up to its await: `close_pool` has none where there is no pool.
  unfoldable pub recover : Query → Exc → M Stage
  recover q exc =
      if not (is_auth_error exc)
      then raise exc
      else (do found ← get_pool; elim found [ none ↦ reopen q | some pool ↦ pure (closing pool) ])

  -- One step of a request.
  unfoldable pub resume : Query → Stage → M Stage
  resume q starting = do pool ← require_pool; pure (querying pool)
  resume q (querying pool) =
      catch is_exception (do page ← fetch_once h pool q.sql q.binds q.limit; pure (returned page))
        (recover q)
  resume q (closing pool) = do
    perform (λ past. h.close_pool past pool) (λ r. pool_closed pool (is_ok r))
    set_pool none
    reopen q
  resume q (querying_again pool) = do
    page ← fetch_once h pool q.sql q.binds q.limit
    pure (returned page)
  resume q (returned page) = pure (returned page)
  resume q (escaped exc) = pure (escaped exc)

-- An exception ends the request.
abbrev pub settle : Result Stage × World → Stage × World
settle (ok stage, w) = (stage, w)
settle (raised exc, w) = (escaped exc, w)

-- The requests of a process, each known by a number, and where they stand.
pub record System : Type 0 where
  pub world : World
  pub stage : ℕ → Stage

abbrev pub update : (ℕ → Stage) → ℕ → Stage → ℕ → Stage
update stage i s j = if i == j then s else stage j

module _ (h : Host) (query : ℕ → Query) where
  -- The system when request `i` has made its next step.
  unfoldable pub turn : ℕ → System → System
  turn i s =
      let (stage, world) = settle (resume h (query i) (s.stage i) s.world) in
      record { world = world; stage = update s.stage i stage }

-- The requests start from a world.
abbrev pub init : World → System
init w = record { world = w; stage = λ i. starting }
