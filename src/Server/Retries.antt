-- ===== src/Server/Retries.antt =====
-- How often a metadata tool asks the pool.
use cognic_tool_oracle_schem.Base.{
  ℕ, ◌+◌, ◌≤◌, refl, Bool, true, false, List, Option, none, some, arith, ℤ, Text,
}
use cognic_tool_oracle_schem.Python.Exception.{Exc, Result, is_ok}
use cognic_tool_oracle_schem.Config.{Config}
use cognic_tool_oracle_schem.Credential.Costs.{IsNotReading, read_credential-Costs}
use cognic_tool_oracle_schem.Readonly.Cell.{Cell}
use cognic_tool_oracle_schem.Readonly.Reason.{Row}
use cognic_tool_oracle_schem.Oracle.{
  no_pool, set_pool, get_pool, require_pool, init_pool, close_pool, fetch_once, fetch_again, fetch,
}
use cognic_tool_oracle_schem.Tools.{Listing, each}
use cognic_tool_oracle_schem.Tools.Calls.{
  list_schemas, list_tables, describe_table, find_columns, list_relationships, get_constraints,
}
use cognic_tool_oracle_schem.Server.{
  Request, schemas, tables, columns, matching, relationships, constraints, answer,
}
use cognic_tool_oracle_schem.Host.{
  Binds, Event, pool_closed, pool_queried, Host, World, pure, raise, perform, lift, ◌>>=◌, ◌>>◌,
}
use cognic_tool_oracle_schem.Host.Costs.{
  count, Costs, Costs-pure, Costs-raise, Costs-lift, Costs-other, Costs-perform, Costs-more,
  Costs-bind, Costs-catch, Costs-if,
}

abbrev pub is_query : Event → Bool
is_query (pool_queried pool sql binds done) = true
is_query _ = false

is_query-IsNotReading : IsNotReading is_query
is_query-IsNotReading = record { resolving = λ p. refl; looking = λ p. refl; reading = λ p. refl }

module _ (h : Host) (cfg : Config) where
  get_pool-Costs : Costs is_query 0 get_pool
  unfolding get_pool
  get_pool-Costs = record { at = λ w. omega arith }

  set_pool-Costs : (pool : Option ℕ) → Costs is_query 0 (set_pool pool)
  unfolding set_pool
  set_pool-Costs pool = record { at = λ w. omega arith }

  require_pool-Costs : Costs is_query 0 require_pool
  unfolding require_pool
  require_pool-Costs = Costs-bind 0 0 _ _ get_pool-Costs found
    where
      found :
          (p : Option ℕ)
          → Costs {A = ℕ} is_query 0
              (elim p [ none ↦ raise {A = ℕ} no_pool | some pool ↦ pure pool ])
      found none = Costs-raise _
      found (some pool) = Costs-pure _

  init_pool-Costs : Costs is_query 0 (init_pool h cfg)
  unfolding init_pool
  init_pool-Costs =
      Costs-bind 0 0 _ _
        (read_credential-Costs h is_query cfg.oracle_password_file is_query-IsNotReading)
        (λ credential.
          Costs-bind 0 0 _ _ (Costs-other _ _ (λ r. refl)) (λ pool. set_pool-Costs (some pool)))

  close_pool-Costs : Costs is_query 0 (close_pool h)
  unfolding close_pool
  close_pool-Costs = Costs-bind 0 0 _ _ get_pool-Costs found
    where
      found :
          (p : Option ℕ)
          → Costs {A = Unit {0}} is_query 0 (elim p [
            | none ↦ pure tt
            | some pool ↦ (do
              perform (λ past. h.close_pool past pool) (λ r. pool_closed pool (is_ok r))
              set_pool none)
          ])
      found none = Costs-pure _
      found (some pool) =
          Costs-bind 0 0 _ _ (Costs-other _ _ (λ r. refl)) (λ done. set_pool-Costs none)

  module _ (sql : Text) (binds : Binds) (limit : ℤ) where
    fetch_once-Costs : (pool : ℕ) → Costs is_query 1 (fetch_once h pool sql binds limit)
    unfolding fetch_once
    fetch_once-Costs pool = Costs-bind 1 0 _ _ (Costs-perform _ _) (λ rows. Costs-pure _)

    fetch_again-Costs : (exc : Exc) → Costs is_query 1 (fetch_again h sql binds limit cfg exc)
    unfolding fetch_again
    fetch_again-Costs exc = Costs-if 1 _ _ _ (Costs-more 0 1 _ (omega arith) (Costs-raise _)) (
        Costs-bind 0 1 _ _ close_pool-Costs (λ closed.
          Costs-bind 0 1 _ _ init_pool-Costs
            (λ made. Costs-bind 0 1 _ _ require_pool-Costs fetch_once-Costs)))

    fetch-Costs : Costs is_query 2 (fetch h sql binds limit cfg)
    unfolding fetch
    fetch-Costs =
        Costs-bind 0 2 _ _ require_pool-Costs
          (λ pool. Costs-catch 1 1 _ _ _ (fetch_once-Costs pool) fetch_again-Costs)

  page-Costs :
      (sql : Text) (binds : Binds) (f : List Cell → Result Row)
      → Costs {A = Listing} is_query 2 (do
        page ← fetch h sql binds cfg.max_rows cfg
        items ← lift (each f page.0)
        pure (record { items = items; truncated = page.1 }))
  page-Costs sql binds f =
      Costs-bind 2 0 _ _ (fetch-Costs _ _ _)
        (λ page. Costs-bind 0 0 _ _ (Costs-lift _) (λ items. Costs-pure _))

  answer-Costs : (request : Request) → Costs is_query 2 (answer h cfg request)
  unfolding list_schemas list_tables describe_table find_columns list_relationships get_constraints
  answer-Costs schemas = Costs-bind 0 2 _ _ (Costs-lift _) (λ pred. page-Costs _ _ _)
  answer-Costs (tables owner) = Costs-bind 0 2 _ _ (Costs-lift _) (λ norm. page-Costs _ _ _)
  answer-Costs (columns owner table) = Costs-bind 0 2 _ _ (Costs-lift _) (λ norm. page-Costs _ _ _)
  answer-Costs (matching name_pattern owner) =
      Costs-bind 0 2 _ _ (Costs-lift _) (λ pred. page-Costs _ _ _)
  answer-Costs (relationships owner table) =
      Costs-bind 0 2 _ _ (Costs-lift _) (λ norm. page-Costs _ _ _)
  answer-Costs (constraints owner table) =
      Costs-bind 0 2 _ _ (Costs-lift _) (λ norm. page-Costs _ _ _)

  -- A call of a metadata tool sends its query at most twice: however the driver answers, there is one
  -- second try and no third.
  pub answer-two_tries :
      (request : Request) (w : World)
      → count is_query (answer h cfg request w).1.events ≤ 2 + count is_query w.events
  answer-two_tries request w = (answer-Costs request).at w
