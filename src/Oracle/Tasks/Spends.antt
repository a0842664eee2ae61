-- ===== src/Oracle/Tasks/Spends.antt =====
-- How many pools a request can still ask for: a step spends what it uses.
use cognic_tool_oracle_schem.Base.{
  ℕ, ◌+◌, ◌≤◌, refl, inl, inr, Bool, true, false, Option, none, some, arith, Bool-cases,
}
use cognic_tool_oracle_schem.Python.Exception.{Exc, Result, ok, raised}
use cognic_tool_oracle_schem.Credential.Costs.{IsNotReading, read_credential-Costs}
use cognic_tool_oracle_schem.Readonly.Execute.{is_auth_error}
use cognic_tool_oracle_schem.Oracle.{
  no_pool, set_pool, get_pool, require_pool, init_pool, fetch_once,
}
use cognic_tool_oracle_schem.Oracle.Tasks.{
  Query, Stage, starting, querying, closing, querying_again, returned, escaped, reopen, recover,
  resume,
}
use cognic_tool_oracle_schem.Host.{
  Event, pool_created, Host, World, M, pure, raise, catch, handle, continue, ◌>>=◌,
}
use cognic_tool_oracle_schem.Host.Costs.{
  count, Costs, Costs-pure, Costs-raise, Costs-other, Costs-perform, Costs-bind,
}

-- A pool is asked for.
abbrev pub is_making : Event → Bool
is_making (pool_created args pool) = true
is_making _ = false

-- The pools that a request may still ask for.
abbrev pub to_make : Stage → ℕ
to_make starting = 1
to_make (querying pool) = 1
to_make (closing pool) = 1
to_make _ = 0

abbrev pub left : Result Stage → ℕ
left (ok stage) = to_make stage
left (raised exc) = 0

-- The pools that were asked for, and those that still may be, are at most `n` more than before.
pub record Spends (n : ℕ) (m : M Stage) : Type 0 where
  pub at :
      (w : World) → count is_making (m w).1.events + left (m w).0 ≤ n + count is_making w.events

Spends-pure : (n : ℕ) (stage : Stage) → to_make stage ≤ n → Spends n (pure stage)
unfolding pure
Spends-pure n stage enough = record { at = λ w. omega (arith, enough) }

Spends-raise : (n : ℕ) (e : Exc) → Spends n (raise e)
unfolding raise
Spends-raise n e = record { at = λ w. omega arith }

Spends-bind {ℓ} :
    {A : Type ℓ} (n k : ℕ) (m : M A) (f : A → M Stage)
    → Costs is_making n m
    → ((a : A) → Spends k (f a))
    → Spends (n + k) (m >>= f)
unfolding ◌>>=◌
Spends-bind {A} n k m f c s = record {
  at = λ w. let first = c.at w in let rest = go (m w).0 (m w).1 in omega (arith, first, rest);
}
  where
    go :
        (r : Result A) (v : World)
        → count is_making (continue r f v).1.events + left (continue r f v).0
          ≤ k + count is_making v.events
    go (ok a) v = (s a).at v
    go (raised e) v = omega arith

Spends-catch :
    (n k : ℕ) (rescue : Exc → Bool) (m : M Stage) (handler : Exc → M Stage)
    → Spends n m
    → ((e : Exc) → Spends k (handler e))
    → Spends (n + k) (catch rescue m handler)
unfolding catch
Spends-catch n k rescue m handler s sh = record {
  at = λ w. let first = s.at w in let rest = go (m w).0 (m w).1 in omega (arith, first, rest);
}
  where
    go :
        (r : Result Stage) (v : World)
        → count is_making (handle r handler rescue v).1.events + left (handle r handler rescue v).0
          ≤ k + (count is_making v.events + left r)
    go (ok stage) v = omega arith
    go (raised e) v = elim (Bool-cases (rescue e)) [
      | inl caught ↦ let more = (sh e).at v in rw caught (omega (arith, more))
      | inr passes ↦ rw passes (omega arith)
    ]

is_making-IsNotReading : IsNotReading is_making
is_making-IsNotReading = record { resolving = λ p. refl; looking = λ p. refl; reading = λ p. refl }

module _ (h : Host) (q : Query) where
  get_pool-Costs : Costs is_making 0 get_pool
  unfolding get_pool
  get_pool-Costs = record { at = λ w. omega arith }

  set_pool-Costs : (pool : Option ℕ) → Costs is_making 0 (set_pool pool)
  unfolding set_pool
  set_pool-Costs pool = record { at = λ w. omega arith }

  require_pool-Costs : Costs is_making 0 require_pool
  unfolding require_pool
  require_pool-Costs = Costs-bind 0 0 _ _ get_pool-Costs found
    where
      found :
          (p : Option ℕ)
          → Costs {A = ℕ} is_making 0
              (elim p [ none ↦ raise {A = ℕ} no_pool | some pool ↦ pure pool ])
      found none = Costs-raise _
      found (some pool) = Costs-pure _

  init_pool-Costs : Costs is_making 1 (init_pool h q.cfg)
  unfolding init_pool
  init_pool-Costs =
      Costs-bind 0 1 _ _
        (read_credential-Costs h is_making q.cfg.oracle_password_file is_making-IsNotReading)
        (λ credential. Costs-bind 1 0 _ _ (Costs-perform _ _) (λ pool. set_pool-Costs (some pool)))

  fetch_once-Costs : (pool : ℕ) → Costs is_making 0 (fetch_once h pool q.sql q.binds q.limit)
  unfolding fetch_once
  fetch_once-Costs pool = Costs-bind 0 0 _ _ (Costs-other _ _ (λ r. refl)) (λ rows. Costs-pure _)

  reopen-Spends : Spends 1 (reopen h q)
  unfolding reopen
  reopen-Spends = Spends-bind 1 0 _ _ init_pool-Costs (λ made.
      Spends-bind 0 0 _ _ require_pool-Costs
        (λ pool. Spends-pure 0 (querying_again pool) (omega arith)))

  -- What `recover` does with the pool that it finds.
  abbrev found_stage : Option ℕ → M Stage
  found_stage found = elim found [ none ↦ reopen h q | some p ↦ pure (closing p) ]

  recover-Spends : (exc : Exc) → Spends 1 (recover h q exc)
  unfolding recover
  recover-Spends exc = elim (Bool-cases (is_auth_error exc)) [
    | inr other ↦ rw other (Spends-raise 1 exc)
    | inl auth ↦ rw auth (Spends-bind 0 1 _ found_stage get_pool-Costs found)
  ]
    where
      found : (p : Option ℕ) → Spends 1 (found_stage p)
      found none = reopen-Spends
      found (some p) = Spends-pure 1 (closing p) (omega arith)

  pub resume-Spends : (stage : Stage) → Spends (to_make stage) (resume h q stage)
  unfolding resume
  resume-Spends starting =
      Spends-bind 0 1 _ _ require_pool-Costs (λ pool. Spends-pure 1 (querying pool) (omega arith))
  resume-Spends (querying pool) =
      Spends-catch 0 1 _ _ _
        (Spends-bind 0 0 _ _ (fetch_once-Costs pool)
          (λ page. Spends-pure 0 (returned page) (omega arith)))
        recover-Spends
  resume-Spends (closing pool) =
      Spends-bind 0 1 _ _ (Costs-other _ _ (λ r. refl))
        (λ done. Spends-bind 0 1 _ _ (set_pool-Costs none) (λ reset. reopen-Spends))
  resume-Spends (querying_again pool) =
      Spends-bind 0 0 _ _ (fetch_once-Costs pool)
        (λ page. Spends-pure 0 (returned page) (omega arith))
  resume-Spends (returned page) = Spends-pure 0 (returned page) (omega arith)
  resume-Spends (escaped exc) = Spends-pure 0 (escaped exc) (omega arith)
