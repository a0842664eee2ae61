-- ===== src/Server/Process/Ends.antt =====
-- The end of a metadata request among others.
use cognic_tool_oracle_schem.Base.{
  ℕ, suc, ◌-◌, ◌==◌, ◌≡◌, ◌≤◌, ap, inl, inr, Option, none, some, arith, Bool-cases, ==_iff,
  if◌then◌else◌,
}
use cognic_tool_oracle_schem.Python.Exception.{Exc, Result-cases}
use cognic_tool_oracle_schem.Readonly.Sqlglot.{Sqlglot}
use cognic_tool_oracle_schem.Readonly.Execute.{is_auth_error}
use cognic_tool_oracle_schem.Oracle.Tasks.{
  Query, Stage, starting, querying, closing, querying_again, returned, escaped, reopen, recover,
  resume, settle, System, turn,
}
use cognic_tool_oracle_schem.Server.Process.{Step, resumed, entered, elsewhere, Trace, here, later}
use cognic_tool_oracle_schem.Host.{Host, World, M, pure}
use cognic_tool_oracle_schem.Host.Yields.{
  Yields, Yields-bind, Yields-raise, Yields-catch, Yields-pure,
}

-- The request has returned, or an exception has left it.
abbrev pub IsEnded : Stage → Type 0
IsEnded (returned page) = Unit
IsEnded (escaped exc) = Unit
IsEnded stage = ⊥

-- The steps that are left at most.
abbrev rank : Stage → ℕ
rank starting = 4
rank (querying pool) = 3
rank (closing pool) = 2
rank (querying_again pool) = 1
rank _ = 0

rank-IsEnded : (stage : Stage) → rank stage ≤ 0 → IsEnded stage
rank-IsEnded starting none_left = absurd (omega (arith, none_left))
rank-IsEnded (querying pool) none_left = absurd (omega (arith, none_left))
rank-IsEnded (closing pool) none_left = absurd (omega (arith, none_left))
rank-IsEnded (querying_again pool) none_left = absurd (omega (arith, none_left))
rank-IsEnded (returned page) none_left = tt
rank-IsEnded (escaped exc) none_left = tt

rank_le : (stage : Stage) → rank stage ≤ 4
rank_le starting = omega arith
rank_le (querying pool) = omega arith
rank_le (closing pool) = omega arith
rank_le (querying_again pool) = omega arith
rank_le (returned page) = omega arith
rank_le (escaped exc) = omega arith

module _ (h : Host) (q : Query) where
  abbrev AtMost : ℕ → Stage → Type 0
  AtMost n stage = rank stage ≤ n

  reopen-AtMost : (n : ℕ) → 1 ≤ n → Yields (AtMost n) (reopen h q)
  unfolding reopen
  reopen-AtMost n some_left =
      Yields-bind _ _
        (λ made. Yields-bind _ _ (λ pool. Yields-pure (querying_again pool) some_left))

  -- What `recover` does with the pool that it finds.
  abbrev found_stage : Option ℕ → M Stage
  found_stage found = elim found [ none ↦ reopen h q | some p ↦ pure (closing p) ]

  recover-AtMost : (exc : Exc) → Yields (AtMost 2) (recover h q exc)
  unfolding recover
  recover-AtMost exc = elim (Bool-cases (is_auth_error exc)) [
    | inr other ↦ rw other (Yields-raise exc)
    | inl auth ↦ rw auth (Yields-bind _ found_stage found)
  ]
    where
      found : (p : Option ℕ) → Yields (AtMost 2) (found_stage p)
      found none = reopen-AtMost 2 (omega arith)
      found (some p) = Yields-pure (closing p) (omega arith)

  resume-AtMost : (stage : Stage) → Yields (AtMost (rank stage - 1)) (resume h q stage)
  unfolding resume
  resume-AtMost starting = Yields-bind _ _ (λ pool. Yields-pure (querying pool) (omega arith))
  resume-AtMost (querying pool) =
      Yields-catch _ _ _ (Yields-bind _ _ (λ page. Yields-pure (returned page) (omega arith)))
        recover-AtMost
  resume-AtMost (closing pool) =
      Yields-bind _ _ (λ done. Yields-bind _ _ (λ reset. reopen-AtMost 1 (omega arith)))
  resume-AtMost (querying_again pool) =
      Yields-bind _ _ (λ page. Yields-pure (returned page) (omega arith))
  resume-AtMost (returned page) = Yields-pure (returned page) (omega arith)
  resume-AtMost (escaped exc) = Yields-pure (escaped exc) (omega arith)

  settle-rank : (stage : Stage) (w : World) → rank (settle (resume h q stage w)).0 ≤ rank stage - 1
  settle-rank stage w = elim (Result-cases (resume h q stage w).0) [
    | inl (next, e) ↦ let lower = (resume-AtMost stage).holds w next e in rw e lower
    | inr (exc, e) ↦ rw e (omega arith)
  ]

module _ (h : Host) (g : Sqlglot) (query : ℕ → Query)
    (fine : (s t : System) → Step h g query s t → Type 0) where
  -- How often request `i` goes on.
  abbrev pub taken : ℕ → {s t : System} → Trace h g query fine s t → ℕ
  taken i here = 0
  taken i (later trace (resumed j) good) =
      let before = taken i trace in if j == i then suc before else before
  taken i (later trace (entered c) good) = taken i trace
  taken i (later trace (elsewhere e free) good) = taken i trace

  turn-rank :
      (i j : ℕ) (s : System)
      → rank ((turn h query j s).stage i)
        ≤ (if j == i then rank (s.stage i) - 1 else rank (s.stage i))
  unfolding turn
  turn-rank i j s = elim (Bool-cases (j == i)) [
    | inl same ↦
        let lower = settle-rank h (query j) (s.stage j) s.world in
        let own : rank (s.stage j) ≡ rank (s.stage i) =
          ap (λ k. rank (s.stage k)) ((==_iff j i).0 same) in
        rw same (omega (arith, lower, own))
    | inr other ↦ rw other (omega arith)
  ]

  Trace-rank :
      (i : ℕ) (s t : System) (trace : Trace h g query fine s t)
      → rank (t.stage i) ≤ rank (s.stage i) - taken i trace
  Trace-rank i s _ here = omega arith
  Trace-rank i s _ (later {t} trace (resumed j) good) =
      let before = Trace-rank i s t trace in
      let last = turn-rank i j t in
      elim (Bool-cases (j == i)) [
        | inl same ↦ rw same (omega (arith, before, rw same at last))
        | inr other ↦ rw other (omega (arith, before, rw other at last))
      ]
  Trace-rank i s _ (later {t} trace (entered c) good) = Trace-rank i s t trace
  Trace-rank i s _ (later {t} trace (elsewhere e free) good) = Trace-rank i s t trace

  -- A metadata request that has gone on four times is at its end, wherever it stood, whatever the driver
  -- answered, and however other requests, governed calls and their driver calls came in between.
  pub metadata_request_ends :
      (i : ℕ) (s t : System) (trace : Trace h g query fine s t)
      → 4 ≤ taken i trace
      → IsEnded (t.stage i)
  metadata_request_ends i s t trace enough =
      let left = Trace-rank i s t trace in
      let most = rank_le (s.stage i) in rank-IsEnded (t.stage i) (omega (arith, left, most, enough))
