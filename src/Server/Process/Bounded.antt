-- ===== src/Server/Process/Bounded.antt =====
-- How many pools the requests of the metadata tools ask for.
use cognic_tool_oracle_schem.Base.{
  ℕ, zero, suc, ◌+◌, ◌==◌, ◌≡◌, ◌≤◌, ◌<◌, refl, ap, inl, inr, false, arith, Bool-cases, ==_iff,
}
use cognic_tool_oracle_schem.Python.Exception.{Result, ok, raised}
use cognic_tool_oracle_schem.Readonly.Sqlglot.{Sqlglot}
use cognic_tool_oracle_schem.Readonly.Run.Events.{IsPoolFree, IsPoolProperty}
use cognic_tool_oracle_schem.Readonly.Run.Entry.Keeps.{enter-Keeps}
use cognic_tool_oracle_schem.Oracle.Tasks.{Query, Stage, System, init, resume, settle, turn, update}
use cognic_tool_oracle_schem.Oracle.Tasks.Spends.{is_making, to_make, left, resume-Spends}
use cognic_tool_oracle_schem.Server.Process.{Step, resumed, entered, elsewhere, Trace, here, later}
use cognic_tool_oracle_schem.Host.{Event, pool_created, pool_closed, pool_queried, Host, World}
use cognic_tool_oracle_schem.Host.Costs.{count}

-- The pools that the first `n` requests may still ask for.
abbrev total : (ℕ → Stage) → ℕ → ℕ
total stage zero = 0
total stage (suc n) = total stage n + to_make (stage n)

total-update_beyond :
    (stage : ℕ → Stage) (i : ℕ) (s : Stage) (n : ℕ)
    → n ≤ i
    → total (update stage i s) n ≡ total stage n
total-update_beyond stage i s zero above = refl
total-update_beyond stage i s (suc n) above =
    let before = total-update_beyond stage i s n (omega (arith, above)) in
    elim (Bool-cases (i == n)) [
      | inl same ↦ let equal = (==_iff i n).0 same in absurd (omega (arith, above, equal))
      | inr other ↦ rw (other, before) refl
    ]

==-not_last : (i n : ℕ) → i < suc n → (i == n) ≡ false → i < n
==-not_last i n below other = ground arith

total-update :
    (stage : ℕ → Stage) (i : ℕ) (s : Stage) (n : ℕ)
    → i < n
    → total (update stage i s) n + to_make (stage i) ≡ total stage n + to_make s
total-update stage i s zero below = absurd (omega (arith, below))
total-update stage i s (suc n) below = elim (Bool-cases (i == n)) [
  | inl same ↦
      let equal = (==_iff i n).0 same in
      let beyond = total-update_beyond stage i s n (omega (arith, equal)) in
      let own : to_make (stage i) ≡ to_make (stage n) = ap (λ j. to_make (stage j)) equal in
      rw same (omega (arith, beyond, own))
  | inr other ↦
      let before = total-update stage i s n (==-not_last i n below other) in
      rw other (omega (arith, before))
]

-- The count is this one.
record Counts (n : ℕ) (w : World) : Type 0 where
  counted : count is_making w.events ≡ n

IsPoolFree-is_making : (e : Event) → IsPoolFree e → is_making e ≡ false
IsPoolFree-is_making e = elim e as (λ k. IsPoolFree k → is_making k ≡ false) [
  | pool_created args pool ↦ λ free. absurd free
  | pool_closed pool done ↦ λ free. refl
  | pool_queried pool sql binds done ↦ λ free. refl
  | _ ↦ λ free. refl
]

Counts-IsPoolProperty : (n : ℕ) → IsPoolProperty (Counts n)
Counts-IsPoolProperty n = record {
  event = λ e w free c. record { counted = rw (IsPoolFree-is_making e free) c.counted };
  cache = λ seen w c. record { counted = c.counted };
}

settle-left :
    (r : Result Stage) (w : World) → (to_make (settle (r, w)).0 ≡ left r) × ((settle (r, w)).1 ≡ w)
settle-left (ok stage) w = (refl, refl)
settle-left (raised exc) w = (refl, refl)

-- What was asked for, and what still may be by the first `n` requests.
abbrev due : ℕ → System → ℕ
due n s = count is_making s.world.events + total s.stage n

turn-due :
    (h : Host) (query : ℕ → Query) (n i : ℕ) (s : System)
    → i < n
    → due n (turn h query i s) ≤ due n s
unfolding turn
turn-due h query n i s below =
    let (r, w) = resume h (query i) (s.stage i) s.world in
    let spent = (resume-Spends h (query i) (s.stage i)).at s.world in
    let (kept, same) = settle-left r w in
    let moved = total-update s.stage i (settle (r, w)).0 n below in
    rw same (omega (arith, spent, kept, moved))

module _ (h : Host) (g : Sqlglot) (query : ℕ → Query) where
  -- Of the metadata requests, only the first `n` go on.
  abbrev pub Among : ℕ → (s t : System) → Step h g query s t → Type 0
  Among n s _ (resumed i) = i < n
  Among n s _ (entered c) = Unit
  Among n s _ (elsewhere e free) = Unit

  Step-due :
      (n : ℕ) (s t : System) (step : Step h g query s t) → Among n s t step → due n t ≤ due n s
  Step-due n s _ (resumed i) below = turn-due h query n i s below
  Step-due n s _ (entered c) one =
      let same =
        ((enter-Keeps h g (Counts-IsPoolProperty (count is_making s.world.events)) c.args
            c.token).at
          s.world (record { counted = refl })).counted in
      omega (arith, same)
  Step-due n s _ (elsewhere e free) one = rw (IsPoolFree-is_making e free) (omega arith)

  Trace-due : (n : ℕ) (s t : System) → Trace h g query (Among n) s t → due n t ≤ due n s
  Trace-due n s _ here = omega arith
  Trace-due n s _ (later {t} {u} trace step fine) =
      let so_far = Trace-due n s t trace in
      let last = Step-due n t u step fine in omega (arith, so_far, last)

  total-init : (w : World) (n : ℕ) → total (init w).stage n ≡ n
  total-init w zero = refl
  total-init w (suc n) = let rest = total-init w n in omega (arith, rest)

  -- However `n` metadata requests interleave with each other, with governed calls and with the driver
  -- calls of these, also while several of them reconnect, they ask the driver for at most `n` pools.
  pub requests_make_few_pools :
      (n : ℕ) (w : World) (t : System)
      → Trace h g query (Among n) (init w) t
      → count is_making t.world.events ≤ n + count is_making w.events
  requests_make_few_pools n w t trace =
      let most = Trace-due n (init w) t trace in
      let start = total-init w n in omega (arith, most, start)
