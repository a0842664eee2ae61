-- ===== src/Server/Process/Pools.antt =====
-- The pool of the metadata tools while the requests of the server interleave.
use cognic_tool_oracle_schem.Base.{
  ℕ, ◌==◌, ◌≡◌, inl, inr, Bool-cases, ==_iff, false, List, ◌∷◌, refl, sym, ◌∙◌,
}
use cognic_tool_oracle_schem.Python.Exception.{Result, ok, raised}
use cognic_tool_oracle_schem.Credential.Keeps.{with_event}
use cognic_tool_oracle_schem.Readonly.Replay.{Seen}
use cognic_tool_oracle_schem.Readonly.Sqlglot.{Sqlglot}
use cognic_tool_oracle_schem.Readonly.Run.Events.{IsPoolFree, IsPoolProperty}
use cognic_tool_oracle_schem.Readonly.Run.Entry.Keeps.{enter-Keeps}
use cognic_tool_oracle_schem.Server.Process.{Step, resumed, entered, elsewhere, Trace, here, later}
use cognic_tool_oracle_schem.Oracle.Lifecycle.{opened}
use cognic_tool_oracle_schem.Oracle.Tasks.{
  Query, Stage, starting, querying, closing, querying_again, returned, escaped, resume, settle,
  System, turn,
}
use cognic_tool_oracle_schem.Oracle.Tasks.Serial.{AreOrderly, IsOrderly, Fits, Rests, resume-Rests}
use cognic_tool_oracle_schem.Oracle.Tasks.Frame.{IsClosing, resume-Fits}
use cognic_tool_oracle_schem.Host.{Event, pool_created, pool_closed, pool_queried, Host, World}

-- At most one request is closing a pool.
pub record IsSerial (s : System) : Type 0 where
  pub same : (i j : ℕ) → IsClosing (s.stage i) → IsClosing (s.stage j) → i ≡ j

pub record IsHealthy (s : System) : Type 0 where
  pub orderly : IsOrderly s.world
  pub fits : (i : ℕ) → Fits (s.stage i) s.world

settle-Fits :
    (r : Result Stage) (w : World)
    → Rests r w
    → IsOrderly (settle (r, w)).1 × Fits (settle (r, w)).0 (settle (r, w)).1
settle-Fits (ok stage) w t = t
settle-Fits (raised exc) w t = (t, tt)

pub settle-world : (r : Result Stage) (w : World) → (settle (r, w)).1 ≡ w
settle-world (ok stage) w = refl
settle-world (raised exc) w = refl

turn-IsHealthy :
    (h : Host) (query : ℕ → Query) (i : ℕ) (s : System)
    → IsSerial s
    → IsHealthy s
    → IsHealthy (turn h query i s)
unfolding turn
turn-IsHealthy h query i s serial healthy =
    let (r, w) = resume h (query i) (s.stage i) s.world in
    let own =
      settle-Fits r w
        ((resume-Rests h (query i) (s.stage i)).at s.world (healthy.orderly, healthy.fits i)) in
    record {
      orderly = own.0;
      fits = λ j. elim (Bool-cases (i == j)) [
        | inl same ↦ rw same own.1
        | inr other ↦
            rw (other, settle-world r w)
              (resume-Fits h (query i) (s.stage i) (s.stage j) s.world
                (λ b a. absurd (apart (serial.same i j a b) other)) (healthy.fits j))
      ];
    }
  where
    apart : {j : ℕ} → i ≡ j → (i == j) ≡ false → ⊥
    apart {j} same other = let both = (==_iff i j).1 same in cc

IsPoolFree-orderly :
    (e : Event) (past : List Event)
    → IsPoolFree e
    → (opened (e ∷ past) ≡ opened past) × (AreOrderly past → AreOrderly (e ∷ past))
IsPoolFree-orderly e past =
    elim e
      as (λ k.
        IsPoolFree k
        → (opened (k ∷ past) ≡ opened past) × (AreOrderly past → AreOrderly (k ∷ past))) [
          | pool_created args pool ↦ λ free. absurd free
          | pool_closed pool done ↦ λ free. absurd free
          | pool_queried pool sql binds done ↦ λ free. absurd free
          | _ ↦ λ free. (refl, λ fine. fine)
        ]

event-Fits : (stage : Stage) (e : Event) (w : World) → Fits stage w → Fits stage (with_event e w)
event-Fits starting e w fits = tt
event-Fits (querying pool) e w fits = inr fits
event-Fits (closing pool) e w fits = fits
event-Fits (querying_again pool) e w fits = inr fits
event-Fits (returned page) e w fits = tt
event-Fits (escaped exc) e w fits = tt

seen-Fits :
    (stage : Stage) (seen : Seen) (w : World) → Fits stage w → Fits stage (record w { seen = seen })
seen-Fits starting seen w fits = tt
seen-Fits (querying pool) seen w fits = fits
seen-Fits (closing pool) seen w fits = fits
seen-Fits (querying_again pool) seen w fits = fits
seen-Fits (returned page) seen w fits = tt
seen-Fits (escaped exc) seen w fits = tt

IsOrderly-IsPoolProperty : IsPoolProperty IsOrderly
IsOrderly-IsPoolProperty = record {
  event = λ e w free t.
      let (same, fine) = IsPoolFree-orderly e w.events free in
      record { held = t.held ∙ sym same; orderly = fine t.orderly };
  cache = λ seen w t. record { held = t.held; orderly = t.orderly };
}

-- What a stage relies on, as a record.
record Suits (stage : Stage) (w : World) : Type 0 where
  fits : Fits stage w

Suits-IsPoolProperty : (stage : Stage) → IsPoolProperty (Suits stage)
Suits-IsPoolProperty stage = record {
  event = λ e w free t. record { fits = event-Fits stage e w t.fits };
  cache = λ seen w t. record { fits = seen-Fits stage seen w t.fits };
}

module _ (h : Host) (g : Sqlglot) (query : ℕ → Query) where
  -- At most one request is closing a pool when the step is taken.
  abbrev pub Serial : (s t : System) → Step h g query s t → Type 0
  Serial s t step = IsSerial s

  Step-IsHealthy : (s t : System) → IsSerial s → Step h g query s t → IsHealthy s → IsHealthy t
  Step-IsHealthy s _ serial (resumed i) healthy = turn-IsHealthy h query i s serial healthy
  Step-IsHealthy s _ serial (entered c) healthy = record {
    orderly = (enter-Keeps h g IsOrderly-IsPoolProperty c.args c.token).at s.world healthy.orderly;
    fits = λ i.
        ((enter-Keeps h g (Suits-IsPoolProperty (s.stage i)) c.args c.token).at s.world
          (record { fits = healthy.fits i })).fits;
  }
  Step-IsHealthy s _ serial (elsewhere e free) healthy = record {
    orderly = IsOrderly-IsPoolProperty.event e s.world free healthy.orderly;
    fits = λ i. event-Fits (s.stage i) e s.world (healthy.fits i);
  }

  -- However the requests of the metadata tools interleave with each other, with governed calls and with
  -- the driver calls of these, as long as no two of them close a pool at the same time and they start
  -- from a process that is in order: the variable holds the pool that is open, a pool is made only while
  -- none is open, a close goes to the open pool, a query goes to a pool that was made, and a request that
  -- is closing a pool closes the one in the variable.
  pub Trace-IsHealthy : (s t : System) → IsHealthy s → Trace h g query Serial s t → IsHealthy t
  Trace-IsHealthy s _ healthy here = healthy
  Trace-IsHealthy s _ healthy (later {t} {u} trace step serial) =
      Step-IsHealthy t u serial step (Trace-IsHealthy s t healthy trace)
