-- ===== src/Oracle/Tasks/Frame.antt =====
-- One step of a request and what the other requests rely on.
use cognic_tool_oracle_schem.Base.{ℕ, ◌≡◌, inl, inr, List, Option, none, some, Bool-cases}
use cognic_tool_oracle_schem.Base.{Text}
use cognic_tool_oracle_schem.Python.Exception.{Exc, Result}
use cognic_tool_oracle_schem.Config.{Config}
use cognic_tool_oracle_schem.Credential.{read_credential}
use cognic_tool_oracle_schem.Credential.Keeps.{with_event, read_credential-Keeps}
use cognic_tool_oracle_schem.Readonly.Execute.{is_auth_error}
use cognic_tool_oracle_schem.Oracle.{
  set_pool, get_pool, require_pool, init_pool, fetch_once, no_pool,
}
use cognic_tool_oracle_schem.Oracle.Tasks.{
  Query, Stage, starting, querying, closing, querying_again, returned, escaped, reopen, recover,
  resume,
}
use cognic_tool_oracle_schem.Oracle.Tasks.Serial.{WasMade, Fits}
use cognic_tool_oracle_schem.Host.{Event, Host, World, M, perform, pure, raise, ◌>>=◌}
use cognic_tool_oracle_schem.Host.Keeps.{
  Keeps, Keeps-bind, Keeps-pure, Keeps-raise, Keeps-if, keeps_rules,
}

record IsMade (pool : ℕ) (w : World) : Type 0 where
  made : WasMade pool w.events

record Holds (pool : ℕ) (w : World) : Type 0 where
  held : w.pool ≡ some pool

-- No event changes the property.
record IsFrame (P : World → Type 0) : Type 0 where
  event : (e : Event) (w : World) → P w → P (with_event e w)

-- Nor does a change of the variable.
pub record IsSteady (P : World → Type 0) : Type 0 where
  pub event : (e : Event) (w : World) → P w → P (with_event e w)
  pub variable : (pool : Option ℕ) (w : World) → P w → P (record w { pool = pool })

IsMade-IsSteady : (pool : ℕ) → IsSteady (IsMade pool)
IsMade-IsSteady pool = record {
  event = λ e w m. record { made = inr m.made };
  variable = λ p w m. record { made = m.made };
}

Holds-IsFrame : (pool : ℕ) → IsFrame (Holds pool)
Holds-IsFrame pool = record { event = λ e w m. record { held = m.held } }

module _ (h : Host) {P : World → Type 0} (f : IsFrame P) where
  frame-Keeps {ℓ} :
      {A : Type ℓ} (respond : List Event → Result A) (event : Result A → Event)
      → Keeps P (perform respond event)
  unfolding perform
  frame-Keeps respond event = record { at = λ w p. f.event _ w p }

  get_pool-Keeps : Keeps P get_pool
  unfolding get_pool
  get_pool-Keeps = record { at = λ w p. p }

  require_pool-Keeps : Keeps P require_pool
  unfolding require_pool
  require_pool-Keeps = Keeps-bind _ _ get_pool-Keeps found
    where
      found :
          (p : Option ℕ) → Keeps P (elim p [ none ↦ raise {A = ℕ} no_pool | some pool ↦ pure pool ])
      found none = Keeps-raise _
      found (some pool) = Keeps-pure _

  fetch_once-Keeps : (q : Query) (pool : ℕ) → Keeps P (fetch_once h pool q.sql q.binds q.limit)
  unfolding fetch_once
  fetch_once-Keeps q pool = search (keeps_rules, frame-Keeps) depth 6

  credential-Keeps : (path : Text) → Keeps P (read_credential h path)
  credential-Keeps path =
      read_credential-Keeps h
        (record {
          resolving = λ path w p. f.event _ w p;
          looking = λ path w p. f.event _ w p;
          reading = λ path w p. f.event _ w p;
        })
        path

-- A step of a request keeps what is steady.
module _ (h : Host) (q : Query) {P : World → Type 0} (s : IsSteady P) where
  abbrev steady : IsFrame P
  steady = record { event = s.event }

  call-Steady :
      {A : Type 0} (respond : List Event → Result A) (event : Result A → Event)
      → Keeps P (perform respond event)
  call-Steady respond event = frame-Keeps h steady respond event

  set_pool-Steady : (p : Option ℕ) → Keeps P (set_pool p)
  unfolding set_pool
  set_pool-Steady p = record { at = λ w q. s.variable p w q }

  init_pool-Steady : (cfg : Config) → Keeps P (init_pool h cfg)
  unfolding init_pool
  init_pool-Steady cfg =
      search (keeps_rules, credential-Keeps h steady, call-Steady, set_pool-Steady) depth 9

  reopen-Steady : Keeps P (reopen h q)
  unfolding reopen
  reopen-Steady =
      Keeps-bind _ _ (init_pool-Steady q.cfg)
        (λ done. Keeps-bind _ _ (require_pool-Keeps h steady) (λ made. Keeps-pure _))

  recover-Steady : (exc : Exc) → Keeps P (recover h q exc)
  unfolding recover
  recover-Steady exc =
      Keeps-if _ _ _ (Keeps-raise _) (Keeps-bind _ _ (get_pool-Keeps h steady) found)
    where
      found : (p : Option ℕ) → Keeps P (elim p [ none ↦ reopen h q | some p ↦ pure (closing p) ])
      found none = reopen-Steady
      found (some p) = Keeps-pure _

  pub resume-Steady : (stage : Stage) → Keeps P (resume h q stage)
  unfolding resume
  resume-Steady starting = search (keeps_rules, require_pool-Keeps h steady) depth 5
  resume-Steady (querying p) =
      search (keeps_rules, fetch_once-Keeps h steady, recover-Steady) depth 6
  resume-Steady (closing p) =
      search (keeps_rules, call-Steady, set_pool-Steady, reopen-Steady) depth 6
  resume-Steady (querying_again p) = search (keeps_rules, fetch_once-Keeps h steady) depth 6
  resume-Steady (returned page) = Keeps-pure _
  resume-Steady (escaped exc) = Keeps-pure _

abbrev pub IsClosing : Stage → Type 0
IsClosing (closing pool) = Unit
IsClosing stage = ⊥

-- Only a request that closes changes a pool in the variable.
module _ (h : Host) (q : Query) (pool : ℕ) where
  abbrev held_frame : IsFrame (Holds pool)
  held_frame = Holds-IsFrame pool

  -- What `recover` does with the pool that it finds.
  abbrev found_stage : Option ℕ → M Stage
  found_stage found = elim found [ none ↦ reopen h q | some p ↦ pure (closing p) ]

  recover-Holds : (exc : Exc) → Keeps (Holds pool) (recover h q exc)
  unfolding recover get_pool pure ◌>>=◌
  recover-Holds exc = elim (Bool-cases (is_auth_error exc)) [
    | inr other ↦ rw other (Keeps-raise exc)
    | inl auth ↦ rw auth (record { at = λ w m. go w m w.pool m.held })
  ]
    where
      go :
          (w : World)
          → Holds pool w
          → (found : Option ℕ) → found ≡ some pool
          → Holds pool (found_stage found w).1
      go w m none e = cc
      go w m (some p) e = m

  resume-Holds : (stage : Stage) → (IsClosing stage → ⊥) → Keeps (Holds pool) (resume h q stage)
  unfolding resume
  resume-Holds starting n = search (keeps_rules, require_pool-Keeps h held_frame) depth 5
  resume-Holds (querying p) n =
      search (keeps_rules, fetch_once-Keeps h held_frame, recover-Holds) depth 6
  resume-Holds (closing p) n = absurd (n tt)
  resume-Holds (querying_again p) n = search (keeps_rules, fetch_once-Keeps h held_frame) depth 6
  resume-Holds (returned page) n = Keeps-pure _
  resume-Holds (escaped exc) n = Keeps-pure _

-- What another request relies on stays, unless both are closing.
pub resume-Fits :
    (h : Host) (q : Query) (stage other : Stage) (w : World)
    → (IsClosing other → IsClosing stage → ⊥)
    → Fits other w
    → Fits other (resume h q stage w).1
resume-Fits h q stage starting w apart fits = tt
resume-Fits h q stage (querying pool) w apart fits =
    ((resume-Steady h q (IsMade-IsSteady pool) stage).at w (record { made = fits })).made
resume-Fits h q stage (closing pool) w apart fits =
    ((resume-Holds h q pool stage (apart tt)).at w (record { held = fits })).held
resume-Fits h q stage (querying_again pool) w apart fits =
    ((resume-Steady h q (IsMade-IsSteady pool) stage).at w (record { made = fits })).made
resume-Fits h q stage (returned page) w apart fits = tt
resume-Fits h q stage (escaped exc) w apart fits = tt
