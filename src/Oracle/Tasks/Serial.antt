-- ===== src/Oracle/Tasks/Serial.antt =====
-- One step of a request and the pools: what it does to them and what it relies on.
use cognic_tool_oracle_schem.Base.{
  ℕ, ◌≡◌, refl, sym, ◌∙◌, ◌⊎◌, inl, inr, true, false, List, [], ◌∷◌, none, some,
}
use cognic_tool_oracle_schem.Base.{Bool-cases, Option-cases, ℤ}
use cognic_tool_oracle_schem.Python.Exception.{Exc, Result, ok, raised, Result-cases, value_of}
use cognic_tool_oracle_schem.Config.{Config}
use cognic_tool_oracle_schem.Credential.Keeps.{Overlooks, read_credential-Keeps}
use cognic_tool_oracle_schem.Readonly.Execute.{is_auth_error}
use cognic_tool_oracle_schem.Oracle.{next, set_pool, get_pool, require_pool, init_pool, fetch_once}
use cognic_tool_oracle_schem.Oracle.Lifecycle.{opened}
use cognic_tool_oracle_schem.Oracle.Tasks.{
  Query, Stage, starting, querying, closing, querying_again, returned, escaped, reopen, recover,
  resume,
}
use cognic_tool_oracle_schem.Host.{
  ConnectArgs, Event, pool_created, pool_closed, pool_queried, Host, World, perform, pure, raise,
  ◌>>=◌,
}
use cognic_tool_oracle_schem.Host.Keeps.{Leads, Leads-bind, Leads-catch}

-- The event is the making of this pool.
abbrev pub IsMaking : ℕ → Event → Type 0
IsMaking p (pool_created args (some pool)) = pool ≡ p
IsMaking p e = ⊥

abbrev pub WasMade : ℕ → List Event → Type 0
WasMade p [] = ⊥
WasMade p (e ∷ past) = IsMaking p e ⊎ WasMade p past

-- A pool is made only while none is open, a close goes to the open pool, and a query to a pool that was
-- made.
abbrev pub AreOrderly : List Event → Type 0
AreOrderly [] = Unit
AreOrderly (pool_created args (some pool) ∷ past) = (opened past ≡ none) × AreOrderly past
AreOrderly (pool_closed pool done ∷ past) = (opened past ≡ some pool) × AreOrderly past
AreOrderly (pool_queried pool sql binds done ∷ past) = WasMade pool past × AreOrderly past
AreOrderly (e ∷ past) = AreOrderly past

opened-WasMade : (past : List Event) (p : ℕ) → opened past ≡ some p → WasMade p past
opened-WasMade [] p = λ h. cc
opened-WasMade (e ∷ past) p =
    let rest = opened-WasMade past p in
    elim e as (λ k. opened (k ∷ past) ≡ some p → WasMade p (k ∷ past)) [
      | pool_created args pool ↦
          elim pool
            as (λ made.
              opened (pool_created args made ∷ past) ≡ some p
              → WasMade p (pool_created args made ∷ past)) [
                | none ↦ λ h. inr (rest h)
                | some made ↦ λ h. inl cc
              ]
      | pool_closed pool done ↦
          elim done
            as (λ b.
              opened (pool_closed pool b ∷ past) ≡ some p → WasMade p (pool_closed pool b ∷ past)) [
                | true ↦ λ h. cc
                | false ↦ λ h. inr (rest h)
              ]
      | _ ↦ λ h. inr (rest h)
    ]

-- The global variable holds the pool that is open, and the events are in order.
pub record IsOrderly (w : World) : Type 0 where
  pub held : w.pool ≡ opened w.events
  pub orderly : AreOrderly w.events

-- There is no pool, besides.
pub record IsEmpty (w : World) : Type 0 where
  pub kept : IsOrderly w
  pub empty : w.pool ≡ none

-- What a request relies on where it stands.
abbrev pub Fits : Stage → World → Type 0
Fits (querying pool) w = WasMade pool w.events
Fits (closing pool) w = w.pool ≡ some pool
Fits (querying_again pool) w = WasMade pool w.events
Fits _ w = Unit

abbrev pub Rests : Result Stage → World → Type 0
Rests (ok stage) w = IsOrderly w × Fits stage w
Rests (raised exc) w = IsOrderly w

module _ (h : Host) where
  IsOrderly-Overlooks : Overlooks IsOrderly
  IsOrderly-Overlooks = record {
    resolving = λ path w t. record { held = t.held; orderly = t.orderly };
    looking = λ path w t. record { held = t.held; orderly = t.orderly };
    reading = λ path w t. record { held = t.held; orderly = t.orderly };
  }

  IsEmpty-Overlooks : Overlooks IsEmpty
  IsEmpty-Overlooks = record {
    resolving =
        λ path w d. record { kept = IsOrderly-Overlooks.resolving path w d.kept; empty = d.empty };
    looking =
        λ path w d. record { kept = IsOrderly-Overlooks.looking path w d.kept; empty = d.empty };
    reading =
        λ path w d. record { kept = IsOrderly-Overlooks.reading path w d.kept; empty = d.empty };
  }

  abbrev pub Ordered {ℓ} : {A : Type ℓ} → Result A → World → Type 0
  Ordered r w = IsOrderly w

  creating-Ordered :
      (args : ConnectArgs) (n : ℤ)
      → Leads IsEmpty Ordered (do
        pool ← perform (λ past. h.create_pool past args n) (λ r. pool_created args (value_of r))
        set_pool (some pool))
  unfolding set_pool ◌>>=◌
  creating-Ordered args n = record {
    at = λ w d. elim (Result-cases (h.create_pool w.events args n)) [
      | inl (pool, e) ↦
          rw e (record { held = refl; orderly = (sym d.kept.held ∙ d.empty, d.kept.orderly) })
      | inr (exc, e) ↦ rw e (record { held = d.kept.held; orderly = d.kept.orderly })
    ];
  }

  pub init_pool-Ordered : (cfg : Config) → Leads IsEmpty Ordered (init_pool h cfg)
  unfolding init_pool
  init_pool-Ordered cfg =
      Leads-bind {R = λ _. IsEmpty} _ _
        (record { at = (read_credential-Keeps h IsEmpty-Overlooks cfg.oracle_password_file).at })
        (λ e w d. d.kept) (λ credential. creating-Ordered _ cfg.pool_max)

  abbrev Found : Result ℕ → World → Type 0
  Found (ok pool) w = IsOrderly w × WasMade pool w.events
  Found (raised exc) w = IsOrderly w

  require_pool-Found : Leads IsOrderly Found require_pool
  unfolding require_pool get_pool ◌>>=◌
  require_pool-Found = record {
    at = λ w t. elim (Option-cases w.pool) [
      | inl empty ↦ simp empty t
      | inr (pool, e) ↦ simp e (t, opened-WasMade w.events pool (sym t.held ∙ e))
    ];
  }

  module _ (q : Query) where
    reopen-Rests : Leads IsEmpty Rests (reopen h q)
    unfolding reopen pure
    reopen-Rests =
        Leads-bind {R = Ordered} _ _ (init_pool-Ordered q.cfg) (λ e w t. t)
          (λ done.
            Leads-bind {R = Found} _ _ require_pool-Found (λ e w t. t)
              (λ pool. record { at = λ w t. t }))

    -- The request that closes found the pool that it closes in the variable.
    close-Rests :
        (pool : ℕ) → Leads (λ w. Rests (ok (closing pool)) w) Rests (resume h q (closing pool))
    unfolding resume set_pool ◌>>=◌
    close-Rests pool = record {
      at = λ w (t, e). elim (Result-cases (h.close_pool w.events pool)) [
        | inl (done, d) ↦ rw d (
            reopen-Rests.at _ (record {
              kept = record { held = refl; orderly = (sym t.held ∙ e, t.orderly) };
              empty = refl;
            }))
        | inr (exc, d) ↦ rw d (record { held = t.held; orderly = (sym t.held ∙ e, t.orderly) })
      ];
    }

    query-Ordered :
        (pool : ℕ)
        → Leads
            (λ w. IsOrderly w × WasMade pool w.events)
            Rests
            (do page ← fetch_once h pool q.sql q.binds q.limit; pure (returned page))
    unfolding fetch_once pure ◌>>=◌
    query-Ordered pool = record {
      at = λ w (t, made).
          elim (Result-cases (h.fetch_many w.events pool q.sql q.binds (next q.limit))) [
            | inl (rows, d) ↦ rw d (record { held = t.held; orderly = (made, t.orderly) }, tt)
            | inr (exc, d) ↦ rw d (record { held = t.held; orderly = (made, t.orderly) })
          ];
    }

    recover-Rests : (exc : Exc) → Leads IsOrderly Rests (recover h q exc)
    unfolding recover get_pool pure raise ◌>>=◌
    recover-Rests exc = elim (Bool-cases (is_auth_error exc)) [
      | inr other ↦ rw other (record { at = λ w t. t })
      | inl auth ↦ rw auth (record {
        at = λ w t. elim (Option-cases w.pool) [
          | inl empty ↦ simp empty (reopen-Rests.at w (record { kept = t; empty = empty }))
          | inr (pool, e) ↦ simp e (t, refl)
        ];
      })
    ]

    pub resume-Rests : (stage : Stage) → Leads (λ w. Rests (ok stage) w) Rests (resume h q stage)
    unfolding resume pure
    resume-Rests starting =
        Leads-bind {R = Found} _ _ (record { at = λ w (t, _). require_pool-Found.at w t })
          (λ e w t. t) (λ pool. record { at = λ w t. t })
    resume-Rests (querying pool) = Leads-catch {Q = Rests} _ _ _ (query-Ordered pool) recover-Rests
    resume-Rests (closing pool) = close-Rests pool
    resume-Rests (querying_again pool) = query-Ordered pool
    resume-Rests (returned page) = record { at = λ w t. t }
    resume-Rests (escaped exc) = record { at = λ w t. t }
