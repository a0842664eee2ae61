-- ===== src/Oracle/Lifecycle.antt =====
-- The pool of the metadata tools over the events of the process.
use cognic_tool_oracle_schem.Base.{
  ℕ, ◌≡◌, refl, sym, ◌∙◌, inl, inr, true, false, List, [], ◌∷◌, Option, none, some,
}
use cognic_tool_oracle_schem.Base.{Bool-cases, Option-cases, ℤ, Text}
use cognic_tool_oracle_schem.Python.Exception.{Exc, Result, ok, raised, Result-cases, value_of}
use cognic_tool_oracle_schem.Config.{Config}
use cognic_tool_oracle_schem.Credential.Keeps.{Overlooks, read_credential-Keeps}
use cognic_tool_oracle_schem.Readonly.Execute.{is_auth_error}
use cognic_tool_oracle_schem.Oracle.{
  next, set_pool, get_pool, require_pool, init_pool, close_pool, fetch_once, fetch_again, fetch,
}
use cognic_tool_oracle_schem.Host.{
  Binds, ConnectArgs, Event, perform, pure, raise, pool_created, pool_closed, pool_queried, Host,
  World, is_exception, ◌>>=◌,
}
use cognic_tool_oracle_schem.Host.Keeps.{Keeps, Leads, Leads-bind, Leads-catch}

-- The pool that the events leave open: the last one that was created and not closed since.
abbrev pub opened : List Event → Option ℕ
opened [] = none
opened (pool_created args (some pool) ∷ past) = some pool
opened (pool_closed pool true ∷ past) = none
opened (e ∷ past) = opened past

-- A pool is created only while none is open, and a query or a close goes to the open one.
abbrev pub AreOwn : List Event → Type 0
AreOwn [] = Unit
AreOwn (pool_created args (some pool) ∷ past) = (opened past ≡ none) × AreOwn past
AreOwn (pool_closed pool done ∷ past) = (opened past ≡ some pool) × AreOwn past
AreOwn (pool_queried pool sql binds done ∷ past) = (opened past ≡ some pool) × AreOwn past
AreOwn (e ∷ past) = AreOwn past

-- The last call was to close a pool, and raised.
abbrev pub FailedToClose : List Event → Type 0
FailedToClose (pool_closed pool false ∷ past) = Unit
FailedToClose past = ⊥

-- The global variable holds the pool that is open, and the events are in order.
pub record Tracks (w : World) : Type 0 where
  pub held : w.pool ≡ opened w.events
  pub own : AreOwn w.events

-- There is no pool, besides.
pub record IsDown (w : World) : Type 0 where
  pub tracks : Tracks w
  pub empty : w.pool ≡ none

module _ (h : Host) where
  Tracks-Overlooks : Overlooks Tracks
  Tracks-Overlooks = record {
    resolving = λ path w t. record { held = t.held; own = t.own };
    looking = λ path w t. record { held = t.held; own = t.own };
    reading = λ path w t. record { held = t.held; own = t.own };
  }

  IsDown-Overlooks : Overlooks IsDown
  IsDown-Overlooks = record {
    resolving =
        λ path w d. record { tracks = Tracks-Overlooks.resolving path w d.tracks; empty = d.empty };
    looking =
        λ path w d. record { tracks = Tracks-Overlooks.looking path w d.tracks; empty = d.empty };
    reading =
        λ path w d. record { tracks = Tracks-Overlooks.reading path w d.tracks; empty = d.empty };
  }

  -- A pool is there if the call returned, and none if it raised.
  abbrev pub Starts {ℓ} : {A : Type ℓ} → Result A → World → Type 0
  Starts (ok a) w = Tracks w
  Starts (raised e) w = IsDown w

  creating :
      (args : ConnectArgs) (n : ℤ)
      → Leads IsDown Starts (do
        pool ← perform (λ past. h.create_pool past args n) (λ r. pool_created args (value_of r))
        set_pool (some pool))
  unfolding set_pool ◌>>=◌
  creating args n = record {
    at = λ w d. elim (Result-cases (h.create_pool w.events args n)) [
      | inl (pool, e) ↦
          rw e (record { held = refl; own = (sym d.tracks.held ∙ d.empty, d.tracks.own) })
      | inr (exc, e) ↦
          rw e (record {
            tracks = record { held = d.tracks.held; own = d.tracks.own };
            empty = d.empty;
          })
    ];
  }

  -- Without a pool, `init_pool` opens one, or raises and leaves none.
  pub init_pool-Starts : (cfg : Config) → Leads IsDown Starts (init_pool h cfg)
  unfolding init_pool
  init_pool-Starts cfg =
      Leads-bind {R = λ _. IsDown} _ _
        (record { at = (read_credential-Keeps h IsDown-Overlooks cfg.oracle_password_file).at })
        (λ e w d. d) (λ credential. creating _ cfg.pool_max)

  -- There is no pool if the call returned; else closing it failed.
  abbrev pub Stops {ℓ} : {A : Type ℓ} → Result A → World → Type 0
  Stops (ok a) w = IsDown w
  Stops (raised e) w = Tracks w × FailedToClose w.events

  pub close_pool-Stops : Leads Tracks Stops (close_pool h)
  unfolding close_pool get_pool set_pool ◌>>=◌
  close_pool-Stops = record {
    at = λ w t. elim (Option-cases w.pool) [
      | inl empty ↦
          rw (empty, pure)
            (record { tracks = record { held = sym empty ∙ t.held; own = t.own }; empty = refl })
      | inr (pool, e) ↦ elim (Result-cases (h.close_pool w.events pool)) [
        | inl (_, d) ↦
            rw (e, d)
              (record {
                tracks = record { held = refl; own = (sym t.held ∙ e, t.own) };
                empty = refl;
              })
        | inr (exc, d) ↦
            rw (e, d) (record { held = sym e ∙ t.held; own = (sym t.held ∙ e, t.own) }, tt)
      ]
    ];
  }

  -- The pool is this one, and the world tracks it.
  abbrev Has : ℕ → World → Type 0
  Has pool w = Tracks w × (w.pool ≡ some pool)

  abbrev Finds : Result ℕ → World → Type 0
  Finds (ok pool) w = Has pool w
  Finds (raised e) w = Tracks w

  require_pool-Finds : Leads Tracks Finds require_pool
  unfolding require_pool get_pool ◌>>=◌
  require_pool-Finds = record {
    at = λ w t. elim (Option-cases w.pool) [
      | inl empty ↦ simp empty t
      | inr (pool, e) ↦ simp e (t, refl)
    ];
  }

  abbrev Still {ℓ} : {A : Type ℓ} → Result A → World → Type 0
  Still r w = Tracks w

  fetch_once-Tracks :
      (pool : ℕ) (sql : Text) (binds : Binds) (limit : ℤ)
      → Leads (Has pool) Still (fetch_once h pool sql binds limit)
  unfolding fetch_once ◌>>=◌
  fetch_once-Tracks pool sql binds limit = record {
    at = λ w (t, e). elim (Result-cases (h.fetch_many w.events pool sql binds (next limit))) [
      | inl (rows, d) ↦ rw d (record { held = t.held; own = (sym t.held ∙ e, t.own) })
      | inr (exc, d) ↦ rw d (record { held = t.held; own = (sym t.held ∙ e, t.own) })
    ];
  }

  fetch_again-Tracks :
      (sql : Text) (binds : Binds) (limit : ℤ) (cfg : Config) (exc : Exc)
      → Leads Tracks Still (fetch_again h sql binds limit cfg exc)
  unfolding fetch_again
  fetch_again-Tracks sql binds limit cfg exc = elim (Bool-cases (is_auth_error exc)) [
    | inr other ↦ rw other (unfold raise in record { at = λ w t. t })
    | inl auth ↦ rw auth (
        Leads-bind {R = Stops} _ _ close_pool-Stops (λ e w (t, f). t)
          (λ _.
            Leads-bind {R = Starts} _ _ (init_pool-Starts cfg) (λ e w d. d.tracks)
              (λ _.
                Leads-bind {R = Finds} _ _ require_pool-Finds (λ e w t. t)
                  (λ pool. fetch_once-Tracks pool sql binds limit))))
  ]

  pub fetch-Tracks :
      (sql : Text) (binds : Binds) (limit : ℤ) (cfg : Config)
      → Keeps Tracks (fetch h sql binds limit cfg)
  unfolding fetch
  fetch-Tracks sql binds limit cfg = record {
    at =
        (Leads-bind {R = Finds} _ _ require_pool-Finds (λ e w t. t)
          (λ pool.
            Leads-catch {Q = Still} is_exception _ _ (fetch_once-Tracks pool sql binds limit)
              (fetch_again-Tracks sql binds limit cfg))).at;
  }
