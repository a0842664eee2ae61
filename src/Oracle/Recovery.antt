-- ===== src/Oracle/Recovery.antt =====
-- `fetch` when the password of the pool has been changed.
use cognic_tool_oracle_schem.Base.{
  ℕ, ◌≡◌, refl, ap, Option-cases, ◌∙◌, inl, inr, true, List, ◌∷◌, some, ℤ, Text,
}
use cognic_tool_oracle_schem.Python.Exception.{
  Exc, Result, ok, raised, is_ok, value_of, ok_value, Result-cases,
}
use cognic_tool_oracle_schem.Config.{Config}
use cognic_tool_oracle_schem.Credential.{read_credential}
use cognic_tool_oracle_schem.Readonly.Execute.{is_auth_error}
use cognic_tool_oracle_schem.Oracle.{
  next, set_pool, get_pool, require_pool, init_pool, close_pool, fetch_once, fetch_again, fetch,
}
use cognic_tool_oracle_schem.Host.{
  Binds, ConnectArgs, Event, pool_created, Host, World, pure, perform, is_exception, ◌>>=◌,
}
use cognic_tool_oracle_schem.Host.Keeps.{Leads, Leads-bind, Leads-try}

-- The driver is up and the password file can be read: pools can be made and closed, a query on the pool
-- that was made last is answered, and any other query is answered or refused with ORA-01017.
pub record IsUp (h : Host) (cfg : Config) : Type 0 where
  pub closes : (past : List Event) (pool : ℕ) → is_ok (h.close_pool past pool) ≡ true
  pub reads : (w : World) → is_ok (read_credential h cfg.oracle_password_file w).0 ≡ true
  pub creates :
      (past : List Event) (args : ConnectArgs) (n : ℤ) → is_ok (h.create_pool past args n) ≡ true
  pub answers :
      (past : List Event) (args : ConnectArgs) (pool : ℕ) (sql : Text) (binds : Binds) (n : ℤ)
      → is_ok (h.fetch_many (pool_created args (some pool) ∷ past) pool sql binds n) ≡ true
  pub refuses :
      (past : List Event) (pool : ℕ) (sql : Text) (binds : Binds) (n : ℤ) (e : Exc)
      → h.fetch_many past pool sql binds n ≡ raised e
      → (is_auth_error e ≡ true) × (is_exception e ≡ true)

-- There is a pool.
pub record HasPool (w : World) : Type 0 where
  pub pool : ℕ
  pub is_there : w.pool ≡ some pool

-- A return, with a pool in the world.
abbrev pub Returns {ℓ} : {A : Type ℓ} → Result A → World → Type 0
Returns (ok a) w = HasPool w
Returns (raised e) w = ⊥

module _ (h : Host) (cfg : Config) (up : IsUp h cfg) where
  -- A pool was made just now.
  record IsNew (pool : ℕ) (w : World) : Type 0 where
    args : ConnectArgs
    past : List Event
    latest : w.events ≡ pool_created args (some pool) ∷ past
    there : w.pool ≡ some pool

  abbrev Anything : World → Type 0
  Anything w = Unit

  abbrev Closed {ℓ} : {A : Type ℓ} → Result A → World → Type 0
  Closed (ok done) w = Unit
  Closed (raised e) w = ⊥

  close_pool-Closed : Leads Anything Closed (close_pool h)
  unfolding close_pool get_pool set_pool ◌>>=◌
  close_pool-Closed = record {
    at = λ w start. elim (Option-cases w.pool) [
      | inl empty ↦ rw (empty, pure) tt
      | inr (pool, e) ↦ rw (e, (ok_value _ (up.closes w.events pool)).1) tt
    ];
  }

  abbrev Made : Result (Unit {0}) → World → Type 0
  Made (ok done) w = (pool : ℕ) × IsNew pool w
  Made (raised e) w = ⊥

  reading-Closed : Leads Anything Closed (read_credential h cfg.oracle_password_file)
  reading-Closed = record { at = λ w start. rw (ok_value _ (up.reads w)).1 tt }

  creating-Made :
      (args : ConnectArgs)
      → Leads Anything Made (do
        pool ←
            perform
              (λ past. h.create_pool past args cfg.pool_max)
              (λ r. pool_created args (value_of r))
        set_pool (some pool))
  unfolding set_pool ◌>>=◌
  creating-Made args = record {
    at = λ w start.
        let (pool, e) = ok_value _ (up.creates w.events args cfg.pool_max) in
        rw e (pool, record { args = args; past = w.events; latest = refl; there = refl });
  }

  init_pool-Made : Leads Anything Made (init_pool h cfg)
  unfolding init_pool
  init_pool-Made =
      Leads-bind {R = Closed} _ _ reading-Closed (λ e w p. p) (λ credential. creating-Made _)

  abbrev Got : Result ℕ → World → Type 0
  Got (ok pool) w = IsNew pool w
  Got (raised e) w = ⊥

  require_pool-Got : (pool : ℕ) → Leads (IsNew pool) Got require_pool
  unfolding require_pool get_pool ◌>>=◌
  require_pool-Got pool = record { at = λ w n. simp n.there n }

  module _ (sql : Text) (binds : Binds) (limit : ℤ) where
    fetch_once-Returns : (pool : ℕ) → Leads (IsNew pool) Returns (fetch_once h pool sql binds limit)
    unfolding fetch_once ◌>>=◌
    fetch_once-Returns pool = record {
      at = λ w n.
          let (rows, e) = ok_value _ (up.answers n.past n.args pool sql binds (next limit)) in
          let same : h.fetch_many w.events pool sql binds (next limit) ≡ ok rows =
            ap (λ past. h.fetch_many past pool sql binds (next limit)) n.latest ∙ e in
          rw same (record { pool = pool; is_there = n.there });
    }

    fetch_again-Returns :
        (exc : Exc)
        → is_auth_error exc ≡ true
        → Leads Anything Returns (fetch_again h sql binds limit cfg exc)
    unfolding fetch_again
    fetch_again-Returns exc auth = rw auth (
        Leads-bind {R = Closed} _ _ close_pool-Closed (λ e w p. p)
          (λ closed.
            Leads-bind {R = Made} _ _ init_pool-Made (λ e w p. p)
              (λ made. record {
                at = λ w (pool, n).
                    (Leads-bind {P = IsNew pool} {R = Got} _ _ (require_pool-Got pool) (λ e w p. p)
                        fetch_once-Returns).at
                      w n;
              })))

    -- The first try returns, or is refused with ORA-01017.
    abbrev Tried {ℓ} : {A : Type ℓ} → Result A → World → Type 0
    Tried (ok a) w = HasPool w
    Tried (raised e) w = (is_auth_error e ≡ true) × (is_exception e ≡ true)

    fetch_once-Tried :
        (pool : ℕ) → Leads (λ w. w.pool ≡ some pool) Tried (fetch_once h pool sql binds limit)
    unfolding fetch_once ◌>>=◌
    fetch_once-Tried pool = record {
      at = λ w there. elim (Result-cases (h.fetch_many w.events pool sql binds (next limit))) [
        | inl (rows, e) ↦ rw e (record { pool = pool; is_there = there })
        | inr (exc, e) ↦ rw e (up.refuses w.events pool sql binds (next limit) exc e)
      ];
    }

    abbrev Found : Result ℕ → World → Type 0
    Found (ok pool) w = w.pool ≡ some pool
    Found (raised e) w = ⊥

    require_pool-Found : Leads HasPool Found require_pool
    unfolding require_pool get_pool ◌>>=◌
    require_pool-Found = record { at = λ w p. simp p.is_there refl }

    fetch-Leads : Leads HasPool Returns (fetch h sql binds limit cfg)
    unfolding fetch
    fetch-Leads =
        Leads-bind {R = Found} _ _ require_pool-Found (λ e w p. p)
          (λ pool.
            Leads-try {R = Tried} is_exception _ _ (fetch_once-Tried pool) (λ a w p. p)
              (λ e w passes p. let (auth, caught) = p in cc)
              (λ e. record { at = λ w p. (fetch_again-Returns e p.0).at w tt }))

    -- While the driver is up, a query of the tools returns and leaves a pool behind, even if the password
    -- was changed under the pool.
    pub fetch-Returns :
        (w : World)
        → HasPool w
        → Returns (fetch h sql binds limit cfg w).0 (fetch h sql binds limit cfg w).1
    fetch-Returns w p = fetch-Leads.at w p
