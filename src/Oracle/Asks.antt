-- ===== src/Oracle/Asks.antt =====
-- The texts that reach the pool of the metadata tools.
use cognic_tool_oracle_schem.Base.{ℕ, List, [], ◌∷◌, Option, none, some, ℤ, Text}
use cognic_tool_oracle_schem.Python.Exception.{Exc, is_ok, value_of}
use cognic_tool_oracle_schem.Config.{Config}
use cognic_tool_oracle_schem.Credential.Keeps.{read_credential-Keeps}
use cognic_tool_oracle_schem.Credential.{read_credential}
use cognic_tool_oracle_schem.Oracle.{
  next, set_pool, get_pool, require_pool, init_pool, close_pool, fetch_once, fetch_again, fetch,
  no_pool,
}
use cognic_tool_oracle_schem.Readonly.Run.Events.{IsPoolFree, IsPoolProperty}
use cognic_tool_oracle_schem.Host.{
  Binds, ConnectArgs, Event, pool_created, pool_closed, pool_queried, Host, World, pure, raise,
  perform, ◌>>◌,
}
use cognic_tool_oracle_schem.Host.Keeps.{Keeps, Keeps-bind, Keeps-pure, Keeps-raise, keeps_rules}

-- The text of every query of the pool among the events has the property.
abbrev pub AreAsked : (Text → Type 0) → List Event → Type 0
AreAsked P [] = Unit
AreAsked P (pool_queried pool sql binds done ∷ past) = P sql × AreAsked P past
AreAsked P (e ∷ past) = AreAsked P past

pub record Asks (P : Text → Type 0) (w : World) : Type 0 where
  pub all_asked : AreAsked P w.events

IsPoolFree-AreAsked :
    (P : Text → Type 0) (e : Event) (past : List Event)
    → IsPoolFree e
    → AreAsked P past
    → AreAsked P (e ∷ past)
IsPoolFree-AreAsked P e past =
    elim e as (λ k. IsPoolFree k → AreAsked P past → AreAsked P (k ∷ past)) [
      | pool_created args pool ↦ λ free. absurd free
      | pool_closed pool done ↦ λ free. absurd free
      | pool_queried pool sql binds done ↦ λ free. absurd free
      | _ ↦ λ free fixed. fixed
    ]

pub Asks-IsPoolProperty : (P : Text → Type 0) → IsPoolProperty (Asks P)
Asks-IsPoolProperty P = record {
  event = λ e w free f. record { all_asked = IsPoolFree-AreAsked P e w.events free f.all_asked };
  cache = λ seen w f. record { all_asked = f.all_asked };
}

module _ (h : Host) (cfg : Config) {P : Text → Type 0} where
  set_pool-Keeps : (pool : Option ℕ) → Keeps (Asks P) (set_pool pool)
  unfolding set_pool
  set_pool-Keeps pool = record { at = λ w f. record { all_asked = f.all_asked } }

  get_pool-Keeps : Keeps (Asks P) get_pool
  unfolding get_pool
  get_pool-Keeps = record { at = λ w f. f }

  credential-Keeps : (path : Text) → Keeps (Asks P) (read_credential h path)
  credential-Keeps path =
      read_credential-Keeps h
        (record {
          resolving = λ path w f. record { all_asked = f.all_asked };
          looking = λ path w f. record { all_asked = f.all_asked };
          reading = λ path w f. record { all_asked = f.all_asked };
        })
        path

  creating-Keeps :
      (args : ConnectArgs) (n : ℤ)
      → Keeps
          (Asks P)
          (perform (λ past. h.create_pool past args n) (λ r. pool_created args (value_of r)))
  unfolding perform
  creating-Keeps args n = record { at = λ w f. record { all_asked = f.all_asked } }

  closing-Keeps :
      (pool : ℕ)
      → Keeps (Asks P) (perform (λ past. h.close_pool past pool) (λ r. pool_closed pool (is_ok r)))
  unfolding perform
  closing-Keeps pool = record { at = λ w f. record { all_asked = f.all_asked } }

  require_pool-Keeps : Keeps (Asks P) require_pool
  unfolding require_pool
  require_pool-Keeps = Keeps-bind _ _ get_pool-Keeps found
    where
      found :
          (p : Option ℕ)
          → Keeps (Asks P) (elim p [ none ↦ raise {A = ℕ} no_pool | some pool ↦ pure pool ])
      found none = Keeps-raise _
      found (some pool) = Keeps-pure _

  init_pool-Keeps : Keeps (Asks P) (init_pool h cfg)
  unfolding init_pool
  init_pool-Keeps = search (keeps_rules, credential-Keeps, creating-Keeps, set_pool-Keeps) depth 9

  close_pool-Keeps : Keeps (Asks P) (close_pool h)
  unfolding close_pool
  close_pool-Keeps = Keeps-bind _ _ get_pool-Keeps found
    where
      found :
          (p : Option ℕ)
          → Keeps {0} {A = Unit {0}} (Asks P) (elim p [
            | none ↦ pure tt
            | some pool ↦ (do
              perform (λ past. h.close_pool past pool) (λ r. pool_closed pool (is_ok r))
              set_pool none)
          ])
      found none = Keeps-pure _
      found (some pool) = Keeps-bind _ _ (closing-Keeps pool) (λ done. set_pool-Keeps none)

  module _ (sql : Text) (binds : Binds) (limit : ℤ) (fixed : P sql) where
    querying-Keeps :
        (pool : ℕ)
        → Keeps (Asks P) (
            perform
              (λ past. h.fetch_many past pool sql binds (next limit))
              (λ r. pool_queried pool sql binds (is_ok r)))
    unfolding perform
    querying-Keeps pool = record { at = λ w f. record { all_asked = (fixed, f.all_asked) } }

    fetch_once-Keeps : (pool : ℕ) → Keeps (Asks P) (fetch_once h pool sql binds limit)
    unfolding fetch_once
    fetch_once-Keeps pool = search (keeps_rules, querying-Keeps) depth 6

    fetch_again-Keeps : (exc : Exc) → Keeps (Asks P) (fetch_again h sql binds limit cfg exc)
    unfolding fetch_again
    fetch_again-Keeps exc =
        search
          (keeps_rules, close_pool-Keeps, init_pool-Keeps, require_pool-Keeps, fetch_once-Keeps)
          depth 9

    pub fetch-Keeps : Keeps (Asks P) (fetch h sql binds limit cfg)
    unfolding fetch
    fetch-Keeps =
        search (keeps_rules, require_pool-Keeps, fetch_once-Keeps, fetch_again-Keeps) depth 9
