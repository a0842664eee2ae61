-- ===== src/Server/Lifecycle.antt =====
-- The pool of the metadata tools over the life of the server.
use cognic_tool_oracle_schem.Base.{◌⊎◌, inl, inr, ◌≡◌, refl, sym, ◌∙◌, List, ◌∷◌, none}
use cognic_tool_oracle_schem.Python.Exception.{Result, ok, raised}
use cognic_tool_oracle_schem.Config.{Config}
use cognic_tool_oracle_schem.Oracle.{close_pool}
use cognic_tool_oracle_schem.Oracle.Lifecycle.{
  opened, FailedToClose, AreOwn, Tracks, IsDown, Starts, Stops, init_pool-Starts, close_pool-Stops,
  fetch-Tracks,
}
use cognic_tool_oracle_schem.Readonly.Sqlglot.{Sqlglot}
use cognic_tool_oracle_schem.Readonly.Run.Events.{IsPoolFree, IsPoolProperty}
use cognic_tool_oracle_schem.Server.Serve.{serve-Keeps}
use cognic_tool_oracle_schem.Tools.Calls.{
  list_schemas, list_tables, describe_table, find_columns, list_relationships, get_constraints,
}
use cognic_tool_oracle_schem.Host.{
  Event, pool_created, pool_closed, pool_queried, Host, World, M, finally,
}
use cognic_tool_oracle_schem.Host.Keeps.{Keeps, Leads, Leads-bind, keeps_rules}
use cognic_tool_oracle_schem.Server.{
  Request, schemas, tables, columns, matching, relationships, constraints, answer, ToolCall, serve,
  pool_lifespan,
}

IsPoolFree-opened :
    (e : Event) (past : List Event)
    → IsPoolFree e
    → (opened (e ∷ past) ≡ opened past) × (AreOwn past → AreOwn (e ∷ past))
IsPoolFree-opened e past =
    elim e
      as (λ k.
        IsPoolFree k → (opened (k ∷ past) ≡ opened past) × (AreOwn past → AreOwn (k ∷ past))) [
          | pool_created args pool ↦ λ free. absurd free
          | pool_closed pool done ↦ λ free. absurd free
          | pool_queried pool sql binds done ↦ λ free. absurd free
          | _ ↦ λ free. (refl, λ own. own)
        ]

Tracks-IsPoolProperty : IsPoolProperty Tracks
Tracks-IsPoolProperty = record {
  event = λ e w free t.
      let (same, own) = IsPoolFree-opened e w.events free in
      record { held = t.held ∙ sym same; own = own t.own };
  cache = λ seen w t. record { held = t.held; own = t.own };
}

module _ (h : Host) (cfg : Config) where
  answer-Tracks : (request : Request) → Keeps Tracks (answer h cfg request)
  unfolding list_schemas list_tables describe_table find_columns list_relationships get_constraints
  answer-Tracks schemas = search (keeps_rules, fetch-Tracks) depth 9
  answer-Tracks (tables owner) = search (keeps_rules, fetch-Tracks) depth 9
  answer-Tracks (columns owner table) = search (keeps_rules, fetch-Tracks) depth 9
  answer-Tracks (matching name_pattern owner) = search (keeps_rules, fetch-Tracks) depth 9
  answer-Tracks (relationships owner table) = search (keeps_rules, fetch-Tracks) depth 9
  answer-Tracks (constraints owner table) = search (keeps_rules, fetch-Tracks) depth 9

-- The world tracks the pool; and none is open, unless closing it was the last call, and raised.
pub record EndsClosed (w : World) : Type 0 where
  pub tracks : Tracks w
  pub none_left : (opened w.events ≡ none) ⊎ FailedToClose w.events

IsDown-EndsClosed : (w : World) → IsDown w → EndsClosed w
IsDown-EndsClosed w d = record { tracks = d.tracks; none_left = inl (sym d.tracks.held ∙ d.empty) }

Stops-EndsClosed : (h : Host) (c : Result (Unit {0})) (w : World) → Stops h c w → EndsClosed w
Stops-EndsClosed h (ok done) w d = IsDown-EndsClosed w d
Stops-EndsClosed h (raised e) w (t, f) = record { tracks = t; none_left = inr f }

module _ {ℓ} {A : Type ℓ} (h : Host) where
  abbrev Settled : Result A → World → Type 0
  Settled r w = EndsClosed w

  finally-Settled :
      (body : M A) → Keeps Tracks body → Leads Tracks Settled (finally body (close_pool h))
  unfolding finally
  finally-Settled body km = record {
    at = λ w t. Stops-EndsClosed h _ _ ((close_pool-Stops h).at (body w).1 (km.at w t));
  }

  pool_lifespan-Settled :
      (cfg : Config) (body : M A)
      → Keeps Tracks body
      → Leads IsDown Settled (pool_lifespan h cfg body)
  unfolding pool_lifespan
  pool_lifespan-Settled cfg body km =
      Leads-bind {R = Starts h} _ _ (init_pool-Starts h cfg) (λ e w d. IsDown-EndsClosed w d)
        (λ done. finally-Settled body km)

-- From a process without a pool, and through any calls of its tools, whatever they return or raise: the
-- global variable holds the pool that is open, a pool is created only while none is open, and queries
-- and closes go to the open one; and no pool is open at the end, unless closing it was the last call, and
-- raised.
pub lifespan_leaves_no_pool :
    (h : Host) (g : Sqlglot) (cfg : Config) (calls : List ToolCall) (w : World)
    → IsDown w
    → EndsClosed (pool_lifespan h cfg (serve h g cfg calls) w).1
lifespan_leaves_no_pool h g cfg calls w down =
    (pool_lifespan-Settled h cfg (serve h g cfg calls)
        (serve-Keeps h g cfg Tracks-IsPoolProperty (answer-Tracks h cfg) calls)).at
      w down
