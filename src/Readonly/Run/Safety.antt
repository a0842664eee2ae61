-- ===== src/Readonly/Run/Safety.antt =====
-- What a run of the governed tool does to the database, from the token to the closing of the connection.
use cognic_tool_oracle_schem.Base.{◌≡◌, refl, ◌⊎◌, inl, inr, List, ◌++◌}
use cognic_tool_oracle_schem.Base.{Bool-cases, ℤ, Text, Bytes, lit}
use cognic_tool_oracle_schem.Config.{Config}
use cognic_tool_oracle_schem.QueryContext.{QueryContextClaims}
use cognic_tool_oracle_schem.Readonly.Sqlglot.{Sqlglot}
use cognic_tool_oracle_schem.Readonly.Keys.{load_public_keys, query_timeout_s}
use cognic_tool_oracle_schem.Readonly.Keys.Reads.{OnlyKeyReads, load_public_keys-IsKeyLoad}
use cognic_tool_oracle_schem.Readonly.Execute.{execute}
use cognic_tool_oracle_schem.Readonly.Execute.Protocol.{outside, Follows, start}
use cognic_tool_oracle_schem.Readonly.Execute.Order.{subject_reference, execute-Follows}
use cognic_tool_oracle_schem.Readonly.Run.{
  Args, is_proxy_identity, execution_failed, proxy_arm, run,
}
use cognic_tool_oracle_schem.Readonly.Run.Gate.{IsCleared, run-gate, noted}
use cognic_tool_oracle_schem.Host.{Host, World, is_exception, pure, ◌>>=◌}
use cognic_tool_oracle_schem.Host.Keeps.{Leads-catch}

module _ (h : Host) (cfg : Config) (claims : QueryContextClaims) (sql : Text) where
  -- The events follow the protocol for the claims, and no connection is open.
  abbrev pub Obeys : World → World → Type 0
  Obeys before after =
      Follows (cfg.oracle_user ++ (lit "[" ++ (claims.proxy_db_identity ++ lit "]")))
        (subject_reference h claims.sub) sql before.events outside after.events

module _ (h : Host) (cfg : Config) (claims : QueryContextClaims) (sql : Text) (effective : ℤ) where
  proxy_arm-Obeys :
      (w : World) → Obeys h cfg claims sql w (proxy_arm h cfg claims sql effective w).1
  unfolding proxy_arm
  proxy_arm-Obeys w = elim (Bool-cases (is_proxy_identity claims.proxy_db_identity)) [
    | inr bad ↦ rw bad (unfold ◌>>=◌ in start)
    | inl good ↦ rw good (
        (Leads-catch {P = λ v. v ≡ w} {Q = λ _. Obeys h cfg claims sql w} is_exception
            (execute h cfg claims.proxy_db_identity claims.sub sql effective (query_timeout_s h))
            (execution_failed h)
            (record {
              at = λ v p. rw p (
                  execute-Follows h cfg claims.proxy_db_identity claims.sub sql effective
                    (query_timeout_s h) w);
            })
            (λ e. unfold pure in record { at = λ v f. f })).at
          w refl)
  ]

module _ (h : Host) (g : Sqlglot) (cfg : Config) (args : Args) (token : Text) where
  -- The request is cleared for its claims, statement and bounded text, and from the loading of the keys
  -- on the events follow the protocol for these.
  abbrev pub RunsCleared : World → Type 0
  RunsCleared w =
      (keys : List Bytes) × (claims : QueryContextClaims) × (stmt : g.Node) × (sql : Text)
      × (effective : ℤ) × (let loaded = (load_public_keys h w).1 in
          OnlyKeyReads w.events loaded.events
          × IsCleared h g cfg args token loaded keys (h.clock loaded.events) claims stmt sql
              effective
          × Obeys h cfg claims sql loaded (run h g cfg args token w).1)

  -- Every run either does nothing outside the process but read key files, or its token verifies for this
  -- tool and is fresh, the digest is that of the arguments, the statement is a plain SELECT within the
  -- token's objects, the identity is well formed, and all that follows the reading of the keys obeys the
  -- protocol: proxy connections of that identity, stamped with that subject before the bounded
  -- statement, the only one that runs, and closed at the end.
  pub run-RunsCleared :
      (w : World) → OnlyKeyReads w.events (run h g cfg args token w).1.events ⊎ RunsCleared w
  run-RunsCleared w = elim (run-gate h g cfg args token w) [
    | inl quiet ↦ inl quiet
    | inr (keys, claims, stmt, sql, effective, loaded, (cleared, e)) ↦ inr (
      keys,
      claims,
      stmt,
      sql,
      effective,
      (
        (load_public_keys-IsKeyLoad h w).reads,
        cleared,
        rw e (
            proxy_arm-Obeys h cfg claims sql effective
              (noted claims (h.clock (load_public_keys h w).1.events) (load_public_keys h w).1)),
      ),
    )
  ]
