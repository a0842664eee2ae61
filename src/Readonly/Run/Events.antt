-- ===== src/Readonly/Run/Events.antt =====
-- A run of the governed tool and the properties of the world that only the pool's events can change.
use cognic_tool_oracle_schem.Base.{
  ℕ, if◌then◌else◌, List, [], ◌∷◌, Option, none, some, ℤ, Text, Bytes,
}
use cognic_tool_oracle_schem.Python.Exception.{Exc, Result, ok, raised}
use cognic_tool_oracle_schem.Config.{Config}
use cognic_tool_oracle_schem.Credential.{read_credential}
use cognic_tool_oracle_schem.Credential.Keeps.{with_event, Overlooks, read_credential-Keeps}
use cognic_tool_oracle_schem.Python.Str.{is_blank_bytes}
use cognic_tool_oracle_schem.QueryContext.{QueryContextClaims, Verdict, admitted, refused, failed}
use cognic_tool_oracle_schem.Readonly.Replay.{Seen}
use cognic_tool_oracle_schem.Readonly.Sqlglot.{Sqlglot}
use cognic_tool_oracle_schem.Readonly.Analyze.{Analysis, reject, accept}
use cognic_tool_oracle_schem.Readonly.Keys.{read_or_none, with_key, read_keys, load_public_keys}
use cognic_tool_oracle_schem.Readonly.Execute.{
  connect_event, open_connection, reconnect, connect_proxy, stamp, query, stamped_body,
  cursor_block, session, execute,
}
use cognic_tool_oracle_schem.Readonly.Run.{
  Args, first_use, proxy_arm, statement_arms, analysis_arm, claims_arms, verdict_arm, token_arm,
  run,
}
use cognic_tool_oracle_schem.Host.{
  ConnectArgs, Event, pool_created, pool_closed, pool_queried, Host, World, pure, perform, ◌>>=◌,
}
use cognic_tool_oracle_schem.Host.Keeps.{
  Keeps, Keeps-bind, Keeps-if, Keeps-pure, Keeps-lift, Keeps-raise, keeps_rules,
}

-- The event is none of the pool's.
abbrev pub IsPoolFree : Event → Type 0
IsPoolFree (pool_created args pool) = ⊥
IsPoolFree (pool_closed pool done) = ⊥
IsPoolFree (pool_queried pool sql binds done) = ⊥
IsPoolFree e = Unit

connect_event-IsPoolFree : (args : ConnectArgs) (r : Result ℕ) → IsPoolFree (connect_event args r)
connect_event-IsPoolFree args (ok conn) = tt
connect_event-IsPoolFree args (raised e) = tt

-- The property does not change with the other events, nor with the replay cache.
pub record IsPoolProperty (P : World → Type 0) : Type 0 where
  pub event : (e : Event) (w : World) → IsPoolFree e → P w → P (with_event e w)
  pub cache : (seen : Seen) (w : World) → P w → P (record w { seen = seen })

module _ (h : Host) {P : World → Type 0} (p : IsPoolProperty P) where
  P-Overlooks : Overlooks P
  P-Overlooks = record {
    resolving = λ path w q. p.event _ w tt q;
    looking = λ path w q. p.event _ w tt q;
    reading = λ path w q. p.event _ w tt q;
  }

  Keeps-perform {ℓ} :
      {A : Type ℓ} (respond : List Event → Result A) (event : Result A → Event)
      → ((r : Result A) → IsPoolFree (event r))
      → Keeps P (perform respond event)
  unfolding perform
  Keeps-perform respond event free = record {
    at = λ w q. p.event (event (respond w.events)) w (free (respond w.events)) q;
  }

  credential-Keeps : (path : Text) → Keeps P (read_credential h path)
  credential-Keeps path = read_credential-Keeps h P-Overlooks path

  open_connection-Keeps : (args : ConnectArgs) → Keeps P (open_connection h args)
  unfolding open_connection
  open_connection-Keeps args = Keeps-perform _ _ (connect_event-IsPoolFree args)

  stamped_body-Keeps :
      (conn : ℕ) (reference sql : Text) → Keeps P (stamped_body h conn reference sql)
  unfolding stamped_body stamp query
  stamped_body-Keeps conn reference sql = search (keeps_rules, Keeps-perform) depth 9

  session-Keeps :
      (conn : ℕ) (reference sql : Text) (timeout_s : h.Seconds)
      → Keeps P (session h conn reference sql timeout_s)
  unfolding session cursor_block
  session-Keeps conn reference sql timeout_s =
      search (keeps_rules, Keeps-perform, stamped_body-Keeps) depth 9

  reconnect-Keeps :
      (cfg : Config) (identity : Text) (exc : Exc) → Keeps P (reconnect h cfg identity exc)
  unfolding reconnect
  reconnect-Keeps cfg identity exc =
      search (keeps_rules, credential-Keeps, open_connection-Keeps) depth 9

  connect_proxy-Keeps : (cfg : Config) (identity : Text) → Keeps P (connect_proxy h cfg identity)
  unfolding connect_proxy
  connect_proxy-Keeps cfg identity =
      search (keeps_rules, credential-Keeps, open_connection-Keeps, reconnect-Keeps) depth 9

  execute-Keeps :
      (cfg : Config) (identity subject sql : Text) (effective : ℤ) (timeout_s : h.Seconds)
      → Keeps P (execute h cfg identity subject sql effective timeout_s)
  unfolding execute
  execute-Keeps cfg identity subject sql effective timeout_s =
      search (keeps_rules, connect_proxy-Keeps, session-Keeps) depth 9

  proxy_arm-Keeps :
      (cfg : Config) (claims : QueryContextClaims) (sql : Text) (effective : ℤ)
      → Keeps P (proxy_arm h cfg claims sql effective)
  unfolding proxy_arm
  proxy_arm-Keeps cfg claims sql effective = search (keeps_rules, execute-Keeps) depth 9

  read_or_none-Keeps : (path : Text) → Keeps P (read_or_none h path)
  read_or_none-Keeps path = search (keeps_rules, Keeps-perform) depth 9

  read_keys-Keeps : (paths : List Text) → Keeps P (read_keys h paths)
  unfolding read_keys
  read_keys-Keeps [] = Keeps-pure _
  read_keys-Keeps (path ∷ paths) =
      Keeps-bind _ _ (read_or_none-Keeps path) (next (read_keys-Keeps paths))
    where
      next :
          Keeps P (read_keys h paths)
          → (found : Option Bytes)
          → Keeps {A = Option (List Bytes)} P (elim found [
            | none ↦ pure none
            | some pem ↦
                if is_blank_bytes pem
                then pure {A = Option (List Bytes)} none
                else (do keys ← read_keys h paths; pure (with_key h pem keys))
          ])
      next rest none = Keeps-pure _
      next rest (some pem) =
          Keeps-if _ _ _ (Keeps-pure _) (Keeps-bind _ _ rest (λ keys. Keeps-pure _))

  pub load_public_keys-Keeps : Keeps P (load_public_keys h)
  unfolding load_public_keys
  load_public_keys-Keeps = search (keeps_rules, read_keys-Keeps) depth 6

  pub first_use-Keeps : (claims : QueryContextClaims) (now : ℤ) → Keeps P (first_use claims now)
  unfolding first_use
  first_use-Keeps claims now = record { at = λ w q. p.cache _ w q }

module _ (h : Host) (g : Sqlglot) {P : World → Type 0} (p : IsPoolProperty P) (cfg : Config)
    (args : Args) where
  statement_arms-Keeps :
      (claims : QueryContextClaims) (stmt : g.Node)
      → Keeps P (statement_arms h g cfg args claims stmt)
  unfolding statement_arms
  statement_arms-Keeps claims stmt =
      search (keeps_rules, λ (sql : Text) (n : ℤ). proxy_arm-Keeps h p cfg claims sql n) depth 9

  analysis_arm-Keeps :
      (claims : QueryContextClaims) (a : Analysis g.Node)
      → Keeps P (analysis_arm h g cfg args claims a)
  analysis_arm-Keeps claims (reject reason message) = Keeps-pure _
  analysis_arm-Keeps claims (accept stmt) = statement_arms-Keeps claims stmt

  claims_arms-Keeps :
      (claims : QueryContextClaims) (now : ℤ) → Keeps P (claims_arms h g cfg args claims now)
  unfolding claims_arms
  claims_arms-Keeps claims now = Keeps-bind _ _ (first_use-Keeps h p claims now) (λ fresh.
      Keeps-if _ _ _ (Keeps-pure _) (
        Keeps-bind _ _ (Keeps-lift _)
          (λ digest. Keeps-if _ _ _ (Keeps-pure _) (analysis_arm-Keeps claims _))))

  verdict_arm-Keeps :
      (now : ℤ) (v : Verdict QueryContextClaims) → Keeps P (verdict_arm h g cfg args now v)
  verdict_arm-Keeps now (refused reason) = Keeps-pure _
  verdict_arm-Keeps now (failed e) = Keeps-raise e
  verdict_arm-Keeps now (admitted claims) = claims_arms-Keeps claims now

  token_arm-Keeps :
      (token : Text) (keys : Option (List Bytes)) → Keeps P (token_arm h g cfg args token keys)
  token_arm-Keeps token none = Keeps-pure _
  token_arm-Keeps token (some keys) = search (keeps_rules, verdict_arm-Keeps) depth 9

  pub run-Keeps : (token : Text) → Keeps P (run h g cfg args token)
  unfolding run
  run-Keeps token = search (keeps_rules, load_public_keys-Keeps h p, token_arm-Keeps) depth 6
