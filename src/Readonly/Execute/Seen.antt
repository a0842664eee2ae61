-- ===== src/Readonly/Execute/Seen.antt =====
-- Arm 7 and the replay cache.
use cognic_tool_oracle_schem.Base.{ℕ, ◌≡◌, List, ℤ, Text}
use cognic_tool_oracle_schem.Python.Exception.{Exc, Result}
use cognic_tool_oracle_schem.Config.{Config}
use cognic_tool_oracle_schem.Credential.{read_credential}
use cognic_tool_oracle_schem.Readonly.Replay.{Seen}
use cognic_tool_oracle_schem.Readonly.Execute.{
  open_connection, reconnect, connect_proxy, stamp, query, stamped_body, cursor_block, session,
  execute,
}
use cognic_tool_oracle_schem.Host.{Event, Host, World, perform}
use cognic_tool_oracle_schem.Credential.Keeps.{Overlooks, read_credential-Keeps}
use cognic_tool_oracle_schem.Host.Keeps.{Keeps, keeps_rules}

module _ (h : Host) (seen : Seen) where
  -- The cache is this one.
  abbrev pub Remembers : World → Type 0
  Remembers w = w.seen ≡ seen

  perform-Keeps {ℓ} :
      {A : Type ℓ} (respond : List Event → Result A) (event : Result A → Event)
      → Keeps Remembers (perform respond event)
  unfolding perform
  perform-Keeps respond event = record { at = λ w p. p }

  Remembers-Overlooks : Overlooks Remembers
  Remembers-Overlooks = record {
    resolving = λ path w p. p;
    looking = λ path w p. p;
    reading = λ path w p. p;
  }

  read_credential-Remembers : (path : Text) → Keeps Remembers (read_credential h path)
  read_credential-Remembers path = read_credential-Keeps h Remembers-Overlooks path

  ruleset seen_rules = (keeps_rules, perform-Keeps, read_credential-Remembers)

  reconnect-Keeps :
      (cfg : Config) (identity : Text) (exc : Exc) → Keeps Remembers (reconnect h cfg identity exc)
  unfolding reconnect open_connection
  reconnect-Keeps cfg identity exc = search seen_rules depth 9

  connect_proxy-Keeps :
      (cfg : Config) (identity : Text) → Keeps Remembers (connect_proxy h cfg identity)
  unfolding connect_proxy open_connection
  connect_proxy-Keeps cfg identity = search (seen_rules, reconnect-Keeps) depth 9

  stamped_body-Keeps :
      (conn : ℕ) (reference sql : Text) → Keeps Remembers (stamped_body h conn reference sql)
  unfolding stamped_body stamp query
  stamped_body-Keeps conn reference sql = search seen_rules depth 9

  session-Keeps :
      (conn : ℕ) (reference sql : Text) (timeout_s : h.Seconds)
      → Keeps Remembers (session h conn reference sql timeout_s)
  unfolding session cursor_block
  session-Keeps conn reference sql timeout_s = search (seen_rules, stamped_body-Keeps) depth 9

  pub execute-Keeps :
      (cfg : Config) (identity subject sql : Text) (effective : ℤ) (timeout_s : h.Seconds)
      → Keeps Remembers (execute h cfg identity subject sql effective timeout_s)
  unfolding execute
  execute-Keeps cfg identity subject sql effective timeout_s =
      search (seen_rules, connect_proxy-Keeps, session-Keeps) depth 9
