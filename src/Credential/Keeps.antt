-- ===== src/Credential/Keeps.antt =====
-- What the reading of a credential leaves as it is.
use cognic_tool_oracle_schem.Base.{List, ◌∷◌, Text}
use cognic_tool_oracle_schem.Credential.{mount_of, stat_and_read, read_credential}
use cognic_tool_oracle_schem.Host.{
  Event, credential_resolved, credential_stat, credential_read, Host, World, perform,
}
use cognic_tool_oracle_schem.Host.Keeps.{Keeps, keeps_rules}

-- The world with one more event.
abbrev pub with_event : Event → World → World
with_event e w = record w { events = e ∷ w.events }

-- The property does not change with the events of reading a credential.
pub record Overlooks (P : World → Type 0) : Type 0 where
  pub resolving : (path : Text) (w : World) → P w → P (with_event (credential_resolved path) w)
  pub looking : (path : List Text) (w : World) → P w → P (with_event (credential_stat path) w)
  pub reading : (path : List Text) (w : World) → P w → P (with_event (credential_read path) w)

module _ (h : Host) {P : World → Type 0} (o : Overlooks P) where
  stat-Keeps :
      (path : List Text) → Keeps P (perform (λ past. h.stat past path) (λ _. credential_stat path))
  unfolding perform
  stat-Keeps path = record { at = λ w p. o.looking path w p }

  read-Keeps :
      (path : List Text)
      → Keeps P (perform (λ past. h.read_bytes past path) (λ _. credential_read path))
  unfolding perform
  read-Keeps path = record { at = λ w p. o.reading path w p }

  resolve-Keeps :
      (path : Text)
      → Keeps P (perform (λ past. h.resolve past path) (λ _. credential_resolved path))
  unfolding perform
  resolve-Keeps path = record { at = λ w p. o.resolving path w p }

  mount-Keeps : (path : Text) → Keeps P (mount_of h path)
  unfolding mount_of
  mount-Keeps path = record { at = λ w p. p }

  stat_and_read-Keeps : (path : List Text) → Keeps P (stat_and_read h path)
  unfolding stat_and_read
  stat_and_read-Keeps path = search (keeps_rules, stat-Keeps, read-Keeps)

  pub read_credential-Keeps : (path : Text) → Keeps P (read_credential h path)
  unfolding read_credential
  read_credential-Keeps path =
      search (keeps_rules, resolve-Keeps, mount-Keeps, stat_and_read-Keeps) depth 9
