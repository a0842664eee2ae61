-- ===== src/Readonly/Execute/Protocol.antt =====
-- The order of the calls of arm 7 (`_execute`), as a protocol on events.
use cognic_tool_oracle_schem.Base.{ℕ, ◌≡◌, ◌⊎◌, Bool, true, false, List, [], ◌∷◌, ℤ, Text}
use cognic_tool_oracle_schem.Readonly.Execute.{set_identifier}
use cognic_tool_oracle_schem.Host.{
  ConnectArgs, Event, credential_resolved, credential_stat, credential_read, connect_failed,
  connected, timeout_set, cursor_opened, procedure_called, executed, fetched_all, cursor_closed,
  connection_closed,
}

-- Where the work stands: without a connection, with one, or with one that bears the stamp.
pub data Phase : Type 0 where
  outside : Phase
  opened : ℕ → Phase
  stamped : ℕ → Phase

-- The events from `before` on follow the protocol for a connect user, a subject reference and a text.
pub data Follows (user reference sql : Text) (before : List Event)
    : Phase → List Event → Type 0 where
  start : Follows user reference sql before outside before
  file_resolved :
      {past : List Event} (path : Text)
      → Follows user reference sql before outside past
      → Follows user reference sql before outside (credential_resolved path ∷ past)
  file_stat :
      {past : List Event} (path : List Text)
      → Follows user reference sql before outside past
      → Follows user reference sql before outside (credential_stat path ∷ past)
  file_read :
      {past : List Event} (path : List Text)
      → Follows user reference sql before outside past
      → Follows user reference sql before outside (credential_read path ∷ past)
  refused :
      {past : List Event} (args : ConnectArgs)
      → args.user ≡ user
      → Follows user reference sql before outside past
      → Follows user reference sql before outside (connect_failed args ∷ past)
  connect :
      {past : List Event} (args : ConnectArgs) (conn : ℕ)
      → args.user ≡ user
      → Follows user reference sql before outside past
      → Follows user reference sql before (opened conn) (connected args conn ∷ past)
  timeout :
      {past : List Event} (conn : ℕ) (ms : ℤ) (done : Bool)
      → Follows user reference sql before (opened conn) past
      → Follows user reference sql before (opened conn) (timeout_set conn ms done ∷ past)
  cursor :
      {past : List Event} (conn : ℕ) (done : Bool)
      → Follows user reference sql before (opened conn) past
      → Follows user reference sql before (opened conn) (cursor_opened conn done ∷ past)
  -- only a call of the procedure that returned gives the stamp
  stamp_set :
      {past : List Event} (conn : ℕ)
      → Follows user reference sql before (opened conn) past
      → Follows user reference sql before
          (stamped conn)
          (procedure_called conn set_identifier (reference ∷ []) true ∷ past)
  stamp_failed :
      {past : List Event} (conn : ℕ)
      → Follows user reference sql before (opened conn) past
      → Follows user reference sql before
          (opened conn)
          (procedure_called conn set_identifier (reference ∷ []) false ∷ past)
  -- the user's statement runs on a stamped connection only
  statement :
      {past : List Event} (conn : ℕ) (done : Bool)
      → Follows user reference sql before (stamped conn) past
      → Follows user reference sql before (stamped conn) (executed conn sql done ∷ past)
  fetch :
      {past : List Event} (conn : ℕ) (done : Bool)
      → Follows user reference sql before (stamped conn) past
      → Follows user reference sql before (stamped conn) (fetched_all conn done ∷ past)
  leave_opened :
      {past : List Event} (conn : ℕ)
      → Follows user reference sql before (opened conn) past
      → Follows user reference sql before (opened conn) (cursor_closed conn ∷ past)
  leave_stamped :
      {past : List Event} (conn : ℕ)
      → Follows user reference sql before (stamped conn) past
      → Follows user reference sql before (stamped conn) (cursor_closed conn ∷ past)
  close_opened :
      {past : List Event} (conn : ℕ) (done : Bool)
      → Follows user reference sql before (opened conn) past
      → Follows user reference sql before outside (connection_closed conn done ∷ past)
  close_stamped :
      {past : List Event} (conn : ℕ) (done : Bool)
      → Follows user reference sql before (stamped conn) past
      → Follows user reference sql before outside (connection_closed conn done ∷ past)

-- A connection is open, stamped or not.
abbrev pub Inside : Text → Text → Text → List Event → ℕ → List Event → Type 0
Inside user reference sql before conn past =
    Follows user reference sql before (opened conn) past
    ⊎ Follows user reference sql before (stamped conn) past
