-- ===== src/Readonly/Execute.antt =====
-- Arm 7 of readonly_query.py: `_execute`; and `_is_auth_error` of oracle.py.
pub mod Protocol
pub mod Order
pub mod Seen
pub mod Retries
pub mod Rows
use cognic_tool_oracle_schem.Base.{
  ℕ, ◌/◌, ◌%◌, ◌+◌, Bool, true, false, not, List, [], ◌∷◌, ◌++◌, map,
}
use cognic_tool_oracle_schem.Base.{
  Option, none, some, leb_ℤ, length, if◌then◌else◌, ℤ, pos, Text, Bytes, lit, text_eq,
}
use cognic_tool_oracle_schem.Python.Exception.{
  Exc, Result, ok, raised, or_raise, unicode_encode_error, is_ok,
}
use cognic_tool_oracle_schem.Python.Utf8.{encode}
use cognic_tool_oracle_schem.Config.{Config}
use cognic_tool_oracle_schem.Credential.{CredentialRead, read_credential}
use cognic_tool_oracle_schem.Readonly.Cell.{Cell, json_safe}
use cognic_tool_oracle_schem.Readonly.Reason.{
  query_identity_stamp_failed, Row, Envelope, refusal, success,
}
use cognic_tool_oracle_schem.Host.{
  ConnectArgs, Event, connect_failed, connected, timeout_set, cursor_opened, procedure_called,
  executed, fetched_all, cursor_closed, connection_closed, Host, M, pure, raise, lift, perform,
  gets, catch, is_exception, finally, ◌>>=◌, ◌>>◌,
}

-- `getattr(err, "full_code", "") == "ORA-01017"` for the first argument.
unfoldable pub is_auth_code : List (Option Text) → Bool
is_auth_code [] = false
is_auth_code (none ∷ args) = false
is_auth_code (some full_code ∷ args) = text_eq full_code (lit "ORA-01017")

unfoldable pub is_auth_error : Exc → Bool
is_auth_error exc = is_auth_code exc.args

-- `{column: _json_safe(value) for column, value in zip(columns, row)}`: a later column of the same name
-- overwrites the value in the earlier one's place.
unfoldable pub set_column : Text → Cell → Row → Row
set_column c v [] = (c, v) ∷ []
set_column c v ((d, w) ∷ row) = if text_eq c d then (d, v) ∷ row else (d, w) ∷ set_column c v row

unfoldable pub fill_row : List Text → List Cell → Row → Row
fill_row [] values row = row
fill_row (c ∷ columns) [] row = row
fill_row (c ∷ columns) (v ∷ values) row = fill_row columns values (set_column c (json_safe v) row)

abbrev pub columns_of : Option (List Text) → List Text
columns_of none = []
columns_of (some columns) = columns

abbrev pub stamp_message : Text
stamp_message =
    lit
      "the database session could not be stamped with the verified subject; refusing before user SQL"

-- What the `with` block leaves: the refusal, or the columns and the fetched rows.
pub data Fetched : Type 0 where
  unstamped : Fetched
  fetched : List Text → List (List Cell) → Fetched

unfoldable pub envelope_of : Fetched → ℤ → Text → Envelope
envelope_of unstamped effective ref = refusal query_identity_stamp_failed stamp_message
envelope_of (fetched columns found) effective ref =
    let rows = map (λ row. fill_row columns row []) found in
    success rows (length rows) (leb_ℤ effective (pos (length rows))) ref

-- `await connect(user=..., password=..., dsn=...)`, logged with its outcome.
abbrev pub connect_event : ConnectArgs → Result ℕ → Event
connect_event args (ok conn) = connected args conn
connect_event args (raised e) = connect_failed args

abbrev pub connect_args : Config → Text → Text → ConnectArgs
connect_args cfg proxy_db_identity password = record {
  user = cfg.oracle_user ++ (lit "[" ++ (proxy_db_identity ++ lit "]"));
  password = password;
  dsn = cfg.oracle_dsn;
}

abbrev pub set_identifier : Text
set_identifier = lit "dbms_session.set_identifier"

module _ (h : Host) where
  unfoldable pub open_connection : ConnectArgs → M ℕ
  open_connection args = perform (λ past. h.connect past args) (connect_event args)

  -- The handler of the first try: after an ORA-01017 the credential is read again.
  unfoldable pub reconnect : Config → Text → Exc → M (CredentialRead × ℕ)
  reconnect cfg proxy_db_identity exc =
      if is_auth_error exc
      then (do
        fresh ← read_credential h cfg.oracle_password_file
        conn ← open_connection (connect_args cfg proxy_db_identity fresh.password)
        pure (fresh, conn))
      else raise exc

  -- One connection, or a second try with a credential that is read again after an ORA-01017.
  unfoldable pub connect_proxy : Config → Text → M (CredentialRead × ℕ)
  connect_proxy cfg proxy_db_identity = do
    credential ← read_credential h cfg.oracle_password_file
    catch is_exception
        (do
          conn ← open_connection (connect_args cfg proxy_db_identity credential.password)
          pure (credential, conn))
        (reconnect cfg proxy_db_identity)

  -- The stamp: true if it succeeded, false if an `Exception` was caught.
  unfoldable pub stamp : ℕ → Text → M Bool
  stamp conn subject_reference =
      catch is_exception
        (do
          perform (λ past. h.callproc past conn set_identifier (subject_reference ∷ []))
              (λ r. procedure_called conn set_identifier (subject_reference ∷ []) (is_ok r))
          pure true)
        (λ _. pure false)

  -- The statements behind the stamp.
  unfoldable pub query : ℕ → Text → M Fetched
  query conn bounded_sql = do
    perform (λ past. h.execute past conn bounded_sql) (λ r. executed conn bounded_sql (is_ok r))
    columns ← gets (λ past. columns_of (h.description past conn))
    found ← perform (λ past. h.fetchall past conn) (λ r. fetched_all conn (is_ok r))
    pure (fetched columns found)

  -- The body of the `with` block.
  unfoldable pub stamped_body : ℕ → Text → Text → M Fetched
  stamped_body conn subject_reference bounded_sql = do
    stamped ← stamp conn subject_reference
    if stamped then query conn bounded_sql else pure unstamped

  -- The `with conn.cursor()` block. Leaving it closes the cursor, which is taken not to fail.
  unfoldable pub cursor_block : ℕ → Text → Text → M Fetched
  cursor_block conn subject_reference bounded_sql = do
    perform (λ past. h.open_cursor past conn) (λ r. cursor_opened conn (is_ok r))
    finally (stamped_body conn subject_reference bounded_sql)
        (perform (λ _. ok tt) (λ _. cursor_closed conn))

  -- The `try … finally` around the session.
  unfoldable pub session : ℕ → Text → Text → h.Seconds → M Fetched
  session conn subject_reference bounded_sql timeout_s =
      finally
        (do
          ms ← lift (h.milliseconds timeout_s)
          perform (λ past. h.set_timeout past conn ms) (λ r. timeout_set conn ms (is_ok r))
          cursor_block conn subject_reference bounded_sql)
        (perform (λ past. h.close past conn) (λ r. connection_closed conn (is_ok r)))

  unfoldable pub execute : Config → Text → Text → Text → ℤ → h.Seconds → M Envelope
  execute cfg proxy_db_identity verified_subject bounded_sql effective timeout_s = do
    subject ← lift (or_raise unicode_encode_error (encode verified_subject))
    session_of ← connect_proxy cfg proxy_db_identity
    result ← session session_of.1 (h.sha256 subject) bounded_sql timeout_s
    pure (envelope_of result effective session_of.0.rotation_ref)
