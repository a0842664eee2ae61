-- ===== src/Readonly/Execute/Order.antt =====
-- The events of `_execute`, step by step, along the protocol.
use cognic_tool_oracle_schem.Base.{
  ℕ, ◌≡◌, refl, inl, inr, Bool, true, false, List, [], ◌∷◌, ◌++◌, ℤ, Text, lit, Bytes,
}
use cognic_tool_oracle_schem.Base.{Bool-cases, Option-cases, Option, none, some}
use cognic_tool_oracle_schem.Python.Exception.{Exc, Result, ok, raised, Result-cases}
use cognic_tool_oracle_schem.Python.Utf8.{encode}
use cognic_tool_oracle_schem.Config.{Config}
use cognic_tool_oracle_schem.Credential.{CredentialRead}
use cognic_tool_oracle_schem.Readonly.Reason.{Envelope}
use cognic_tool_oracle_schem.Readonly.Execute.{Fetched, envelope_of}
use cognic_tool_oracle_schem.Readonly.Execute.{
  set_identifier, connect_args, stamp, query, stamped_body, cursor_block, session, open_connection,
  connect_proxy, reconnect, execute, is_auth_error,
}
use cognic_tool_oracle_schem.Readonly.Execute.Protocol.{
  outside, opened, stamped, Follows, start, file_resolved, file_stat, file_read, refused, connect,
  timeout, cursor, stamp_set, stamp_failed, statement, fetch, leave_opened, leave_stamped,
  close_opened, close_stamped, Inside,
}
use cognic_tool_oracle_schem.Credential.Keeps.{Overlooks, read_credential-Keeps}
use cognic_tool_oracle_schem.Host.Keeps.{Keeps, Leads, Leads-bind, Leads-catch}
use cognic_tool_oracle_schem.Host.{
  ◌>>=◌, pure, raise, ConnectArgs, Event, executed, cursor_closed, connection_closed, Host, World,
  is_exception, M,
}

module _ (h : Host) {user reference sql : Text} {before : List Event} (conn : ℕ) where
  query-Follows :
      (w : World)
      → Follows user reference sql before (stamped conn) w.events
      → Follows user reference sql before (stamped conn) (query h conn sql w).1.events
  unfolding query ◌>>=◌
  query-Follows w f = elim (Result-cases (h.execute w.events conn sql)) [
    | inr (exc, e) ↦ rw e (statement conn false f)
    | inl (_, e) ↦ elim (Result-cases (h.fetchall (executed conn sql true ∷ w.events) conn)) [
      | inr (exc, d) ↦ rw (e, d) (fetch conn false (statement conn true f))
      | inl (rows, d) ↦ rw (e, d) (fetch conn true (statement conn true f))
    ]
  ]

  leave :
      {past : List Event}
      → Inside user reference sql before conn past
      → Inside user reference sql before conn (cursor_closed conn ∷ past)
  leave (inl f) = inl (leave_opened conn f)
  leave (inr f) = inr (leave_stamped conn f)

  -- The stamp and what follows it, inside the `with` block.
  body-Inside :
      (w : World)
      → Follows user reference sql before (opened conn) w.events
      → Inside user reference sql before conn (stamped_body h conn reference sql w).1.events
  unfolding stamped_body stamp ◌>>=◌
  body-Inside w f = elim (Result-cases (h.callproc w.events conn set_identifier (reference ∷ []))) [
    | inl (_, e) ↦ rw e (inr (query-Follows _ (stamp_set conn f)))
    | inr (exc, e) ↦ elim (Bool-cases (is_exception exc)) [
      | inl caught ↦ rw (e, caught) (inl (stamp_failed conn f))
      | inr passes ↦ rw (e, passes) (inl (stamp_failed conn f))
    ]
  ]

  cursor_block-Inside :
      (w : World)
      → Follows user reference sql before (opened conn) w.events
      → Inside user reference sql before conn (cursor_block h conn reference sql w).1.events
  unfolding cursor_block ◌>>=◌
  cursor_block-Inside w f = elim (Result-cases (h.open_cursor w.events conn)) [
    | inr (exc, e) ↦ rw e (inl (cursor conn false f))
    | inl (_, e) ↦ rw e (leave (body-Inside _ (cursor conn true f)))
  ]

  close :
      {past : List Event} (done : Bool)
      → Inside user reference sql before conn past
      → Follows user reference sql before outside (connection_closed conn done ∷ past)
  close done (inl f) = close_opened conn done f
  close done (inr f) = close_stamped conn done f

  -- A session leaves no connection open, however it ends.
  session-Follows :
      (timeout_s : h.Seconds) (w : World)
      → Follows user reference sql before (opened conn) w.events
      → Follows user reference sql before outside
          (session h conn reference sql timeout_s w).1.events
  unfolding session ◌>>=◌
  session-Follows timeout_s w f = elim (Result-cases (h.milliseconds timeout_s)) [
    | inr (exc, e) ↦ rw e (close _ (inl f))
    | inl (ms, e) ↦ elim (Result-cases (h.set_timeout w.events conn ms)) [
      | inr (exc, d) ↦ rw (e, d) (close _ (inl (timeout conn ms false f)))
      | inl (_, d) ↦ rw (e, d) (close _ (cursor_block-Inside _ (timeout conn ms true f)))
    ]
  ]

module _ (h : Host) (user reference sql : Text) (before : List Event) where
  -- No connection is open, and the events follow the protocol.
  abbrev IsOutside : World → Type 0
  IsOutside w = Follows user reference sql before outside w.events

  IsOutside-Overlooks : Overlooks IsOutside
  IsOutside-Overlooks = record {
    resolving = λ path w f. file_resolved path f;
    looking = λ path w f. file_stat path f;
    reading = λ path w f. file_read path f;
  }

  -- A connection is open if there is one to return, and none if the block raised.
  abbrev Opens {ℓ} : {A : Type ℓ} → Result (A × ℕ) → World → Type 0
  Opens (ok (a, conn)) w = Follows user reference sql before (opened conn) w.events
  Opens (raised e) w = IsOutside w

  opening :
      (args : ConnectArgs) (credential : CredentialRead)
      → args.user ≡ user
      → Leads IsOutside Opens (do conn ← open_connection h args; pure (credential, conn))
  unfolding open_connection ◌>>=◌
  opening args credential u = record {
    at = λ w f. elim (Result-cases (h.connect w.events args)) [
      | inl (conn, e) ↦ rw e (connect args conn u f)
      | inr (exc, e) ↦ rw e (refused args u f)
    ];
  }

  -- A block that keeps the outside, before a block that leads on from there.
  then_Leads {ℓ κ} :
      {A : Type ℓ} {B : Type κ} (m : M A) (f : A → M (B × ℕ))
      → Keeps IsOutside m
      → ((a : A) → Leads IsOutside Opens (f a))
      → Leads IsOutside Opens (m >>= f)
  then_Leads m f k l = Leads-bind {R = λ _. IsOutside} m f (record { at = k.at }) (λ e w p. p) l

module _ (h : Host) (cfg : Config) (identity reference sql : Text) (before : List Event) where
  abbrev proxy_user : Text
  proxy_user = (connect_args cfg identity []).user

  again :
      (exc : Exc)
      → Leads
          (IsOutside h proxy_user reference sql before)
          (Opens h proxy_user reference sql before)
          (reconnect h cfg identity exc)
  unfolding reconnect
  again exc = elim (Bool-cases (is_auth_error exc)) [
    | inl auth ↦ rw auth (
        then_Leads h proxy_user reference sql before _ _
          (read_credential-Keeps h (IsOutside-Overlooks h proxy_user reference sql before)
            cfg.oracle_password_file)
          (λ fresh. opening h proxy_user reference sql before _ fresh refl))
    | inr other ↦ rw other (unfold raise in record { at = λ w f. f })
  ]

  connect_proxy-Leads :
      Leads
        (IsOutside h proxy_user reference sql before)
        (Opens h proxy_user reference sql before)
        (connect_proxy h cfg identity)
  unfolding connect_proxy
  connect_proxy-Leads =
      then_Leads h proxy_user reference sql before _ _
        (read_credential-Keeps h (IsOutside-Overlooks h proxy_user reference sql before)
          cfg.oracle_password_file)
        λ credential.
          Leads-catch is_exception _ _ (opening h proxy_user reference sql before _ credential refl)
            again

  session_of-Leads :
      (timeout_s : h.Seconds) (finish : CredentialRead × ℕ → Fetched → Envelope)
      (c : CredentialRead × ℕ)
      → Leads
          (Opens h proxy_user reference sql before (ok c))
          (λ _. IsOutside h proxy_user reference sql before)
          (session h c.1 reference sql timeout_s >>= λ result. pure (finish c result))
  session_of-Leads timeout_s finish c =
      Leads-bind {R = λ _. IsOutside h proxy_user reference sql before} _ _
        (record { at = λ w f. session-Follows h c.1 timeout_s w f }) (λ e w f. f)
        (λ result. unfold pure in record { at = λ w f. f })

  -- The connection and the session of a subject with this reference.
  contact-Leads :
      (timeout_s : h.Seconds) (finish : CredentialRead × ℕ → Fetched → Envelope)
      → Leads
          (IsOutside h proxy_user reference sql before)
          (λ _. IsOutside h proxy_user reference sql before)
          (connect_proxy h cfg identity >>= λ c.
            session h c.1 reference sql timeout_s >>= λ result. pure (finish c result))
  contact-Leads timeout_s finish =
      Leads-bind {R = Opens h proxy_user reference sql before} _ _ connect_proxy-Leads (λ e w f. f)
        (session_of-Leads timeout_s finish)

abbrev pub digest_of : (Bytes → Text) → Option Bytes → Text
digest_of sha256 none = []
digest_of sha256 (some utf8) = sha256 utf8

-- The reference that is stamped: the digest of the subject's UTF-8 form.
abbrev pub subject_reference : Host → Text → Text
subject_reference h subject = digest_of h.sha256 (encode subject)

module _ (h : Host) (cfg : Config) (identity subject sql : Text) (effective : ℤ) where
  -- Whatever the file system and the driver answer, the calls of arm 7 follow the protocol and leave no
  -- connection open: every connect is for the proxy user of the identity, the text is run only on a
  -- connection on which the stamp with the subject's reference succeeded, it is the only text that is
  -- run, and each connection is closed, also when a call raises.
  pub execute-Follows :
      (timeout_s : h.Seconds) (w : World)
      → Follows
          (cfg.oracle_user ++ (lit "[" ++ (identity ++ lit "]")))
          (subject_reference h subject)
          sql
          w.events
          outside
          (execute h cfg identity subject sql effective timeout_s w).1.events
  unfolding execute ◌>>=◌
  execute-Follows timeout_s w = elim (Option-cases (encode subject)) [
    | inl bad ↦ rw bad start
    | inr (utf8, e) ↦ rw e (
        (contact-Leads h cfg identity (h.sha256 utf8) sql w.events timeout_s
            (λ c result. envelope_of result effective c.0.rotation_ref)).at
          w start)
  ]
