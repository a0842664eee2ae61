-- ===== src/Readonly/Execute/Retries.antt =====
-- How often the governed tool tries to connect.
use cognic_tool_oracle_schem.Base.{ℕ, ◌+◌, ◌≤◌, refl, Bool, true, false, arith, ℤ, Text}
use cognic_tool_oracle_schem.Python.Exception.{Exc}
use cognic_tool_oracle_schem.Config.{Config}
use cognic_tool_oracle_schem.Credential.{read_credential}
use cognic_tool_oracle_schem.Credential.Costs.{IsNotReading, read_credential-Costs}
use cognic_tool_oracle_schem.Readonly.Execute.{
  open_connection, reconnect, connect_proxy, stamp, query, stamped_body, cursor_block, session,
  execute,
}
use cognic_tool_oracle_schem.Host.{ConnectArgs, Event, connect_failed, connected, Host, World}
use cognic_tool_oracle_schem.Host.Costs.{
  count, Costs, Costs-pure, Costs-raise, Costs-lift, Costs-gets, Costs-other, Costs-perform,
  Costs-more, Costs-bind, Costs-catch, Costs-finally, Costs-if,
}

abbrev pub is_connect : Event → Bool
is_connect (connected args conn) = true
is_connect (connect_failed args) = true
is_connect _ = false

is_connect-IsNotReading : IsNotReading is_connect
is_connect-IsNotReading = record { resolving = λ p. refl; looking = λ p. refl; reading = λ p. refl }

module _ (h : Host) where
  open_connection-Costs : (args : ConnectArgs) → Costs is_connect 1 (open_connection h args)
  unfolding open_connection
  open_connection-Costs args = Costs-perform _ _

  credential-Costs : (path : Text) → Costs is_connect 0 (read_credential h path)
  credential-Costs path = read_credential-Costs h is_connect path is_connect-IsNotReading

  reconnect-Costs :
      (cfg : Config) (identity : Text) (exc : Exc)
      → Costs is_connect 1 (reconnect h cfg identity exc)
  unfolding reconnect
  reconnect-Costs cfg identity exc =
      Costs-if 1 _ _ _
        (Costs-bind 0 1 _ _ (credential-Costs _)
          (λ fresh. Costs-bind 1 0 _ _ (open_connection-Costs _) (λ conn. Costs-pure _)))
        (Costs-more 0 1 _ (omega arith) (Costs-raise _))

  connect_proxy-Costs :
      (cfg : Config) (identity : Text) → Costs is_connect 2 (connect_proxy h cfg identity)
  unfolding connect_proxy
  connect_proxy-Costs cfg identity = Costs-bind 0 2 _ _ (credential-Costs _) (λ credential.
      Costs-catch 1 1 _ _ _ (Costs-bind 1 0 _ _ (open_connection-Costs _) (λ conn. Costs-pure _))
        (reconnect-Costs cfg identity))

  stamp-Costs : (conn : ℕ) (reference : Text) → Costs is_connect 0 (stamp h conn reference)
  unfolding stamp
  stamp-Costs conn reference =
      Costs-catch 0 0 _ _ _
        (Costs-bind 0 0 _ _ (Costs-other _ _ (λ r. refl)) (λ done. Costs-pure _))
        (λ e. Costs-pure _)

  query-Costs : (conn : ℕ) (sql : Text) → Costs is_connect 0 (query h conn sql)
  unfolding query
  query-Costs conn sql = Costs-bind 0 0 _ _ (Costs-other _ _ (λ r. refl)) (λ done.
      Costs-bind 0 0 _ _ (Costs-gets _)
        (λ columns. Costs-bind 0 0 _ _ (Costs-other _ _ (λ r. refl)) (λ rows. Costs-pure _)))

  stamped_body-Costs :
      (conn : ℕ) (reference sql : Text) → Costs is_connect 0 (stamped_body h conn reference sql)
  unfolding stamped_body
  stamped_body-Costs conn reference sql =
      Costs-bind 0 0 _ _ (stamp-Costs conn reference)
        (λ stamped. Costs-if 0 _ _ _ (query-Costs conn sql) (Costs-pure _))

  session-Costs :
      (conn : ℕ) (reference sql : Text) (timeout_s : h.Seconds)
      → Costs is_connect 0 (session h conn reference sql timeout_s)
  unfolding session cursor_block
  session-Costs conn reference sql timeout_s =
      Costs-finally 0 0 _ _
        (Costs-bind 0 0 _ _ (Costs-lift _) (λ ms.
          Costs-bind 0 0 _ _ (Costs-other _ _ (λ r. refl)) (λ limited.
            Costs-bind 0 0 _ _ (Costs-other _ _ (λ r. refl)) (λ opened.
              Costs-finally 0 0 _ _ (stamped_body-Costs conn reference sql)
                (Costs-other _ _ (λ r. refl))))))
        (Costs-other _ _ (λ r. refl))

  execute-Costs :
      (cfg : Config) (identity subject sql : Text) (effective : ℤ) (timeout_s : h.Seconds)
      → Costs is_connect 2 (execute h cfg identity subject sql effective timeout_s)
  unfolding execute
  execute-Costs cfg identity subject sql effective timeout_s =
      Costs-bind 0 2 _ _ (Costs-lift _) (λ bytes.
        Costs-bind 2 0 _ _ (connect_proxy-Costs cfg identity) (λ session_of.
          Costs-bind 0 0 _ _ (session-Costs session_of.1 _ sql timeout_s) (λ result. Costs-pure _)))

  -- Arm 7 tries to connect at most twice: however the driver answers, there is one second try and no
  -- third.
  pub execute-two_tries :
      (cfg : Config) (identity subject sql : Text) (effective : ℤ) (timeout_s : h.Seconds)
      (w : World)
      → count is_connect (execute h cfg identity subject sql effective timeout_s w).1.events
        ≤ 2 + count is_connect w.events
  execute-two_tries cfg identity subject sql effective timeout_s w =
      (execute-Costs cfg identity subject sql effective timeout_s).at w
