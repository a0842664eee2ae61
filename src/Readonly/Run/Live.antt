-- ===== src/Readonly/Run/Live.antt =====
-- A cleared request on surroundings that answer.
use cognic_tool_oracle_schem.Base.{◌≡◌, refl, ap, ◌∙◌, true, List, some}
use cognic_tool_oracle_schem.Base.{ℕ, ℤ, Text, Bytes, text_eq_refl}
use cognic_tool_oracle_schem.Python.Exception.{ok, is_ok, ok_value, or_raise}
use cognic_tool_oracle_schem.Python.Utf8.{encode}
use cognic_tool_oracle_schem.Config.{Config}
use cognic_tool_oracle_schem.Credential.{read_credential}
use cognic_tool_oracle_schem.QueryContext.{QueryContextClaims}
use cognic_tool_oracle_schem.Readonly.Reason.{Envelope, refusal, success}
use cognic_tool_oracle_schem.Readonly.Sqlglot.{Sqlglot}
use cognic_tool_oracle_schem.Readonly.Keys.{load_public_keys}
use cognic_tool_oracle_schem.Readonly.Execute.{
  Fetched, unstamped, fetched, envelope_of, open_connection, connect_proxy, stamp, query,
  stamped_body, cursor_block, session, execute,
}
use cognic_tool_oracle_schem.Readonly.Run.{
  Args, first_use, is_proxy_identity, proxy_arm, statement_arms, claims_arms, run,
}
use cognic_tool_oracle_schem.Readonly.Run.Gate.{noted, IsCleared}
use cognic_tool_oracle_schem.Host.{ConnectArgs, Event, Host, World, ◌>>=◌}
use cognic_tool_oracle_schem.Host.Delivers.{
  Delivers, Anything, Delivers-pure, Delivers-lift, Delivers-bind, Delivers-catch, Delivers-finally,
  Delivers-gets, Delivers-perform,
}

-- The password file can be read, and the driver answers every call.
pub record IsServing (h : Host) (cfg : Config) : Type 0 where
  pub reads : (w : World) → is_ok (read_credential h cfg.oracle_password_file w).0 ≡ true
  pub milliseconds : (s : h.Seconds) → is_ok (h.milliseconds s) ≡ true
  pub connects : (past : List Event) (args : ConnectArgs) → is_ok (h.connect past args) ≡ true
  pub limits : (past : List Event) (conn : ℕ) (ms : ℤ) → is_ok (h.set_timeout past conn ms) ≡ true
  pub opens : (past : List Event) (conn : ℕ) → is_ok (h.open_cursor past conn) ≡ true
  pub calls :
      (past : List Event) (conn : ℕ) (name : Text) (values : List Text)
      → is_ok (h.callproc past conn name values) ≡ true
  pub executes :
      (past : List Event) (conn : ℕ) (sql : Text) → is_ok (h.execute past conn sql) ≡ true
  pub fetches : (past : List Event) (conn : ℕ) → is_ok (h.fetchall past conn) ≡ true
  pub closes : (past : List Event) (conn : ℕ) → is_ok (h.close past conn) ≡ true

-- Rows, not a refusal.
abbrev pub IsSuccess : Envelope → Type 0
IsSuccess (refusal reason message) = ⊥
IsSuccess (success rows row_count truncated ref) = Unit

abbrev IsFetched : Fetched → Type 0
IsFetched unstamped = ⊥
IsFetched (fetched columns rows) = Unit

envelope_of-IsSuccess :
    (result : Fetched) (effective : ℤ) (ref : Text)
    → IsFetched result
    → IsSuccess (envelope_of result effective ref)
unfolding envelope_of
envelope_of-IsSuccess (fetched columns rows) effective ref f = tt
envelope_of-IsSuccess unstamped effective ref f = absurd f

module _ (h : Host) (cfg : Config) (up : IsServing h cfg) where
  reading-Delivers : Delivers Anything (read_credential h cfg.oracle_password_file)
  reading-Delivers = record { at = λ w. let (c, e) = ok_value _ (up.reads w) in (c, e, tt) }

  connect_proxy-Delivers : (identity : Text) → Delivers Anything (connect_proxy h cfg identity)
  unfolding connect_proxy open_connection
  connect_proxy-Delivers identity = Delivers-bind _ _ reading-Delivers (λ credential r.
      Delivers-catch _ _ _ (
        Delivers-bind _ _ (Delivers-perform _ _ (λ past. up.connects past _))
          (λ conn c. Delivers-pure _ tt)))

  stamp-Delivers : (conn : ℕ) (reference : Text) → Delivers (λ b. b ≡ true) (stamp h conn reference)
  unfolding stamp
  stamp-Delivers conn reference = Delivers-catch _ _ _ (
      Delivers-bind _ _ (Delivers-perform _ _ (λ past. up.calls past conn _ _))
        (λ done d. Delivers-pure _ refl))

  query-Delivers : (conn : ℕ) (sql : Text) → Delivers IsFetched (query h conn sql)
  unfolding query
  query-Delivers conn sql =
      Delivers-bind _ _ (Delivers-perform _ _ (λ past. up.executes past conn sql)) (λ done d.
        Delivers-bind _ _ (Delivers-gets _) (λ columns c.
          Delivers-bind _ _ (Delivers-perform _ _ (λ past. up.fetches past conn))
            (λ rows r. Delivers-pure _ tt)))

  stamped_body-Delivers :
      (conn : ℕ) (reference sql : Text) → Delivers IsFetched (stamped_body h conn reference sql)
  unfolding stamped_body
  stamped_body-Delivers conn reference sql =
      Delivers-bind _ _ (stamp-Delivers conn reference)
        (λ stamped s. rw s (query-Delivers conn sql))

  session-Delivers :
      (conn : ℕ) (reference sql : Text) (timeout_s : h.Seconds)
      → Delivers IsFetched (session h conn reference sql timeout_s)
  unfolding session cursor_block
  session-Delivers conn reference sql timeout_s =
      let (ms, e) = ok_value _ (up.milliseconds timeout_s) in
      Delivers-finally _ _
        (Delivers-bind _ _ (Delivers-lift {P = Anything} _ ms e tt) (λ ms m.
          Delivers-bind _ _ (Delivers-perform _ _ (λ past. up.limits past conn ms)) (λ limited l.
            Delivers-bind _ _ (Delivers-perform _ _ (λ past. up.opens past conn)) (λ opened o.
              Delivers-finally _ _ (stamped_body-Delivers conn reference sql)
                (Delivers-perform _ _ (λ past. refl))))))
        (Delivers-perform _ _ (λ past. up.closes past conn))

  execute-Delivers :
      (identity subject sql : Text) (effective : ℤ) (timeout_s : h.Seconds) (bytes : Bytes)
      → encode subject ≡ some bytes
      → Delivers IsSuccess (execute h cfg identity subject sql effective timeout_s)
  unfolding execute
  execute-Delivers identity subject sql effective timeout_s bytes e =
      Delivers-bind _ _ (Delivers-lift {P = Anything} _ bytes (ap (or_raise _) e) tt) (λ encoded n.
        Delivers-bind _ _ (connect_proxy-Delivers identity) (λ session_of c.
          Delivers-bind _ _ (session-Delivers session_of.1 _ sql timeout_s)
            (λ result f. Delivers-pure _ (envelope_of-IsSuccess result effective _ f))))

  proxy_arm-Delivers :
      (claims : QueryContextClaims) (sql : Text) (effective : ℤ) (bytes : Bytes)
      → is_proxy_identity claims.proxy_db_identity ≡ true
      → encode claims.sub ≡ some bytes
      → Delivers IsSuccess (proxy_arm h cfg claims sql effective)
  unfolding proxy_arm
  proxy_arm-Delivers claims sql effective bytes good e =
      rw good (Delivers-catch _ _ _ (execute-Delivers _ _ _ _ _ bytes e))

module _ (h : Host) (g : Sqlglot) (cfg : Config) (args : Args) (token : Text) (w : World) where
  -- A cleared request reaches arm 7.
  pub run_of_IsCleared :
      (keys : List Bytes) (claims : QueryContextClaims) (stmt : g.Node) (sql : Text) (effective : ℤ)
      → (load_public_keys h w).0 ≡ ok (some keys)
      → IsCleared h g cfg args token
          (load_public_keys h w).1
          keys
          (h.clock (load_public_keys h w).1.events)
          claims
          stmt
          sql
          effective
      → run h g cfg args token w
        ≡ proxy_arm h cfg claims sql effective
            (noted claims (h.clock (load_public_keys h w).1.events) (load_public_keys h w).1)
  unfolding run claims_arms first_use statement_arms ◌>>=◌
  run_of_IsCleared keys claims stmt sql effective k c =
      rw
        (
          k, c.has_token, c.verified, c.passed.fresh, c.passed.digest, text_eq_refl,
          c.passed.plain_select, c.passed.passed.in_scope, c.passed.passed.bounded,
        )
        refl

  -- A request that is cleared, for a subject that has a UTF-8 form, is answered with rows while the
  -- password file can be read and the driver answers every call.
  pub run_succeeds :
      (keys : List Bytes) (claims : QueryContextClaims) (stmt : g.Node) (sql : Text) (effective : ℤ)
      (bytes : Bytes)
      → IsServing h cfg
      → (load_public_keys h w).0 ≡ ok (some keys)
      → IsCleared h g cfg args token
          (load_public_keys h w).1
          keys
          (h.clock (load_public_keys h w).1.events)
          claims
          stmt
          sql
          effective
      → encode claims.sub ≡ some bytes
      → (answer : Envelope) × ((run h g cfg args token w).0 ≡ ok answer) × IsSuccess answer
  run_succeeds keys claims stmt sql effective bytes up k c e =
      let (answer, returned, rows) =
        (proxy_arm-Delivers h cfg up claims sql effective bytes c.identity e).at
          (noted claims (h.clock (load_public_keys h w).1.events) (load_public_keys h w).1) in
      (answer, ap (λ p. p.0) (run_of_IsCleared keys claims stmt sql effective k c) ∙ returned, rows)
