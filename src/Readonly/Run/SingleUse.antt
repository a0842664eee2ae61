-- ===== src/Readonly/Run/SingleUse.antt =====
-- The replay check over a sequence of runs.
use cognic_tool_oracle_schem.Base.{◌≡◌, refl, ap, inl, inr, true, false, List, [], ◌∷◌, none, some}
use cognic_tool_oracle_schem.Base.{is_empty, Bool-cases, ℤ, leb_ℤ, Text, Bytes}
use cognic_tool_oracle_schem.Python.Exception.{ok, Result-cases}
use cognic_tool_oracle_schem.Config.{Config}
use cognic_tool_oracle_schem.QueryContext.{QueryContextClaims, Verdict, admitted, refused, failed}
use cognic_tool_oracle_schem.QueryContext.Verified.{verify_query_context-admitted}
use cognic_tool_oracle_schem.Readonly.Reason.{refusal, query_context_replayed}
use cognic_tool_oracle_schem.Readonly.Replay.{check_and_insert}
use cognic_tool_oracle_schem.Readonly.Replay.Once.{
  Holds, check_and_insert-Holds, check_and_insert-keeps, check_and_insert-refuses,
}
use cognic_tool_oracle_schem.Readonly.Sqlglot.{Sqlglot}
use cognic_tool_oracle_schem.Readonly.Keys.{load_public_keys}
use cognic_tool_oracle_schem.Readonly.Keys.Reads.{load_public_keys-IsKeyLoad}
use cognic_tool_oracle_schem.Readonly.Execute.Seen.{Remembers, execute-Keeps}
use cognic_tool_oracle_schem.Readonly.Run.{
  expected_aud, replayed_message, first_use, Args, proxy_arm, claims_arms, verdict_arm, run,
}
use cognic_tool_oracle_schem.Readonly.Run.Gate.{noted, claims_arms-cases, verdict_of}
use cognic_tool_oracle_schem.Host.{Host, World, ◌>>=◌}
use cognic_tool_oracle_schem.Host.Keeps.{Keeps, keeps_rules}

module _ (h : Host) (g : Sqlglot) (cfg : Config) (args : Args) where
  pub proxy_arm-Keeps :
      (claims : QueryContextClaims) (sql : Text) (effective : ℤ) (w : World)
      → Keeps (Remembers h w.seen) (proxy_arm h cfg claims sql effective)
  unfolding proxy_arm
  proxy_arm-Keeps claims sql effective w = search (keeps_rules, execute-Keeps) depth 7

  -- Arms 2 to 7 change the cache by the one call of arm 2.
  claims_arms-seen :
      (claims : QueryContextClaims) (now : ℤ) (w : World)
      → (claims_arms h g cfg args claims now w).1.seen ≡ (noted claims now w).seen
  claims_arms-seen claims now w = elim (claims_arms-cases h g cfg args claims now w) [
    | inl quiet ↦ ap (λ (v : World). v.seen) quiet
    | inr (stmt, sql, effective, passed, e) ↦
        rw e
          ((proxy_arm-Keeps claims sql effective (noted claims now w)).at (noted claims now w) refl)
  ]

  replayed_lem :
      (claims : QueryContextClaims) (now : ℤ) (w : World)
      → (check_and_insert claims.jti claims.exp now w.seen).0 ≡ false
      → (claims_arms h g cfg args claims now w).0
        ≡ ok (refusal query_context_replayed replayed_message)
  unfolding claims_arms first_use ◌>>=◌
  replayed_lem claims now w used = rw used

  verdict_arm-Holds :
      (jti : Text) (exp now : ℤ) (v : Verdict QueryContextClaims) (w : World)
      → leb_ℤ exp now ≡ false
      → Holds jti exp w.seen
      → Holds jti exp (verdict_arm h g cfg args now v w).1.seen
  unfolding ◌>>=◌
  verdict_arm-Holds jti exp now (refused r) w before k = k
  verdict_arm-Holds jti exp now (failed e) w before k = k
  verdict_arm-Holds jti exp now (admitted claims) w before k =
      rw (claims_arms-seen claims now w)
        (check_and_insert-keeps jti exp claims.jti claims.exp now w.seen before k)

  -- The clock that a run reads, once the keys are loaded.
  abbrev pub clock_of : World → ℤ
  clock_of w = h.clock (load_public_keys h w).1.events

module _ (h : Host) (g : Sqlglot) (cfg : Config) (args : Args) (token : Text) where
  -- A run before its expiry keeps an entry of the cache.
  pub run-Holds :
      (jti : Text) (exp : ℤ) (w : World)
      → leb_ℤ exp (clock_of h g cfg args w) ≡ false
      → Holds jti exp w.seen
      → Holds jti exp (run h g cfg args token w).1.seen
  unfolding run ◌>>=◌
  run-Holds jti exp w before k =
      let loaded = (load_public_keys h w).1 in
      let kept : Holds jti exp loaded.seen = rw (load_public_keys-IsKeyLoad h w).same_seen k in
      elim (Result-cases (load_public_keys h w).0) [
        | inr (exc, e) ↦ rw e kept
        | inl (none, e) ↦ rw e kept
        | inl (some keys, e) ↦ elim (Bool-cases (is_empty token)) [
          | inl empty ↦ rw (e, empty) kept
          | inr has_token ↦
              rw (e, has_token)
                (verdict_arm-Holds h g cfg args jti exp _ (verdict_of h g cfg args token w keys)
                  loaded before kept)
        ]
      ]

  -- The run loads keys under which the token verifies with these claims.
  pub record Presents (claims : QueryContextClaims) (w : World) : Type 0 where
    pub keys : List Bytes
    pub loaded : (load_public_keys h w).0 ≡ ok (some keys)
    pub has_token : is_empty token ≡ false
    pub verified : verdict_of h g cfg args token w keys ≡ admitted claims

  -- What such a run does.
  run-claims_arms :
      (claims : QueryContextClaims) (w : World) (p : Presents claims w)
      → run h g cfg args token w
        ≡ claims_arms h g cfg args claims (clock_of h g cfg args w) (load_public_keys h w).1
  unfolding run ◌>>=◌
  run-claims_arms claims w p = rw (p.loaded, p.has_token, p.verified)

-- A call of the tool, and the world behind some calls in their order.
pub record Call : Type 0 where
  pub cfg : Config
  pub args : Args
  pub token : Text

module _ (h : Host) (g : Sqlglot) where
  abbrev world_after : List Call → World → World
  world_after [] w = w
  world_after (c ∷ calls) w = world_after calls (run h g c.cfg c.args c.token w).1

  -- Every call reads the clock before `exp`.
  abbrev ReadBefore : ℤ → List Call → World → Type 0
  ReadBefore exp [] w = Unit
  ReadBefore exp (c ∷ calls) w =
      (leb_ℤ exp (clock_of h g c.cfg c.args w) ≡ false)
      × ReadBefore exp calls (run h g c.cfg c.args c.token w).1

  world_after-Holds :
      (jti : Text) (exp : ℤ) (calls : List Call) (w : World)
      → ReadBefore exp calls w
      → Holds jti exp w.seen
      → Holds jti exp (world_after calls w).seen
  world_after-Holds jti exp [] w b k = k
  world_after-Holds jti exp (c ∷ calls) w (b, bs) k =
      world_after-Holds jti exp calls _ bs (run-Holds h g c.cfg c.args c.token jti exp w b k)

  -- The first use of a token is recorded.
  pub presented-Holds :
      (c : Call) (claims : QueryContextClaims) (w : World)
      → Presents h g c.cfg c.args c.token claims w
      → (check_and_insert claims.jti claims.exp (clock_of h g c.cfg c.args w) w.seen).0 ≡ true
      → Holds claims.jti claims.exp (run h g c.cfg c.args c.token w).1.seen
  presented-Holds c claims w p fresh =
      rw
        (
          run-claims_arms h g c.cfg c.args c.token claims w p,
          claims_arms-seen h g c.cfg c.args claims (clock_of h g c.cfg c.args w)
              (load_public_keys h w).1,
          (load_public_keys-IsKeyLoad h w).same_seen,
        )
        (check_and_insert-Holds claims.jti claims.exp (clock_of h g c.cfg c.args w) w.seen fresh)

  -- A recorded token is refused as a replay when it still verifies.
  pub recorded_refused :
      (c : Call) (claims : QueryContextClaims) (w : World)
      → Presents h g c.cfg c.args c.token claims w
      → Holds claims.jti claims.exp w.seen
      → (run h g c.cfg c.args c.token w).0 ≡ ok (refusal query_context_replayed replayed_message)
  recorded_refused c claims w p k =
      let loaded = (load_public_keys h w).1 in
      let now = clock_of h g c.cfg c.args w in
      let valid =
        (verify_query_context-admitted h.jws h.loads c.token p.keys expected_aud now claims).0
          p.verified in
      let kept : Holds claims.jti claims.exp loaded.seen =
        rw (load_public_keys-IsKeyLoad h w).same_seen k in
      rw (run-claims_arms h g c.cfg c.args c.token claims w p) (
        replayed_lem h g c.cfg c.args claims now loaded (
          check_and_insert-refuses claims.jti claims.exp claims.exp now loaded.seen valid.unexpired
            kept))

  -- Once a run has let a token pass its replay check, every later run to which the token is presented
  -- again, and verifies, answers that it was replayed, whatever its arguments and whatever calls were
  -- made in between, as long as these read the clock before the token's expiry.
  run_single_use :
      (first again : Call) (claims : QueryContextClaims) (between : List Call) (w : World)
      → Presents h g first.cfg first.args first.token claims w
      → (check_and_insert claims.jti claims.exp (clock_of h g first.cfg first.args w) w.seen).0
        ≡ true
      → ReadBefore claims.exp between (world_after (first ∷ []) w)
      → Presents h g again.cfg again.args again.token claims (world_after (first ∷ between) w)
      → (run h g again.cfg again.args again.token (world_after (first ∷ between) w)).0
        ≡ ok (refusal query_context_replayed replayed_message)
  run_single_use first again claims between w p fresh b q =
      recorded_refused again claims _ q (
        world_after-Holds claims.jti claims.exp between _ b
          (presented-Holds first claims w p fresh))
