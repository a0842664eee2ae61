-- ===== src/Readonly/Run/Entry/Seen.antt =====
-- Arms 1 to 6 and the replay cache.
use cognic_tool_oracle_schem.Base.{◌≡◌, refl, ap, ◌∙◌, false, Text}
use cognic_tool_oracle_schem.Python.Exception.{Result, ok, raised}
use cognic_tool_oracle_schem.Config.{Config}
use cognic_tool_oracle_schem.QueryContext.{QueryContextClaims}
use cognic_tool_oracle_schem.QueryContext.Verified.{verify_query_context-admitted}
use cognic_tool_oracle_schem.Readonly.Reason.{Envelope, refusal, query_context_replayed}
use cognic_tool_oracle_schem.Readonly.Replay.{check_and_insert}
use cognic_tool_oracle_schem.Readonly.Replay.Once.{Holds, check_and_insert-refuses}
use cognic_tool_oracle_schem.Readonly.Sqlglot.{Sqlglot}
use cognic_tool_oracle_schem.Readonly.Keys.Reads.{load_public_keys-IsKeyLoad}
use cognic_tool_oracle_schem.Readonly.Run.{expected_aud, replayed_message, first_use, Args, run}
use cognic_tool_oracle_schem.Readonly.Run.SingleUse.{proxy_arm-Keeps, clock_of, Presents, Call}
use cognic_tool_oracle_schem.Readonly.Run.Entry.{
  Entry, answered, cleared, claims_entry, enter, finish_entry,
}
use cognic_tool_oracle_schem.Readonly.Run.Entry.Whole.{run-enter}
use cognic_tool_oracle_schem.Host.{Host, World, continue, ◌>>=◌}

module _ (h : Host) (g : Sqlglot) (cfg : Config) (args : Args) where
  -- Arm 7 leaves the replay cache as it is.
  finish_entry-seen : (entry : Entry) (w : World) → (finish_entry h cfg entry w).1.seen ≡ w.seen
  unfolding ◌>>=◌
  finish_entry-seen (answered envelope) w = refl
  finish_entry-seen (cleared claims sql effective) w =
      (proxy_arm-Keeps h g cfg args claims sql effective w).at w refl

  -- So the cache behind the entry is the one behind the run.
  pub enter-seen :
      (token : Text) (w : World)
      → (run h g cfg args token w).1.seen ≡ (enter h g args token w).1.seen
  unfolding ◌>>=◌
  enter-seen token w =
      ap (λ (p : Result Envelope × World). p.1.seen) (run-enter h g cfg args token w)
      ∙ behind (enter h g args token w).0 (enter h g args token w).1
    where
      behind : (r : Result Entry) (w : World) → (continue r (finish_entry h cfg) w).1.seen ≡ w.seen
      behind (ok entry) w = finish_entry-seen entry w
      behind (raised e) w = refl

module _ (h : Host) (g : Sqlglot) where
  enter-replayed :
      (c : Call) (claims : QueryContextClaims) (v : World)
      → Presents h g c.cfg c.args c.token claims v
      → (check_and_insert claims.jti claims.exp (clock_of h g c.cfg c.args v) v.seen).0 ≡ false
      → (enter h g c.args c.token v).0
        ≡ ok (answered (refusal query_context_replayed replayed_message))
  unfolding enter claims_entry first_use ◌>>=◌
  enter-replayed c claims v p used =
      rw (p.loaded, p.has_token, p.verified, (load_public_keys-IsKeyLoad h v).same_seen, used) refl

  -- A recorded token is refused as a replay before any await.
  pub recorded-replayed :
      (c : Call) (claims : QueryContextClaims) (v : World)
      → Presents h g c.cfg c.args c.token claims v
      → Holds claims.jti claims.exp v.seen
      → (enter h g c.args c.token v).0
        ≡ ok (answered (refusal query_context_replayed replayed_message))
  recorded-replayed c claims v p k =
      let now = clock_of h g c.cfg c.args v in
      let valid =
        (verify_query_context-admitted h.jws h.loads c.token p.keys expected_aud now claims).0
          p.verified in
      enter-replayed c claims v p
        (check_and_insert-refuses claims.jti claims.exp claims.exp now v.seen valid.unexpired k)
