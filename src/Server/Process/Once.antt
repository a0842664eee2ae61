-- ===== src/Server/Process/Once.antt =====
-- The replay check while the requests of the server interleave.
use cognic_tool_oracle_schem.Base.{ℕ}
use cognic_tool_oracle_schem.Base.{◌≡◌, refl, true, false, ℤ, leb_ℤ, Text}
use cognic_tool_oracle_schem.Python.Exception.{ok}
use cognic_tool_oracle_schem.QueryContext.{QueryContextClaims}
use cognic_tool_oracle_schem.Readonly.Reason.{refusal, query_context_replayed}
use cognic_tool_oracle_schem.Readonly.Replay.{check_and_insert}
use cognic_tool_oracle_schem.Readonly.Replay.Once.{Holds}
use cognic_tool_oracle_schem.Readonly.Sqlglot.{Sqlglot}
use cognic_tool_oracle_schem.Readonly.Run.{replayed_message, run}
use cognic_tool_oracle_schem.Readonly.Run.SingleUse.{
  clock_of, run-Holds, Presents, Call, presented-Holds, recorded_refused,
}
use cognic_tool_oracle_schem.Readonly.Run.Entry.{answered, enter}
use cognic_tool_oracle_schem.Readonly.Run.Entry.Seen.{enter-seen, recorded-replayed}
use cognic_tool_oracle_schem.Readonly.Replay.{Seen}
use cognic_tool_oracle_schem.Oracle.Tasks.{Query, System, resume, turn}
use cognic_tool_oracle_schem.Oracle.Tasks.Frame.{IsSteady, resume-Steady}
use cognic_tool_oracle_schem.Server.Process.{Step, resumed, entered, elsewhere, Trace, here, later}
use cognic_tool_oracle_schem.Server.Process.Pools.{settle-world}
use cognic_tool_oracle_schem.Host.{Host, World}

-- The cache is this one.
record Same (seen : Seen) (w : World) : Type 0 where
  same : w.seen ≡ seen

Same-IsSteady : (seen : Seen) → IsSteady (Same seen)
Same-IsSteady seen = record {
  event = λ e w s. record { same = s.same };
  variable = λ pool w s. record { same = s.same };
}

-- A step of a metadata request leaves the replay cache as it is.
turn-seen :
    (h : Host) (query : ℕ → Query) (i : ℕ) (s : System)
    → (turn h query i s).world.seen ≡ s.world.seen
unfolding turn
turn-seen h query i s =
    let (r, w) = resume h (query i) (s.stage i) s.world in
    rw (settle-world r w)
      ((resume-Steady h (query i) (Same-IsSteady s.world.seen) (s.stage i)).at s.world
        (record { same = refl })).same

module _ (h : Host) (g : Sqlglot) (query : ℕ → Query) where
  -- A governed call that comes in reads the clock before `exp`.
  abbrev pub Before : ℤ → (s t : System) → Step h g query s t → Type 0
  Before exp s _ (resumed i) = Unit
  Before exp s _ (entered c) = leb_ℤ exp (clock_of h g c.cfg c.args s.world) ≡ false
  Before exp s _ (elsewhere e free) = Unit

  Step-Holds :
      (jti : Text) (exp : ℤ) (s t : System) (step : Step h g query s t)
      → Before exp s t step
      → Holds jti exp s.world.seen
      → Holds jti exp t.world.seen
  Step-Holds jti exp s _ (resumed i) before k = rw (turn-seen h query i s) k
  Step-Holds jti exp s _ (entered c) before k =
      rw⁻¹ (enter-seen h g c.cfg c.args c.token s.world)
        (run-Holds h g c.cfg c.args c.token jti exp s.world before k)
  Step-Holds jti exp s _ (elsewhere e free) before k = k

  Trace-Holds :
      (jti : Text) (exp : ℤ) (s t : System)
      → Trace h g query (Before exp) s t
      → Holds jti exp s.world.seen
      → Holds jti exp t.world.seen
  Trace-Holds jti exp s _ here k = k
  Trace-Holds jti exp s _ (later {t} {u} trace step before) k =
      Step-Holds jti exp t u step before (Trace-Holds jti exp s t trace k)

  -- Once a call has let a token pass its replay check, every later call to which the token is presented
  -- again, and verifies, answers before any await that it was replayed, whatever its arguments, and
  -- however governed calls, their driver calls and the requests of the metadata tools were interleaved
  -- since, as long as the calls that came in read the clock before the token's expiry. The first call
  -- may still be executing.
  pub process_single_use :
      (first again : Call) (claims : QueryContextClaims) (s t : System)
      → Presents h g first.cfg first.args first.token claims s.world
      → (check_and_insert claims.jti claims.exp
          (clock_of h g first.cfg first.args s.world)
          s.world.seen).0
        ≡ true
      → Trace h g query
          (Before claims.exp)
          (record s { world = (enter h g first.args first.token s.world).1 })
          t
      → Presents h g again.cfg again.args again.token claims t.world
      → ((enter h g again.args again.token t.world).0
          ≡ ok (answered (refusal query_context_replayed replayed_message)))
        × ((run h g again.cfg again.args again.token t.world).0
            ≡ ok (refusal query_context_replayed replayed_message))
  process_single_use first again claims s t p fresh trace q =
      let recorded : Holds claims.jti claims.exp (enter h g first.args first.token s.world).1.seen =
        rw⁻¹ (enter-seen h g first.cfg first.args first.token s.world)
          (presented-Holds h g first claims s.world p fresh) in
      let held = Trace-Holds claims.jti claims.exp _ t trace recorded in
      (
        recorded-replayed h g again claims t.world q held,
        recorded_refused h g again claims t.world q held,
      )
