-- ===== src/Server/Process/Lifetime.antt =====
-- The pool of the metadata tools from the start of the server to its end, while calls interleave.
use cognic_tool_oracle_schem.Base.{ℕ, ◌≡◌, refl, sym, ◌∙◌, ◌⊎◌, inl, inr, Option-cases, none}
use cognic_tool_oracle_schem.Python.Exception.{Result-cases}
use cognic_tool_oracle_schem.Config.{Config}
use cognic_tool_oracle_schem.Readonly.Sqlglot.{Sqlglot}
use cognic_tool_oracle_schem.Oracle.{get_pool, set_pool, init_pool, close_pool}
use cognic_tool_oracle_schem.Oracle.Lifecycle.{opened, FailedToClose}
use cognic_tool_oracle_schem.Oracle.Tasks.{Query, System, init}
use cognic_tool_oracle_schem.Oracle.Tasks.Serial.{IsOrderly, IsEmpty, init_pool-Ordered}
use cognic_tool_oracle_schem.Server.Process.{Trace}
use cognic_tool_oracle_schem.Server.Process.Pools.{IsHealthy, Serial, Trace-IsHealthy}
use cognic_tool_oracle_schem.Host.{Host, World, pure, ◌>>=◌}

-- The pools are in order; and none is open, unless closing it was the last call, and raised.
pub record LeavesNone (w : World) : Type 0 where
  pub orderly : IsOrderly w
  pub none_left : (opened w.events ≡ none) ⊎ FailedToClose w.events

module _ (h : Host) where
  close_pool-LeavesNone : (w : World) → IsOrderly w → LeavesNone (close_pool h w).1
  unfolding close_pool get_pool set_pool ◌>>=◌
  close_pool-LeavesNone w t = elim (Option-cases w.pool) [
    | inl empty ↦
        rw (empty, pure)
          (record {
            orderly = record { held = sym empty ∙ t.held; orderly = t.orderly };
            none_left = inl (sym t.held ∙ empty);
          })
    | inr (pool, e) ↦ elim (Result-cases (h.close_pool w.events pool)) [
      | inl (done, d) ↦
          rw (e, d)
            (record {
              orderly = record { held = refl; orderly = (sym t.held ∙ e, t.orderly) };
              none_left = inl refl;
            })
      | inr (exc, d) ↦
          rw (e, d)
            (record {
              orderly = record { held = sym e ∙ t.held; orderly = (sym t.held ∙ e, t.orderly) };
              none_left = inr tt;
            })
    ]
  ]

  -- When the process has no pool, `init_pool` has run, calls have interleaved in any way in which no two
  -- requests close a pool at the same time, and the server closes its pool, then the pools are in order,
  -- and none is open, unless this last close raised.
  pub lifetime_leaves_no_pool :
      (g : Sqlglot) (query : ℕ → Query) (cfg : Config) (w : World) (t : System)
      → IsEmpty w
      → Trace h g query (Serial h g query) (init (init_pool h cfg w).1) t
      → LeavesNone (close_pool h t.world).1
  lifetime_leaves_no_pool g query cfg w t down trace =
      let start : IsHealthy (init (init_pool h cfg w).1) = record {
        orderly = (init_pool-Ordered h cfg).at w down;
        fits = λ i. tt;
      } in
      close_pool-LeavesNone t.world (Trace-IsHealthy h g query _ t start trace).orderly
