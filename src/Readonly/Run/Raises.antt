-- ===== src/Readonly/Run/Raises.antt =====
-- Which exceptions leave a run of the governed tool.
use cognic_tool_oracle_schem.Base.{◌≡◌, false, List, some}
use cognic_tool_oracle_schem.Base.{Text, Bytes}
use cognic_tool_oracle_schem.Python.Exception.{Exc, value_error, unicode_encode_error, ok, raised}
use cognic_tool_oracle_schem.Config.{Config}
use cognic_tool_oracle_schem.QueryContext.{failed}
use cognic_tool_oracle_schem.Readonly.Sqlglot.{Sqlglot}
use cognic_tool_oracle_schem.Readonly.Analyze.{accept, analyze}
use cognic_tool_oracle_schem.Readonly.Keys.{load_public_keys}
use cognic_tool_oracle_schem.Readonly.Run.{Args, recompute_args_sha256}
use cognic_tool_oracle_schem.Readonly.Run.Causes.{judged}
use cognic_tool_oracle_schem.Readonly.Run.Digest.{TooLong}
use cognic_tool_oracle_schem.Readonly.RowBound.Raises.{BoundEscape}
use cognic_tool_oracle_schem.Host.{Host, World, is_exception, is_os_error, ◌>>=◌}
use cognic_tool_oracle_schem.Host.Escapes.{Escapes}

module _ (h : Host) where
  abbrev NotOs : Exc → Type 0
  NotOs e = is_os_error e ≡ false

module _ (h : Host) (g : Sqlglot) (cfg : Config) (args : Args) (token : Text) (w : World) where
  -- Where an exception comes from that leaves a run.
  pub data Escape : Exc → Type 0 where
    key_file : (e : Exc) → is_os_error e ≡ false → (load_public_keys h w).0 ≡ raised e → Escape e
    verifier :
        (keys : List Bytes) (e : Exc)
        → (load_public_keys h w).0 ≡ ok (some keys)
        → judged h g cfg args token w keys ≡ failed e
        → Escape e
    digest :
        recompute_args_sha256 h args ≡ raised unicode_encode_error → Escape unicode_encode_error
    too_long : TooLong args.max_rows → Escape value_error
    row_bound :
        (stmt : g.Node) (e : Exc)
        → analyze h.unicode g args.sql ≡ accept stmt
        → BoundEscape h.unicode g stmt e
        → Escape e
    interrupt : (e : Exc) → is_exception e ≡ false → Escape e
