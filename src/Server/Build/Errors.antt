-- ===== src/Server/Build/Errors.antt =====
-- Which exceptions the start of the server raises.
use cognic_tool_oracle_schem.Base.{◌≡◌, Option, none, Text, lit}
use cognic_tool_oracle_schem.Python.Exception.{Exc, value_error, raised}
use cognic_tool_oracle_schem.Python.Str.{Unicode}
use cognic_tool_oracle_schem.Python.Num.{int_of}
use cognic_tool_oracle_schem.Config.{config_error, or_else}
use cognic_tool_oracle_schem.Server.Build.{Packages}

module _ (u : Unicode) (env : Text → Option Text) (p : Packages) where
  -- What a start that fails may raise: a `ConfigError`, a bare `ValueError` for a pool size or a port
  -- that is no integer, or what `AnyHttpUrl` raises on one of the two URLs.
  pub data StartError : Exc → Type 0 where
    config : StartError config_error
    pool_max :
        int_of u (or_else (lit "4") (env (lit "COGNIC_ORACLE_POOL_MAX"))) ≡ none
        → StartError value_error
    port :
        int_of u (or_else (lit "8765") (env (lit "COGNIC_MCP_PORT"))) ≡ none
        → StartError value_error
    issuer_url :
        (e : Exc)
        → p.any_http_url (or_else (lit "http://127.0.0.1:9000") (env (lit "COGNIC_MCP_AS_ISSUER")))
          ≡ raised e
        → StartError e
    resource_url :
        (e : Exc)
        → p.any_http_url
            (or_else (lit "http://127.0.0.1:8765/mcp") (env (lit "COGNIC_MCP_SERVER_URL")))
          ≡ raised e
        → StartError e
