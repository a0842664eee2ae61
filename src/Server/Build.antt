-- ===== src/Server/Build.antt =====
-- server.py: the constants of the module, `build_server` and the start of the process. The
-- constructor of FastMCP is taken not to fail; its names and descriptions are left out.
pub mod Guarded
pub mod Errors
use cognic_tool_oracle_schem.Base.{Bool, List, [], ◌∷◌, Option, none, some, ℤ, Text, lit}
use cognic_tool_oracle_schem.Python.Exception.{
  Exc, Result, ok, raised, or_raise, value_error, ◌>>=◌,
}
use cognic_tool_oracle_schem.Python.Str.{Unicode}
use cognic_tool_oracle_schem.Python.Num.{int_of}
use cognic_tool_oracle_schem.Python.Value.{Value, Entries}
use cognic_tool_oracle_schem.Config.{Config, or_else, from_env}
use cognic_tool_oracle_schem.Auth.{AccessToken, PyJwt, select_token_verifier}

-- What the server uses of other packages.
pub record Packages : Type 1 where
  -- `AnyHttpUrl(text)`
  pub any_http_url : Text → Result Text
  pub jwt : PyJwt
  -- `str(value)`
  pub str_of : Value → Text

-- The arguments of FastMCP.
pub record App : Type 0 where
  pub cfg : Config
  pub host : Text
  pub port : ℤ
  pub issuer_url : Text
  pub resource_server_url : Text
  pub required_scopes : List Text
  pub verify_token : Text → Result (Option AccessToken)

module _ (u : Unicode) (env : Text → Option Text) (p : Packages) where
  -- `_HOST`, `_PORT` and `_SERVER_URL`
  abbrev pub server_host : Text
  server_host = or_else (lit "127.0.0.1") (env (lit "COGNIC_MCP_HOST"))

  unfoldable pub server_port : Result ℤ
  server_port = or_raise value_error (int_of u (or_else (lit "8765") (env (lit "COGNIC_MCP_PORT"))))

  abbrev pub server_url : Text
  server_url = or_else (lit "http://127.0.0.1:8765/mcp") (env (lit "COGNIC_MCP_SERVER_URL"))

  unfoldable pub build_server : ℤ → Text → Result App
  build_server port as_issuer = do
    cfg ← from_env u env
    issuer_url ← p.any_http_url as_issuer
    resource_server_url ← p.any_http_url server_url
    ok (record {
      cfg = cfg;
      host = server_host;
      port = port;
      issuer_url = issuer_url;
      resource_server_url = resource_server_url;
      required_scopes = cfg.required_scopes;
      verify_token = select_token_verifier u p.jwt p.str_of cfg;
    })

  -- The module is run: its constants, then the server.
  unfoldable pub main : Result App
  main = do
    port ← server_port
    build_server port (or_else (lit "http://127.0.0.1:9000") (env (lit "COGNIC_MCP_AS_ISSUER")))
