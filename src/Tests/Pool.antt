-- ===== src/Tests/Pool.antt =====
-- The server and the pool of its metadata tools: runs, and the theorems at concrete inputs.
use cognic_tool_oracle_schem.Base.{
  ℕ, ◌≡◌, refl, true, List, [], ◌∷◌, Option, none, some, pos, Text, lit, text_eq, if◌then◌else◌,
}
use cognic_tool_oracle_schem.Python.Exception.{Exc, plain, Result, ok, raised}
use cognic_tool_oracle_schem.Config.{Config}
use cognic_tool_oracle_schem.Readonly.Cell.{Cell}
use cognic_tool_oracle_schem.Readonly.Execute.{is_auth_error}
use cognic_tool_oracle_schem.Auth.{select_token_verifier}
use cognic_tool_oracle_schem.Oracle.{fetch, no_pool}
use cognic_tool_oracle_schem.Oracle.Lifecycle.{IsDown}
use cognic_tool_oracle_schem.Oracle.Recovery.{IsUp, Returns, fetch-Returns}
use cognic_tool_oracle_schem.Server.{
  schemas, tables, ToolCall, metadata, governed, serve, pool_lifespan,
}
use cognic_tool_oracle_schem.Server.Build.{Packages, App}
use cognic_tool_oracle_schem.Server.Build.Guarded.{IsGuarded, main-IsGuarded}
use cognic_tool_oracle_schem.Server.Fixed.{AreFixed, serve-AreFixed}
use cognic_tool_oracle_schem.Server.Lifecycle.{EndsClosed, lifespan_leaves_no_pool}
use cognic_tool_oracle_schem.Server.Stuck.{StayRefused, poolless_for_good}
use cognic_tool_oracle_schem.Host.{Event, pool_created, Host, World, is_exception}
use cognic_tool_oracle_schem.Base.{◌≤◌, ◌+◌}
use cognic_tool_oracle_schem.Server.{answer}
use cognic_tool_oracle_schem.Server.Retries.{is_query, answer-two_tries}
use cognic_tool_oracle_schem.Host.Costs.{count}
use cognic_tool_oracle_schem.Tests.Toy.{host, toy, ascii, cfg, fresh_world}
use cognic_tool_oracle_schem.Tests.Jwt.{toy_jwt}
use cognic_tool_oracle_schem.Tests.Program.{program}

abbrev calls : List ToolCall
calls =
    metadata schemas
    ∷ governed (lit "hr") (lit "select employees") (some (pos 90)) (some (lit "token"))
    ∷ metadata (tables (lit "hr"))
    ∷ []

abbrev down : IsDown fresh_world
down = record { tracks = record { held = refl; own = tt }; empty = refl }

lifespan_leaves_no_pool_example :
    EndsClosed (pool_lifespan host cfg (serve host toy cfg calls) fresh_world).1
lifespan_leaves_no_pool_example = lifespan_leaves_no_pool host toy cfg calls fresh_world down

abbrev pub pooled : World
pooled = record fresh_world { pool = some 8 }

serve-AreFixed_example : AreFixed cfg (serve host toy cfg calls pooled).1.events
serve-AreFixed_example = serve-AreFixed host toy cfg calls pooled tt

poolless_for_good_example :
    StayRefused calls
      (serve host toy cfg calls fresh_world).0
      (serve host toy cfg calls fresh_world).1
poolless_for_good_example = poolless_for_good host toy cfg calls fresh_world refl

-- ORA-01017 from the driver.
abbrev pub bad_password : Exc
bad_password = record {
  kind = plain;
  class_name = lit "DatabaseError";
  args = some (lit "ORA-01017") ∷ [];
}

-- The pool that was made by the latest call.
abbrev latest : List Event → Option ℕ
latest (pool_created args pool ∷ past) = pool
latest _ = none

abbrev pub rows_of : Option ℕ → Result (List (List Cell))
rows_of none = raised bad_password
rows_of (some pool) = ok ((Cell.str (lit "HR") ∷ []) ∷ [])

-- A host whose password was changed under the pool: only a new pool is let in.
abbrev pub rotated : Host
rotated = record host { fetch_many = λ past pool sql binds n. rows_of (latest past) }

rows_of-refused :
    (found : Option ℕ) (e : Exc)
    → rows_of found ≡ raised e
    → (is_auth_error e ≡ true) × (is_exception e ≡ true)
unfolding program
rows_of-refused none e h = rw⁻¹ (exc_lem h) (refl, refl)
  where
    exc_lem : Path (Result (List (List Cell))) (raised bad_password) (raised e) → bad_password ≡ e
    exc_lem d = cc
rows_of-refused (some pool) e h = cc

abbrev up : IsUp rotated cfg
unfolding program
up = record {
  closes = λ past pool. refl;
  reads = λ w. refl;
  creates = λ past args n. refl;
  answers = λ past args pool sql binds n. refl;
  refuses = λ past pool sql binds n e h. rows_of-refused (latest past) e h;
}

fetch-Returns_example :
    Returns
      (fetch rotated (lit "SELECT") [] (pos 1) cfg pooled).0
      (fetch rotated (lit "SELECT") [] (pos 1) cfg pooled).1
fetch-Returns_example =
    fetch-Returns rotated cfg up (lit "SELECT") [] (pos 1) pooled
      (record { pool = 8; is_there = refl })

-- The same host, which cannot make a new pool either: one call loses the pool.
abbrev stranded : Host
stranded = record rotated { create_pool = λ past args n. raised bad_password }

stranded_run :
    (serve stranded toy cfg (metadata schemas ∷ metadata schemas ∷ []) pooled).0
    ≡ ok (raised bad_password ∷ raised no_pool ∷ [])
unfolding program
stranded_run = refl

abbrev settings : List (Text × Text)
settings =
    (lit "COGNIC_OAUTH_ISSUER", lit "https://as")
    ∷ (lit "COGNIC_OAUTH_JWKS_URI", lit "https://as/jwks")
    ∷ (lit "COGNIC_OAUTH_AUDIENCE", lit "oracle")
    ∷ (lit "COGNIC_ORACLE_DSN", lit "db/x")
    ∷ (lit "COGNIC_ORACLE_USER", lit "cognic")
    ∷ (lit "COGNIC_ORACLE_PASSWORD_FILE", lit "/mnt/password")
    ∷ (lit "COGNIC_MCP_PORT", lit "9100")
    ∷ []

abbrev look_up : List (Text × Text) → Text → Option Text
look_up [] k = none
look_up ((j, v) ∷ rest) k = if text_eq k j then some v else look_up rest k

abbrev packages : Packages
packages = record { any_http_url = λ url. ok url; jwt = toy_jwt; str_of = λ v. lit "c" }

abbrev started : Config
started = record {
  oracle_dsn = lit "db/x";
  oracle_user = lit "cognic";
  oracle_password_file = lit "/mnt/password";
  allowed_owners = [];
  max_rows = pos 200;
  pool_max = pos 4;
  auth_mode = lit "jwt";
  oauth_issuer = some (lit "https://as");
  oauth_jwks_uri = some (lit "https://as/jwks");
  oauth_audience = some (lit "oracle");
  required_scopes = lit "oracle_schema.read" ∷ [];
}

abbrev app : App
app = record {
  cfg = started;
  host = lit "127.0.0.1";
  port = pos 9100;
  issuer_url = lit "http://127.0.0.1:9000";
  resource_server_url = lit "http://127.0.0.1:8765/mcp";
  required_scopes = lit "oracle_schema.read" ∷ [];
  verify_token = select_token_verifier ascii packages.jwt packages.str_of started;
}

main-IsGuarded_example : IsGuarded ascii (look_up settings) packages app
unfolding program
main-IsGuarded_example = main-IsGuarded ascii (look_up settings) packages app refl

answer-two_tries_example :
    count is_query (answer rotated cfg schemas pooled).1.events ≤ 2 + count is_query []
answer-two_tries_example = answer-two_tries rotated cfg schemas pooled

-- The port is not a number.
abbrev no_port : List (Text × Text)
no_port = (lit "COGNIC_MCP_PORT", lit "abc") ∷ settings
