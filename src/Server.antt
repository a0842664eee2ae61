-- ===== src/Server.antt =====
-- server.py: the construction of the server, the tools that it registers, and its lifespan. FastMCP,
-- which reads the wire, checks the bearer token and turns an exception of a tool into an error result,
-- is not modelled; a call stands here with its arguments already typed.

pub mod Build
pub mod Serve
pub mod Lifecycle
pub mod Fixed
pub mod Stuck
pub mod Retries
pub mod Process
use cognic_tool_oracle_schem.Base.{Bool, List, [], ◌∷◌, Option, none, some, ℤ, Text, lit}
use cognic_tool_oracle_schem.Python.Exception.{Exc, Result, or_raise, value_error}
use cognic_tool_oracle_schem.Config.{Config, or_else}
use cognic_tool_oracle_schem.Readonly.Reason.{Envelope}
use cognic_tool_oracle_schem.Readonly.Sqlglot.{Sqlglot}
use cognic_tool_oracle_schem.Readonly.Run.{Args, run}
use cognic_tool_oracle_schem.Oracle.{init_pool, close_pool}
use cognic_tool_oracle_schem.Tools.{Listing}
use cognic_tool_oracle_schem.Tools.Calls.{
  list_schemas, list_tables, describe_table, find_columns, list_relationships, get_constraints,
}
use cognic_tool_oracle_schem.Host.{Host, World, M, pure, finally, ◌>>=◌, ◌>>◌}

-- A call of a metadata tool. An argument with the default None is an `Option`.
pub data Request : Type 0 where
  schemas : Request
  tables : (owner : Text) → Request
  columns : (owner table : Text) → Request
  matching : (name_pattern : Text) (owner : Option Text) → Request
  relationships : (owner : Text) (table : Option Text) → Request
  constraints : (owner table : Text) → Request

-- The six registered functions.
abbrev pub answer : Host → Config → Request → M Listing
answer h cfg schemas = list_schemas h cfg
answer h cfg (tables owner) = list_tables h cfg owner
answer h cfg (columns owner table) = describe_table h cfg owner table
answer h cfg (matching name_pattern owner) = find_columns h cfg name_pattern owner
answer h cfg (relationships owner table) = list_relationships h cfg owner table
answer h cfg (constraints owner table) = get_constraints h cfg owner table

-- A call of any tool. The wire leaves the token of `run_readonly_query` out, or carries it as
-- `_cognic_query_context`.
pub data ToolCall : Type 0 where
  metadata : Request → ToolCall
  governed :
      (scope_id sql : Text) (max_rows : Option ℤ) (_cognic_query_context : Option Text) → ToolCall

pub data Reply : Type 0 where
  listing : Listing → Reply
  envelope : Envelope → Reply

abbrev pub args_of : Text → Text → Option ℤ → Args
args_of scope_id sql max_rows = record { scope_id = scope_id; sql = sql; max_rows = max_rows }

module _ (h : Host) (g : Sqlglot) (cfg : Config) where
  -- The registered `run_readonly_query`, whose token is empty by default.
  unfoldable pub run_readonly_query : Text → Text → Option ℤ → Option Text → M Envelope
  run_readonly_query scope_id sql max_rows token =
      run h g cfg (args_of scope_id sql max_rows) (or_else [] token)

  abbrev pub handle_call : ToolCall → M Reply
  handle_call (metadata request) = do found ← answer h cfg request; pure (listing found)
  handle_call (governed scope_id sql max_rows token) = do
    result ← run_readonly_query scope_id sql max_rows token
    pure (envelope result)

-- The result of a call, with its exception as a value: an exception ends the call alone.
unfoldable pub attempt {ℓ} : {A : Type ℓ} → M A → M (Result A)
attempt m w = let (r, w') = m w in pure r w'

module _ (h : Host) (g : Sqlglot) (cfg : Config) where
  -- Some calls, one after the other.
  unfoldable pub serve : List ToolCall → M (List (Result Reply))
  serve [] = pure []
  serve (c ∷ calls) = do
    reply ← attempt (handle_call h g cfg c)
    replies ← serve calls
    pure (reply ∷ replies)

-- `_pool_lifespan`, around what the server does while it is up.
unfoldable pub pool_lifespan {ℓ} : {A : Type ℓ} → Host → Config → M A → M A
pool_lifespan h cfg body = init_pool h cfg >> finally body (close_pool h)
