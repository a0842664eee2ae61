-- ===== src/Tests/Toy.antt =====
-- A small parser, a small host and one token to try the development on.
use cognic_tool_oracle_schem.Base.{
  ℕ, ◌*◌, Bool, true, false, List, [], ◌∷◌, ◌++◌, map, Option, none, some, if◌then◌else◌,
}
use cognic_tool_oracle_schem.Base.{◌&&◌, String, ℤ, pos, Text, Bytes, lit, text_eq}
use cognic_tool_oracle_schem.Python.Exception.{Exc, base, plain, ok, raised, Result}
use cognic_tool_oracle_schem.Python.Str.{Unicode}
use cognic_tool_oracle_schem.Python.Num.{show}
use cognic_tool_oracle_schem.Python.Value.{
  str_key, integer, str, items, dict, nil, cons, Entries, end, entry,
}
use cognic_tool_oracle_schem.QueryContext.{
  QueryContextClaims, Jws, verified, rejected, Loaded, decoded, undecodable, issuer,
}
use cognic_tool_oracle_schem.Config.{Config}
use cognic_tool_oracle_schem.Readonly.Cell.{Cell}
use cognic_tool_oracle_schem.Readonly.Sqlglot.{
  NodeClass, insert, select, table, cte, fetch, literal, Parsed, statements, parse_error, Sqlglot,
}
use cognic_tool_oracle_schem.Readonly.Keys.{public_keys_env}
use cognic_tool_oracle_schem.Readonly.Run.{Args, expected_aud}
use cognic_tool_oracle_schem.Host.{Host, World}

-- A statement is a SELECT of tables with common table expressions and at most one FETCH FIRST, or an
-- INSERT; a table has a schema and a name.
pub data ToyNode : Type 0 where
  select_of : List (Text × Text) → List Text → Option Text → ToyNode
  insert_node : ToyNode
  table_node : Text → Text → ToyNode
  cte_node : Text → ToyNode
  fetch_node : Text → ToyNode
  literal_node : Text → ToyNode

abbrev is_toy : ToyNode → NodeClass → Bool
is_toy (select_of tables aliases bound) select = true
is_toy insert_node insert = true
is_toy (table_node schema name) table = true
is_toy (cte_node alias) cte = true
is_toy (fetch_node count) fetch = true
is_toy (literal_node digits) literal = true
is_toy _ _ = false

abbrev toy_name : ToyNode → Text
toy_name (table_node schema name) = name
toy_name (cte_node alias) = alias
toy_name (literal_node digits) = digits
toy_name _ = []

abbrev toy_schema : ToyNode → Text
toy_schema (table_node schema name) = schema
toy_schema _ = []

abbrev toy_find : ToyNode → NodeClass → List ToyNode
toy_find (select_of tables aliases bound) table = map (λ t. table_node t.0 t.1) tables
toy_find (select_of tables aliases bound) cte = map cte_node aliases
toy_find _ _ = []

abbrev toy_walk : ToyNode → List ToyNode
toy_walk (select_of tables aliases bound) =
    select_of tables aliases bound ∷ (map (λ t. table_node t.0 t.1) tables ++ map cte_node aliases)
toy_walk node = node ∷ []

abbrev toy_bound : Option Text → Option ToyNode
toy_bound none = none
toy_bound (some digits) = some (fetch_node digits)

abbrev toy_limit : ToyNode → Option ToyNode
toy_limit (select_of tables aliases bound) = toy_bound bound
toy_limit _ = none

abbrev toy_count : ToyNode → Option ToyNode
toy_count (fetch_node digits) = some (literal_node digits)
toy_count _ = none

abbrev toy_set_limit : ToyNode → ℤ → Result ToyNode
toy_set_limit (select_of tables aliases bound) n = ok (select_of tables aliases (some (show n)))
toy_set_limit node n = ok node

abbrev toy_text : ToyNode → Result Text
toy_text (select_of tables aliases (some digits)) = ok (lit "SELECT FETCH " ++ digits)
toy_text _ = ok (lit "SELECT")

-- The one SELECT names the entitled HR.EMPLOYEES under a FETCH of 40 rows.
abbrev pub employees : ToyNode
employees = select_of ((lit "hr", lit "employees") ∷ []) [] (some (lit "40"))

-- WITH secrets AS (...) beside a table of that name.
abbrev pub shadowed : ToyNode
shadowed = select_of (([], lit "secrets") ∷ []) (lit "Secrets" ∷ []) none

abbrev toy_parse : Text → Parsed ToyNode
toy_parse sql =
    if text_eq sql (lit "select employees")
    then statements (some employees ∷ none ∷ [])
    else if text_eq sql (lit "select salaries")
    then statements (some (select_of ((lit "hr", lit "salaries") ∷ []) [] none) ∷ [])
    else if text_eq sql (lit "insert")
    then statements (some insert_node ∷ [])
    else parse_error

abbrev pub toy : Sqlglot
toy = record {
  Node = ToyNode;
  parse = toy_parse;
  tokenize = λ sql. some (sql ∷ []);
  is_instance = is_toy;
  type_name = λ node. lit "Node";
  has_locks = λ node. false;
  has_into = λ node. false;
  has_percent = λ node. false;
  walk = toy_walk;
  find_all = toy_find;
  name = toy_name;
  catalog = λ node. [];
  db = toy_schema;
  alias_or_name = toy_name;
  limit_arg = toy_limit;
  limit_options = λ node. none;
  count = toy_count;
  expression = λ node. none;
  is_int = λ node. true;
  set_limit = toy_set_limit;
  sql = toy_text;
}

abbrev pub ascii : Unicode
ascii = record { upper_wide = λ c. c ∷ []; is_space_wide = λ c. false; digit_wide = λ c. none }

abbrev pub args : Args
args = record { scope_id = lit "hr"; sql = lit "select employees"; max_rows = some (pos 90) }

-- The claims, for the arguments above: the host hashes a text to itself.
abbrev pub claims : QueryContextClaims
claims = record {
  iss = issuer;
  aud = expected_aud;
  sub = lit "ann";
  act = lit "agent";
  tenant_id = lit "t";
  scope_id = lit "hr";
  objects = lit "hr.employees" ∷ [];
  proxy_db_identity = lit "ANN$1";
  args_sha256 = lit "{\"max_rows\":90,\"scope_id\":\"hr\",\"sql\":\"select employees\"}";
  jti = lit "j1";
  iat = pos 100;
  exp = pos 200;
}

abbrev field : String → Text → Entries → Entries
field key value rest = entry (str_key (lit key)) (str value) rest

abbrev payload_entries : QueryContextClaims → Entries
payload_entries c = field "iss" c.iss (
    field "aud" c.aud (
      field "sub" c.sub (
        field "act" c.act (
          field "tenant_id" c.tenant_id (
            field "scope_id" c.scope_id (
              field "proxy_db_identity" c.proxy_db_identity (
                field "args_sha256" c.args_sha256 (
                  field "jti" c.jti (
                    entry (str_key (lit "objects")) (items (cons (str (lit "hr.employees")) nil)) (
                      entry (str_key (lit "iat")) (integer c.iat)
                        (entry (str_key (lit "exp")) (integer c.exp) end)))))))))))

abbrev pub toy_loads : Bytes → Loaded
toy_loads payload =
    if text_eq payload (lit "payload") then decoded (dict (payload_entries claims)) else undecodable

abbrev pub toy_jws : Text → Bytes → Jws
toy_jws token key =
    if text_eq token (lit "token") && text_eq key (lit "key")
    then verified (lit "payload")
    else rejected

abbrev env : Text → Option Text
env name = if text_eq name public_keys_env then some (lit " /keys/a , ") else none

-- A host on which every call returns.
abbrev pub host : Host
host = record {
  unicode = ascii;
  env = env;
  clock = λ past. pos 150;
  Seconds = ℕ;
  float_of = λ text. none;
  is_positive = λ x. true;
  default_timeout = 30;
  milliseconds = λ x. ok (pos (x * 1000));
  read_key = λ past path. ok (lit "key");
  mount_dir = λ past path. ok (lit "mnt" ∷ []);
  resolve = λ past path. ok (lit "mnt" ∷ lit "password" ∷ []);
  stat = λ past path. ok (record { st_size = 6; st_mtime = lit "7.0" });
  read_bytes = λ past path. ok (lit "s3cret\n");
  iso_utc = λ t. ok (lit "1970");
  sha256 = λ b. b;
  jws = toy_jws;
  loads = toy_loads;
  connect = λ past a. ok 5;
  set_timeout = λ past conn ms. ok tt;
  open_cursor = λ past conn. ok tt;
  callproc = λ past conn name given. ok tt;
  execute = λ past conn sql. ok tt;
  description = λ past conn. some (lit "ID" ∷ []);
  fetchall = λ past conn. ok ((Cell.integer (pos 1) ∷ []) ∷ (Cell.bytes (255 ∷ []) ∷ []) ∷ []);
  close = λ past conn. ok tt;
  create_pool = λ past a n. ok 9;
  close_pool = λ past pool. ok tt;
  fetch_many =
      λ past pool sql binds n. ok ((Cell.str (lit "HR") ∷ []) ∷ (Cell.str (lit "FIN") ∷ []) ∷ []);
  strip_value = λ v. ok v;
}

-- The same host, whose database refuses to stamp the session.
abbrev pub unstampable : Host
unstampable = record host {
  callproc = λ past conn name given.
      raised (record { kind = plain; class_name = lit "DatabaseError"; args = [] });
}

abbrev pub cfg : Config
cfg = record {
  oracle_dsn = lit "db/x";
  oracle_user = lit "cognic";
  oracle_password_file = lit "/mnt/password";
  allowed_owners = [];
  max_rows = pos 200;
  pool_max = pos 4;
  auth_mode = lit "jwt";
  oauth_issuer = none;
  oauth_jwks_uri = none;
  oauth_audience = none;
  required_scopes = [];
}

abbrev pub fresh_world : World
fresh_world = record { seen = []; events = []; pool = none }

-- A cancellation, which is no `Exception`.
abbrev pub cancellation : Exc
cancellation = record { kind = base; class_name = lit "CancelledError"; args = [] }

-- The same host, on which connecting is cancelled.
abbrev pub cancelled : Host
cancelled = record host { connect = λ past a. raised cancellation }
