-- ===== src/Lib.antt =====
-- The Oracle schema MCP server (src/cognic_tool_oracle_schema) with its governed query tool.
--
-- readonly_query.run answers one call of `run_readonly_query`: it verifies the kernel's token
-- (query_context.py), refuses a token that was used, compares the digest of the arguments with the
-- token's, lets through one plain SELECT within the token's objects, bounds its rows, and runs it on a
-- proxy connection whose password comes from a mounted file (credential.py). Beside it stand the start
-- (config.py), the server's bearer tokens (auth.py) and six metadata tools (tools.py) over a pool
-- (oracle.py).
--
-- The files, and what they model:
--   Base, Python       helpers, and what the code uses of Python: exceptions as values, str.upper,
--                      str.strip and str.split, int() and str() on integers, UTF-8, json.dumps
--   Host               what surrounds the process, as a parameter; the state-passing programs (M) over
--                      the world, which is the replay cache, the pool and the list of the outside
--                      calls so far
--   QueryContext       query_context.py: parse_claims, verify_query_context; canonical_bytes in
--                      QueryContext/Canonical
--   Credential         credential.py: read_credential
--   Config             config.py: the record of settings, Config.from_env
--   Readonly/Replay    readonly_query.py: ReplayCache (arm 2)
--   Readonly/Analyze   _classify_parse_failure and _analyze (arm 4), over Readonly/Sqlglot
--   Readonly/Scope     _referenced_objects and _out_of_scope_objects (arm 5)
--   Readonly/RowBound  _author_row_bound and _apply_row_bound (arm 6)
--   Readonly/Keys      _load_public_keys and _query_timeout_s
--   Readonly/Cell, Readonly/Reason, Readonly/Execute
--                      _json_safe, the envelope, _execute (arm 7), and _is_auth_error of oracle.py
--   Readonly/Run       _recompute_args_sha256 and run, one function for each arm; run cut at its await
--                      in Readonly/Run/Entry
--   Oracle             oracle.py: guard_owner, the pool, fetch
--   Oracle/Tasks       oracle.py: requests that interleave at the awaits of fetch and close_pool
--   Tools, Tools/Calls tools.py: the owner predicate and the statements; the six metadata tools
--   Auth               auth.py: the token verifiers of the server
--   Server             server.py: the registered tools, calls one after the other, the pool's lifespan
--   Server/Process     server.py: calls of the tools side by side, interleaved at their awaits
--   Server/Build       server.py: the constants, build_server and the start
--   Descriptor         __init__.py: the marker of the package
-- The children of these modules hold the proofs; Tests holds a small parser, a small host, runs and the
-- theorems at concrete inputs.
--
-- Names follow the source without the leading underscore. A str is the list of its code points, an int
-- an integer without bound, a set the list of its elements, a dict an association list. An `await` is a
-- call: the model runs one request from its start to its end. Two modules cut requests at their awaits:
-- Readonly/Run/Entry for a governed call, whose arms 1 to 6 have none, and Oracle/Tasks for a metadata
-- tool, where any other request may go on at an await, and a query or a close takes place at the moment
-- its answer arrives. Server/Process interleaves the two.
--
-- Parameters, for code that is not in the repository: the Unicode tables above code point 127, sqlglot
-- (parser, tokenizer, questions to a tree, `limit` and `sql`; a question to a parsed tree is taken not
-- to raise), joserfc and json.loads under their handlers, PyJWT (the signing key of a token, and
-- jwt.decode), AnyHttpUrl, SHA-256, floats, datetime.fromtimestamp, files, the clock, and the Oracle
-- driver. Every answer of a file or the driver may depend on all earlier calls, and may be an exception;
-- the clock's may depend on them too.
--
-- The loops over keys, tables, rows and text are structural recursions. Only the printing of a number
-- runs on fuel: n + 1 rounds for n, of which it needs one for each digit.
--
-- Not modelled: logging, the texts of exceptions, and the descriptions and the wire signature that
-- server.py registers with a tool. In Server/Process the driver calls of a governed execution are
-- events without an answer; the theorems on an execution are about one that runs alone, but hold for
-- any host, whose answers may also depend on what other requests do in between. Of FastMCP the model
-- has only what server.py hands to it: reading the wire, validating arguments, asking the verifier and
-- keeping sessions are left out, an exception of a tool ends its call alone, and the lifespan is
-- entered once.
pub mod Base
pub mod Python
pub mod QueryContext
pub mod Readonly
pub mod Host
pub mod Config
pub mod Credential
pub mod Oracle
pub mod Tools
pub mod Auth
pub mod Server
pub mod Descriptor
pub mod Tests
