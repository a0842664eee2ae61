-- ===== src/Tests/Server.antt =====
-- The start of the server and the metadata tools: runs, and the theorems at concrete inputs.
use cognic_tool_oracle_schem.Base.{
  ◌≡◌, refl, Bool, true, List, [], ◌∷◌, Option, none, some, if◌then◌else◌, pos, Text, lit, text_eq,
}
use cognic_tool_oracle_schem.Python.Exception.{ok}
use cognic_tool_oracle_schem.Config.{Config}
use cognic_tool_oracle_schem.Credential.{CredentialRead}
use cognic_tool_oracle_schem.Credential.Mounted.{IsMounted, read_credential-IsMounted}
use cognic_tool_oracle_schem.Readonly.Cell.{Cell}
use cognic_tool_oracle_schem.Tools.{Listing}
use cognic_tool_oracle_schem.Tools.Calls.{list_schemas}
use cognic_tool_oracle_schem.Tools.Owners.{Confined, owner_predicate-Confined}
use cognic_tool_oracle_schem.Host.{World}
use cognic_tool_oracle_schem.Base.{◌≤◌, length}
use cognic_tool_oracle_schem.Server.{schemas}
use cognic_tool_oracle_schem.Tools.Bounds.{answer-AtMost}
use cognic_tool_oracle_schem.Base.{◌++◌}
use cognic_tool_oracle_schem.Tests.Toy.{host, ascii, fresh_world}
use cognic_tool_oracle_schem.Tests.Program.{program}

abbrev settings : List (Text × Text)
settings =
    (lit "COGNIC_AUTH_MODE", lit "dev_insecure")
    ∷ (lit "COGNIC_ENV", lit "dev")
    ∷ (lit "COGNIC_ORACLE_ALLOWED_OWNERS", lit "hr, fin")
    ∷ (lit "COGNIC_ORACLE_MAX_ROWS", lit "5000")
    ∷ (lit "COGNIC_ORACLE_DSN", lit "db/x")
    ∷ (lit "COGNIC_ORACLE_USER", lit "cognic")
    ∷ (lit "COGNIC_ORACLE_PASSWORD_FILE", lit "/mnt/password")
    ∷ []

abbrev look_up : List (Text × Text) → Text → Option Text
look_up [] k = none
look_up ((j, v) ∷ rest) k = if text_eq k j then some v else look_up rest k

abbrev started : Config
started = record {
  oracle_dsn = lit "db/x";
  oracle_user = lit "cognic";
  oracle_password_file = lit "/mnt/password";
  allowed_owners = lit "HR" ∷ lit "FIN" ∷ [];
  max_rows = pos 1000;
  pool_max = pos 4;
  auth_mode = lit "dev_insecure";
  oauth_issuer = none;
  oauth_jwks_uri = none;
  oauth_audience = none;
  required_scopes = lit "oracle_schema.read" ∷ [];
}

abbrev credential : CredentialRead
credential = record { password = lit "s3cret"; rotation_ref = lit "1970" }

read_credential-IsMounted_example : IsMounted host (lit "/mnt/password") fresh_world credential
unfolding program
read_credential-IsMounted_example =
    read_credential-IsMounted host (lit "/mnt/password") fresh_world credential refl

abbrev pooled : World
pooled = record fresh_world { pool = some 9 }

abbrev page : List (List Cell) × Bool
page = ((Cell.str (lit "HR") ∷ []) ∷ [], true)

list_schemas_run :
    (list_schemas host (record started { max_rows = pos 1 }) pooled).0
    ≡ ok (record { items = ((lit "owner", Cell.str (lit "HR")) ∷ []) ∷ []; truncated = true })
unfolding program
list_schemas_run = refl

owner_predicate-Confined_example :
    Confined started none ((lit "owner_0", lit "FIN") ∷ (lit "owner_1", lit "HR") ∷ [])
unfolding program
owner_predicate-Confined_example =
    owner_predicate-Confined ascii (lit "owner") started none (lit "owner IN (:owner_0, :owner_1)")
      ((lit "owner_0", lit "FIN") ∷ (lit "owner_1", lit "HR") ∷ []) refl refl

abbrev schemas_page : Listing
schemas_page = record { items = ((lit "owner", Cell.str (lit "HR")) ∷ []) ∷ []; truncated = true }

answer-AtMost_example : length schemas_page.items ≤ 1
unfolding program
answer-AtMost_example =
    answer-AtMost host (record started { max_rows = pos 1 }) 1 refl schemas pooled schemas_page refl

abbrev padlock : Text
padlock = lit "s3" ++ 233 ∷ 8364 ∷ 128273 ∷ []
