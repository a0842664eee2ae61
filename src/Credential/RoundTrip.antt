-- ===== src/Credential/RoundTrip.antt =====
-- A password file that was written with the password.
use cognic_tool_oracle_schem.Host.{Host}
