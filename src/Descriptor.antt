-- ===== src/Descriptor.antt =====
-- __init__.py: the marker by which the host finds the package.
use cognic_tool_oracle_schem.Base.{Text, lit}

pub record ServerDescriptor : Type 0 where
  pub cognic_pack_kind : Text
  pub pack_id : Text

abbrev pub server_descriptor : ServerDescriptor
server_descriptor = record {
  cognic_pack_kind = lit "mcp_server";
  pack_id = lit "cognic-tool-oracle-schema";
}
