-- ===== src/Tests/Program.antt =====
-- What a run on concrete inputs opens, all at once.
use cognic_tool_oracle_schem.Base.{min_ℤ, max_ℤ, lit, text_eq, contains, add, join}
use cognic_tool_oracle_schem.Python.Num.{
  digits_onto, show_ℕ, show, digit_count, digit_of, digits_of, magnitude_of, signed_of, int_of,
  is_int_space, skip_spaces, is_too_long, repr,
}
use cognic_tool_oracle_schem.Python.Json.{
  escape_char, escape_onto, show_str, text_lt, place, sort_keys, dumps, dumps_sorted,
}
use cognic_tool_oracle_schem.Python.Str.{
  upper_char, upper, is_space, left_strip, strip, split_from, split_comma, is_byte_space,
  is_blank_bytes,
}
use cognic_tool_oracle_schem.Python.Value.{get}
use cognic_tool_oracle_schem.Python.Utf8.{
  encode_char, encode, lead, finish, step, decode_from, decode,
}
use cognic_tool_oracle_schem.Credential.{
  is_relative_to, drop_newline, is_malformed, password_of, stat_and_read, mount_of, read_credential,
}
use cognic_tool_oracle_schem.QueryContext.{
  parse_entries, verified_payload, parse_claims, verify_query_context,
}
use cognic_tool_oracle_schem.QueryContext.Canonical.{reject_unsafe_values, canonical_bytes}
use cognic_tool_oracle_schem.Readonly.Cell.{hex, json_safe}
use cognic_tool_oracle_schem.Readonly.Replay.{evict, has, check_and_insert}
use cognic_tool_oracle_schem.Readonly.Analyze.{
  classify_tokens, classify_parse_failure, is_denied, first_denied, analyze_statement,
  analyze_statements, analyze_parsed, analyze,
}
use cognic_tool_oracle_schem.Readonly.Scope.{
  place_text, sorted, alias_set, cte_aliases, note_table, note_tables, referenced_objects,
  out_of_scope_objects,
}
use cognic_tool_oracle_schem.Readonly.RowBound.{
  requested_rows, capped, author_row_bound, apply_row_bound,
}
use cognic_tool_oracle_schem.Readonly.Keys.{listed, read_keys, load_public_keys, query_timeout_s}
use cognic_tool_oracle_schem.Readonly.Execute.{
  is_auth_code, is_auth_error, set_column, fill_row, envelope_of, open_connection, reconnect,
  connect_proxy, stamp, query, stamped_body, cursor_block, session, execute,
}
use cognic_tool_oracle_schem.Readonly.Run.Entry.{statement_entry, claims_entry, enter}
use cognic_tool_oracle_schem.Readonly.Run.{
  is_proxy_identity, basis, first_use, recompute_args_sha256, proxy_arm, statement_arms,
  claims_arms, run,
}
use cognic_tool_oracle_schem.Config.{
  set_of, required, auth_mode_of, max_rows_of, scopes_of, pool_max_of, from_env,
}
use cognic_tool_oracle_schem.Oracle.Tasks.{reopen, recover, resume, turn}
use cognic_tool_oracle_schem.Oracle.{
  guard_owner, set_pool, get_pool, require_pool, init_pool, close_pool, fetch_once, fetch_again,
  fetch,
}
use cognic_tool_oracle_schem.Tools.{numbered, owner_predicate, item_of, each}
use cognic_tool_oracle_schem.Tools.Calls.{list_schemas, find_columns}
use cognic_tool_oracle_schem.Server.{run_readonly_query, attempt, serve, pool_lifespan}
use cognic_tool_oracle_schem.Server.Build.{server_port, build_server, main}
use cognic_tool_oracle_schem.Auth.{
  verify_sync, words_from, scopes_from_claims, decoded_scopes, jwt_verify_token, dev_verify_token,
  select_token_verifier,
}
use cognic_tool_oracle_schem.Host.{◌>>=◌, is_exception, is_os_error}

unfoldable pub program : Unit {0}
unfolding min_ℤ max_ℤ lit text_eq contains add join digits_onto show_ℕ show digit_count digit_of
    digits_of magnitude_of signed_of int_of is_int_space skip_spaces is_too_long repr escape_char
    escape_onto show_str text_lt place sort_keys dumps dumps_sorted upper_char upper is_space
    left_strip strip split_from split_comma is_byte_space is_blank_bytes get encode_char encode lead
    finish step decode_from decode is_relative_to drop_newline is_malformed password_of
    stat_and_read mount_of read_credential parse_entries verified_payload parse_claims
    verify_query_context reject_unsafe_values canonical_bytes hex json_safe evict has
    check_and_insert classify_tokens classify_parse_failure is_denied first_denied analyze_statement
    analyze_statements analyze_parsed analyze place_text sorted alias_set cte_aliases note_table
    note_tables referenced_objects out_of_scope_objects requested_rows capped author_row_bound
    apply_row_bound listed read_keys load_public_keys query_timeout_s is_auth_code is_auth_error
    set_column fill_row envelope_of open_connection reconnect connect_proxy stamp query stamped_body
    cursor_block session execute statement_entry claims_entry enter is_proxy_identity basis
    first_use recompute_args_sha256 proxy_arm statement_arms claims_arms run set_of required
    auth_mode_of max_rows_of scopes_of pool_max_of from_env reopen recover resume turn guard_owner
    set_pool get_pool require_pool init_pool close_pool fetch_once fetch_again fetch numbered
    owner_predicate item_of each list_schemas find_columns run_readonly_query attempt serve
    pool_lifespan server_port build_server main verify_sync words_from scopes_from_claims
    decoded_scopes jwt_verify_token dev_verify_token select_token_verifier ◌>>=◌ is_exception
    is_os_error
program = tt
