-- ===== src/Tests/Runs.antt =====
-- Runs of the governed tool on the toy host.
use cognic_tool_oracle_schem.Base.{◌≡◌, refl, false, [], ◌++◌, ◌∷◌, some, pos, lit}
use cognic_tool_oracle_schem.Python.Exception.{ok}
use cognic_tool_oracle_schem.Readonly.Cell.{Cell}
use cognic_tool_oracle_schem.Readonly.Reason.{
  refusal, success, query_context_args_mismatch, query_identity_stamp_failed,
}
use cognic_tool_oracle_schem.Readonly.Run.{run, mismatch_message, expected_aud}
use cognic_tool_oracle_schem.Descriptor.{server_descriptor}
use cognic_tool_oracle_schem.Readonly.Execute.{stamp_message}
use cognic_tool_oracle_schem.Tests.Toy.{host, unstampable, toy, cfg, args, fresh_world}
use cognic_tool_oracle_schem.Tests.Program.{program}

-- Two rows under the author's bound of 40; the bytes are shown in hexadecimal.
run_answers :
    (run host toy cfg args (lit "token") fresh_world).0
    ≡ ok (
        success
          (((lit "ID", Cell.integer (pos 1)) ∷ []) ∷ ((lit "ID", Cell.str (lit "ff")) ∷ []) ∷ [])
          2
          false
          (lit "1970"))
unfolding program
run_answers = refl

-- One more row than the token was minted for.
run_mismatch :
    (run host toy cfg (record args { max_rows = some (pos 91) }) (lit "token") fresh_world).0
    ≡ ok (refusal query_context_args_mismatch mismatch_message)
unfolding program
run_mismatch = refl

run_unstamped :
    (run unstampable toy cfg args (lit "token") fresh_world).0
    ≡ ok (refusal query_identity_stamp_failed stamp_message)
unfolding program
run_unstamped = refl

-- The audience of the tool is the package's name and the tool's.
audience_run : expected_aud ≡ server_descriptor.pack_id ++ (lit "/" ++ lit "run_readonly_query")
unfolding program
audience_run = refl
