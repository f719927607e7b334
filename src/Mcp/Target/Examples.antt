-- ===== src/Mcp/Target/Examples.antt =====
-- The theorems on target selection at concrete runs.
use framewalk.Prelude.{ℕ, ◌≡◌, refl, arith, none, some, if◌then◌else◌, Bytes, bytes}
use framewalk.Codec.Command.{MiCommand, parameter}
use framewalk.Codec.Encode.{encode_command}
use framewalk.Codec.Utf8.{is_utf8}
use framewalk.Codec.Ast.{no_results}
use framewalk.Protocol.Event.{CommandOutcome}
use framewalk.Protocol.Connection.{new, submit, submit_raw, outbound}
use framewalk.Mcp.Target.{Reply, outcome, target_select, encode_mi_command, perform_target_select}
use framewalk.Mcp.Target.Select.{remembered, succeeded, perform_target_select-remembered}
use framewalk.Mcp.Target.Reconnect.{memo-resubmitted}

-- A stub without non-stop; the downgrade and the retry succeed.
abbrev refused : Reply ℕ
refused = outcome (CommandOutcome.error (bytes "Non-stop mode is not supported") none)

abbrev accepted : Reply ℕ
accepted = outcome (CommandOutcome.connected no_results)

perform_target_select-remembered_example :
    let (acts, result) =
      perform_target_select (bytes "remote") (bytes "localhost:1") refused accepted accepted in
    remembered acts ≡ (
      if succeeded result
      then some (encode_mi_command (target_select (bytes "remote") (bytes "localhost:1")))
      else none)
perform_target_select-remembered_example =
    perform_target_select-remembered (bytes "remote") (bytes "localhost:1") refused accepted
      accepted

abbrev socket : MiCommand
socket = target_select (bytes "remote") (bytes "/tmp/with spaces")

abbrev memo : Bytes
memo = bytes "-target-select remote \"/tmp/with spaces\""

memo_lem : encode_mi_command socket ≡ some memo
unfolding encode_mi_command encode_command is_utf8 parameter
memo_lem = refl

memo-resubmitted_example : outbound (submit_raw new memo).1 ≡ outbound (submit new socket).1
memo-resubmitted_example =
    memo-resubmitted new socket memo (record { in_buffer = omega arith }) memo_lem
