-- ===== src/Protocol/Connection/Examples.antt =====
-- The theorems on the connection at concrete sessions.
use framewalk.Prelude.{
  ◌≡◌, refl, arith, none, some, true, [], ◌++◌, length, bytes, beq, starts_with, nat_key, get,
  insert, remove,
}
use framewalk.Wire.Framer.Stream.{frames}
use framewalk.Codec.Ast.{ResultRecord, ResultClass, Results, no_results, result}
use framewalk.Codec.Ast
use framewalk.Codec.Command.{MiCommand, command}
use framewalk.Codec.Encode.{encode_command, write_u64}
use framewalk.Protocol.Event.{Event}
use framewalk.Protocol.Pending.{is_exec_command}
use framewalk.Protocol.State.Target.{TargetState}
use framewalk.Protocol.Connection.{
  Connection, new, push_back, submit, submit_raw, consume_outbound, receive_bytes, complete,
  outcome_of, classify_record, classify_exec, on_exec_running,
}
use framewalk.Protocol.Connection.Outbound.{IsQueue, Consumes, consume_outbound-Consumes}
use framewalk.Protocol.Connection.Receive.{
  waiting, state, Received, receive_bytes-Received, receive_bytes-append, receive_bytes-events,
}
use framewalk.Protocol.Connection.Events.{Adds}
use framewalk.Protocol.Connection.Correlation.{info_of, complete-once, raw_error_keeps}

abbrev run : MiCommand
run = command (bytes "exec-run")

-- Two commands in flight, of which the first byte is written.
abbrev busy : Connection
busy = record (submit (submit new run).1 (command (bytes "break-list"))).1 { outbound_consumed = 1 }

busy-IsQueue : IsQueue busy
unfolding submit encode_command write_u64
busy-IsQueue = record { in_buffer = omega arith }

consume_outbound-Consumes_example : Consumes busy 9 (consume_outbound busy 9)
consume_outbound-Consumes_example = consume_outbound-Consumes busy 9 busy-IsQueue

receive_bytes-Received_example :
    Received new (bytes "1^done\n(gdb)\n*st") (receive_bytes new (bytes "1^done\n(gdb)\n*st"))
receive_bytes-Received_example =
    receive_bytes-Received new (bytes "1^done\n(gdb)\n*st") (omega arith)

receive_bytes-append_example :
    (state (receive_bytes (receive_bytes new (bytes "1^do")) (bytes "ne\n"))
      ≡ state (receive_bytes new (bytes "1^do" ++ bytes "ne\n")))
    × (waiting (receive_bytes (receive_bytes new (bytes "1^do")) (bytes "ne\n"))
        ≡ waiting (receive_bytes new (bytes "1^do" ++ bytes "ne\n")))
receive_bytes-append_example = receive_bytes-append new (bytes "1^do") (bytes "ne\n") (omega arith)

receive_bytes-events_example :
    Adds new
      (length (frames [] (waiting new ++ bytes "1^done\nnonsense\n")))
      (receive_bytes new (bytes "1^done\nnonsense\n"))
receive_bytes-events_example = receive_bytes-events new (bytes "1^done\nnonsense\n") (omega arith)

abbrev answer : ResultClass → ResultRecord
answer class = record { token = some 1; class = class; results = no_results }

complete-once_example :
    complete 1 (answer ResultClass.error) (complete 1 (answer ResultClass.running) busy)
    ≡ push_back
        (record (complete 1 (answer ResultClass.running) busy) {
          pending = remove 1 (complete 1 (answer ResultClass.running) busy).pending;
        })
        (Event.command_completed 1 (outcome_of ResultClass.error no_results))
complete-once_example = complete-once 1 (answer ResultClass.running) (answer ResultClass.error) busy

pending_run : get 1 busy.pending ≡ some (info_of run)
unfolding submit get insert
pending_run = refl

run_is_exec : is_exec_command (info_of run) ≡ true
unfolding is_exec_command starts_with
run_is_exec = refl

-- A stopped target.
abbrev halted : Connection
halted = record new { target = TargetState.stopped none none }

-- The target has started to run since the line was sent.
abbrev resumed : Connection
resumed =
    classify_record
      (Ast.exec (record { token = none; class = bytes "running"; results = no_results }))
      (submit_raw halted (bytes "-exec-run")).1

resumed-running : resumed.target ≡ TargetState.running none
unfolding submit_raw classify_record classify_exec on_exec_running beq
resumed-running = refl

resumed-pending :
    get (submit_raw halted (bytes "-exec-run")).0 resumed.pending
    ≡ get
        (submit_raw halted (bytes "-exec-run")).0
        (submit_raw halted (bytes "-exec-run")).1.pending
unfolding submit_raw classify_record classify_exec on_exec_running beq
resumed-pending = refl

raw_error_keeps_example :
    classify_record
      (Ast.result (record { token = some 1; class = ResultClass.error; results = no_results }))
      resumed
    ≡ push_back
        (record resumed { pending = remove 1 resumed.pending })
        (Event.command_completed 1 (outcome_of ResultClass.error no_results))
unfolding submit_raw
raw_error_keeps_example =
    raw_error_keeps halted resumed (bytes "-exec-run") no_results resumed-pending
