-- ===== src/Protocol/Connection/Session/Examples.antt =====
-- A session with a command, its answer and a stop, and the theorems on sessions at it.
use framewalk.Prelude.{
  ◌≡◌, ◌++◌, refl, arith, false, none, some, [], ◌∷◌, if◌then◌else◌, bytes, beq, nat_key, bytes_key,
  get,
}
use framewalk.Codec.Ast.{Results, no_results, result, const}
use framewalk.Codec.Command.{MiCommand}
use framewalk.Protocol.Connection.Receive.{waiting}
use framewalk.Protocol.Connection.Answer.{done_text}
use framewalk.Protocol.Connection.Session.Answer.{answer-received}
use framewalk.Protocol.Event.{Event, CommandOutcome, MiVersion}
use framewalk.Protocol.View.{get_str}
use framewalk.Protocol.State.Threads
use framewalk.Protocol.State.Threads.{ThreadInfo, fresh, in_state}
use framewalk.Protocol.Connection.{Connection, new, submit, receive_bytes, classify_exec}
use framewalk.Protocol.Connection.Keyed.{AreKeyed, session-AreKeyed}
use framewalk.Protocol.Connection.Exec.{
  stopped_record, running_record, thread_of, names, covers, exec-threads,
}
use framewalk.Protocol.Connection.Session.{Reaches, started, submitted, received}
use framewalk.Protocol.Connection.Session.Sound.{IsSound, session-IsSound, submit_unambiguous}

abbrev insert_main : MiCommand
insert_main = record {
  operation = bytes "break-insert";
  options = [];
  parameters = bytes "main" ∷ [];
}

abbrev answered : Connection
answered =
    receive_bytes (submit new insert_main).1 (bytes "1^done,bkpt={number=\"1\"}\n(gdb)\n=thr")

answered-Reaches : Reaches 1 answered
answered-Reaches =
    received (submitted (started MiVersion.unknown) insert_main)
      (bytes "1^done,bkpt={number=\"1\"}\n(gdb)\n=thr")

session-IsSound_example : IsSound 1 answered
session-IsSound_example = session-IsSound answered-Reaches

session-AreKeyed_example : AreKeyed answered
session-AreKeyed_example = session-AreKeyed answered-Reaches

submit_unambiguous_example : get (submit answered insert_main).0 answered.pending ≡ none
submit_unambiguous_example = submit_unambiguous insert_main answered-Reaches (omega arith)

-- Thread 2 exited normally.
abbrev exit_results : Results
exit_results =
    result (bytes "reason") (const (bytes "exited-normally"))
      (result (bytes "thread-id") (const (bytes "2")) no_results)

abbrev two_threads : Connection
two_threads = record new {
  threads = (bytes "1", fresh (bytes "1")) ∷ (bytes "2", fresh (bytes "2")) ∷ [];
  frames =
      (
        bytes "1",
        record {
          level = some 0;
          func = none;
          file = none;
          fullname = none;
          line = none;
          addr = none;
        },
      )
      ∷ [];
}

not_named : names (thread_of exit_results) (bytes "1") ≡ false
unfolding get_str beq
not_named = refl

knows_first : get (bytes "1") two_threads.threads ≡ some (fresh (bytes "1"))
unfolding get beq
knows_first = refl

exec-threads_example :
    (get (bytes "1") (classify_exec (running_record none exit_results) two_threads).threads
      ≡ some (
          if covers (thread_of exit_results) (bytes "1")
          then in_state Threads.running (fresh (bytes "1"))
          else fresh (bytes "1")))
    × (get (bytes "1") (classify_exec (stopped_record none exit_results) two_threads).threads
        ≡ some (
            if covers (thread_of exit_results) (bytes "1")
            then in_state Threads.stopped (fresh (bytes "1"))
            else fresh (bytes "1")))
exec-threads_example =
    exec-threads none exit_results two_threads (bytes "1") (fresh (bytes "1")) knows_first

-- With one command in flight, a second one and its answer.
abbrev one_sent : Connection
one_sent = (submit new insert_main).1

nothing_waits : waiting one_sent ≡ []
unfolding submit
nothing_waits = refl

answer-received_example :
    ((receive_bytes
        (submit one_sent insert_main).1
        (done_text (submit one_sent insert_main).0 ++ 10 ∷ [])).events
      ≡ one_sent.events
        ++ Event.command_completed (submit one_sent insert_main).0 (CommandOutcome.done no_results)
          ∷ [])
    × (get
          (submit one_sent insert_main).0
          (receive_bytes
            (submit one_sent insert_main).1
            (done_text (submit one_sent insert_main).0 ++ 10 ∷ [])).pending
        ≡ none)
answer-received_example =
    answer-received insert_main (submitted (started MiVersion.unknown) insert_main) nothing_waits
