-- ===== src/Transport/Subprocess/Examples.antt =====
-- A bootstrap that fails at its second command.
use framewalk.Prelude.{ℕ, zero, suc, ◌≡◌, true, none, bytes}
use framewalk.Codec.Ast.{no_results}
use framewalk.Protocol.Event.{CommandOutcome}
use framewalk.Transport.Subprocess.{BootReply, answered, bootstrap_session, bootstrap_commands}
use framewalk.Transport.Subprocess.Bootstrap.{
  through_first_failure, all_succeed, is_ready, bootstrap_session-ready,
}

abbrev refuses_second : ℕ → BootReply ℕ
refuses_second zero = answered (CommandOutcome.done no_results)
refuses_second (suc zero) = answered (CommandOutcome.error (bytes "no non-stop") none)
refuses_second _ = answered (CommandOutcome.done no_results)

bootstrap_session-ready_example :
    let (sent, result) = bootstrap_session true refuses_second in
    (sent ≡ through_first_failure 0 (bootstrap_commands true) refuses_second)
    × (is_ready result ≡ all_succeed 0 (bootstrap_commands true) refuses_second)
bootstrap_session-ready_example = bootstrap_session-ready true refuses_second
