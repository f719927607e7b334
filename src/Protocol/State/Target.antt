-- ===== src/Protocol/State/Target.antt =====
-- crates/framewalk-mi-protocol/src/state/target.rs: the state of the inferior.
use framewalk.Prelude.{Bool, true, false, Option, none, some, if◌then◌else◌, Bytes, bytes, beq}
use framewalk.Codec.Ast.{Results}
use framewalk.Protocol.View.{get_str, get_string, get_i32, ℤ}
use framewalk.Protocol.State.Threads.{ThreadId}

pub data StoppedReason : Type 0 where
  breakpoint_hit : Option Bytes → StoppedReason
  watchpoint_trigger function_finished location_reached : StoppedReason
  end_stepping_range exited_normally : StoppedReason
  exited : Option ℤ → StoppedReason
  exited_signalled : Option Bytes → StoppedReason
  signal_received : Option Bytes → StoppedReason
  fork vfork exec : StoppedReason
  syscall_entry : Option Bytes → StoppedReason
  syscall_return : Option Bytes → StoppedReason
  other : Bytes → StoppedReason

pub data TargetState : Type 0 where
  unknown : TargetState
  running : Option ThreadId → TargetState
  stopped : Option ThreadId → Option StoppedReason → TargetState
  exited : Option ℤ → TargetState

unfoldable pub is_running : TargetState → Bool
is_running (running thread) = true
is_running _ = false

unfoldable pub is_stopped : TargetState → Bool
is_stopped (stopped thread reason) = true
is_stopped _ = false

unfoldable pub is_exited : TargetState → Bool
is_exited (TargetState.exited code) = true
is_exited _ = false

unfoldable pub mark_unknown : TargetState → TargetState
mark_unknown t = unknown

reason_named : Bytes → Results → StoppedReason
unfolding get_str get_i32
reason_named name rs =
    if beq name (bytes "breakpoint-hit")
    then breakpoint_hit (get_string rs (bytes "bkptno"))
    else if beq name (bytes "watchpoint-trigger")
    then watchpoint_trigger
    else if beq name (bytes "function-finished")
    then function_finished
    else if beq name (bytes "location-reached")
    then location_reached
    else if beq name (bytes "end-stepping-range")
    then end_stepping_range
    else if beq name (bytes "exited-normally")
    then exited_normally
    else if beq name (bytes "exited")
    then StoppedReason.exited (get_i32 rs (bytes "exit-code"))
    else if beq name (bytes "exited-signalled")
    then exited_signalled (get_string rs (bytes "signal-name"))
    else if beq name (bytes "signal-received")
    then signal_received (get_string rs (bytes "signal-name"))
    else if beq name (bytes "fork")
    then fork
    else if beq name (bytes "vfork")
    then vfork
    else if beq name (bytes "exec")
    then exec
    else if beq name (bytes "syscall-entry")
    then syscall_entry (get_string rs (bytes "syscall-name"))
    else if beq name (bytes "syscall-return")
    then syscall_return (get_string rs (bytes "syscall-name"))
    else other name

-- `StoppedReason::from_results`
unfoldable pub from_results : Results → Option StoppedReason
unfolding get_str reason_named
from_results rs = elim (get_str rs (bytes "reason")) [
  | none ↦ none
  | some name ↦ some (reason_named name rs)
]
