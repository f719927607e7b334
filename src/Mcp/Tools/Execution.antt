-- ===== src/Mcp/Tools/Execution.antt =====
-- crates/framewalk-mcp/src/tools/execution.rs and session.rs.
use framewalk.Prelude.{bytes}
use framewalk.Codec.Command.{MiCommand, command, parameter}
use framewalk.Mcp.Types.Session.{
  UntilArgs, JumpArgs, ReturnArgs, ReverseStepArgs, FilePathArgs, AttachArgs,
}
use framewalk.Mcp.Tools.{option_if, parameter_some}

-- `interrupt` submits a raw command, and is no constructor here.
pub data ExecutionCoreTool : Type 0 where
  run cont step next finish : ExecutionCoreTool
  until : UntilArgs → ExecutionCoreTool

unfoldable pub execution_core_command : ExecutionCoreTool → MiCommand
execution_core_command run = command (bytes "exec-run")
execution_core_command cont = command (bytes "exec-continue")
execution_core_command step = command (bytes "exec-step")
execution_core_command next = command (bytes "exec-next")
execution_core_command finish = command (bytes "exec-finish")
execution_core_command (until args) = parameter_some args.location (command (bytes "exec-until"))

pub data ExecutionExtendedTool : Type 0 where
  step_instruction next_instruction : ExecutionExtendedTool
  return_from_function : ReturnArgs → ExecutionExtendedTool
  jump : JumpArgs → ExecutionExtendedTool

unfoldable pub execution_extended_command : ExecutionExtendedTool → MiCommand
unfolding parameter
execution_extended_command step_instruction = command (bytes "exec-step-instruction")
execution_extended_command next_instruction = command (bytes "exec-next-instruction")
execution_extended_command (return_from_function args) =
    parameter_some args.expression (command (bytes "exec-return"))
execution_extended_command (jump args) = parameter (command (bytes "exec-jump")) args.location

pub data ExecutionReverseTool : Type 0 where
  reverse_step reverse_next reverse_continue reverse_finish : ReverseStepArgs → ExecutionReverseTool

unfoldable pub execution_reverse_command : ExecutionReverseTool → MiCommand
execution_reverse_command (reverse_step args) =
    option_if args.reverse (bytes "reverse") (command (bytes "exec-step"))
execution_reverse_command (reverse_next args) =
    option_if args.reverse (bytes "reverse") (command (bytes "exec-next"))
execution_reverse_command (reverse_continue args) =
    option_if args.reverse (bytes "reverse") (command (bytes "exec-continue"))
execution_reverse_command (reverse_finish args) =
    option_if args.reverse (bytes "reverse") (command (bytes "exec-finish"))

pub data SessionTool : Type 0 where
  gdb_version : SessionTool
  load_file : FilePathArgs → SessionTool
  attach : AttachArgs → SessionTool
  detach : SessionTool

unfoldable pub session_command : SessionTool → MiCommand
unfolding parameter
session_command gdb_version = command (bytes "gdb-version")
session_command (load_file args) = parameter (command (bytes "file-exec-and-symbols")) args.path
session_command (attach args) = parameter (command (bytes "target-attach")) args.pid
session_command detach = command (bytes "target-detach")
