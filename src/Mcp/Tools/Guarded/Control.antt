-- ===== src/Mcp/Tools/Guarded/Control.antt =====
-- What the guard on raw commands says of the tools of execution.rs, session.rs, breakpoints.rs and inspection.rs.
use framewalk.Prelude.{◌≡◌, refl}
use framewalk.Codec.Command.{parameter, option, option_with}
use framewalk.Mcp.RawGuard.{guarded, permitted, validate_raw_mi_command}
use framewalk.Mcp.Tools.Execution.{
  SessionTool, ExecutionCoreTool, ExecutionExtendedTool, ExecutionReverseTool, session_command,
  execution_core_command, execution_extended_command, execution_reverse_command, gdb_version,
  load_file, attach, detach, run, cont, step, next, finish, until, step_instruction,
  next_instruction, return_from_function, jump, reverse_step, reverse_next, reverse_continue,
  reverse_finish,
}
use framewalk.Mcp.Tools.Breakpoints.{
  BreakpointsCoreTool, BreakpointsExtendedTool, breakpoints_core_command,
  breakpoints_extended_command, set_breakpoint, list_breakpoints, delete_breakpoint,
  enable_breakpoint, disable_breakpoint, break_condition, break_after, break_info, set_watchpoint,
  break_commands, break_passcount, dprintf_insert,
}
use framewalk.Mcp.Tools.Inspection.{
  InspectionTool, StackCoreTool, StackExtendedTool, inspection_command, stack_core_command,
  stack_extended_command, backtrace, list_threads, select_frame, select_thread, frame_info,
  stack_depth, list_locals, list_arguments, list_variables, enable_frame_filters,
}

pub guarded-session_command : (tool : SessionTool) → guarded (session_command tool) ≡ permitted tt
unfolding session_command validate_raw_mi_command parameter option option_with
guarded-session_command gdb_version = refl
guarded-session_command (load_file args) = refl
guarded-session_command (attach args) = refl
guarded-session_command detach = refl

pub guarded-execution_core_command :
    (tool : ExecutionCoreTool) → guarded (execution_core_command tool) ≡ permitted tt
unfolding execution_core_command validate_raw_mi_command parameter option option_with
guarded-execution_core_command run = refl
guarded-execution_core_command cont = refl
guarded-execution_core_command step = refl
guarded-execution_core_command next = refl
guarded-execution_core_command finish = refl
guarded-execution_core_command (until args) = refl

pub guarded-execution_extended_command :
    (tool : ExecutionExtendedTool) → guarded (execution_extended_command tool) ≡ permitted tt
unfolding execution_extended_command validate_raw_mi_command parameter option option_with
guarded-execution_extended_command step_instruction = refl
guarded-execution_extended_command next_instruction = refl
guarded-execution_extended_command (return_from_function args) = refl
guarded-execution_extended_command (jump args) = refl

pub guarded-execution_reverse_command :
    (tool : ExecutionReverseTool) → guarded (execution_reverse_command tool) ≡ permitted tt
unfolding execution_reverse_command validate_raw_mi_command parameter option option_with
guarded-execution_reverse_command (reverse_step args) = refl
guarded-execution_reverse_command (reverse_next args) = refl
guarded-execution_reverse_command (reverse_continue args) = refl
guarded-execution_reverse_command (reverse_finish args) = refl

pub guarded-breakpoints_core_command :
    (tool : BreakpointsCoreTool) → guarded (breakpoints_core_command tool) ≡ permitted tt
unfolding breakpoints_core_command validate_raw_mi_command parameter option option_with
guarded-breakpoints_core_command (set_breakpoint args) = refl
guarded-breakpoints_core_command list_breakpoints = refl
guarded-breakpoints_core_command (delete_breakpoint args) = refl
guarded-breakpoints_core_command (enable_breakpoint args) = refl
guarded-breakpoints_core_command (disable_breakpoint args) = refl
guarded-breakpoints_core_command (break_condition args) = refl
guarded-breakpoints_core_command (break_after args) = refl
guarded-breakpoints_core_command (break_info args) = refl
guarded-breakpoints_core_command (set_watchpoint args) = refl

pub guarded-breakpoints_extended_command :
    (tool : BreakpointsExtendedTool) → guarded (breakpoints_extended_command tool) ≡ permitted tt
unfolding breakpoints_extended_command validate_raw_mi_command parameter option option_with
guarded-breakpoints_extended_command (break_commands args) = refl
guarded-breakpoints_extended_command (break_passcount args) = refl
guarded-breakpoints_extended_command (dprintf_insert args) = refl

pub guarded-inspection_command :
    (tool : InspectionTool) → guarded (inspection_command tool) ≡ permitted tt
unfolding inspection_command validate_raw_mi_command parameter option option_with
guarded-inspection_command (backtrace args) = refl
guarded-inspection_command (list_threads args) = refl
guarded-inspection_command (select_frame args) = refl
guarded-inspection_command (select_thread args) = refl

pub guarded-stack_core_command :
    (tool : StackCoreTool) → guarded (stack_core_command tool) ≡ permitted tt
unfolding stack_core_command validate_raw_mi_command parameter option option_with
guarded-stack_core_command frame_info = refl
guarded-stack_core_command (stack_depth args) = refl
guarded-stack_core_command (list_locals args) = refl
guarded-stack_core_command (list_arguments args) = refl
guarded-stack_core_command (list_variables args) = refl

pub guarded-stack_extended_command :
    (tool : StackExtendedTool) → guarded (stack_extended_command tool) ≡ permitted tt
unfolding stack_extended_command validate_raw_mi_command parameter option option_with
guarded-stack_extended_command enable_frame_filters = refl
