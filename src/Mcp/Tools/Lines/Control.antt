-- ===== src/Mcp/Tools/Lines/Control.antt =====
-- No newline in the operation and the option names, for the tools of execution.rs, session.rs, breakpoints.rs and inspection.rs.
use framewalk.Prelude.{refl, arith}
use framewalk.Codec.Command.{parameter, option, option_with}
use framewalk.Codec.Encode.Lines.{IsNamed}
use framewalk.Mcp.Tools.Execution.{
  SessionTool, ExecutionCoreTool, ExecutionExtendedTool, ExecutionReverseTool, session_command,
  execution_core_command, execution_extended_command, execution_reverse_command, gdb_version,
  load_file, attach, detach, run, cont, step, next, finish, until, step_instruction,
  next_instruction, return_from_function, jump, reverse_step, reverse_next, reverse_continue,
  reverse_finish,
}
use framewalk.Mcp.Tools.Breakpoints.{
  BreakpointsCoreTool, BreakpointsExtendedTool, breakpoints_core_command,
  breakpoints_extended_command, set_breakpoint, list_breakpoints, delete_breakpoint,
  enable_breakpoint, disable_breakpoint, break_condition, break_after, break_info, set_watchpoint,
  break_commands, break_passcount, dprintf_insert,
}
use framewalk.Mcp.Tools.Inspection.{
  InspectionTool, StackCoreTool, StackExtendedTool, inspection_command, stack_core_command,
  stack_extended_command, backtrace, list_threads, select_frame, select_thread, frame_info,
  stack_depth, list_locals, list_arguments, list_variables, enable_frame_filters,
}

pub session_command-IsNamed : (tool : SessionTool) → IsNamed (session_command tool)
unfolding session_command parameter option option_with
session_command-IsNamed gdb_version = (refl, refl)
session_command-IsNamed (load_file args) = (refl, refl)
session_command-IsNamed (attach args) = (refl, refl)
session_command-IsNamed detach = (refl, refl)

pub execution_core_command-IsNamed :
    (tool : ExecutionCoreTool) → IsNamed (execution_core_command tool)
unfolding execution_core_command parameter option option_with
execution_core_command-IsNamed run = (refl, refl)
execution_core_command-IsNamed cont = (refl, refl)
execution_core_command-IsNamed step = (refl, refl)
execution_core_command-IsNamed next = (refl, refl)
execution_core_command-IsNamed finish = (refl, refl)
execution_core_command-IsNamed (until args) = (refl, refl)

pub execution_extended_command-IsNamed :
    (tool : ExecutionExtendedTool) → IsNamed (execution_extended_command tool)
unfolding execution_extended_command parameter option option_with
execution_extended_command-IsNamed step_instruction = (refl, refl)
execution_extended_command-IsNamed next_instruction = (refl, refl)
execution_extended_command-IsNamed (return_from_function args) = (refl, refl)
execution_extended_command-IsNamed (jump args) = (refl, refl)

pub execution_reverse_command-IsNamed :
    (tool : ExecutionReverseTool) → IsNamed (execution_reverse_command tool)
unfolding execution_reverse_command parameter option option_with
execution_reverse_command-IsNamed (reverse_step args) = (refl, ground arith)
execution_reverse_command-IsNamed (reverse_next args) = (refl, ground arith)
execution_reverse_command-IsNamed (reverse_continue args) = (refl, ground arith)
execution_reverse_command-IsNamed (reverse_finish args) = (refl, ground arith)

pub breakpoints_core_command-IsNamed :
    (tool : BreakpointsCoreTool) → IsNamed (breakpoints_core_command tool)
unfolding breakpoints_core_command parameter option option_with
breakpoints_core_command-IsNamed (set_breakpoint args) = (refl, ground arith)
breakpoints_core_command-IsNamed list_breakpoints = (refl, refl)
breakpoints_core_command-IsNamed (delete_breakpoint args) = (refl, refl)
breakpoints_core_command-IsNamed (enable_breakpoint args) = (refl, refl)
breakpoints_core_command-IsNamed (disable_breakpoint args) = (refl, refl)
breakpoints_core_command-IsNamed (break_condition args) = (refl, refl)
breakpoints_core_command-IsNamed (break_after args) = (refl, refl)
breakpoints_core_command-IsNamed (break_info args) = (refl, refl)
breakpoints_core_command-IsNamed (set_watchpoint args) = (refl, ground arith)

pub breakpoints_extended_command-IsNamed :
    (tool : BreakpointsExtendedTool) → IsNamed (breakpoints_extended_command tool)
unfolding breakpoints_extended_command parameter option option_with
breakpoints_extended_command-IsNamed (break_commands args) = (refl, refl)
breakpoints_extended_command-IsNamed (break_passcount args) = (refl, refl)
breakpoints_extended_command-IsNamed (dprintf_insert args) = (refl, ground arith)

pub inspection_command-IsNamed : (tool : InspectionTool) → IsNamed (inspection_command tool)
unfolding inspection_command parameter option option_with
inspection_command-IsNamed (backtrace args) = (refl, refl)
inspection_command-IsNamed (list_threads args) = (refl, refl)
inspection_command-IsNamed (select_frame args) = (refl, refl)
inspection_command-IsNamed (select_thread args) = (refl, refl)

pub stack_core_command-IsNamed : (tool : StackCoreTool) → IsNamed (stack_core_command tool)
unfolding stack_core_command parameter option option_with
stack_core_command-IsNamed frame_info = (refl, refl)
stack_core_command-IsNamed (stack_depth args) = (refl, refl)
stack_core_command-IsNamed (list_locals args) = (refl, ground arith)
stack_core_command-IsNamed (list_arguments args) = (refl, ground arith)
stack_core_command-IsNamed (list_variables args) = (refl, ground arith)

pub stack_extended_command-IsNamed :
    (tool : StackExtendedTool) → IsNamed (stack_extended_command tool)
unfolding stack_extended_command parameter option option_with
stack_extended_command-IsNamed enable_frame_filters = (refl, refl)
