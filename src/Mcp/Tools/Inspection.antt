-- ===== src/Mcp/Tools/Inspection.antt =====
-- crates/framewalk-mcp/src/tools/inspection.rs.
use framewalk.Prelude.{ℕ, ◌-◌, Option, none, some, List, [], ◌∷◌, ◌==◌, if◌then◌else◌, bytes, Bytes}
use framewalk.Codec.Command.{MiCommand, command, parameter}
use framewalk.Protocol.MiTypes.{print_values_arg}
use framewalk.Mcp.Types.Session.{
  BacktraceArgs, ThreadInfoArgs, SelectFrameArgs, ThreadSelectArgs, StackDepthArgs, StackListArgs,
  StackListArgumentsArgs,
}
use framewalk.Mcp.Tools.{to_string, number, option_if, parameter_some, parameter_range}

pub data InspectionTool : Type 0 where
  backtrace : BacktraceArgs → InspectionTool
  list_threads : ThreadInfoArgs → InspectionTool
  select_frame : SelectFrameArgs → InspectionTool
  select_thread : ThreadSelectArgs → InspectionTool

-- `limit.max(1) - 1`
abbrev pub highest_frame : ℕ → ℕ
highest_frame limit = (if limit == 0 then 1 else limit) - 1

abbrev pub frame_range : Option ℕ → List Bytes
frame_range none = []
frame_range (some limit) = bytes "0" ∷ to_string (highest_frame limit) ∷ []

unfoldable pub inspection_command : InspectionTool → MiCommand
unfolding parameter
inspection_command (backtrace args) = record (command (bytes "stack-list-frames")) {
  parameters = frame_range args.limit;
}
inspection_command (list_threads args) =
    parameter_some args.thread_id (command (bytes "thread-info"))
inspection_command (select_frame args) =
    parameter (command (bytes "stack-select-frame")) (to_string args.level)
inspection_command (select_thread args) = parameter (command (bytes "thread-select")) args.thread_id

pub data StackCoreTool : Type 0 where
  frame_info : StackCoreTool
  stack_depth : StackDepthArgs → StackCoreTool
  list_locals : StackListArgs → StackCoreTool
  list_arguments : StackListArgumentsArgs → StackCoreTool
  list_variables : StackListArgs → StackCoreTool

unfoldable pub stack_core_command : StackCoreTool → MiCommand
unfolding parameter
stack_core_command frame_info = command (bytes "stack-info-frame")
stack_core_command (stack_depth args) =
    parameter_some (number args.max_depth) (command (bytes "stack-info-depth"))
stack_core_command (list_locals args) =
    parameter
      (option_if args.skip_unavailable (bytes "skip-unavailable")
        (command (bytes "stack-list-locals")))
      (print_values_arg args.print_values)
stack_core_command (list_arguments args) = parameter_range args.low_frame args.high_frame (
    parameter
      (option_if args.skip_unavailable (bytes "skip-unavailable")
        (command (bytes "stack-list-arguments")))
      (print_values_arg args.print_values))
stack_core_command (list_variables args) =
    parameter
      (option_if args.skip_unavailable (bytes "skip-unavailable")
        (command (bytes "stack-list-variables")))
      (print_values_arg args.print_values)

pub data StackExtendedTool : Type 0 where
  enable_frame_filters : StackExtendedTool

unfoldable pub stack_extended_command : StackExtendedTool → MiCommand
stack_extended_command enable_frame_filters = command (bytes "enable-frame-filters")
