-- ===== src/Mcp/Tools/Trace.antt =====
-- crates/framewalk-mcp/src/tools/trace.rs.
use framewalk.Prelude.{Option, none, some, List, [], ◌∷◌, bytes, Bytes}
use framewalk.Codec.Command.{MiCommand, command, option, parameter}
use framewalk.Protocol.MiTypes.{
  RegisterFormat, TraceFindMode, frame_number, tracepoint_number, pc, pc_inside_range,
  pc_outside_range, line, register_format_arg,
}
use framewalk.Mcp.Types.{
  CatchLoadUnloadArgs, CatchAdaExceptionArgs, CatchCppExceptionArgs, TraceInsertArgs, TraceFindArgs,
  TraceDefineVariableArgs, TraceSaveArgs, TraceFrameCollectedArgs,
}
use framewalk.Mcp.Tools.{
  to_string, values_shown, option_if, option_some, parameter_some, parameter_each,
}

pub data CatchpointTool : Type 0 where
  catch_load catch_unload : CatchLoadUnloadArgs → CatchpointTool
  catch_assert catch_exception catch_handlers : CatchAdaExceptionArgs → CatchpointTool
  catch_throw catch_rethrow catch_catch : CatchCppExceptionArgs → CatchpointTool

abbrev pub catch_library : Bytes → CatchLoadUnloadArgs → MiCommand
catch_library operation args =
    parameter
      (option_if args.disabled (bytes "d")
        (option_if args.temporary (bytes "t") (command operation)))
      args.regexp

abbrev pub catch_ada : Bytes → CatchAdaExceptionArgs → MiCommand
catch_ada operation args = option_if args.temporary (bytes "t") (
    option_if args.disabled (bytes "d")
      (option_some (bytes "c") args.condition (command operation)))

abbrev pub catch_cpp : Bytes → CatchCppExceptionArgs → MiCommand
catch_cpp operation args =
    option_some (bytes "r") args.regexp (option_if args.temporary (bytes "t") (command operation))

unfoldable pub catchpoint_command : CatchpointTool → MiCommand
unfolding parameter
catchpoint_command (catch_load args) = catch_library (bytes "catch-load") args
catchpoint_command (catch_unload args) = catch_library (bytes "catch-unload") args
catchpoint_command (catch_assert args) = catch_ada (bytes "catch-assert") args
catchpoint_command (catch_exception args) =
    option_if args.unhandled (bytes "u")
      (option_some (bytes "e") args.exception_name (catch_ada (bytes "catch-exception") args))
catchpoint_command (catch_handlers args) =
    option_some (bytes "e") args.exception_name (catch_ada (bytes "catch-handlers") args)
catchpoint_command (catch_throw args) = catch_cpp (bytes "catch-throw") args
catchpoint_command (catch_rethrow args) = catch_cpp (bytes "catch-rethrow") args
catchpoint_command (catch_catch args) = catch_cpp (bytes "catch-catch") args

pub data TracepointTool : Type 0 where
  trace_insert : TraceInsertArgs → TracepointTool
  trace_start trace_stop trace_status : TracepointTool
  trace_save : TraceSaveArgs → TracepointTool
  trace_list_variables : TracepointTool
  trace_define_variable : TraceDefineVariableArgs → TracepointTool
  trace_find : TraceFindArgs → TracepointTool
  trace_frame_collected : TraceFrameCollectedArgs → TracepointTool

-- The parameters of `match args.mode { .. }`.
abbrev pub find_parameters : TraceFindMode → List Bytes
find_parameters TraceFindMode.none = bytes "none" ∷ []
find_parameters (frame_number n) = bytes "frame-number" ∷ to_string n ∷ []
find_parameters (tracepoint_number n) = bytes "tracepoint-number" ∷ to_string n ∷ []
find_parameters (pc address) = bytes "pc" ∷ address ∷ []
find_parameters (pc_inside_range start end) = bytes "pc-inside-range" ∷ start ∷ end ∷ []
find_parameters (pc_outside_range start end) = bytes "pc-outside-range" ∷ start ∷ end ∷ []
find_parameters (line location) = bytes "line" ∷ location ∷ []

abbrev pub registers_shown : Option RegisterFormat → Option Bytes
registers_shown none = none
registers_shown (some rf) = some (register_format_arg rf)

unfoldable pub tracepoint_command : TracepointTool → MiCommand
unfolding parameter option
tracepoint_command (trace_insert args) =
    parameter (option (command (bytes "break-insert")) (bytes "a")) args.location
tracepoint_command trace_start = command (bytes "trace-start")
tracepoint_command trace_stop = command (bytes "trace-stop")
tracepoint_command trace_status = command (bytes "trace-status")
tracepoint_command (trace_save args) =
    parameter
      (option_if args.ctf (bytes "ctf")
        (option_if args.remote (bytes "r") (command (bytes "trace-save"))))
      args.filename
tracepoint_command trace_list_variables = command (bytes "trace-list-variables")
tracepoint_command (trace_define_variable args) =
    parameter_some args.value (parameter (command (bytes "trace-define-variable")) args.name)
tracepoint_command (trace_find args) =
    parameter_each (find_parameters args.mode) (command (bytes "trace-find"))
tracepoint_command (trace_frame_collected args) =
    option_if args.memory_contents (bytes "memory-contents") (
      option_some (bytes "registers-format") (registers_shown args.registers_format) (
        option_some (bytes "comp-print-values") (values_shown args.comp_print_values) (
          option_some (bytes "var-print-values") (values_shown args.var_print_values)
            (command (bytes "trace-frame-collected")))))
