-- ===== src/Mcp/Tools/Breakpoints.antt =====
-- crates/framewalk-mcp/src/tools/breakpoints.rs.
use framewalk.Prelude.{List, [], ◌∷◌, ◌++◌, map, bytes, Bytes}
use framewalk.Codec.Command.{CommandOption, MiCommand, command, parameter}
use framewalk.Protocol.MiTypes.{WatchType, write, read, access}
use framewalk.Mcp.Types.{
  SetBreakpointArgs, BreakpointIdArgs, SetWatchpointArgs, BreakConditionArgs, BreakAfterArgs,
  BreakCommandsArgs, BreakPasscountArgs, DprintfInsertArgs,
}
use framewalk.Mcp.Tools.{to_string, number, option_if, option_some, parameter_each}
use framewalk.Prelude.{none}

pub data BreakpointsCoreTool : Type 0 where
  set_breakpoint : SetBreakpointArgs → BreakpointsCoreTool
  list_breakpoints : BreakpointsCoreTool
  delete_breakpoint enable_breakpoint disable_breakpoint : BreakpointIdArgs → BreakpointsCoreTool
  break_condition : BreakConditionArgs → BreakpointsCoreTool
  break_after : BreakAfterArgs → BreakpointsCoreTool
  break_info : BreakpointIdArgs → BreakpointsCoreTool
  set_watchpoint : SetWatchpointArgs → BreakpointsCoreTool

-- The option of `match args.watch_type { .. }`.
abbrev pub watch_options : WatchType → List CommandOption
watch_options read = record { name = bytes "r"; value = none } ∷ []
watch_options access = record { name = bytes "a"; value = none } ∷ []
watch_options write = []

unfoldable pub breakpoints_core_command : BreakpointsCoreTool → MiCommand
unfolding parameter
breakpoints_core_command (set_breakpoint args) =
    parameter
      (option_some (bytes "c") args.condition
        (option_if args.temporary (bytes "t") (command (bytes "break-insert"))))
      args.location
breakpoints_core_command list_breakpoints = command (bytes "break-list")
breakpoints_core_command (delete_breakpoint args) =
    parameter (command (bytes "break-delete")) args.id
breakpoints_core_command (enable_breakpoint args) =
    parameter (command (bytes "break-enable")) args.id
breakpoints_core_command (disable_breakpoint args) =
    parameter (command (bytes "break-disable")) args.id
breakpoints_core_command (break_condition args) =
    parameter (parameter (command (bytes "break-condition")) args.id) args.condition
breakpoints_core_command (break_after args) =
    parameter (parameter (command (bytes "break-after")) args.id) (to_string args.count)
breakpoints_core_command (break_info args) = parameter (command (bytes "break-info")) args.id
breakpoints_core_command (set_watchpoint args) =
    parameter (record (command (bytes "break-watch")) { options = watch_options args.watch_type })
      args.expression

pub data BreakpointsExtendedTool : Type 0 where
  break_commands : BreakCommandsArgs → BreakpointsExtendedTool
  break_passcount : BreakPasscountArgs → BreakpointsExtendedTool
  dprintf_insert : DprintfInsertArgs → BreakpointsExtendedTool

-- `format!("\"{c}\"")`
abbrev pub in_quotes : Bytes → Bytes
in_quotes c = b'"' ∷ (c ++ b'"' ∷ [])

unfoldable pub breakpoints_extended_command : BreakpointsExtendedTool → MiCommand
unfolding parameter
breakpoints_extended_command (break_commands args) =
    parameter_each (map in_quotes args.commands)
      (parameter (command (bytes "break-commands")) args.id)
breakpoints_extended_command (break_passcount args) =
    parameter (parameter (command (bytes "break-passcount")) args.id) (to_string args.passcount)
breakpoints_extended_command (dprintf_insert args) = parameter_each args.args (
    parameter
      (parameter
        (option_some (bytes "p") args.thread_id (
          option_some (bytes "i") (number args.ignore_count) (
            option_some (bytes "c") args.condition
              (option_if args.temporary (bytes "t") (command (bytes "dprintf-insert"))))))
        args.location)
      args.format)
