-- ===== src/Mcp/Tools/Variables.antt =====
-- crates/framewalk-mcp/src/tools/variables.rs.
use framewalk.Prelude.{Option, none, some, map, if◌then◌else◌, bytes, Bytes}
use framewalk.Codec.Command.{MiCommand, command, option_with, parameter}
use framewalk.Protocol.View.{ℤ}
use framewalk.Protocol.MiTypes.{
  OpcodeMode, register_format_arg, opcode_mode_arg, var_format_arg, word_format_arg,
}
use framewalk.Mcp.Types.{
  InspectArgs, WatchCreateArgs, WatchDeleteArgs, VarListChildrenArgs, VarNameArgs, VarAssignArgs,
  VarSetFormatArgs, VarSetFrozenArgs, VarSetUpdateRangeArgs, VarSetVisualizerArgs, ReadMemoryArgs,
  DisassembleArgs, RegisterNamesArgs, RegisterValuesArgs, WriteMemoryArgs, ReadMemoryDeprecatedArgs,
}
use framewalk.Mcp.Tools.{
  to_string, int_to_string, number, values_shown, option_if, option_some, parameter_some,
  parameter_each, parameter_range,
}

pub data VariablesCoreTool : Type 0 where
  inspect : InspectArgs → VariablesCoreTool
  watch_create : WatchCreateArgs → VariablesCoreTool
  watch_list : VariablesCoreTool
  watch_delete : WatchDeleteArgs → VariablesCoreTool
  var_list_children : VarListChildrenArgs → VariablesCoreTool
  var_evaluate_expression : VarNameArgs → VariablesCoreTool

unfoldable pub variables_core_command : VariablesCoreTool → MiCommand
unfolding parameter
variables_core_command (inspect args) =
    parameter (command (bytes "data-evaluate-expression")) args.expression
variables_core_command (watch_create args) =
    parameter (parameter (parameter (command (bytes "var-create")) (bytes "-")) (bytes "*"))
      args.expression
variables_core_command watch_list = parameter (command (bytes "var-update")) (bytes "*")
variables_core_command (watch_delete args) = parameter (command (bytes "var-delete")) args.name
variables_core_command (var_list_children args) = parameter_range args.from args.to (
    parameter
      (parameter_some (values_shown args.print_values) (command (bytes "var-list-children")))
      args.name)
variables_core_command (var_evaluate_expression args) =
    parameter (command (bytes "var-evaluate-expression")) args.name

pub data VariablesExtendedTool : Type 0 where
  var_assign : VarAssignArgs → VariablesExtendedTool
  var_set_format : VarSetFormatArgs → VariablesExtendedTool
  var_show_format var_info_num_children var_info_type var_info_expression :
      VarNameArgs → VariablesExtendedTool
  var_info_path_expression var_show_attributes : VarNameArgs → VariablesExtendedTool
  var_set_frozen : VarSetFrozenArgs → VariablesExtendedTool
  var_set_update_range : VarSetUpdateRangeArgs → VariablesExtendedTool
  var_set_visualizer : VarSetVisualizerArgs → VariablesExtendedTool
  enable_pretty_printing : VariablesExtendedTool

unfoldable pub variables_extended_command : VariablesExtendedTool → MiCommand
unfolding parameter
variables_extended_command (var_assign args) =
    parameter (parameter (command (bytes "var-assign")) args.name) args.expression
variables_extended_command (var_set_format args) =
    parameter (parameter (command (bytes "var-set-format")) args.name) (var_format_arg args.format)
variables_extended_command (var_show_format args) =
    parameter (command (bytes "var-show-format")) args.name
variables_extended_command (var_info_num_children args) =
    parameter (command (bytes "var-info-num-children")) args.name
variables_extended_command (var_info_type args) =
    parameter (command (bytes "var-info-type")) args.name
variables_extended_command (var_info_expression args) =
    parameter (command (bytes "var-info-expression")) args.name
variables_extended_command (var_info_path_expression args) =
    parameter (command (bytes "var-info-path-expression")) args.name
variables_extended_command (var_show_attributes args) =
    parameter (command (bytes "var-show-attributes")) args.name
variables_extended_command (var_set_frozen args) =
    parameter (parameter (command (bytes "var-set-frozen")) args.name)
      (if args.frozen then bytes "1" else bytes "0")
variables_extended_command (var_set_update_range args) =
    parameter
      (parameter (parameter (command (bytes "var-set-update-range")) args.name)
        (to_string args.from))
      (to_string args.to)
variables_extended_command (var_set_visualizer args) =
    parameter (parameter (command (bytes "var-set-visualizer")) args.name) args.visualizer
variables_extended_command enable_pretty_printing = command (bytes "enable-pretty-printing")

pub data DataCoreTool : Type 0 where
  read_memory : ReadMemoryArgs → DataCoreTool
  disassemble : DisassembleArgs → DataCoreTool
  list_register_names : RegisterNamesArgs → DataCoreTool
  read_registers : RegisterValuesArgs → DataCoreTool
  list_changed_registers : DataCoreTool

abbrev pub offset_text : Option ℤ → Option Bytes
offset_text none = none
offset_text (some offset) = some (int_to_string offset)

abbrev pub opcodes_text : Option OpcodeMode → Option Bytes
opcodes_text none = none
opcodes_text (some opcodes) = some (opcode_mode_arg opcodes)

unfoldable pub data_core_command : DataCoreTool → MiCommand
unfolding parameter option_with
data_core_command (read_memory args) =
    parameter
      (parameter
        (option_some (bytes "o") (offset_text args.offset)
          (command (bytes "data-read-memory-bytes")))
        args.address)
      (to_string args.count)
data_core_command (disassemble args) =
    parameter
      (parameter
        (option_if args.source (bytes "source") (
          option_some (bytes "opcodes") (opcodes_text args.opcodes) (
            option_with
              (option_with (command (bytes "data-disassemble")) (bytes "s") args.start_addr)
              (bytes "e") args.end_addr)))
        (bytes "--"))
      (bytes "0")
data_core_command (list_register_names args) =
    parameter_each (map to_string args.registers) (command (bytes "data-list-register-names"))
data_core_command (read_registers args) =
    parameter_each (map to_string args.registers)
      (parameter (command (bytes "data-list-register-values")) (register_format_arg args.format))
data_core_command list_changed_registers = command (bytes "data-list-changed-registers")

pub data DataExtendedTool : Type 0 where
  write_memory : WriteMemoryArgs → DataExtendedTool
  read_memory_deprecated : ReadMemoryDeprecatedArgs → DataExtendedTool

unfoldable pub data_extended_command : DataExtendedTool → MiCommand
unfolding parameter
data_extended_command (write_memory args) =
    parameter_some (number args.count)
      (parameter (parameter (command (bytes "data-write-memory-bytes")) args.address) args.contents)
data_extended_command (read_memory_deprecated args) =
    let cmd =
      option_some (bytes "o") (offset_text args.column_offset)
        (command (bytes "data-read-memory")) in
    let placed = parameter (parameter cmd args.address) (word_format_arg args.word_format) in
    parameter_some args.aschar (
      parameter (parameter (parameter placed (to_string args.word_size)) (to_string args.nr_rows))
        (to_string args.nr_cols))
