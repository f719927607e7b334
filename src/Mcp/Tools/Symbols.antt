-- ===== src/Mcp/Tools/Symbols.antt =====
-- crates/framewalk-mcp/src/tools/symbols.rs, and the two builders of server_helpers.rs that it uses.
use framewalk.Prelude.{bytes, Bytes}
use framewalk.Codec.Command.{MiCommand, command, parameter}
use framewalk.Mcp.Types.{SymbolInfoArgs, SymbolModuleArgs, SymbolListLinesArgs}
use framewalk.Mcp.Tools.{number, option_if, option_some}

abbrev pub build_symbol_info_cmd : Bytes → SymbolInfoArgs → MiCommand
build_symbol_info_cmd operation args = option_some (bytes "max-results") (number args.max_results) (
    option_some (bytes "type") args.type_regexp (
      option_some (bytes "name") args.name
        (option_if args.include_nondebug (bytes "include-nondebug") (command operation))))

abbrev pub build_symbol_module_cmd : Bytes → SymbolModuleArgs → MiCommand
build_symbol_module_cmd operation args = option_some (bytes "type") args.type_regexp (
    option_some (bytes "name") args.name
      (option_some (bytes "module") args.module_name (command operation)))

pub data SymbolCoreTool : Type 0 where
  symbol_info_functions symbol_info_types symbol_info_variables : SymbolInfoArgs → SymbolCoreTool

unfoldable pub symbol_core_command : SymbolCoreTool → MiCommand
symbol_core_command (symbol_info_functions args) =
    build_symbol_info_cmd (bytes "symbol-info-functions") args
symbol_core_command (symbol_info_types args) =
    build_symbol_info_cmd (bytes "symbol-info-types") args
symbol_core_command (symbol_info_variables args) =
    build_symbol_info_cmd (bytes "symbol-info-variables") args

pub data SymbolExtendedTool : Type 0 where
  symbol_info_modules : SymbolInfoArgs → SymbolExtendedTool
  symbol_info_module_functions symbol_info_module_variables : SymbolModuleArgs → SymbolExtendedTool
  symbol_list_lines : SymbolListLinesArgs → SymbolExtendedTool

unfoldable pub symbol_extended_command : SymbolExtendedTool → MiCommand
unfolding parameter
symbol_extended_command (symbol_info_modules args) =
    build_symbol_info_cmd (bytes "symbol-info-modules") args
symbol_extended_command (symbol_info_module_functions args) =
    build_symbol_module_cmd (bytes "symbol-info-module-functions") args
symbol_extended_command (symbol_info_module_variables args) =
    build_symbol_module_cmd (bytes "symbol-info-module-variables") args
symbol_extended_command (symbol_list_lines args) =
    parameter (command (bytes "symbol-list-lines")) args.filename
