-- ===== src/Mcp/Tools/Lines/Data.antt =====
-- No newline in the operation and the option names, for the tools of variables.rs, environment.rs, symbols.rs and trace.rs.
use framewalk.Prelude.{refl, arith}
use framewalk.Codec.Command.{parameter, option, option_with}
use framewalk.Codec.Encode.Lines.{IsNamed}
use framewalk.Mcp.Tools.Variables.{
  VariablesCoreTool, VariablesExtendedTool, DataCoreTool, DataExtendedTool, variables_core_command,
  variables_extended_command, data_core_command, data_extended_command, inspect, watch_create,
  watch_list, watch_delete, var_list_children, var_evaluate_expression, var_assign, var_set_format,
  var_show_format, var_info_num_children, var_info_type, var_info_expression,
  var_info_path_expression, var_show_attributes, var_set_frozen, var_set_update_range,
  var_set_visualizer, enable_pretty_printing, read_memory, disassemble, list_register_names,
  read_registers, list_changed_registers, write_memory, read_memory_deprecated,
}
use framewalk.Mcp.Tools.Environment.{
  ContextCoreTool, ContextExtendedTool, FileTool, TargetTool, FileTransferTool, SupportCoreTool,
  SupportExtendedTool, MiscTool, context_core_command, context_extended_command, file_command,
  target_command, file_transfer_command, support_core_command, support_extended_command,
  misc_command, set_args, set_cwd, show_cwd, set_inferior_tty, show_inferior_tty,
  environment_directory, environment_path, exec_file, symbol_file, list_source_files,
  list_shared_libraries, list_exec_source_file, target_download, target_disconnect,
  target_flash_erase, target_file_put, target_file_get, target_file_delete, list_features,
  list_target_features, info_mi_command, gdb_set, gdb_show, list_thread_groups, info_os,
  add_inferior, remove_inferior, thread_list_ids, ada_task_info, info_ada_exceptions,
  enable_timings, complete,
}
use framewalk.Mcp.Tools.Symbols.{
  SymbolCoreTool, SymbolExtendedTool, symbol_core_command, symbol_extended_command,
  symbol_info_functions, symbol_info_types, symbol_info_variables, symbol_info_modules,
  symbol_info_module_functions, symbol_info_module_variables, symbol_list_lines,
}
use framewalk.Mcp.Tools.Trace.{
  CatchpointTool, TracepointTool, catchpoint_command, tracepoint_command, catch_load, catch_unload,
  catch_assert, catch_exception, catch_handlers, catch_throw, catch_rethrow, catch_catch,
  trace_insert, trace_start, trace_stop, trace_status, trace_save, trace_list_variables,
  trace_define_variable, trace_find, trace_frame_collected,
}

pub variables_core_command-IsNamed :
    (tool : VariablesCoreTool) → IsNamed (variables_core_command tool)
unfolding variables_core_command parameter option option_with
variables_core_command-IsNamed (inspect args) = (refl, refl)
variables_core_command-IsNamed (watch_create args) = (refl, refl)
variables_core_command-IsNamed watch_list = (refl, refl)
variables_core_command-IsNamed (watch_delete args) = (refl, refl)
variables_core_command-IsNamed (var_list_children args) = (refl, refl)
variables_core_command-IsNamed (var_evaluate_expression args) = (refl, refl)

pub variables_extended_command-IsNamed :
    (tool : VariablesExtendedTool) → IsNamed (variables_extended_command tool)
unfolding variables_extended_command parameter option option_with
variables_extended_command-IsNamed (var_assign args) = (refl, refl)
variables_extended_command-IsNamed (var_set_format args) = (refl, refl)
variables_extended_command-IsNamed (var_show_format args) = (refl, refl)
variables_extended_command-IsNamed (var_info_num_children args) = (refl, refl)
variables_extended_command-IsNamed (var_info_type args) = (refl, refl)
variables_extended_command-IsNamed (var_info_expression args) = (refl, refl)
variables_extended_command-IsNamed (var_info_path_expression args) = (refl, refl)
variables_extended_command-IsNamed (var_show_attributes args) = (refl, refl)
variables_extended_command-IsNamed (var_set_frozen args) = (refl, refl)
variables_extended_command-IsNamed (var_set_update_range args) = (refl, refl)
variables_extended_command-IsNamed (var_set_visualizer args) = (refl, refl)
variables_extended_command-IsNamed enable_pretty_printing = (refl, refl)

pub data_core_command-IsNamed : (tool : DataCoreTool) → IsNamed (data_core_command tool)
unfolding data_core_command parameter option option_with
data_core_command-IsNamed (read_memory args) = (refl, ground arith)
data_core_command-IsNamed (disassemble args) = (refl, ground arith)
data_core_command-IsNamed (list_register_names args) = (refl, refl)
data_core_command-IsNamed (read_registers args) = (refl, refl)
data_core_command-IsNamed list_changed_registers = (refl, refl)

pub data_extended_command-IsNamed : (tool : DataExtendedTool) → IsNamed (data_extended_command tool)
unfolding data_extended_command parameter option option_with
data_extended_command-IsNamed (write_memory args) = (refl, refl)
data_extended_command-IsNamed (read_memory_deprecated args) = (refl, ground arith)

pub context_core_command-IsNamed : (tool : ContextCoreTool) → IsNamed (context_core_command tool)
unfolding context_core_command parameter option option_with
context_core_command-IsNamed (set_args args) = (refl, refl)
context_core_command-IsNamed (set_cwd args) = (refl, refl)
context_core_command-IsNamed show_cwd = (refl, refl)

pub context_extended_command-IsNamed :
    (tool : ContextExtendedTool) → IsNamed (context_extended_command tool)
unfolding context_extended_command parameter option option_with
context_extended_command-IsNamed (set_inferior_tty args) = (refl, refl)
context_extended_command-IsNamed show_inferior_tty = (refl, refl)
context_extended_command-IsNamed (environment_directory args) = (refl, ground arith)
context_extended_command-IsNamed (environment_path args) = (refl, ground arith)

pub file_command-IsNamed : (tool : FileTool) → IsNamed (file_command tool)
unfolding file_command parameter option option_with
file_command-IsNamed (exec_file args) = (refl, refl)
file_command-IsNamed (symbol_file args) = (refl, refl)
file_command-IsNamed (list_source_files args) = (refl, ground arith)
file_command-IsNamed (list_shared_libraries args) = (refl, refl)
file_command-IsNamed list_exec_source_file = (refl, refl)

pub target_command-IsNamed : (tool : TargetTool) → IsNamed (target_command tool)
unfolding target_command parameter option option_with
target_command-IsNamed target_download = (refl, refl)
target_command-IsNamed target_disconnect = (refl, refl)
target_command-IsNamed target_flash_erase = (refl, refl)

pub file_transfer_command-IsNamed : (tool : FileTransferTool) → IsNamed (file_transfer_command tool)
unfolding file_transfer_command parameter option option_with
file_transfer_command-IsNamed (target_file_put args) = (refl, refl)
file_transfer_command-IsNamed (target_file_get args) = (refl, refl)
file_transfer_command-IsNamed (target_file_delete args) = (refl, refl)

pub support_core_command-IsNamed : (tool : SupportCoreTool) → IsNamed (support_core_command tool)
unfolding support_core_command parameter option option_with
support_core_command-IsNamed list_features = (refl, refl)
support_core_command-IsNamed list_target_features = (refl, refl)

pub support_extended_command-IsNamed :
    (tool : SupportExtendedTool) → IsNamed (support_extended_command tool)
unfolding support_extended_command parameter option option_with
support_extended_command-IsNamed (info_mi_command args) = (refl, refl)
support_extended_command-IsNamed (gdb_set args) = (refl, refl)
support_extended_command-IsNamed (gdb_show args) = (refl, refl)

pub misc_command-IsNamed : (tool : MiscTool) → IsNamed (misc_command tool)
unfolding misc_command parameter option option_with
misc_command-IsNamed (list_thread_groups args) = (refl, ground arith)
misc_command-IsNamed (info_os args) = (refl, refl)
misc_command-IsNamed add_inferior = (refl, refl)
misc_command-IsNamed (remove_inferior args) = (refl, refl)
misc_command-IsNamed thread_list_ids = (refl, refl)
misc_command-IsNamed ada_task_info = (refl, refl)
misc_command-IsNamed (info_ada_exceptions args) = (refl, refl)
misc_command-IsNamed (enable_timings args) = (refl, refl)
misc_command-IsNamed (complete args) = (refl, refl)

pub symbol_core_command-IsNamed : (tool : SymbolCoreTool) → IsNamed (symbol_core_command tool)
unfolding symbol_core_command parameter option option_with
symbol_core_command-IsNamed (symbol_info_functions args) = (refl, ground arith)
symbol_core_command-IsNamed (symbol_info_types args) = (refl, ground arith)
symbol_core_command-IsNamed (symbol_info_variables args) = (refl, ground arith)

pub symbol_extended_command-IsNamed :
    (tool : SymbolExtendedTool) → IsNamed (symbol_extended_command tool)
unfolding symbol_extended_command parameter option option_with
symbol_extended_command-IsNamed (symbol_info_modules args) = (refl, ground arith)
symbol_extended_command-IsNamed (symbol_info_module_functions args) = (refl, ground arith)
symbol_extended_command-IsNamed (symbol_info_module_variables args) = (refl, ground arith)
symbol_extended_command-IsNamed (symbol_list_lines args) = (refl, refl)

pub catchpoint_command-IsNamed : (tool : CatchpointTool) → IsNamed (catchpoint_command tool)
unfolding catchpoint_command parameter option option_with
catchpoint_command-IsNamed (catch_load args) = (refl, ground arith)
catchpoint_command-IsNamed (catch_unload args) = (refl, ground arith)
catchpoint_command-IsNamed (catch_assert args) = (refl, ground arith)
catchpoint_command-IsNamed (catch_exception args) = (refl, ground arith)
catchpoint_command-IsNamed (catch_handlers args) = (refl, ground arith)
catchpoint_command-IsNamed (catch_throw args) = (refl, ground arith)
catchpoint_command-IsNamed (catch_rethrow args) = (refl, ground arith)
catchpoint_command-IsNamed (catch_catch args) = (refl, ground arith)

pub tracepoint_command-IsNamed : (tool : TracepointTool) → IsNamed (tracepoint_command tool)
unfolding tracepoint_command parameter option option_with
tracepoint_command-IsNamed (trace_insert args) = (refl, refl)
tracepoint_command-IsNamed trace_start = (refl, refl)
tracepoint_command-IsNamed trace_stop = (refl, refl)
tracepoint_command-IsNamed trace_status = (refl, refl)
tracepoint_command-IsNamed (trace_save args) = (refl, ground arith)
tracepoint_command-IsNamed trace_list_variables = (refl, refl)
tracepoint_command-IsNamed (trace_define_variable args) = (refl, refl)
tracepoint_command-IsNamed (trace_find args) = (refl, refl)
tracepoint_command-IsNamed (trace_frame_collected args) = (refl, ground arith)
