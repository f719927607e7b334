-- ===== src/Mcp/Tools/Guarded/Data.antt =====
-- What the guard on raw commands says of the tools of variables.rs, environment.rs, symbols.rs and trace.rs.
use framewalk.Prelude.{◌≡◌, refl}
use framewalk.Codec.Command.{parameter, option, option_with}
use framewalk.Mcp.RawGuard.{
  guarded, permitted, rejected, unknown_command_family, validate_raw_mi_command,
}
use framewalk.Mcp.Tools.Variables.{
  VariablesCoreTool, VariablesExtendedTool, DataCoreTool, DataExtendedTool, variables_core_command,
  variables_extended_command, data_core_command, data_extended_command, inspect, watch_create,
  watch_list, watch_delete, var_list_children, var_evaluate_expression, var_assign, var_set_format,
  var_show_format, var_info_num_children, var_info_type, var_info_expression,
  var_info_path_expression, var_show_attributes, var_set_frozen, var_set_update_range,
  var_set_visualizer, enable_pretty_printing, read_memory, disassemble, list_register_names,
  read_registers, list_changed_registers, write_memory, read_memory_deprecated,
}
use framewalk.Mcp.Tools.Environment.{
  ContextCoreTool, ContextExtendedTool, FileTool, TargetTool, FileTransferTool, SupportCoreTool,
  SupportExtendedTool, MiscTool, context_core_command, context_extended_command, file_command,
  target_command, file_transfer_command, support_core_command, support_extended_command,
  misc_command, set_args, set_cwd, show_cwd, set_inferior_tty, show_inferior_tty,
  environment_directory, environment_path, exec_file, symbol_file, list_source_files,
  list_shared_libraries, list_exec_source_file, target_download, target_disconnect,
  target_flash_erase, target_file_put, target_file_get, target_file_delete, list_features,
  list_target_features, info_mi_command, gdb_set, gdb_show, list_thread_groups, info_os,
  add_inferior, remove_inferior, thread_list_ids, ada_task_info, info_ada_exceptions,
  enable_timings, complete,
}
use framewalk.Mcp.Tools.Symbols.{
  SymbolCoreTool, SymbolExtendedTool, symbol_core_command, symbol_extended_command,
  symbol_info_functions, symbol_info_types, symbol_info_variables, symbol_info_modules,
  symbol_info_module_functions, symbol_info_module_variables, symbol_list_lines,
}
use framewalk.Mcp.Tools.Trace.{
  CatchpointTool, TracepointTool, catchpoint_command, tracepoint_command, catch_load, catch_unload,
  catch_assert, catch_exception, catch_handlers, catch_throw, catch_rethrow, catch_catch,
  trace_insert, trace_start, trace_stop, trace_status, trace_save, trace_list_variables,
  trace_define_variable, trace_find, trace_frame_collected,
}

pub guarded-variables_core_command :
    (tool : VariablesCoreTool) → guarded (variables_core_command tool) ≡ permitted tt
unfolding variables_core_command validate_raw_mi_command parameter option option_with
guarded-variables_core_command (inspect args) = refl
guarded-variables_core_command (watch_create args) = refl
guarded-variables_core_command watch_list = refl
guarded-variables_core_command (watch_delete args) = refl
guarded-variables_core_command (var_list_children args) = refl
guarded-variables_core_command (var_evaluate_expression args) = refl

pub guarded-variables_extended_command :
    (tool : VariablesExtendedTool) → guarded (variables_extended_command tool) ≡ permitted tt
unfolding variables_extended_command validate_raw_mi_command parameter option option_with
guarded-variables_extended_command (var_assign args) = refl
guarded-variables_extended_command (var_set_format args) = refl
guarded-variables_extended_command (var_show_format args) = refl
guarded-variables_extended_command (var_info_num_children args) = refl
guarded-variables_extended_command (var_info_type args) = refl
guarded-variables_extended_command (var_info_expression args) = refl
guarded-variables_extended_command (var_info_path_expression args) = refl
guarded-variables_extended_command (var_show_attributes args) = refl
guarded-variables_extended_command (var_set_frozen args) = refl
guarded-variables_extended_command (var_set_update_range args) = refl
guarded-variables_extended_command (var_set_visualizer args) = refl
guarded-variables_extended_command enable_pretty_printing = refl

pub guarded-data_core_command :
    (tool : DataCoreTool) → guarded (data_core_command tool) ≡ permitted tt
unfolding data_core_command validate_raw_mi_command parameter option option_with
guarded-data_core_command (read_memory args) = refl
guarded-data_core_command (disassemble args) = refl
guarded-data_core_command (list_register_names args) = refl
guarded-data_core_command (read_registers args) = refl
guarded-data_core_command list_changed_registers = refl

pub guarded-data_extended_command :
    (tool : DataExtendedTool) → guarded (data_extended_command tool) ≡ permitted tt
unfolding data_extended_command validate_raw_mi_command parameter option option_with
guarded-data_extended_command (write_memory args) = refl
guarded-data_extended_command (read_memory_deprecated args) = refl

pub guarded-context_core_command :
    (tool : ContextCoreTool) → guarded (context_core_command tool) ≡ permitted tt
unfolding context_core_command validate_raw_mi_command parameter option option_with
guarded-context_core_command (set_args args) = refl
guarded-context_core_command (set_cwd args) = refl
guarded-context_core_command show_cwd = refl

pub guarded-context_extended_command :
    (tool : ContextExtendedTool) → guarded (context_extended_command tool) ≡ permitted tt
unfolding context_extended_command validate_raw_mi_command parameter option option_with
guarded-context_extended_command (set_inferior_tty args) = refl
guarded-context_extended_command show_inferior_tty = refl
guarded-context_extended_command (environment_directory args) = refl
guarded-context_extended_command (environment_path args) = refl

pub guarded-file_command : (tool : FileTool) → guarded (file_command tool) ≡ permitted tt
unfolding file_command validate_raw_mi_command parameter option option_with
guarded-file_command (exec_file args) = refl
guarded-file_command (symbol_file args) = refl
guarded-file_command (list_source_files args) = refl
guarded-file_command (list_shared_libraries args) = refl
guarded-file_command list_exec_source_file = refl

pub guarded-target_command : (tool : TargetTool) → guarded (target_command tool) ≡ permitted tt
unfolding target_command validate_raw_mi_command parameter option option_with
guarded-target_command target_download = refl
guarded-target_command target_disconnect = refl
guarded-target_command target_flash_erase = refl

pub guarded-file_transfer_command :
    (tool : FileTransferTool)
    → guarded (file_transfer_command tool) ≡ rejected unknown_command_family
unfolding file_transfer_command validate_raw_mi_command parameter option option_with
guarded-file_transfer_command (target_file_put args) = refl
guarded-file_transfer_command (target_file_get args) = refl
guarded-file_transfer_command (target_file_delete args) = refl

pub guarded-support_core_command :
    (tool : SupportCoreTool) → guarded (support_core_command tool) ≡ permitted tt
unfolding support_core_command validate_raw_mi_command parameter option option_with
guarded-support_core_command list_features = refl
guarded-support_core_command list_target_features = refl

pub guarded-support_extended_command :
    (tool : SupportExtendedTool) → guarded (support_extended_command tool) ≡ permitted tt
unfolding support_extended_command validate_raw_mi_command parameter option option_with
guarded-support_extended_command (info_mi_command args) = refl
guarded-support_extended_command (gdb_set args) = refl
guarded-support_extended_command (gdb_show args) = refl

pub guarded-misc_command : (tool : MiscTool) → guarded (misc_command tool) ≡ permitted tt
unfolding misc_command validate_raw_mi_command parameter option option_with
guarded-misc_command (list_thread_groups args) = refl
guarded-misc_command (info_os args) = refl
guarded-misc_command add_inferior = refl
guarded-misc_command (remove_inferior args) = refl
guarded-misc_command thread_list_ids = refl
guarded-misc_command ada_task_info = refl
guarded-misc_command (info_ada_exceptions args) = refl
guarded-misc_command (enable_timings args) = refl
guarded-misc_command (complete args) = refl

pub guarded-symbol_core_command :
    (tool : SymbolCoreTool) → guarded (symbol_core_command tool) ≡ permitted tt
unfolding symbol_core_command validate_raw_mi_command parameter option option_with
guarded-symbol_core_command (symbol_info_functions args) = refl
guarded-symbol_core_command (symbol_info_types args) = refl
guarded-symbol_core_command (symbol_info_variables args) = refl

pub guarded-symbol_extended_command :
    (tool : SymbolExtendedTool) → guarded (symbol_extended_command tool) ≡ permitted tt
unfolding symbol_extended_command validate_raw_mi_command parameter option option_with
guarded-symbol_extended_command (symbol_info_modules args) = refl
guarded-symbol_extended_command (symbol_info_module_functions args) = refl
guarded-symbol_extended_command (symbol_info_module_variables args) = refl
guarded-symbol_extended_command (symbol_list_lines args) = refl

pub guarded-catchpoint_command :
    (tool : CatchpointTool) → guarded (catchpoint_command tool) ≡ permitted tt
unfolding catchpoint_command validate_raw_mi_command parameter option option_with
guarded-catchpoint_command (catch_load args) = refl
guarded-catchpoint_command (catch_unload args) = refl
guarded-catchpoint_command (catch_assert args) = refl
guarded-catchpoint_command (catch_exception args) = refl
guarded-catchpoint_command (catch_handlers args) = refl
guarded-catchpoint_command (catch_throw args) = refl
guarded-catchpoint_command (catch_rethrow args) = refl
guarded-catchpoint_command (catch_catch args) = refl

pub guarded-tracepoint_command :
    (tool : TracepointTool) → guarded (tracepoint_command tool) ≡ permitted tt
unfolding tracepoint_command validate_raw_mi_command parameter option option_with
guarded-tracepoint_command (trace_insert args) = refl
guarded-tracepoint_command trace_start = refl
guarded-tracepoint_command trace_stop = refl
guarded-tracepoint_command trace_status = refl
guarded-tracepoint_command (trace_save args) = refl
guarded-tracepoint_command trace_list_variables = refl
guarded-tracepoint_command (trace_define_variable args) = refl
guarded-tracepoint_command (trace_find args) = refl
guarded-tracepoint_command (trace_frame_collected args) = refl
