-- ===== src/Mcp/Tools/Environment.antt =====
-- crates/framewalk-mcp/src/tools/environment.rs.
use framewalk.Prelude.{none, some, if◌then◌else◌, bytes}
use framewalk.Codec.Command.{MiCommand, command, parameter}
use framewalk.Mcp.Types.Session.{
  SetArgsArgs, SetCwdArgs, SetInferiorTtyArgs, EnvironmentDirectoryArgs, EnvironmentPathArgs,
  FilePathArgs, ListSourceFilesArgs, ListSharedLibrariesArgs, FilePutArgs, FileGetArgs,
  FileDeleteArgs, InfoMiCommandArgs, GdbSetArgs, GdbShowArgs, ListThreadGroupsArgs, InfoOsArgs,
  RemoveInferiorArgs, InfoAdaExceptionsArgs, EnableTimingsArgs, CompleteArgs,
}
use framewalk.Mcp.Tools.{option_if, option_some, parameter_some, parameter_each}

pub data ContextCoreTool : Type 0 where
  set_args : SetArgsArgs → ContextCoreTool
  set_cwd : SetCwdArgs → ContextCoreTool
  show_cwd : ContextCoreTool

unfoldable pub context_core_command : ContextCoreTool → MiCommand
unfolding parameter
context_core_command (set_args args) = parameter (command (bytes "exec-arguments")) args.args
context_core_command (set_cwd args) = parameter (command (bytes "environment-cd")) args.directory
context_core_command show_cwd = command (bytes "environment-pwd")

pub data ContextExtendedTool : Type 0 where
  set_inferior_tty : SetInferiorTtyArgs → ContextExtendedTool
  show_inferior_tty : ContextExtendedTool
  environment_directory : EnvironmentDirectoryArgs → ContextExtendedTool
  environment_path : EnvironmentPathArgs → ContextExtendedTool

unfoldable pub context_extended_command : ContextExtendedTool → MiCommand
unfolding parameter
context_extended_command (set_inferior_tty args) =
    parameter (command (bytes "inferior-tty-set")) args.tty
context_extended_command show_inferior_tty = command (bytes "inferior-tty-show")
context_extended_command (environment_directory args) =
    parameter_each args.directories
      (option_if args.reset (bytes "r") (command (bytes "environment-directory")))
context_extended_command (environment_path args) =
    parameter_each args.directories
      (option_if args.reset (bytes "r") (command (bytes "environment-path")))

pub data FileTool : Type 0 where
  exec_file symbol_file : FilePathArgs → FileTool
  list_source_files : ListSourceFilesArgs → FileTool
  list_shared_libraries : ListSharedLibrariesArgs → FileTool
  list_exec_source_file : FileTool

unfoldable pub file_command : FileTool → MiCommand
unfolding parameter
file_command (exec_file args) = parameter (command (bytes "file-exec-file")) args.path
file_command (symbol_file args) = parameter (command (bytes "file-symbol-file")) args.path
file_command (list_source_files args) = parameter_some args.regexp (
    option_if args.group_by_objfile (bytes "group-by-objfile")
      (command (bytes "file-list-exec-source-files")))
file_command (list_shared_libraries args) =
    parameter_some args.regexp (command (bytes "file-list-shared-libraries"))
file_command list_exec_source_file = command (bytes "file-list-exec-source-file")

pub data TargetTool : Type 0 where
  target_download target_disconnect target_flash_erase : TargetTool

unfoldable pub target_command : TargetTool → MiCommand
target_command target_download = command (bytes "target-download")
target_command target_disconnect = command (bytes "target-disconnect")
target_command target_flash_erase = command (bytes "target-flash-erase")

pub data FileTransferTool : Type 0 where
  target_file_put : FilePutArgs → FileTransferTool
  target_file_get : FileGetArgs → FileTransferTool
  target_file_delete : FileDeleteArgs → FileTransferTool

unfoldable pub file_transfer_command : FileTransferTool → MiCommand
unfolding parameter
file_transfer_command (target_file_put args) =
    parameter (parameter (command (bytes "target-file-put")) args.host_file) args.target_file
file_transfer_command (target_file_get args) =
    parameter (parameter (command (bytes "target-file-get")) args.target_file) args.host_file
file_transfer_command (target_file_delete args) =
    parameter (command (bytes "target-file-delete")) args.target_file

pub data SupportCoreTool : Type 0 where
  list_features list_target_features : SupportCoreTool

unfoldable pub support_core_command : SupportCoreTool → MiCommand
support_core_command list_features = command (bytes "list-features")
support_core_command list_target_features = command (bytes "list-target-features")

pub data SupportExtendedTool : Type 0 where
  info_mi_command : InfoMiCommandArgs → SupportExtendedTool
  gdb_set : GdbSetArgs → SupportExtendedTool
  gdb_show : GdbShowArgs → SupportExtendedTool

unfoldable pub support_extended_command : SupportExtendedTool → MiCommand
unfolding parameter
support_extended_command (info_mi_command args) =
    parameter (command (bytes "info-gdb-mi-command")) args.command
support_extended_command (gdb_set args) = parameter (command (bytes "gdb-set")) args.variable
support_extended_command (gdb_show args) = parameter (command (bytes "gdb-show")) args.variable

pub data MiscTool : Type 0 where
  list_thread_groups : ListThreadGroupsArgs → MiscTool
  info_os : InfoOsArgs → MiscTool
  add_inferior : MiscTool
  remove_inferior : RemoveInferiorArgs → MiscTool
  thread_list_ids ada_task_info : MiscTool
  info_ada_exceptions : InfoAdaExceptionsArgs → MiscTool
  enable_timings : EnableTimingsArgs → MiscTool
  complete : CompleteArgs → MiscTool

unfoldable pub misc_command : MiscTool → MiCommand
unfolding parameter
misc_command (list_thread_groups args) = parameter_each args.groups (
    option_some (bytes "recurse") (if args.recurse then some (bytes "1") else none)
      (option_if args.available (bytes "available") (command (bytes "list-thread-groups"))))
misc_command (info_os args) = parameter_some args.info_type (command (bytes "info-os"))
misc_command add_inferior = command (bytes "add-inferior")
misc_command (remove_inferior args) = parameter (command (bytes "remove-inferior")) args.inferior_id
misc_command thread_list_ids = command (bytes "thread-list-ids")
misc_command ada_task_info = command (bytes "ada-task-info")
misc_command (info_ada_exceptions args) =
    parameter_some args.regexp (command (bytes "info-ada-exceptions"))
misc_command (enable_timings args) =
    parameter (command (bytes "enable-timings")) (if args.enable then bytes "yes" else bytes "no")
misc_command (complete args) = parameter (command (bytes "complete")) args.command
