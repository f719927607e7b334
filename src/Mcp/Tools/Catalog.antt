-- ===== src/Mcp/Tools/Catalog.antt =====
-- crates/framewalk-mcp/src/tools/mod.rs, tool_catalog.rs and server.rs: which blocks of tools a mode advertises.
use framewalk.Prelude.{ℕ, ◌%◌, Bool, true, false, ◌==◌}
use framewalk.Codec.Command.{MiCommand}
use framewalk.Mcp.Tools.Execution.{
  SessionTool, ExecutionCoreTool, ExecutionExtendedTool, ExecutionReverseTool, session_command,
  execution_core_command, execution_extended_command, execution_reverse_command,
}
use framewalk.Mcp.Tools.Breakpoints.{
  BreakpointsCoreTool, BreakpointsExtendedTool, breakpoints_core_command,
  breakpoints_extended_command,
}
use framewalk.Mcp.Tools.Inspection.{
  InspectionTool, StackCoreTool, StackExtendedTool, inspection_command, stack_core_command,
  stack_extended_command,
}
use framewalk.Mcp.Tools.Variables.{
  VariablesCoreTool, VariablesExtendedTool, DataCoreTool, DataExtendedTool, variables_core_command,
  variables_extended_command, data_core_command, data_extended_command,
}
use framewalk.Mcp.Tools.Environment.{
  ContextCoreTool, ContextExtendedTool, FileTool, TargetTool, FileTransferTool, SupportCoreTool,
  SupportExtendedTool, MiscTool, context_core_command, context_extended_command, file_command,
  target_command, file_transfer_command, support_core_command, support_extended_command,
  misc_command,
}
use framewalk.Mcp.Tools.Symbols.{
  SymbolCoreTool, SymbolExtendedTool, symbol_core_command, symbol_extended_command,
}
use framewalk.Mcp.Tools.Trace.{
  CatchpointTool, TracepointTool, catchpoint_command, tracepoint_command,
}

-- A structured tool with its arguments. The blocks operator.rs and raw.rs, whose tools do more than
-- submit one structured command, are not among them.
pub data Tool : Type 0 where
  session : SessionTool → Tool
  execution_core : ExecutionCoreTool → Tool
  execution_extended : ExecutionExtendedTool → Tool
  execution_reverse : ExecutionReverseTool → Tool
  breakpoints_core : BreakpointsCoreTool → Tool
  breakpoints_extended : BreakpointsExtendedTool → Tool
  inspection : InspectionTool → Tool
  stack_core : StackCoreTool → Tool
  stack_extended : StackExtendedTool → Tool
  variables_core : VariablesCoreTool → Tool
  variables_extended : VariablesExtendedTool → Tool
  data_core : DataCoreTool → Tool
  data_extended : DataExtendedTool → Tool
  context_core : ContextCoreTool → Tool
  context_extended : ContextExtendedTool → Tool
  file : FileTool → Tool
  target : TargetTool → Tool
  file_transfer : FileTransferTool → Tool
  support_core : SupportCoreTool → Tool
  support_extended : SupportExtendedTool → Tool
  misc : MiscTool → Tool
  symbol_core : SymbolCoreTool → Tool
  symbol_extended : SymbolExtendedTool → Tool
  catchpoint : CatchpointTool → Tool
  tracepoint : TracepointTool → Tool

unfoldable pub tool_command : Tool → MiCommand
unfolding session_command execution_core_command execution_extended_command
    execution_reverse_command breakpoints_core_command breakpoints_extended_command
    inspection_command stack_core_command stack_extended_command variables_core_command
    variables_extended_command data_core_command data_extended_command context_core_command
    context_extended_command file_command target_command file_transfer_command support_core_command
    support_extended_command misc_command symbol_core_command symbol_extended_command
    catchpoint_command tracepoint_command
tool_command (session tool) = session_command tool
tool_command (execution_core tool) = execution_core_command tool
tool_command (execution_extended tool) = execution_extended_command tool
tool_command (execution_reverse tool) = execution_reverse_command tool
tool_command (breakpoints_core tool) = breakpoints_core_command tool
tool_command (breakpoints_extended tool) = breakpoints_extended_command tool
tool_command (inspection tool) = inspection_command tool
tool_command (stack_core tool) = stack_core_command tool
tool_command (stack_extended tool) = stack_extended_command tool
tool_command (variables_core tool) = variables_core_command tool
tool_command (variables_extended tool) = variables_extended_command tool
tool_command (data_core tool) = data_core_command tool
tool_command (data_extended tool) = data_extended_command tool
tool_command (context_core tool) = context_core_command tool
tool_command (context_extended tool) = context_extended_command tool
tool_command (file tool) = file_command tool
tool_command (target tool) = target_command tool
tool_command (file_transfer tool) = file_transfer_command tool
tool_command (support_core tool) = support_core_command tool
tool_command (support_extended tool) = support_extended_command tool
tool_command (misc tool) = misc_command tool
tool_command (symbol_core tool) = symbol_core_command tool
tool_command (symbol_extended tool) = symbol_extended_command tool
tool_command (catchpoint tool) = catchpoint_command tool
tool_command (tracepoint tool) = tracepoint_command tool

abbrev pub full_only : ℕ
full_only = 1

abbrev pub full_core : ℕ
full_core = 3

-- The `profiles` of the block.
abbrev pub profiles : Tool → ℕ
profiles (session tool) = full_core
profiles (execution_core tool) = full_core
profiles (breakpoints_core tool) = full_core
profiles (inspection tool) = full_core
profiles (stack_core tool) = full_core
profiles (variables_core tool) = full_core
profiles (data_core tool) = full_core
profiles (context_core tool) = full_core
profiles (support_core tool) = full_core
profiles (symbol_core tool) = full_core
profiles _ = full_only

-- `self.profiles & FULL_CORE == FULL_CORE`; FULL_CORE is the two low bits.
abbrev pub in_core : Tool → Bool
in_core tool = profiles tool % 4 == full_core

pub data Mode : Type 0 where
  full core scheme : Mode

-- Whether the router of a mode has the tool.
abbrev pub advertised : Mode → Tool → Bool
advertised full tool = true
advertised core tool = in_core tool
advertised scheme tool = false
