-- ===== src/Mcp/Types.antt =====
-- crates/framewalk-mcp/src/types: the arguments of the tools.
pub mod Session
use framewalk.Prelude.{ℕ, Bool, Option, List, Bytes}
use framewalk.Protocol.View.{ℤ}
use framewalk.Protocol.MiTypes.{
  PrintValues, RegisterFormat, OpcodeMode, WatchType, VarFormat, MemoryWordFormat, TraceFindMode,
}

pub record SetBreakpointArgs : Type 0 where
  pub location : Bytes
  pub condition : Option Bytes
  pub temporary : Bool

pub record BreakpointIdArgs : Type 0 where
  pub id : Bytes

pub record SetWatchpointArgs : Type 0 where
  pub expression : Bytes
  pub watch_type : WatchType

pub record BreakConditionArgs : Type 0 where
  pub id : Bytes
  pub condition : Bytes

pub record BreakAfterArgs : Type 0 where
  pub id : Bytes
  pub count : ℕ

pub record BreakCommandsArgs : Type 0 where
  pub id : Bytes
  pub commands : List Bytes

pub record BreakPasscountArgs : Type 0 where
  pub id : Bytes
  pub passcount : ℕ

pub record DprintfInsertArgs : Type 0 where
  pub location : Bytes
  pub format : Bytes
  pub args : List Bytes
  pub temporary : Bool
  pub condition : Option Bytes
  pub ignore_count : Option ℕ
  pub thread_id : Option Bytes

pub record CatchLoadUnloadArgs : Type 0 where
  pub regexp : Bytes
  pub temporary : Bool
  pub disabled : Bool

pub record CatchAdaExceptionArgs : Type 0 where
  pub condition : Option Bytes
  pub disabled : Bool
  pub temporary : Bool
  pub exception_name : Option Bytes
  pub unhandled : Bool

pub record CatchCppExceptionArgs : Type 0 where
  pub temporary : Bool
  pub regexp : Option Bytes

pub record TraceInsertArgs : Type 0 where
  pub location : Bytes

pub record TraceFindArgs : Type 0 where
  pub mode : TraceFindMode

pub record TraceDefineVariableArgs : Type 0 where
  pub name : Bytes
  pub value : Option Bytes

pub record TraceSaveArgs : Type 0 where
  pub filename : Bytes
  pub ctf : Bool
  pub remote : Bool

pub record TraceFrameCollectedArgs : Type 0 where
  pub var_print_values : Option PrintValues
  pub comp_print_values : Option PrintValues
  pub registers_format : Option RegisterFormat
  pub memory_contents : Bool

pub record InspectArgs : Type 0 where
  pub expression : Bytes

pub record WatchCreateArgs : Type 0 where
  pub expression : Bytes

pub record WatchDeleteArgs : Type 0 where
  pub name : Bytes

pub record VarNameArgs : Type 0 where
  pub name : Bytes

pub record VarListChildrenArgs : Type 0 where
  pub name : Bytes
  pub print_values : Option PrintValues
  pub from : Option ℕ
  pub to : Option ℕ

pub record VarAssignArgs : Type 0 where
  pub name : Bytes
  pub expression : Bytes

pub record VarSetFormatArgs : Type 0 where
  pub name : Bytes
  pub format : VarFormat

pub record VarSetFrozenArgs : Type 0 where
  pub name : Bytes
  pub frozen : Bool

pub record VarSetUpdateRangeArgs : Type 0 where
  pub name : Bytes
  pub from : ℕ
  pub to : ℕ

pub record VarSetVisualizerArgs : Type 0 where
  pub name : Bytes
  pub visualizer : Bytes

pub record ReadMemoryArgs : Type 0 where
  pub address : Bytes
  pub count : ℕ
  pub offset : Option ℤ

pub record WriteMemoryArgs : Type 0 where
  pub address : Bytes
  pub contents : Bytes
  pub count : Option ℕ

pub record DisassembleArgs : Type 0 where
  pub start_addr : Bytes
  pub end_addr : Bytes
  pub opcodes : Option OpcodeMode
  pub source : Bool

pub record RegisterValuesArgs : Type 0 where
  pub format : RegisterFormat
  pub registers : List ℕ

pub record RegisterNamesArgs : Type 0 where
  pub registers : List ℕ

pub record ReadMemoryDeprecatedArgs : Type 0 where
  pub address : Bytes
  pub word_format : MemoryWordFormat
  pub word_size : ℕ
  pub nr_rows : ℕ
  pub nr_cols : ℕ
  pub column_offset : Option ℤ
  pub aschar : Option Bytes

pub record SymbolInfoArgs : Type 0 where
  pub name : Option Bytes
  pub type_regexp : Option Bytes
  pub include_nondebug : Bool
  pub max_results : Option ℕ

pub record SymbolModuleArgs : Type 0 where
  pub module_name : Option Bytes
  pub name : Option Bytes
  pub type_regexp : Option Bytes

pub record SymbolListLinesArgs : Type 0 where
  pub filename : Bytes
