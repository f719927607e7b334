-- ===== src/Mcp/Types/Session.antt =====
-- crates/framewalk-mcp/src/types: the arguments of the tools for the session, the files and the stack.
use framewalk.Prelude.{ℕ, Bool, Option, List, Bytes}
use framewalk.Protocol.MiTypes.{PrintValues}

pub record SetArgsArgs : Type 0 where
  pub args : Bytes

pub record SetCwdArgs : Type 0 where
  pub directory : Bytes

pub record SetInferiorTtyArgs : Type 0 where
  pub tty : Bytes

pub record EnvironmentPathArgs : Type 0 where
  pub directories : List Bytes
  pub reset : Bool

pub record EnvironmentDirectoryArgs : Type 0 where
  pub directories : List Bytes
  pub reset : Bool

pub record UntilArgs : Type 0 where
  pub location : Option Bytes

pub record JumpArgs : Type 0 where
  pub location : Bytes

pub record ReturnArgs : Type 0 where
  pub expression : Option Bytes

pub record ReverseStepArgs : Type 0 where
  pub reverse : Bool

pub record FilePathArgs : Type 0 where
  pub path : Bytes

pub record ListSourceFilesArgs : Type 0 where
  pub group_by_objfile : Bool
  pub regexp : Option Bytes

pub record ListSharedLibrariesArgs : Type 0 where
  pub regexp : Option Bytes

pub record FilePutArgs : Type 0 where
  pub host_file : Bytes
  pub target_file : Bytes

pub record FileGetArgs : Type 0 where
  pub target_file : Bytes
  pub host_file : Bytes

pub record FileDeleteArgs : Type 0 where
  pub target_file : Bytes

pub record ListThreadGroupsArgs : Type 0 where
  pub available : Bool
  pub recurse : Bool
  pub groups : List Bytes

pub record InfoOsArgs : Type 0 where
  pub info_type : Option Bytes

pub record RemoveInferiorArgs : Type 0 where
  pub inferior_id : Bytes

pub record CompleteArgs : Type 0 where
  pub command : Bytes

pub record EnableTimingsArgs : Type 0 where
  pub enable : Bool

pub record InfoAdaExceptionsArgs : Type 0 where
  pub regexp : Option Bytes

pub record MiRawCommandArgs : Type 0 where
  pub command : Bytes

pub record DrainEventsArgs : Type 0 where
  pub cursor : Option ℕ

pub record SelectFrameArgs : Type 0 where
  pub level : ℕ

pub record BacktraceArgs : Type 0 where
  pub limit : Option ℕ

pub record StackListArgs : Type 0 where
  pub print_values : PrintValues
  pub skip_unavailable : Bool

pub record StackListArgumentsArgs : Type 0 where
  pub print_values : PrintValues
  pub skip_unavailable : Bool
  pub low_frame : Option ℕ
  pub high_frame : Option ℕ

pub record StackDepthArgs : Type 0 where
  pub max_depth : Option ℕ

pub record GdbSetArgs : Type 0 where
  pub variable : Bytes

pub record GdbShowArgs : Type 0 where
  pub variable : Bytes

pub record InfoMiCommandArgs : Type 0 where
  pub command : Bytes

pub record AttachArgs : Type 0 where
  pub pid : Bytes

pub record TargetSelectArgs : Type 0 where
  pub transport : Bytes
  pub parameters : Bytes

pub record ThreadSelectArgs : Type 0 where
  pub thread_id : Bytes

pub record ThreadInfoArgs : Type 0 where
  pub thread_id : Option Bytes
