-- ===== src/Protocol/Event.antt =====
-- crates/framewalk-mi-protocol/src/{command,event,error,version}.rs: what the connection emits.
use framewalk.Prelude.{Option, Bytes}
use framewalk.Codec.Ast.{Token, Results, Record}
use framewalk.Codec.Error.{CodecError}
use framewalk.Protocol.State.Threads.{ThreadId}
use framewalk.Protocol.State.Frames.{Frame}
use framewalk.Protocol.State.Target.{StoppedReason}

-- `CommandHandle` wraps the token.
abbrev pub CommandHandle : Type 0
CommandHandle = Token

pub data CommandOutcome : Type 0 where
  done : Results → CommandOutcome
  running : CommandOutcome
  connected : Results → CommandOutcome
  error : Bytes → Option Bytes → CommandOutcome
  exit : CommandOutcome

pub record ParseFailure : Type 0 where
  pub error : CodecError
  pub raw_line : Bytes

pub record StoppedEvent : Type 0 where
  pub reason : Option StoppedReason
  pub thread : Option ThreadId
  pub frame : Option Frame
  pub raw : Results

-- `RunningEvent` is its thread.
pub record NotifyEvent : Type 0 where
  pub class : Bytes
  pub results : Results

pub data Event : Type 0 where
  command_completed : CommandHandle → CommandOutcome → Event
  stopped : StoppedEvent → Event
  running : Option ThreadId → Event
  notify : NotifyEvent → Event
  status : NotifyEvent → Event
  console : Bytes → Event
  target_output : Bytes → Event
  log : Bytes → Event
  group_closed : Event
  unknown : Record → Event
  parse_error : ParseFailure → Event

pub data ProtocolError : Type 0 where
  invalid_command buffer_overflow invariant_violation : ProtocolError

pub data MiVersion : Type 0 where
  unknown mi2 mi3 : MiVersion
