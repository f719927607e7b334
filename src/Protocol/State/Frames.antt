-- ===== src/Protocol/State/Frames.antt =====
-- crates/framewalk-mi-protocol/src/state/frames.rs: the current frame of each thread.
use framewalk.Prelude.{ℕ, Option, none, some, [], Bytes, bytes, Map, bytes_key, get, insert, remove}
use framewalk.Codec.Ast.{Results}
use framewalk.Protocol.View.{get_str, get_u32, get_tuple}
use framewalk.Protocol.State.Threads.{ThreadId}

pub record Frame : Type 0 where
  pub level : Option ℕ
  pub func : Option Bytes
  pub file : Option Bytes
  pub fullname : Option Bytes
  pub line : Option ℕ
  pub addr : Option Bytes

-- `Frame::from_results`
unfoldable pub from_results : Results → Frame
unfolding get_str get_u32
from_results rs = record {
  level = get_u32 rs (bytes "level");
  func = get_str rs (bytes "func");
  file = get_str rs (bytes "file");
  fullname = get_str rs (bytes "fullname");
  line = get_u32 rs (bytes "line");
  addr = get_str rs (bytes "addr");
}

abbrev pub FrameRegistry : Type 0
FrameRegistry = Map ThreadId Frame

unfoldable pub current : FrameRegistry → ThreadId → Option Frame
unfolding get
current m thread = get thread m

unfoldable pub on_stopped_frame : FrameRegistry → ThreadId → Results → FrameRegistry
unfolding get_tuple from_results insert
on_stopped_frame m thread rs = elim (get_tuple rs (bytes "frame")) [
  | none ↦ m
  | some frame ↦ insert thread (from_results frame) m
]

unfoldable pub invalidate : FrameRegistry → ThreadId → FrameRegistry
unfolding remove
invalidate m thread = remove thread m

abbrev pub clear : FrameRegistry → FrameRegistry
clear m = []
