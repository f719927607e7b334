-- ===== src/Transport/Handle.antt =====
-- crates/framewalk-mi-transport/src/handle.rs: what a call of `submit` does between its awaits.
pub mod Outbound
use framewalk.Prelude.{
  ℕ, Bool, true, false, Option, none, some, List, [], ◌∷◌, if◌then◌else◌, length, Bytes, nat_key,
  get, insert, remove,
}
use framewalk.Codec.Command.{MiCommand}
use framewalk.Protocol.Event.{CommandHandle, Event, StoppedEvent, MiVersion}
use framewalk.Protocol.State.Target.{TargetState, is_stopped}
use framewalk.Protocol.State.Threads.{ThreadRegistry}
use framewalk.Protocol.State.Frames.{FrameRegistry}
use framewalk.Protocol.State.Breakpoints.{BreakpointRegistry}
use framewalk.Protocol.State.VarObjs.{VarObjRegistry}
use framewalk.Protocol.State.Features.{FeatureSet}
use framewalk.Protocol.Connection.{
  Connection, submit, submit_raw, outbound, Consumed, consumed, rejected, consume_outbound,
}
use framewalk.Transport.Journal.{EventSeq}
use framewalk.Transport.Shared.{
  Effect, dropped, SharedState, record_event, latest_stopped, shared_stop_after, event_cursor,
}

-- The argument of `submit` or of `submit_raw`.
pub data Request : Type 0 where
  structured : MiCommand → Request
  raw : Bytes → Request

abbrev pub drained_by : Bytes → Consumed → Option (Bytes × Connection)
drained_by bytes (consumed c) = some (bytes, c)
drained_by bytes (rejected e) = none

unfoldable pub drain_outbound : Connection → Option (Bytes × Connection)
unfolding outbound consume_outbound
drain_outbound c = let bytes = outbound c in drained_by bytes (consume_outbound c (length bytes))

unfoldable pub queue_request : Connection → Request → CommandHandle × Connection
unfolding submit submit_raw
queue_request c (structured command) = submit c command
queue_request c (raw raw_line) = submit_raw c raw_line

abbrev pub with_handle :
    CommandHandle → Option (Bytes × Connection) → Option (CommandHandle × Bytes × Connection)
with_handle handle none = none
with_handle handle (some (bytes, c)) = some (handle, bytes, c)

-- The section of `submit` under the lock of the connection.
unfoldable pub submit_locked : Connection → Request → Option (CommandHandle × Bytes × Connection)
unfolding queue_request drain_outbound
submit_locked c request =
    let (handle, conn) = queue_request c request in with_handle handle (drain_outbound conn)

-- One look of the loop of `next_stop_after`.
pub data StopCheck : Type 0 where
  stop_found : EventSeq × StoppedEvent → StopCheck
  exited still_waiting : StopCheck

module _ {S : Type 0} where
  abbrev pub dropped_if : Option S → List (Effect S)
  dropped_if none = []
  dropped_if (some tx) = dropped tx ∷ []

  -- The map drops a sender that it replaces.
  unfoldable pub register_pending :
      SharedState S → CommandHandle → S → List (Effect S) × SharedState S
  unfolding get insert
  register_pending s handle tx =
      (dropped_if (get handle s.pending), record s { pending = insert handle tx s.pending })

  -- The error path of `send_or_rollback`.
  unfoldable pub rollback : SharedState S → CommandHandle → List (Effect S) × SharedState S
  unfolding get remove
  rollback s handle =
      (dropped_if (get handle s.pending), record s { pending = remove handle s.pending })

  unfoldable pub record_synthetic_log :
      SharedState S → Bytes → EventSeq × List (Effect S) × SharedState S
  unfolding record_event
  record_synthetic_log s text = record_event s (Event.log text)

  -- The part of `current_or_next_stop` that does not wait.
  unfoldable pub current_stop : SharedState S → Option (EventSeq × StoppedEvent)
  unfolding is_stopped
  current_stop s = if is_stopped s.connection.target then latest_stopped s else none

  unfoldable pub check_stop : SharedState S → EventSeq → StopCheck
  unfolding shared_stop_after
  check_stop s after_seq = elim (shared_stop_after s after_seq) [
    | some stop ↦ stop_found stop
    | none ↦ if s.reader_alive then still_waiting else exited
  ]

-- A copy of everything that callers may read.
pub record StateSnapshot : Type 0 where
  pub target : TargetState
  pub threads : ThreadRegistry
  pub frames : FrameRegistry
  pub breakpoints : BreakpointRegistry
  pub varobjs : VarObjRegistry
  pub features : FeatureSet
  pub mi_version : MiVersion

abbrev pub snapshot : {S : Type 0} → SharedState S → StateSnapshot
snapshot s = record {
  target = s.connection.target;
  threads = s.connection.threads;
  frames = s.connection.frames;
  breakpoints = s.connection.breakpoints;
  varobjs = s.connection.varobjs;
  features = s.connection.features;
  mi_version = s.connection.mi_version;
}
