-- ===== src/Mcp/Observe.antt =====
-- crates/framewalk-mcp/src/server_helpers.rs: what the operator tools show of the events and of the target.
-- The JSON of results and frames, and the text of a parse error, are left to the one who prints them.
pub mod Report
pub mod Drain
mod Examples
use framewalk.Prelude.{
  ℕ, Bool, true, false, not, ◌&&◌, Option, none, some, List, [], ◌∷◌, ◌++◌, ltb, if◌then◌else◌,
  Bytes, bytes,
}
use framewalk.Codec.Ast.{Results, no_results, result}
use framewalk.Codec.Error.{CodecError}
use framewalk.Protocol.View.{ℤ, pos}
use framewalk.Protocol.Event.{Event, StoppedEvent}
use framewalk.Protocol.State.Frames.{Frame}
use framewalk.Protocol.State.Target.{StoppedReason, TargetState}
use framewalk.Mcp.RawGuard.{trim}
use framewalk.Transport.Journal.{
  EventSeq, EventJournal, next_after, cursor, events_after, earliest_seq,
}

-- `kind` is an event's own name where the source has a string.
pub data Kind : Type 0 where
  running stopped notify status console target_output log parse_error : Kind

pub record ObservedEvent : Type 0 where
  pub seq : EventSeq
  pub kind : Kind
  pub class : Option Bytes
  pub thread : Option Bytes
  pub reason : Option Bytes
  pub exit_code : Option ℤ
  pub text : Option Bytes
  pub failure : Option CodecError
  pub results : Option Results
  pub frame : Option Frame

-- `ObservedEvent::default()` but for the number and the kind.
abbrev pub observed : EventSeq → Kind → ObservedEvent
observed seq kind = record {
  seq = seq;
  kind = kind;
  class = none;
  thread = none;
  reason = none;
  exit_code = none;
  text = none;
  failure = none;
  results = none;
  frame = none;
}

abbrev pub format_stopped_reason : StoppedReason → Bytes
format_stopped_reason (StoppedReason.breakpoint_hit bkptno) = bytes "breakpoint-hit"
format_stopped_reason StoppedReason.watchpoint_trigger = bytes "watchpoint-trigger"
format_stopped_reason StoppedReason.function_finished = bytes "function-finished"
format_stopped_reason StoppedReason.location_reached = bytes "location-reached"
format_stopped_reason StoppedReason.end_stepping_range = bytes "end-stepping-range"
format_stopped_reason StoppedReason.exited_normally = bytes "exited-normally"
format_stopped_reason (StoppedReason.exited exit_code) = bytes "exited"
format_stopped_reason (StoppedReason.exited_signalled signal_name) = bytes "exited-signalled"
format_stopped_reason (StoppedReason.signal_received signal_name) = bytes "signal-received"
format_stopped_reason StoppedReason.fork = bytes "fork"
format_stopped_reason StoppedReason.vfork = bytes "vfork"
format_stopped_reason StoppedReason.exec = bytes "exec"
format_stopped_reason (StoppedReason.syscall_entry syscall_name) = bytes "syscall-entry"
format_stopped_reason (StoppedReason.syscall_return syscall_name) = bytes "syscall-return"
format_stopped_reason (StoppedReason.other text) = text

abbrev pub formatted : Option StoppedReason → Option Bytes
formatted none = none
formatted (some reason) = some (format_stopped_reason reason)

abbrev pub stopped_reason_exit_code : Option StoppedReason → Option ℤ
stopped_reason_exit_code (some (StoppedReason.exited exit_code)) = exit_code
stopped_reason_exit_code (some StoppedReason.exited_normally) = some (pos 0)
stopped_reason_exit_code _ = none

abbrev pub non_empty_results : Results → Option Results
non_empty_results no_results = none
non_empty_results rs = some rs

abbrev pub stream_event : EventSeq → Kind → Bytes → ObservedEvent
stream_event seq kind text = record (observed seq kind) { text = some text }

unfoldable pub summarize_event : EventSeq → Event → Option ObservedEvent
summarize_event seq (Event.running thread) =
    some (record (observed seq running) { thread = thread })
summarize_event seq (Event.stopped ev) = some (record (observed seq stopped) {
  thread = ev.thread;
  reason = formatted ev.reason;
  exit_code = stopped_reason_exit_code ev.reason;
  results = non_empty_results ev.raw;
  frame = ev.frame;
})
summarize_event seq (Event.notify ev) =
    some (record (observed seq notify) { class = some ev.class; results = some ev.results })
summarize_event seq (Event.status ev) =
    some (record (observed seq status) { class = some ev.class; results = some ev.results })
summarize_event seq (Event.console text) = some (stream_event seq console text)
summarize_event seq (Event.target_output text) = some (stream_event seq target_output text)
summarize_event seq (Event.log text) = some (stream_event seq log text)
summarize_event seq (Event.parse_error err) =
    some (record (observed seq parse_error) { failure = some err.error })
summarize_event seq _ = none

unfoldable pub summarize_async_event : EventSeq → Event → Option ObservedEvent
unfolding summarize_event
summarize_async_event seq (Event.running thread) = summarize_event seq (Event.running thread)
summarize_async_event seq (Event.stopped ev) = summarize_event seq (Event.stopped ev)
summarize_async_event seq (Event.notify ev) = summarize_event seq (Event.notify ev)
summarize_async_event seq (Event.status ev) = summarize_event seq (Event.status ev)
summarize_async_event seq _ = none

abbrev pub kept : Option ObservedEvent → List ObservedEvent → List ObservedEvent
kept none events = events
kept (some event) events = event ∷ events

-- `.filter_map(|(seq, event)| summarize_event(seq, &event)).collect()`
unfoldable pub summarize_all : List (EventSeq × Event) → List ObservedEvent
unfolding summarize_event
summarize_all [] = []
summarize_all ((seq, event) ∷ events) = kept (summarize_event seq event) (summarize_all events)

pub record DrainEventsPayload : Type 0 where
  pub from_cursor : EventSeq
  pub cursor : EventSeq
  pub truncated : Bool
  pub retained_from : Option EventSeq
  pub events : List ObservedEvent

-- `retained_from.is_some_and(|earliest| from_cursor.saturating_add(1) < earliest)`
abbrev pub evicted_since : EventSeq → Option EventSeq → Bool
evicted_since from_cursor none = false
evicted_since from_cursor (some earliest) = ltb (next_after from_cursor) earliest

-- Each of the three reads takes the lock of the journal anew, so each sees a journal of its own.
unfoldable pub drain_observed_events :
    EventJournal → EventJournal → EventJournal → EventSeq → DrainEventsPayload
unfolding summarize_all cursor events_after
drain_observed_events first second third from_cursor = record {
  from_cursor = from_cursor;
  cursor = cursor third;
  truncated = evicted_since from_cursor (earliest_seq first);
  retained_from = earliest_seq first;
  events = summarize_all (events_after second from_cursor);
}

unfoldable pub console_text : List (EventSeq × Event) → Bytes
console_text [] = []
console_text ((seq, Event.console text) ∷ events) = text ++ console_text events
console_text ((seq, event) ∷ events) = console_text events

abbrev pub text_or_none : Bytes → Option Bytes
text_or_none [] = none
text_or_none (b ∷ s) = some (b ∷ s)

unfoldable pub collect_console_text_since : EventJournal → EventSeq → Option Bytes
unfolding console_text events_after trim
collect_console_text_since journal from_cursor =
    text_or_none (trim (console_text (events_after journal from_cursor)))

-- `state` is a name where the source has a string.
pub data ObservedState : Type 0 where
  disconnected running stopped exited unknown : ObservedState

pub record ObservedTargetState : Type 0 where
  pub state : ObservedState
  pub reader_alive : Bool
  pub cursor : EventSeq
  pub thread : Option Bytes
  pub reason : Option Bytes
  pub exit_code : Option ℤ
  pub last_async : Option ObservedEvent

abbrev pub last_event : List ObservedEvent → Option ObservedEvent
last_event [] = none
last_event (event ∷ []) = some event
last_event (event ∷ next ∷ events) = last_event (next ∷ events)

-- `.filter_map(|(seq, event)| summarize_async_event(seq, &event))`
unfoldable pub summarize_async : List (EventSeq × Event) → List ObservedEvent
unfolding summarize_async_event
summarize_async [] = []
summarize_async ((seq, event) ∷ events) =
    kept (summarize_async_event seq event) (summarize_async events)

-- The state, the thread, the reason and the exit code.
abbrev pub state_of : Bool → TargetState → ObservedState × Option Bytes × Option Bytes × Option ℤ
state_of reader_alive (TargetState.exited exit_code) = (exited, none, none, exit_code)
state_of false target = (disconnected, none, none, none)
state_of true (TargetState.running thread) = (running, thread, none, none)
state_of true (TargetState.stopped thread reason) =
    (stopped, thread, formatted reason, stopped_reason_exit_code reason)
state_of true TargetState.unknown = (unknown, none, none, none)

-- The reads in order: the target, the cursor, the reader, the events.
unfoldable pub observe_target_state :
    TargetState → EventJournal → Bool → EventJournal → ObservedTargetState
unfolding cursor events_after summarize_async
observe_target_state target second reader_alive fourth =
    let (state, thread, reason, exit_code) = state_of reader_alive target in
    record {
      state = state;
      reader_alive = reader_alive;
      cursor = cursor second;
      thread = thread;
      reason = reason;
      exit_code = exit_code;
      last_async = last_event (summarize_async (events_after fourth 0));
    }
