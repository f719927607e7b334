-- ===== src/Transport/Shared.antt =====
-- crates/framewalk-mi-transport/src/shared.rs: the state that the handle and the tasks share.
use framewalk.Prelude.{ℕ, Bool, true, false, Option, none, some, List, [], ◌∷◌, Bytes, Map}
use framewalk.Protocol.Event.{CommandHandle, CommandOutcome, Event, StoppedEvent}
use framewalk.Protocol.Connection.{Connection}
use framewalk.Transport.Journal
use framewalk.Transport.Journal.{
  EventSeq, EventJournal, cursor, push, find_stop_after, events_after, latest_event, earliest_seq,
}

-- What the code does with its channels; `S` is the type of the one-shot senders.
pub data Effect (S : Type 0) : Type 0 where
  -- `tx.send(outcome)`
  sent : S → CommandOutcome → Effect S
  -- A sender goes out of scope unsent.
  dropped : S → Effect S
  -- `events_tx.send(event)`
  broadcast : Event → Effect S
  -- `event_notify.notify_waiters()`
  notified : Effect S

pub record SharedState (S : Type 0) : Type 0 where
  pub connection : Connection
  pub pending : Map CommandHandle S
  pub journal : EventJournal
  pub last_target_selection_command : Option Bytes
  pub reader_alive : Bool

abbrev pub event_journal_capacity : ℕ
event_journal_capacity = 1024

module _ {S : Type 0} where
  abbrev pub shared_with : Connection → SharedState S
  shared_with connection = record {
    connection = connection;
    pending = [];
    journal = Journal.new;
    last_target_selection_command = none;
    reader_alive = true;
  }

  abbrev pub is_reader_alive : SharedState S → Bool
  is_reader_alive s = s.reader_alive

  unfoldable pub mark_reader_exited : SharedState S → List (Effect S) × SharedState S
  mark_reader_exited s = (notified ∷ [], record s { reader_alive = false })

  unfoldable pub event_cursor : SharedState S → EventSeq
  unfolding cursor
  event_cursor s = cursor s.journal

  unfoldable pub record_event : SharedState S → Event → EventSeq × List (Effect S) × SharedState S
  unfolding push
  record_event s event =
      let (seq, journal) = push s.journal event event_journal_capacity in
      (seq, notified ∷ [], record s { journal = journal })

  abbrev pub latest_stopped : SharedState S → Option (EventSeq × StoppedEvent)
  latest_stopped s = s.journal.latest_stopped

  unfoldable pub shared_stop_after : SharedState S → EventSeq → Option (EventSeq × StoppedEvent)
  unfolding find_stop_after
  shared_stop_after s after_seq = find_stop_after s.journal after_seq

  unfoldable pub shared_events_after : SharedState S → EventSeq → List (EventSeq × Event)
  unfolding events_after
  shared_events_after s after_seq = events_after s.journal after_seq

  abbrev pub shared_latest_event : SharedState S → Option (EventSeq × Event)
  shared_latest_event s = latest_event s.journal

  abbrev pub earliest_event_seq : SharedState S → Option EventSeq
  earliest_event_seq s = earliest_seq s.journal

  abbrev pub remember_target_selection_command : SharedState S → Bytes → SharedState S
  remember_target_selection_command s raw_command = record s {
    last_target_selection_command = some raw_command;
  }
