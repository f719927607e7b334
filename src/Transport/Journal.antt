-- ===== src/Transport/Journal.antt =====
-- crates/framewalk-mi-transport/src/shared.rs: the bounded journal of sequenced events.
pub mod Queries
pub mod History
mod Examples
use framewalk.Prelude.{
  ℕ, suc, ◌+◌, ◌-◌, ◌^◌, Bool, true, false, Option, none, some, List, [], ◌∷◌, ◌++◌, ltb,
  if◌then◌else◌, length, drop,
}
use framewalk.Protocol.Event.{Event, StoppedEvent}

-- A u64.
abbrev pub EventSeq : Type 0
EventSeq = ℕ

pub record SequencedEvent : Type 0 where
  pub seq : EventSeq
  pub event : Event

pub record EventJournal : Type 0 where
  pub next_seq : EventSeq
  pub entries : List SequencedEvent
  pub latest_stopped : Option (EventSeq × StoppedEvent)

abbrev pub new : EventJournal
new = record { next_seq = 1; entries = []; latest_stopped = none }

-- `saturating_sub(1)`
unfoldable pub cursor : EventJournal → EventSeq
cursor j = j.next_seq - 1

-- `saturating_add(1)`
abbrev pub next_after : EventSeq → EventSeq
next_after seq = if ltb (seq + 1) (2 ^ 64) then seq + 1 else 2 ^ 64 - 1

abbrev pub stop_of :
    EventSeq → Event → Option (EventSeq × StoppedEvent) → Option (EventSeq × StoppedEvent)
stop_of seq (Event.stopped stop) latest = some (seq, stop)
stop_of seq _ latest = latest

-- `while self.entries.len() > capacity { self.entries.pop_front(); }`
unfoldable pub evict : ℕ → List SequencedEvent → List SequencedEvent
evict capacity [] = []
evict capacity (e ∷ es) =
    let rest = evict capacity es in if ltb capacity (length (e ∷ es)) then rest else e ∷ es

unfoldable pub push : EventJournal → Event → ℕ → EventSeq × EventJournal
unfolding evict
push j event capacity =
    let seq = j.next_seq in
    (
      seq,
      record {
        next_seq = next_after seq;
        entries = evict capacity (j.entries ++ record { seq = seq; event = event } ∷ []);
        latest_stopped = stop_of seq event j.latest_stopped;
      },
    )

-- `find_map`
unfoldable pub first_stop : EventSeq → List SequencedEvent → Option (EventSeq × StoppedEvent)
first_stop after_seq [] = none
first_stop after_seq (e ∷ es) =
    let rest = first_stop after_seq es in
    elim e.event [
      | Event.stopped stop ↦ (if ltb after_seq e.seq then some (e.seq, stop) else rest)
      | _ ↦ rest
    ]

unfoldable pub find_stop_after : EventJournal → EventSeq → Option (EventSeq × StoppedEvent)
unfolding first_stop
find_stop_after j after_seq = first_stop after_seq j.entries

-- `filter(..).map(..).collect()`
unfoldable pub later : EventSeq → List SequencedEvent → List (EventSeq × Event)
later after_seq [] = []
later after_seq (e ∷ es) =
    let rest = later after_seq es in if ltb after_seq e.seq then (e.seq, e.event) ∷ rest else rest

unfoldable pub events_after : EventJournal → EventSeq → List (EventSeq × Event)
unfolding later
events_after j after_seq = later after_seq j.entries

abbrev pub back : List SequencedEvent → Option (EventSeq × Event)
back [] = none
back (e ∷ []) = some (e.seq, e.event)
back (e ∷ f ∷ es) = back (f ∷ es)

abbrev pub latest_event : EventJournal → Option (EventSeq × Event)
latest_event j = back j.entries

abbrev pub front : List SequencedEvent → Option EventSeq
front [] = none
front (e ∷ es) = some e.seq

abbrev pub earliest_seq : EventJournal → Option EventSeq
earliest_seq j = front j.entries
