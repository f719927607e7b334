-- ===== src/Transport/Wait.antt =====
-- crates/framewalk-mi-transport/src/handle.rs, next_stop_after: one waiter beside those who write the
-- journal. A step is one read or write that no other task interrupts. tokio's Notify is a count of the
-- calls of `notify_waiters`: a `Notified` is woken by every call after its creation.
pub mod Wakes
mod Examples
use framewalk.Prelude.{ℕ, suc, ◌<◌, ◌≡◌, Bool, true, false, Option, none, some}
use framewalk.Protocol.Event.{Event, StoppedEvent}
use framewalk.Transport.Journal
use framewalk.Transport.Journal.{EventSeq, EventJournal, push, find_stop_after}
use framewalk.Transport.Shared.{event_journal_capacity}

pub data WaitResult : Type 0 where
  stop : EventSeq × StoppedEvent → WaitResult
  exited timed_out : WaitResult

-- Where the loop stands.
pub data Waiter : Type 0 where
  -- Before the first look at the journal, and between it and the look at the reader.
  looking checking creating : Waiter
  -- The same for the second look, with the count at the creation of the `Notified`.
  looking_again checking_again : ℕ → Waiter
  waiting : ℕ → Waiter
  returned : WaitResult → Waiter

-- `owed` counts the writes whose `notify_waiters` is yet to come.
pub record WaitState : Type 0 where
  pub journal : EventJournal
  pub reader_alive : Bool
  pub notified : ℕ
  pub owed : ℕ
  pub waiter : Waiter

abbrev pub begins : EventJournal → WaitState
begins journal = record {
  journal = journal;
  reader_alive = true;
  notified = 0;
  owed = 0;
  waiter = looking;
}

abbrev pub moves : WaitState → Waiter → WaitState
moves w waiter = record w { waiter = waiter }

-- Where a look at the journal leads to.
abbrev pub looked : Waiter → Option (EventSeq × StoppedEvent) → Waiter
looked otherwise none = otherwise
looked otherwise (some found) = returned (stop found)

-- Where a look at the reader leads to.
abbrev pub checked : Waiter → Bool → Waiter
checked otherwise true = otherwise
checked otherwise false = returned exited

pub data WaitStep (after_seq : EventSeq) : WaitState → WaitState → Type 0 where
  pushes :
      (w : WaitState) (event : Event)
      → WaitStep after_seq w (record w {
        journal = (push w.journal event event_journal_capacity).1;
        owed = suc w.owed;
      })
  marks :
      (w : WaitState) → WaitStep after_seq w (record w { reader_alive = false; owed = suc w.owed })
  notifies :
      (w : WaitState) (owed : ℕ)
      → w.owed ≡ suc owed
      → WaitStep after_seq w (record w { notified = suc w.notified; owed = owed })
  looks :
      (w : WaitState)
      → w.waiter ≡ looking
      → WaitStep after_seq w (moves w (looked checking (find_stop_after w.journal after_seq)))
  checks :
      (w : WaitState)
      → w.waiter ≡ checking
      → WaitStep after_seq w (moves w (checked creating w.reader_alive))
  creates :
      (w : WaitState)
      → w.waiter ≡ creating
      → WaitStep after_seq w (moves w (looking_again w.notified))
  looks_again :
      (w : WaitState) (count : ℕ)
      → w.waiter ≡ looking_again count
      → WaitStep after_seq w
          (moves w (looked (checking_again count) (find_stop_after w.journal after_seq)))
  checks_again :
      (w : WaitState) (count : ℕ)
      → w.waiter ≡ checking_again count
      → WaitStep after_seq w (moves w (checked (waiting count) w.reader_alive))
  wakes :
      (w : WaitState) (count : ℕ)
      → w.waiter ≡ waiting count
      → count < w.notified
      → WaitStep after_seq w (moves w looking)
  times_out :
      (w : WaitState) (count : ℕ)
      → w.waiter ≡ waiting count
      → WaitStep after_seq w (moves w (returned timed_out))

pub data WaitSteps (after_seq : EventSeq) (w : WaitState) : WaitState → Type 0 where
  here : WaitSteps after_seq w w
  next :
      {u v : WaitState} → WaitSteps after_seq w u → WaitStep after_seq u v → WaitSteps after_seq w v
