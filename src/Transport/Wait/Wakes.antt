-- ===== src/Transport/Wait/Wakes.antt =====
-- A waiter never sleeps on a stop that is there.
use framewalk.Prelude.{
  ℕ, suc, ◌+◌, ◌≤◌, ◌<◌, ◌≡◌, ◌≢◌, refl, sym, ◌∙◌, subst, Bool, true, false, Option, none, some,
  ◌⊎◌, inl, inr, arith,
}
use mathlib.Core.Bool.{false≢true}
use framewalk.Protocol.Event.{Event, StoppedEvent}
use framewalk.Transport.Journal.{EventSeq, EventJournal, push, find_stop_after, new}
use framewalk.Transport.Shared.{event_journal_capacity}
use framewalk.Transport.Wait.{
  exited, Waiter, looking, checking, creating, looking_again, checking_again, waiting, returned,
  WaitState, begins, moves, looked, checked, WaitStep, pushes, marks, notifies, looks, checks,
  creates, looks_again, checks_again, wakes, times_out, WaitSteps, here, next,
}

-- What the waiter relies on: its count is not ahead, and what it has looked at is as it was, or a
-- notification has come or is owed.
abbrev Reliable : EventSeq → WaitState → Waiter → Type 0
Reliable seq w (looking_again count) = count ≤ w.notified
Reliable seq w (checking_again count) =
    (count ≤ w.notified) × ((find_stop_after w.journal seq ≡ none) ⊎ (count < w.notified + w.owed))
Reliable seq w (waiting count) =
    (count ≤ w.notified)
    × (((find_stop_after w.journal seq ≡ none) × (w.reader_alive ≡ true))
        ⊎ (count < w.notified + w.owed))
Reliable seq w _ = Unit

module _ (seq : EventSeq) where
  -- A write owes a notification, after which everything is as the waiter expects.
  owes-Reliable :
      (w : WaitState) (journal : EventJournal) (alive : Bool) (waiter : Waiter)
      → Reliable seq w waiter
      → Reliable seq
          (record w { journal = journal; reader_alive = alive; owed = suc w.owed })
          waiter
  owes-Reliable w journal alive (looking_again count) h = h
  owes-Reliable w journal alive (checking_again count) h = (h.0, inr (omega (arith, h.0)))
  owes-Reliable w journal alive (waiting count) h = (h.0, inr (omega (arith, h.0)))
  owes-Reliable w journal alive looking h = tt
  owes-Reliable w journal alive checking h = tt
  owes-Reliable w journal alive creating h = tt
  owes-Reliable w journal alive (returned result) h = tt

  notifies-Reliable :
      (w : WaitState) (owed : ℕ) (waiter : Waiter)
      → w.owed ≡ suc owed
      → Reliable seq w waiter
      → Reliable seq (record w { notified = suc w.notified; owed = owed }) waiter
  notifies-Reliable w owed (looking_again count) e h = omega (arith, h)
  notifies-Reliable w owed (checking_again count) e h =
      (omega (arith, h.0), elim h.1 [ inl same ↦ inl same | inr due ↦ inr (omega (arith, due, e)) ])
  notifies-Reliable w owed (waiting count) e h =
      (omega (arith, h.0), elim h.1 [ inl same ↦ inl same | inr due ↦ inr (omega (arith, due, e)) ])
  notifies-Reliable w owed looking e h = tt
  notifies-Reliable w owed checking e h = tt
  notifies-Reliable w owed creating e h = tt
  notifies-Reliable w owed (returned result) e h = tt

  looked-Reliable :
      (w : WaitState) (otherwise : Waiter) (found : Option (EventSeq × StoppedEvent))
      → find_stop_after w.journal seq ≡ found
      → (find_stop_after w.journal seq ≡ none → Reliable seq w otherwise)
      → Reliable seq w (looked otherwise found)
  looked-Reliable w otherwise none e h = h e
  looked-Reliable w otherwise (some found) e h = tt

  checked-Reliable :
      (w : WaitState) (otherwise : Waiter) (alive : Bool)
      → w.reader_alive ≡ alive
      → (w.reader_alive ≡ true → Reliable seq w otherwise)
      → Reliable seq w (checked otherwise alive)
  checked-Reliable w otherwise true e h = h e
  checked-Reliable w otherwise false e h = tt

  alive-Reliable :
      (w : WaitState) (count : ℕ)
      → Reliable seq w (checking_again count)
      → w.reader_alive ≡ true
      → Reliable seq w (waiting count)
  alive-Reliable w count h alive =
      (h.0, elim h.1 [ inl same ↦ inl (same, alive) | inr due ↦ inr due ])

  WaitStep-Reliable :
      {w v : WaitState} → WaitStep seq w v → Reliable seq w w.waiter → Reliable seq v v.waiter
  WaitStep-Reliable (pushes w event) h =
      owes-Reliable w (push w.journal event event_journal_capacity).1 w.reader_alive w.waiter h
  WaitStep-Reliable (marks w) h = owes-Reliable w w.journal false w.waiter h
  WaitStep-Reliable (notifies w owed e) h = notifies-Reliable w owed w.waiter e h
  WaitStep-Reliable (looks w e) h = looked-Reliable w checking _ refl λ none_there. tt
  WaitStep-Reliable (checks w e) h = checked-Reliable w creating _ refl λ alive. tt
  WaitStep-Reliable (creates w e) h = omega arith
  WaitStep-Reliable (looks_again w count e) h =
      looked-Reliable w (checking_again count) _ refl
        λ none_there. (subst (Reliable seq w) e h, inl none_there)
  WaitStep-Reliable (checks_again w count e) h =
      checked-Reliable w (waiting count) _ refl
        (alive-Reliable w count (subst (Reliable seq w) e h))
  WaitStep-Reliable (wakes w count e late) h = tt
  WaitStep-Reliable (times_out w count e) h = tt

  WaitSteps-Reliable :
      {journal : EventJournal} {w : WaitState}
      → WaitSteps seq (begins journal) w
      → Reliable seq w w.waiter
  WaitSteps-Reliable here = tt
  WaitSteps-Reliable (next r s) = WaitStep-Reliable s (WaitSteps-Reliable r)

-- Whatever the order of writes to the journal, notifications and looks of the waiter, a waiter
-- of next_stop_after that sleeps while a stop after its cursor is in the journal, or while the
-- reader is dead, has been woken, once no write has its notification still to come.
pub waits-woken :
    (seq : EventSeq) (journal : EventJournal) (w : WaitState) (count : ℕ)
    → WaitSteps seq (begins journal) w
    → w.waiter ≡ waiting count
    → w.owed ≡ 0
    → (find_stop_after w.journal seq ≢ none) ⊎ (w.reader_alive ≡ false)
    → count < w.notified
waits-woken seq journal w count r e settled there =
    let h = subst (Reliable seq w) e (WaitSteps-Reliable seq r) in
    elim h.1 [
      | inl (nothing, alive) ↦ elim there [
        | inl found ↦ absurd (found nothing)
        | inr dead ↦ absurd (false≢true (sym dead ∙ alive))
      ]
      | inr due ↦ omega (arith, due, settled)
    ]

-- The waiter looks, then a stop is recorded and the reader leaves, then the waiter checks.
module _ (stopped : StoppedEvent) where
  abbrev has_looked : WaitState
  has_looked = moves (begins new) checking

  abbrev has_pushed : WaitState
  has_pushed = record has_looked {
    journal = (push new (Event.stopped stopped) event_journal_capacity).1;
    owed = 1;
  }

  abbrev has_marked : WaitState
  has_marked = record has_pushed { reader_alive = false; owed = 2 }

  abbrev pub missed : WaitState
  missed = moves has_marked (returned exited)

  -- For every stop event there is an order of steps in which a waiter from cursor 0 returns that
  -- the reader exited although that stop stands in the journal after its cursor.
  pub missed-returned :
      WaitSteps 0 (begins new) missed
      × (missed.waiter ≡ returned exited)
      × (find_stop_after missed.journal 0 ≡ some (1, stopped))
  unfolding push find_stop_after
  missed-returned = (
    next
        (next
          (next (next here (looks (begins new) refl)) (pushes has_looked (Event.stopped stopped)))
          (marks has_pushed))
        (checks has_marked refl),
    refl,
    refl,
  )
