-- ===== src/Transport/Wait/Examples.antt =====
-- A waiter that sleeps before the stop comes, and one that misses it.
use framewalk.Prelude.{◌<◌, ◌≡◌, refl, sym, ◌∙◌, none, some, inl}
use mathlib.Core.Option.{none-ne-some}
use framewalk.Codec.Ast.{no_results}
use framewalk.Protocol.Event.{Event, StoppedEvent}
use framewalk.Transport.Journal.{new, push, find_stop_after}
use framewalk.Transport.Shared.{event_journal_capacity}
use framewalk.Transport.Wait.{
  exited, checking, creating, looking_again, checking_again, waiting, returned, WaitState, begins,
  moves, WaitSteps, here, next, pushes, notifies, looks, checks, creates, looks_again, checks_again,
}
use framewalk.Transport.Wait.Wakes.{waits-woken, missed, missed-returned}

abbrev a_stop : StoppedEvent
a_stop = record { reason = none; thread = none; frame = none; raw = no_results }

abbrev asleep : WaitState
asleep = moves (begins new) (waiting 0)

abbrev pushed : WaitState
pushed = record asleep {
  journal = (push new (Event.stopped a_stop) event_journal_capacity).1;
  owed = 1;
}

abbrev notified_once : WaitState
notified_once = record pushed { notified = 1; owed = 0 }

to_notified : WaitSteps 0 (begins new) notified_once
unfolding find_stop_after
to_notified =
    next
      (next
        (next
          (next
            (next
              (next (next here (looks (begins new) refl))
                (checks (moves (begins new) checking) refl))
              (creates (moves (begins new) creating) refl))
            (looks_again (moves (begins new) (looking_again 0)) 0 refl))
          (checks_again (moves (begins new) (checking_again 0)) 0 refl))
        (pushes asleep (Event.stopped a_stop)))
      (notifies pushed 0 refl)

stop_there : find_stop_after notified_once.journal 0 ≡ some (1, a_stop)
unfolding push find_stop_after
stop_there = refl

waits-woken_example : 0 < notified_once.notified
waits-woken_example =
    waits-woken 0 new notified_once 0 to_notified refl refl
      (inl λ e. none-ne-some _ (sym e ∙ stop_there))

missed-returned_example :
    WaitSteps 0 (begins new) (missed a_stop)
    × ((missed a_stop).waiter ≡ returned exited)
    × (find_stop_after (missed a_stop).journal 0 ≡ some (1, a_stop))
missed-returned_example = missed-returned a_stop
