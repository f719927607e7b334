-- ===== src/Mcp/Observe/Examples.antt =====
-- The drain of a small journal.
use framewalk.Prelude.{◌≡◌, refl, false, List, [], ◌∷◌, some, bytes, arith}
use framewalk.Codec.Ast.{no_results}
use framewalk.Protocol.Event.{Event, NotifyEvent}
use framewalk.Transport.Journal.{new, evict, push}
use framewalk.Transport.Journal.History.{recorded}
use framewalk.Transport.Journal.Queries.{shown}
use framewalk.Mcp.Observe.{summarize_all, drain_observed_events}
use framewalk.Mcp.Observe.Report.{Report, read_back}
use framewalk.Mcp.Observe.Drain.{drain_complete, drain_skips}

abbrev library_loaded : NotifyEvent
library_loaded = record { class = bytes "library-loaded"; results = no_results }

abbrev five : List Event
five =
    Event.log (bytes "a")
    ∷ Event.console (bytes "b")
    ∷ Event.group_closed
    ∷ Event.notify library_loaded
    ∷ Event.running (some (bytes "1"))
    ∷ []

not_truncated :
    (drain_observed_events
      (recorded 4 five new)
      (recorded 4 five new)
      (recorded 4 five new)
      2).truncated
    ≡ false
unfolding drain_observed_events recorded push evict
not_truncated = refl

-- Four are retained, of which three are newer than the cursor and two are shown.
drain_complete_example :
    let j = recorded 4 five new in
    let payload = drain_observed_events j j j 2 in
    (read_back payload.events
      ≡ (4, Report.notified (some (bytes "library-loaded")) (some no_results))
        ∷ (5, Report.ran (some (bytes "1")))
        ∷ [])
    × (payload.cursor ≡ 5)
drain_complete_example =
    drain_complete 4 five 2 (omega arith) (omega arith) (omega arith) not_truncated

drain_skips_example :
    let seen = recorded 3 (Event.log (bytes "a") ∷ []) new in
    let pushed = recorded 3 (Event.log (bytes "a") ∷ Event.console (bytes "lost") ∷ []) new in
    let now =
      recorded 3
        (Event.log (bytes "a") ∷ Event.console (bytes "lost") ∷ Event.log (bytes "c") ∷ [])
        new in
    let first = drain_observed_events seen seen pushed 0 in
    let second = drain_observed_events now now now first.cursor in
    (first.events ≡ summarize_all (shown 1 (Event.log (bytes "a") ∷ [])))
    × (second.events ≡ summarize_all (shown 3 (Event.log (bytes "c") ∷ [])))
drain_skips_example =
    drain_skips 3 (Event.log (bytes "a") ∷ []) (Event.console (bytes "lost"))
      (Event.log (bytes "c") ∷ []) (omega arith) (omega arith) (omega arith)
