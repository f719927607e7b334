-- ===== src/Transport/Journal/Examples.antt =====
-- The journal at a small capacity.
use framewalk.Prelude.{◌≡◌, arith, [], ◌∷◌, ◌++◌, List, bytes}
use framewalk.Protocol.Event.{Event}
use framewalk.Transport.Journal.{new, cursor, find_stop_after, events_after}
use framewalk.Transport.Journal.History.{recorded}
use framewalk.Transport.Journal.Queries.{shown, stop_in, queries-since}

-- Three events.
abbrev three : List Event
three = Event.log (bytes "a") ∷ Event.console (bytes "b") ∷ Event.log (bytes "c") ∷ []

abbrev two : List Event
two = Event.console (bytes "d") ∷ Event.log (bytes "e") ∷ []

queries-since_example :
    let start = cursor (recorded 2 three new) in
    let j = recorded 2 (three ++ two) new in
    (find_stop_after j start ≡ stop_in 4 two) × (events_after j start ≡ shown 4 two)
queries-since_example = queries-since 2 three two (omega arith) (omega arith)
