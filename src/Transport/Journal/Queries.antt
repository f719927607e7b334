-- ===== src/Transport/Journal/Queries.antt =====
-- What the queries of the journal answer, in terms of the history.
use framewalk.Prelude.{
  ℕ, zero, suc, ◌+◌, ◌-◌, ◌^◌, ◌≤◌, ◌<◌, ◌≡◌, refl, sym, ap, ◌∙◌, true, false, Option, none, some,
  List, [], ◌∷◌, ◌++◌, arith, ltb, length, length-append, length-drop, drop, drop-add,
  drop-append_left,
}
use framewalk.Protocol.Event.{Event, StoppedEvent}
use framewalk.Transport.Journal.{
  EventSeq, new, cursor, first_stop, find_stop_after, later, events_after,
}
use framewalk.Transport.Journal.History.{recorded, numbered, length-numbered, Holds, recorded-Holds}

-- A history as the queries show it, from its first number on.
abbrev pub shown : EventSeq → List Event → List (EventSeq × Event)
shown seq [] = []
shown seq (ev ∷ evs) = (seq, ev) ∷ shown (suc seq) evs

-- The first stop of a history, under its number.
abbrev pub stop_in : EventSeq → List Event → Option (EventSeq × StoppedEvent)
stop_in seq [] = none
stop_in seq (Event.stopped stop ∷ evs) = some (seq, stop)
stop_in seq (ev ∷ evs) = stop_in (suc seq) evs

pub drop-numbered :
    (n : ℕ) (seq : EventSeq) (evs : List Event)
    → drop n (numbered seq evs) ≡ numbered (seq + n) (drop n evs)
unfolding numbered
drop-numbered zero seq evs = ap (λ k. numbered k evs) (omega arith)
drop-numbered (suc n) seq [] = refl
drop-numbered (suc n) seq (ev ∷ evs) =
    drop-numbered n (suc seq) evs ∙ ap (λ k. numbered k (drop n evs)) (omega arith)

later-all :
    (k seq : EventSeq) (evs : List Event) → k < seq → later k (numbered seq evs) ≡ shown seq evs
unfolding later numbered
later-all k seq [] h = refl
later-all k seq (ev ∷ evs) h =
    let newer : ltb k seq ≡ true = ground arith in
    rw newer (ap (λ l. (seq, ev) ∷ l) (later-all k (suc seq) evs (omega arith)))

later-numbered :
    (k d seq : EventSeq) (evs : List Event)
    → seq + d ≡ suc k
    → later k (numbered seq evs) ≡ shown (suc k) (drop d evs)
unfolding later numbered
later-numbered k zero seq evs h =
    later-all k seq evs (omega (arith, h)) ∙ ap (λ n. shown n evs) (omega (arith, h))
later-numbered k (suc d) seq [] h = refl
later-numbered k (suc d) seq (ev ∷ evs) h =
    let older : ltb k seq ≡ false = ground (arith, h) in
    rw older (later-numbered k d (suc seq) evs (omega (arith, h)))

first_stop-all :
    (k seq : EventSeq) (evs : List Event)
    → k < seq
    → first_stop k (numbered seq evs) ≡ stop_in seq evs
unfolding first_stop numbered
first_stop-all k seq [] h = refl
first_stop-all k seq (Event.stopped stop ∷ evs) h =
    let newer : ltb k seq ≡ true = ground arith in rw newer
first_stop-all k seq (_ ∷ evs) h = first_stop-all k (suc seq) evs (omega arith)

first_stop-numbered :
    (k d seq : EventSeq) (evs : List Event)
    → seq + d ≡ suc k
    → first_stop k (numbered seq evs) ≡ stop_in (suc k) (drop d evs)
unfolding first_stop numbered
first_stop-numbered k zero seq evs h =
    first_stop-all k seq evs (omega (arith, h)) ∙ ap (λ n. stop_in n evs) (omega (arith, h))
first_stop-numbered k (suc d) seq [] h = refl
first_stop-numbered k (suc d) seq (Event.stopped stop ∷ evs) h =
    let older : ltb k seq ≡ false = ground (arith, h) in
    rw older (first_stop-numbered k d (suc seq) evs (omega (arith, h)))
first_stop-numbered k (suc d) seq (_ ∷ evs) h =
    first_stop-numbered k d (suc seq) evs (omega (arith, h))

module _ (capacity : ℕ) (evs : List Event) (fits : length evs < 2 ^ 64 - 1) where
  holds : Holds capacity evs (recorded capacity evs new)
  holds = recorded-Holds capacity evs fits

  pub cursor-recorded : cursor (recorded capacity evs new) ≡ length evs
  unfolding cursor
  cursor-recorded = omega (arith, holds.next_lem)

  pub recorded_bounds : length (recorded capacity evs new).entries ≤ capacity
  recorded_bounds = omega (
    arith,
    ap length holds.entries_lem,
    length-drop (length evs - capacity) (numbered 1 evs),
    length-numbered 1 evs,
  )

  -- The entries that are newer than `k`, if none of those is evicted.
  pub entries_after :
      (k : EventSeq)
      → length evs ≤ k + capacity
      → later k (recorded capacity evs new).entries ≡ shown (suc k) (drop k evs)
  entries_after k h =
      let gone = length evs - capacity in
      ap (later k) (holds.entries_lem ∙ drop-numbered gone 1 evs)
      ∙ later-numbered k (k - gone) (1 + gone) (drop gone evs) (omega (arith, h))
      ∙ ap (shown (suc k))
          (sym (drop-add gone (k - gone) evs) ∙ ap (λ n. drop n evs) (omega (arith, h)))

  stop_after :
      (k : EventSeq)
      → length evs ≤ k + capacity
      → first_stop k (recorded capacity evs new).entries ≡ stop_in (suc k) (drop k evs)
  stop_after k h =
      let gone = length evs - capacity in
      ap (first_stop k) (holds.entries_lem ∙ drop-numbered gone 1 evs)
      ∙ first_stop-numbered k (k - gone) (1 + gone) (drop gone evs) (omega (arith, h))
      ∙ ap (stop_in (suc k))
          (sym (drop-add gone (k - gone) evs) ∙ ap (λ n. drop n evs) (omega (arith, h)))

-- With the cursor taken before some further events, of which there are at most `capacity`, and
-- fewer than 2^64 - 1 events in all, events_after returns exactly those events in order under
-- their numbers, and find_stop_after the first stop among them.
pub queries-since :
    (capacity : ℕ) (past since : List Event)
    → length past + length since < 2 ^ 64 - 1
    → length since ≤ capacity
    → let start = cursor (recorded capacity past new) in
      let j = recorded capacity (past ++ since) new in
      (find_stop_after j start ≡ stop_in (suc (length past)) since)
      × (events_after j start ≡ shown (suc (length past)) since)
unfolding find_stop_after events_after
queries-since capacity past since fits kept =
    let size = length-append past since in
    let evs = past ++ since in
    let bound : length evs < 2 ^ 64 - 1 = omega (arith, fits, size) in
    let start = cursor-recorded capacity past (omega (arith, fits)) in
    let j = recorded capacity evs new in
    (
      ap (λ k. first_stop k j.entries) start
          ∙ stop_after capacity evs bound (length past) (omega (arith, size, kept))
          ∙ ap (stop_in (suc (length past))) (drop-append_left past since),
      ap (λ k. later k j.entries) start
          ∙ entries_after capacity evs bound (length past) (omega (arith, size, kept))
          ∙ ap (shown (suc (length past))) (drop-append_left past since),
    )
