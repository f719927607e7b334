-- ===== src/Mcp/Observe/Drain.antt =====
-- Whether a client that polls by cursors sees every event.
use framewalk.Prelude.{
  ℕ, zero, suc, ◌+◌, ◌-◌, ◌^◌, ◌≤◌, ◌<◌, ◌≡◌, refl, sym, ap, ◌∙◌, false, some, List, [], ◌∷◌, ◌++◌,
  arith, length, append_assoc, length-append, length-drop, drop,
}
use framewalk.Protocol.Event.{Event}
use framewalk.Transport.Journal.{EventSeq, new, cursor, events_after, front, earliest_seq}
use framewalk.Transport.Journal.History.{recorded, numbered, recorded-Holds}
use framewalk.Transport.Journal.Queries.{
  shown, cursor-recorded, entries_after, drop-numbered, queries-since,
}
use framewalk.Mcp.Observe.{summarize_all, evicted_since, drain_observed_events}
use framewalk.Mcp.Observe.Report.{due, read_back, read_back-summarize_all}

front-numbered :
    (seq : EventSeq) (es : List Event) → 0 < length es → front (numbered seq es) ≡ some seq
unfolding numbered
front-numbered seq [] h = absurd (omega (arith, h))
front-numbered seq (e ∷ es) h = refl

module _ (capacity : ℕ) (evs : List Event) (fits : length evs < 2 ^ 64 - 1)
    (room : 0 < capacity) where
  earliest-recorded :
      0 < length evs → earliest_seq (recorded capacity evs new) ≡ some (1 + (length evs - capacity))
  earliest-recorded some_events =
      let gone = length evs - capacity in
      ap front ((recorded-Holds capacity evs fits).entries_lem ∙ drop-numbered gone 1 evs)
      ∙ front-numbered (1 + gone) (drop gone evs)
          (omega (arith, length-drop gone evs, some_events, room))

  -- The flag tells when an event since the cursor was evicted.
  retained :
      (k : EventSeq)
      → k < 2 ^ 64 - 1
      → evicted_since k (earliest_seq (recorded capacity evs new)) ≡ false
      → length evs ≤ k + capacity
  retained k small h = by_length (length evs) refl
    where
      by_length : (n : ℕ) → length evs ≡ n → length evs ≤ k + capacity
      by_length zero e = omega (arith, e)
      by_length (suc n) e =
          let flag = sym (ap (evicted_since k) (earliest-recorded (omega (arith, e)))) ∙ h in
          ground (arith, flag, small)

-- When no event arrives between the reads of a drain and truncated is false, the summaries that
-- the drain returns name, in order, exactly the events after the given cursor except the
-- completions of commands, the ends of groups and the unknown records. Each is under its number
-- and kind, with its text, its class and results, its thread or its parse error; a stop with its
-- thread, results and frame. The cursor returned is the number of the last event. For a capacity
-- above 0 and numbers below 2^64 - 1.
pub drain_complete :
    (capacity : ℕ) (evs : List Event) (k : EventSeq)
    → length evs < 2 ^ 64 - 1
    → 0 < capacity
    → k < 2 ^ 64 - 1
    → (drain_observed_events
        (recorded capacity evs new)
        (recorded capacity evs new)
        (recorded capacity evs new)
        k).truncated
      ≡ false
    → let payload =
        drain_observed_events
          (recorded capacity evs new)
          (recorded capacity evs new)
          (recorded capacity evs new)
          k in
      (read_back payload.events ≡ due (shown (suc k) (drop k evs))) × (payload.cursor ≡ length evs)
unfolding drain_observed_events events_after
drain_complete capacity evs k fits room small h =
    let all_there = retained capacity evs fits room k small h in
    (
      ap (λ es. read_back (summarize_all es)) (entries_after capacity evs fits k all_there)
          ∙ read_back-summarize_all (shown (suc k) (drop k evs)),
      cursor-recorded capacity evs fits,
    )

-- When an event arrives between the second and the third read of a first drain, the first drain
-- shows only the events before it and a second drain from the cursor of the first only the
-- events after it; with no eviction, and fewer than 2^64 - 1 events.
pub drain_skips :
    (capacity : ℕ) (before : List Event) (event : Event) (after : List Event)
    → length before + suc (length after) < 2 ^ 64 - 1
    → length before ≤ capacity
    → length after ≤ capacity
    → let seen = recorded capacity before new in
      let pushed = recorded capacity (before ++ event ∷ []) new in
      let now = recorded capacity (before ++ event ∷ after) new in
      let first = drain_observed_events seen seen pushed 0 in
      let second = drain_observed_events now now now first.cursor in
      (first.events ≡ summarize_all (shown 1 before))
      × (second.events ≡ summarize_all (shown (suc (suc (length before))) after))
unfolding drain_observed_events events_after
drain_skips capacity before event after fits small_before small_after =
    let past = before ++ event ∷ [] in
    let size = length-append before (event ∷ []) in
    let since = queries-since capacity past after (omega (arith, fits, size)) small_after in
    (
      ap summarize_all
          (entries_after capacity before (omega (arith, fits)) 0 (omega (arith, small_before))),
      ap
            (λ evs.
              summarize_all
                (events_after (recorded capacity evs new) (cursor (recorded capacity past new))))
            (sym (append_assoc before (event ∷ []) after))
          ∙ ap summarize_all since.1
          ∙ ap (λ n. summarize_all (shown n after)) (omega (arith, size)),
    )
