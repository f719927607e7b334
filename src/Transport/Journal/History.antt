-- ===== src/Transport/Journal/History.antt =====
-- The journal against the whole history of events.
use framewalk.Prelude.{
  ℕ, suc, ◌+◌, ◌-◌, ◌^◌, ◌<◌, ◌≡◌, refl, sym, subst, ap, ap₂, ◌∙◌, Option, none, List, [], ◌∷◌,
  ◌++◌, append-nil, append_assoc, arith, ltb, length, length-append, length-drop, drop, drop-nil,
  drop-append, drop-add, Bool-cases, inl, inr,
}
use framewalk.Protocol.Event.{Event, StoppedEvent}
use framewalk.Transport.Journal.{
  EventSeq, SequencedEvent, EventJournal, new, next_after, stop_of, evict, push,
}

-- The journal after a history of events, in order.
unfoldable pub recorded : ℕ → List Event → EventJournal → EventJournal
unfolding push
recorded capacity [] j = j
recorded capacity (ev ∷ evs) j = recorded capacity evs (push j ev capacity).1

-- The history with its sequence numbers, from `seq` on.
unfoldable pub numbered : EventSeq → List Event → List SequencedEvent
numbered seq [] = []
numbered seq (ev ∷ evs) = record { seq = seq; event = ev } ∷ numbered (suc seq) evs

-- The last stop of a history.
pub last_stop :
    EventSeq → List Event → Option (EventSeq × StoppedEvent) → Option (EventSeq × StoppedEvent)
last_stop seq [] latest = latest
last_stop seq (ev ∷ evs) latest = last_stop (suc seq) evs (stop_of seq ev latest)

pub length-numbered : (seq : EventSeq) (evs : List Event) → length (numbered seq evs) ≡ length evs
unfolding numbered
length-numbered seq [] = refl
length-numbered seq (ev ∷ evs) = ap suc (length-numbered (suc seq) evs)

numbered-append :
    (seq : EventSeq) (xs ys : List Event)
    → numbered seq (xs ++ ys) ≡ numbered seq xs ++ numbered (seq + length xs) ys
unfolding numbered
numbered-append seq [] ys = ap (λ n. numbered n ys) (omega arith)
numbered-append seq (x ∷ xs) ys =
    ap (λ l. record { seq = seq; event = x } ∷ l)
      (numbered-append (suc seq) xs ys
        ∙ ap (λ n. numbered (suc seq) xs ++ numbered n ys) (omega arith))

-- Eviction keeps the last `capacity` entries.
evict_lem :
    (capacity : ℕ) (es : List SequencedEvent) → evict capacity es ≡ drop (length es - capacity) es
unfolding evict
evict_lem capacity [] = sym (drop-nil (0 - capacity))
evict_lem capacity (e ∷ es) = elim (Bool-cases (ltb capacity (suc (length es)))) [
  | inl over ↦
      (let one : suc (length es - capacity) ≡ suc (length es) - capacity = ground (arith, over) in
        rw over (evict_lem capacity es ∙ ap (λ n. drop n (e ∷ es)) one))
  | inr fits ↦
      (let none_over : 0 ≡ suc (length es) - capacity = ground (arith, fits) in
        rw fits (ap (λ n. drop n (e ∷ es)) none_over))
]

-- What the journal promises of its history: the last `capacity` events under their numbers, the
-- next number, and the last stop even when it is evicted.
pub record Holds (capacity : ℕ) (evs : List Event) (j : EventJournal) : Type 0 where
  pub next_lem : j.next_seq ≡ suc (length evs)
  pub entries_lem : j.entries ≡ drop (length evs - capacity) (numbered 1 evs)
  pub stopped_lem : j.latest_stopped ≡ last_stop 1 evs none

last_stop-append :
    (seq : EventSeq) (xs : List Event) (y : Event) (latest : Option (EventSeq × StoppedEvent))
    → last_stop seq (xs ++ y ∷ []) latest ≡ stop_of (seq + length xs) y (last_stop seq xs latest)
unfolding last_stop
last_stop-append seq [] y latest = ap (λ n. stop_of n y latest) (omega arith)
last_stop-append seq (x ∷ xs) y latest =
    last_stop-append (suc seq) xs y (stop_of seq x latest)
    ∙ ap (λ n. stop_of n y (last_stop (suc seq) xs (stop_of seq x latest))) (omega arith)

next_lem_after : (n : ℕ) → n < 2 ^ 64 - 2 → next_after (suc n) ≡ suc (suc n)
next_lem_after n h = ground arith

push-Holds :
    (capacity : ℕ) (evs : List Event) (ev : Event) (j : EventJournal)
    → length evs < 2 ^ 64 - 2
    → Holds capacity evs j
    → Holds capacity (evs ++ ev ∷ []) (push j ev capacity).1
unfolding push numbered
push-Holds capacity evs ev j h s =
    let k = length evs - capacity in
    let one = length-append evs (ev ∷ []) in
    let entry : SequencedEvent = record { seq = suc (length evs); event = ev } in
    let size = length-numbered 1 evs in
    let es = drop k (numbered 1 evs) in
    record {
      next_lem = ap next_after s.next_lem ∙ next_lem_after (length evs) h ∙ omega (arith, one);
      entries_lem =
          ap₂ (λ l n. evict capacity (l ++ record { seq = n; event = ev } ∷ [])) s.entries_lem
            s.next_lem
          ∙ evict_lem capacity (es ++ entry ∷ [])
          ∙ ap (λ l. drop (length (es ++ entry ∷ []) - capacity) l)
              (sym (drop-append k (numbered 1 evs) (entry ∷ []) (omega (arith, size))))
          ∙ sym (drop-add k (length (es ++ entry ∷ []) - capacity) (numbered 1 evs ++ entry ∷ []))
          ∙ ap₂ drop
              (omega
                (arith, one, size, length-append es (entry ∷ []), length-drop k (numbered 1 evs)))
              (sym (
                numbered-append 1 evs (ev ∷ [])
                ∙ ap (λ n. numbered 1 evs ++ record { seq = n; event = ev } ∷ []) (omega arith)));
      stopped_lem =
          ap₂ (λ n l. stop_of n ev l) s.next_lem s.stopped_lem
          ∙ ap (λ n. stop_of n ev (last_stop 1 evs none)) (omega arith)
          ∙ sym (last_stop-append 1 evs ev none);
    }

recorded-Holds-from :
    (capacity : ℕ) (past evs : List Event) (j : EventJournal)
    → length past + length evs < 2 ^ 64 - 1
    → Holds capacity past j
    → Holds capacity (past ++ evs) (recorded capacity evs j)
unfolding recorded
recorded-Holds-from capacity past [] j h s =
    subst (λ l. Holds capacity l j) (sym (append-nil past)) s
recorded-Holds-from capacity past (ev ∷ evs) j h s =
    subst (λ l. Holds capacity l (recorded capacity (ev ∷ evs) j)) (append_assoc past (ev ∷ []) evs)
      (recorded-Holds-from capacity (past ++ ev ∷ []) evs (push j ev capacity).1
        (omega (arith, h, length-append past (ev ∷ [])))
        (push-Holds capacity past ev j (omega (arith, h)) s))

pub recorded-Holds :
    (capacity : ℕ) (evs : List Event)
    → length evs < 2 ^ 64 - 1
    → Holds capacity evs (recorded capacity evs new)
unfolding numbered last_stop
recorded-Holds capacity evs h =
    recorded-Holds-from capacity [] evs new (omega (arith, h))
      (record { next_lem = refl; entries_lem = sym (drop-nil (0 - capacity)); stopped_lem = refl })
