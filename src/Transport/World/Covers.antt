-- ===== src/Transport/World/Covers.antt =====
-- Whoever takes a sender out of the pending map fires it or drops it.
use framewalk.Prelude.{
  ℕ, ◌≡◌, refl, ap, ◌∙◌, Bool, true, false, ◌||◌, Option, none, some, List, [], ◌∷◌, ◌++◌, ◌==◌,
  ==→eq, if◌then◌else◌, arith, ◌⊎◌, inl, inr, Map, nat_key, get, insert, remove, get-insert,
  get-remove, Bool-cases,
}
use mathlib.Core.Option.{some-injective}
use framewalk.Protocol.Event.{CommandHandle, CommandOutcome, Event}
use framewalk.Transport.Shared.{Effect, dropped, SharedState, record_event}
use framewalk.Transport.Pump.{fired, fire_pending, dispatch_event, drops}
use framewalk.Transport.Handle.{dropped_if}
use framewalk.Transport.World.{signalled}

pub signalled-append :
    (id : ℕ) (fx gx : List (Effect ℕ))
    → signalled id (fx ++ gx) ≡ (signalled id fx || signalled id gx)
unfolding signalled
signalled-append id [] gx = refl
signalled-append id (e ∷ fx) gx = ground (arith, signalled-append id fx gx)

-- A pending map loses no sender without a signal.
abbrev pub Covers : Map CommandHandle ℕ → List (Effect ℕ) → Map CommandHandle ℕ → Type 0
Covers m fx m' =
    (handle : CommandHandle) (id : ℕ)
    → get handle m ≡ some id
    → (get handle m' ≡ some id) ⊎ (signalled id fx ≡ true)

pub signalled-dropped : (id : ℕ) (o : Option ℕ) → o ≡ some id → signalled id (dropped_if o) ≡ true
unfolding signalled
signalled-dropped id none h = ground arith
signalled-dropped id (some tx) h = let same = some-injective _ _ h in ground (arith, same)

signalled-fired :
    (id : ℕ) (o : Option ℕ) (outcome : CommandOutcome)
    → o ≡ some id
    → signalled id (fired o outcome) ≡ true
unfolding signalled
signalled-fired id none outcome h = ground arith
signalled-fired id (some tx) outcome h = let same = some-injective _ _ h in ground (arith, same)

-- Removing a handle, with a signal for the sender that stood there.
pub remove-Covers :
    (m : Map CommandHandle ℕ) (gone : CommandHandle) (fx : List (Effect ℕ))
    → ((id : ℕ) → get gone m ≡ some id → signalled id fx ≡ true)
    → Covers m fx (remove gone m)
remove-Covers m gone fx h handle id e = elim (Bool-cases (gone == handle)) [
  | inl same ↦ inr (h id (ap (λ k. get k m) (==→eq gone handle same) ∙ e))
  | inr other ↦ inl (get-remove handle gone m ∙ rw other e)
]

pub insert-Covers :
    (m : Map CommandHandle ℕ) (new : CommandHandle) (tx : ℕ)
    → Covers m (dropped_if (get new m)) (insert new tx m)
insert-Covers m new tx handle id e = elim (Bool-cases (new == handle)) [
  | inl same ↦
      inr (signalled-dropped id (get new m) (ap (λ k. get k m) (==→eq new handle same) ∙ e))
  | inr other ↦ inl (get-insert handle new tx m ∙ rw other e)
]

pub drops-Covers : (m : Map CommandHandle ℕ) → Covers m (drops m) []
unfolding drops signalled get
drops-Covers [] handle id e = inl e
drops-Covers ((k, tx) ∷ m) handle id e = first_or_later (k == handle) (drops-Covers m handle id) e
  where
    first_or_later :
        (b : Bool)
        → (get handle m ≡ some id → (none ≡ some id) ⊎ (signalled id (drops m) ≡ true))
        → (if b then some tx else get handle m) ≡ some id
        → (none ≡ some id) ⊎ (signalled id (dropped tx ∷ drops m) ≡ true)
    first_or_later true rest h = inr (let same = some-injective _ _ h in ground (arith, same))
    first_or_later false rest h = elim (rest h) [
      | inl gone ↦ inl gone
      | inr later ↦ inr (ground (arith, later))
    ]

fire_pending-Covers :
    (s : SharedState ℕ) (event : Event)
    → Covers s.pending (fire_pending s event).0 (fire_pending s event).1.pending
unfolding fire_pending
fire_pending-Covers s (Event.command_completed handle outcome) =
    remove-Covers s.pending handle (fired (get handle s.pending) outcome)
      λ id h. signalled-fired id (get handle s.pending) outcome h
fire_pending-Covers s _ = λ handle id e. inl e

pub later-signal :
    (id : ℕ) (fx gx : List (Effect ℕ)) → signalled id fx ≡ true → signalled id (fx ++ gx) ≡ true
later-signal id fx gx h = signalled-append id fx gx ∙ rw h

pub dispatch_event-Covers :
    (s : SharedState ℕ) (event : Event)
    → Covers s.pending (dispatch_event s event).0 (dispatch_event s event).1.pending
unfolding dispatch_event record_event
dispatch_event-Covers s event handle id e = elim (fire_pending-Covers s event handle id e) [
  | inl kept ↦ inl kept
  | inr signal ↦ inr (later-signal id (fire_pending s event).0 _ signal)
]
