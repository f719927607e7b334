-- ===== src/Transport/World/Tracked.antt =====
-- No waiting call is lost: its sender is in the pending map, or it was fired or dropped.
use framewalk.Prelude.{
  ℕ, ◌≡◌, refl, sym, ap, ◌∙◌, Bool, true, false, ◌||◌, none, some, List, ◌++◌, ◌==◌, ==→eq,
  if◌then◌else◌, arith, ◌⊎◌, inl, inr, Map, Bytes, nat_key, get, insert, get-insert, eqb_refl,
}
use mathlib.Core.Option.{some-injective, none-ne-some}
use framewalk.Protocol.Event.{CommandHandle, MiVersion}
use framewalk.Transport.Shared.{Effect, SharedState, record_event, mark_reader_exited}
use framewalk.Transport.Pump.{dispatch_event, drain_pending}
use framewalk.Transport.Handle.{dropped_if, register_pending, rollback, record_synthetic_log}
use framewalk.Transport.World.{
  Call, entered, submitted, registered, awaiting, failed, abandoned, World, initial, at,
  after_effects, Step, enters, queues, registers, sends, rolls_back, abandons, reads, overflows,
  closes, dispatches, resumes, marks, drains, logs, Steps, here, next, signalled, waits_on,
  without_seq, marked,
}
use framewalk.Transport.World.Covers.{
  Covers, signalled-append, signalled-dropped, remove-Covers, insert-Covers, drops-Covers,
  dispatch_event-Covers, later-signal,
}

abbrev pub IsTracked : World → Type 0
IsTracked w =
    (id : ℕ) (handle : CommandHandle)
    → waits_on (get id w.calls) ≡ some handle
    → (get handle w.shared.pending ≡ some id) ⊎ (signalled id w.trace ≡ true)

-- A step that changes neither the pending map nor the trace, and leaves every call waiting where
-- it did, or waiting no more.
calls-IsTracked :
    (w : World) (calls : Map ℕ Call)
    → IsTracked w
    → ((id : ℕ) (handle : CommandHandle)
        → waits_on (get id calls) ≡ some handle
        → waits_on (get id w.calls) ≡ some handle)
    → IsTracked (record w { calls = calls })
calls-IsTracked w calls t h id handle e = t id handle (h id handle e)

effects-IsTracked :
    (w : World) (fx : List (Effect ℕ)) (s : SharedState ℕ)
    → IsTracked w
    → Covers w.shared.pending fx s.pending
    → IsTracked (after_effects w (fx, s))
effects-IsTracked w fx s t covers id handle e = elim (t id handle e) [
  | inl held ↦ elim (covers handle id held) [
    | inl kept ↦ inl kept
    | inr signal ↦ inr (signalled-append id w.trace fx ∙ rw signal or_true)
  ]
  | inr signal ↦ inr (later-signal id w.trace fx signal)
]
  where
    or_true : (signalled id w.trace || true) ≡ true
    or_true = ground arith

-- A call that moves on waits for the same handle or for none.
moved-waits :
    (w : World) (id : ℕ) (call : Call)
    → ((handle : CommandHandle)
        → waits_on (some call) ≡ some handle
        → waits_on (get id w.calls) ≡ some handle)
    → (j : ℕ) (handle : CommandHandle) → waits_on (get j (insert id call w.calls)) ≡ some handle
    → waits_on (get j w.calls) ≡ some handle
moved-waits w id call h j handle e =
    by_id (id == j) refl (sym (ap waits_on (get-insert j id call w.calls)) ∙ e)
  where
    by_id :
        (b : Bool)
        → (id == j) ≡ b
        → waits_on (if b then some call else get j w.calls) ≡ some handle
        → waits_on (get j w.calls) ≡ some handle
    by_id true same k = sym (ap (λ i. waits_on (get i w.calls)) (==→eq id j same)) ∙ h handle k
    by_id false other k = k

register-IsTracked :
    (w : World) (id : ℕ) (handle : CommandHandle) (bytes : Bytes)
    → IsTracked w
    → IsTracked
        (at (after_effects w (register_pending w.shared handle id)) id (registered handle bytes))
unfolding register_pending
register-IsTracked w id handle bytes t j wanted e =
    by_id (id == j) refl (sym (ap waits_on (get-insert j id (registered handle bytes) w.calls)) ∙ e)
  where
    old : IsTracked (after_effects w (register_pending w.shared handle id))
    old =
        effects-IsTracked w _ (register_pending w.shared handle id).1 t
          (insert-Covers w.shared.pending handle id)

    by_id :
        (b : Bool)
        → (id == j) ≡ b
        → waits_on (if b then some (registered handle bytes) else get j w.calls) ≡ some wanted
        → (get wanted (insert handle id w.shared.pending) ≡ some j)
          ⊎ (signalled j (w.trace ++ dropped_if (get handle w.shared.pending)) ≡ true)
    by_id true same k = inl (
        ap (λ h. get h (insert handle id w.shared.pending)) (sym (some-injective _ _ k))
        ∙ get-insert handle handle id w.shared.pending
        ∙ rw (eqb_refl handle) (ap some (==→eq id j same)))
    by_id false other k = old j wanted k

idle :
    (call : Call) (h : CommandHandle) {A : Type 0}
    → waits_on (some call) ≡ none
    → waits_on (some call) ≡ some h
    → A
idle call h none_h some_h = absurd (none-ne-some h (sym none_h ∙ some_h))

pub Step-IsTracked : {w v : World} → Step w v → IsTracked w → IsTracked v
unfolding mark_reader_exited drain_pending record_synthetic_log record_event rollback
Step-IsTracked (enters w id request alive free) t =
    calls-IsTracked w _ t
      (moved-waits w id (entered request) λ h k. idle (entered request) h refl k)
Step-IsTracked (queues w id request handle bytes c e q) t =
    calls-IsTracked w _ t
      (moved-waits w id (submitted handle bytes) λ h k. idle (submitted handle bytes) h refl k)
Step-IsTracked (registers w id handle bytes e) t = register-IsTracked w id handle bytes t
Step-IsTracked (sends w id handle bytes e) t =
    calls-IsTracked w _ t (moved-waits w id (awaiting handle) λ h k. ap waits_on e ∙ k)
Step-IsTracked (rolls_back w id handle bytes e) t =
    let undone = effects-IsTracked w _ (rollback w.shared handle).1 t (
      remove-Covers w.shared.pending handle (dropped_if (get handle w.shared.pending))
        λ j h. signalled-dropped j (get handle w.shared.pending) h) in
    calls-IsTracked (after_effects w (rollback w.shared handle)) _ undone
      (moved-waits w id failed λ h k. idle failed h refl k)
Step-IsTracked (abandons w id call e can) t =
    calls-IsTracked w _ t (moved-waits w id abandoned λ h k. idle abandoned h refl k)
Step-IsTracked (reads w bytes events c e r) t = t
Step-IsTracked (overflows w bytes pending c e r) t = t
Step-IsTracked (closes w e) t = t
Step-IsTracked (dispatches w event events e) t =
    effects-IsTracked w _ (dispatch_event w.shared event).1 t (dispatch_event-Covers w.shared event)
Step-IsTracked (resumes w e) t = t
Step-IsTracked (marks w e) t =
    effects-IsTracked w _ (mark_reader_exited w.shared).1 t λ h id k. inl k
Step-IsTracked (drains w e) t =
    effects-IsTracked w _ (drain_pending w.shared).1 t (drops-Covers w.shared.pending)
Step-IsTracked (logs w text) t =
    effects-IsTracked w _ (without_seq (record_synthetic_log w.shared text)).1 t λ h id k. inl k

-- After every interleaving of calls, reader and log, a call that waits for its answer has its
-- sender in the pending table under the handle it waits for, or the sender was fired or dropped.
pub Steps-IsTracked : {version : MiVersion} {w : World} → Steps (initial version) w → IsTracked w
unfolding get
Steps-IsTracked here = λ id handle e. absurd (none-ne-some handle e)
Steps-IsTracked (next r s) = Step-IsTracked s (Steps-IsTracked r)

-- When the reader has marked itself dead, the drain that follows fires or drops the sender of
-- every call that waits at that moment, unless that was done before.
pub drains-signals :
    {version : MiVersion} {w : World} (id : ℕ) (handle : CommandHandle)
    → Steps (initial version) w
    → w.reader ≡ marked
    → waits_on (get id w.calls) ≡ some handle
    → signalled id (after_effects w (drain_pending w.shared)).trace ≡ true
unfolding drain_pending get
drains-signals {version} {w} id handle r e waits =
    let drained =
      effects-IsTracked w _ (drain_pending w.shared).1 (Steps-IsTracked r)
        (drops-Covers w.shared.pending) in
    elim (drained id handle waits) [
      | inl held ↦ absurd (none-ne-some id held)
      | inr signal ↦ signal
    ]
