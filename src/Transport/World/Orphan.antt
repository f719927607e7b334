-- ===== src/Transport/World/Orphan.antt =====
-- A call that passes the check of the reader and registers after the drain waits for ever.
use framewalk.Prelude.{
  ℕ, ◌≡◌, ◌≢◌, refl, sym, ap, ◌∙◌, Bool, true, false, none, some, [], ◌==◌, if◌then◌else◌, Map,
  Bytes, nat_key, get, insert, get-insert,
}
use mathlib.Core.Bool.{false≢true}
use mathlib.Core.Option.{some-injective, none-ne-some}
use framewalk.Protocol.Connection.{Connection, with_version_hint}
use framewalk.Protocol.Event.{CommandHandle, MiVersion}
use framewalk.Transport.Shared.{mark_reader_exited, record_event}
use framewalk.Transport.Pump.{drain_pending, drops}
use framewalk.Transport.Handle.{Request, submit_locked, register_pending, record_synthetic_log}
use framewalk.Transport.World.{
  Call, Reader, entered, submitted, registered, awaiting, failed, abandoned, leaving, marked, gone,
  World, initial, at, with_connection, with_reader, after_effects, Step, enters, queues, registers,
  sends, rolls_back, abandons, reads, overflows, closes, dispatches, resumes, marks, drains, logs,
  Steps, here, next, signalled,
}
use framewalk.Transport.World.Covers.{signalled-append}

-- A call that is past its submission.
abbrev settled : Call → Bool
settled (awaiting handle) = true
settled failed = true
settled abandoned = true
settled _ = false

-- The reader is gone, and no call is under way but those that wait.
record IsOver (id : ℕ) (w : World) : Type 0 where
  left : w.reader ≡ gone
  dead : w.shared.reader_alive ≡ false
  no_more : (j : ℕ) (call : Call) → get j w.calls ≡ some call → settled call ≡ true
  silent : signalled id w.trace ≡ false

unsettled :
    {id : ℕ} {w : World} {A : Type 0}
    → IsOver id w
    → (j : ℕ) (call : Call) → get j w.calls ≡ some call
    → settled call ≡ false
    → A
unsettled o j call e f = absurd (false≢true (sym f ∙ o.no_more j call e))

no_more-at :
    (m : Map ℕ Call) (j k : ℕ) (new call : Call)
    → settled new ≡ true
    → ((i : ℕ) (c : Call) → get i m ≡ some c → settled c ≡ true)
    → get j (insert k new m) ≡ some call
    → settled call ≡ true
no_more-at m j k new call s h e = by_id (k == j) (sym (get-insert j k new m) ∙ e)
  where
    by_id : (b : Bool) → (if b then some new else get j m) ≡ some call → settled call ≡ true
    by_id true x = ap settled (sym (some-injective _ _ x)) ∙ s
    by_id false x = h j call x

is_gone : Reader → Bool
is_gone gone = true
is_gone _ = false

gone_ne : {r : Reader} → gone ≡ r → is_gone r ≢ false
unfolding is_gone
gone_ne e h = false≢true (sym h ∙ ap is_gone (sym e))

Step-IsOver : {id : ℕ} {w v : World} → Step w v → IsOver id w → IsOver id v
unfolding record_synthetic_log record_event signalled is_gone
Step-IsOver (enters w j request alive free) o = absurd (false≢true (sym o.dead ∙ alive))
Step-IsOver (queues w j request handle bytes c e q) o = unsettled o j (entered request) e refl
Step-IsOver (registers w j handle bytes e) o = unsettled o j (submitted handle bytes) e refl
Step-IsOver (sends w j handle bytes e) o = unsettled o j (registered handle bytes) e refl
Step-IsOver (rolls_back w j handle bytes e) o = unsettled o j (registered handle bytes) e refl
Step-IsOver (abandons w j call e can) o = record {
  left = o.left;
  dead = o.dead;
  no_more = λ i k h. no_more-at w.calls i j abandoned k refl o.no_more h;
  silent = o.silent;
}
Step-IsOver (reads w bytes events c e r) o = absurd (gone_ne (sym o.left ∙ e) refl)
Step-IsOver (overflows w bytes pending c e r) o = absurd (gone_ne (sym o.left ∙ e) refl)
Step-IsOver (closes w e) o = absurd (gone_ne (sym o.left ∙ e) refl)
Step-IsOver (dispatches w event events e) o = absurd (gone_ne (sym o.left ∙ e) refl)
Step-IsOver (resumes w e) o = absurd (gone_ne (sym o.left ∙ e) refl)
Step-IsOver (marks w e) o = absurd (gone_ne (sym o.left ∙ e) refl)
Step-IsOver (drains w e) o = absurd (gone_ne (sym o.left ∙ e) refl)
Step-IsOver {id} (logs w text) o = record {
  left = o.left;
  dead = o.dead;
  no_more = o.no_more;
  silent = signalled-append id w.trace _ ∙ rw o.silent;
}

Steps-IsOver : {id : ℕ} {w v : World} → Steps w v → IsOver id w → IsOver id v
Steps-IsOver here o = o
Steps-IsOver (next r s) o = Step-IsOver s (Steps-IsOver r o)

one_waits :
    (handle : CommandHandle) (b : Bool) (call : Call)
    → (if b then some (awaiting handle) else none) ≡ some call
    → settled call ≡ true
one_waits handle true call h = ap settled (sym (some-injective _ _ h))
one_waits handle false call h = absurd (none-ne-some call h)

-- A call enters, the reader leaves and drains, and then the call goes on.
module _ (version : MiVersion) (request : Request) (handle : CommandHandle) (bytes : Bytes)
    (c : Connection) where
  abbrev has_entered : World
  has_entered = at (initial version) 0 (entered request)

  abbrev has_marked : World
  has_marked =
      let left = with_reader has_entered leaving in
      with_reader (after_effects left (mark_reader_exited left.shared)) marked

  abbrev has_drained : World
  has_drained = with_reader (after_effects has_marked (drain_pending has_marked.shared)) gone

  abbrev has_submitted : World
  has_submitted = at (with_connection has_drained c) 0 (submitted handle bytes)

  abbrev has_registered : World
  has_registered =
      at (after_effects has_submitted (register_pending has_submitted.shared handle 0)) 0
        (registered handle bytes)

  abbrev pub stranded : World
  stranded = at has_registered 0 (awaiting handle)

  stands : (m : Map ℕ Call) (call : Call) → get 0 (insert 0 call m) ≡ some call
  stands m call = get-insert 0 0 call m

  module _ (q : submit_locked (with_version_hint version) request ≡ some (handle, bytes, c)) where
    strands : Steps (initial version) stranded
    unfolding mark_reader_exited drain_pending get
    strands =
        next
          (next
            (next
              (next
                (next
                  (next (next here (enters (initial version) 0 request refl refl))
                    (closes has_entered refl))
                  (marks (with_reader has_entered leaving) refl))
                (drains has_marked refl))
              (queues has_drained 0 request handle bytes c (stands [] (entered request)) q))
            (registers has_submitted 0 handle bytes
              (stands has_drained.calls (submitted handle bytes))))
          (sends has_registered 0 handle bytes
            (stands has_submitted.calls (registered handle bytes)))

  settled_all : (j : ℕ) (call : Call) → get j stranded.calls ≡ some call → settled call ≡ true
  unfolding mark_reader_exited drain_pending register_pending get insert
  settled_all j call h = one_waits handle (0 == j) call h

  stranded-IsOver : IsOver 0 stranded
  unfolding mark_reader_exited drain_pending register_pending signalled drops get
  stranded-IsOver = record { left = refl; dead = refl; no_more = settled_all; silent = refl }

  -- When a submission can be queued on a fresh connection, the steps reach a world in which a call
  -- waits for its receiver although the reader has drained and gone, and in no world reached from
  -- it is the sender of that call fired or dropped.
  pub stranded-waits :
      (v : World)
      → submit_locked (with_version_hint version) request ≡ some (handle, bytes, c)
      → Steps stranded v
      → Steps (initial version) stranded
        × (get 0 stranded.calls ≡ some (awaiting handle))
        × (signalled 0 v.trace ≡ false)
  stranded-waits v q later = (
    strands q,
    stands has_registered.calls (awaiting handle),
    (Steps-IsOver later stranded-IsOver).silent,
  )
