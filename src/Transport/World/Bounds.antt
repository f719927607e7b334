-- ===== src/Transport/World/Bounds.antt =====
-- What holds of the connection between the steps: nothing is left in its outbound queue, and the
-- unfinished line is bounded while the reader runs.
use framewalk.Prelude.{
  ℕ, ◌≤◌, ◌≡◌, refl, sym, subst, ap, ◌∙◌, Bool, true, false, some, List, [], if◌then◌else◌, ltb,
  arith, length, drop, Bytes,
}
use mathlib.Core.Bool.{false≢true}
use framewalk.Wire.Framer.Stream.{IsValid}
use mathlib.Core.Option.{some-injective}
use framewalk.Wire.Framer.{pending_bytes}
use framewalk.Protocol.Event.{CommandHandle, Event, MiVersion}
use framewalk.Protocol.Connection.{Connection, receive_bytes, outbound}
use framewalk.Protocol.Connection.Outbound.{IsQueue}
use framewalk.Protocol.Connection.Receive.{IsReady, receive_bytes-Received}
use framewalk.Protocol.Connection.Session.{receive_bytes-Keeps}
use framewalk.Transport.Shared.{SharedState, record_event, mark_reader_exited}
use framewalk.Transport.Pump.{
  max_pending_bytes, ChunkResult, drained, buffer_overflow, read_chunk, dispatch_event,
  fire_pending, drain_pending,
}
use framewalk.Transport.Pump.Chunk.{with_events, read_chunk_lem}
use framewalk.Transport.Handle.{
  Request, submit_locked, register_pending, rollback, record_synthetic_log,
}
use framewalk.Transport.Handle.Outbound.{submit_locked-outbound}
use framewalk.Transport.World.{
  Reader, reading, dispatching, World, initial, Step, enters, queues, registers, sends, rolls_back,
  abandons, reads, overflows, closes, dispatches, resumes, marks, drains, logs, Steps, here, next,
}

-- The reader is in its loop.
abbrev pub runs : Reader → Bool
runs reading = true
runs (dispatching events) = true
runs _ = false

pub record IsQuiet (c : Connection) : Type 0 where
  pub ready : IsReady c
  pub queue : IsQueue c
  pub empty : outbound c ≡ []

abbrev IsBounded : Connection → Type 0
IsBounded c = pending_bytes c.framer ≤ max_pending_bytes

-- What is proved of every world.
pub record IsBehaved (w : World) : Type 0 where
  pub quiet : IsQuiet w.shared.connection
  pub bounded : runs w.reader ≡ true → IsBounded w.shared.connection

-- A chunk result whose connection is quiet, and bounded when the reader goes on.
data IsFine : ChunkResult → Type 0 where
  goes_on :
      (events : List Event) (c : Connection) → IsQuiet c → IsBounded c → IsFine (drained events c)
  stops : (n : ℕ) (c : Connection) → IsQuiet c → IsFine (buffer_overflow n c)

received-IsQuiet : (c : Connection) (bs : Bytes) → IsQuiet c → IsQuiet (receive_bytes c bs)
unfolding outbound
received-IsQuiet c bs q =
    let k = receive_bytes-Keeps c bs q.ready in
    record {
      ready = (receive_bytes-Received c bs q.ready).ready;
      queue = record {
        in_buffer = omega (arith, q.queue.in_buffer, ap length k.outbound, k.outbound_consumed);
      };
      empty =
          ap (λ n. drop n (receive_bytes c bs).outbound) k.outbound_consumed
          ∙ ap (drop c.outbound_consumed) k.outbound
          ∙ q.empty;
    }

with_events-IsQuiet :
    (events : List Event) (c : Connection) → IsQuiet c → IsQuiet (with_events events c)
unfolding outbound
with_events-IsQuiet events c q = record {
  ready = q.ready;
  queue = record { in_buffer = q.queue.in_buffer };
  empty = q.empty;
}

IsFine-if :
    (b : Bool) (n : ℕ) (c d : Connection) (events : List Event)
    → ltb max_pending_bytes n ≡ b
    → IsQuiet c
    → IsQuiet d
    → pending_bytes d.framer ≡ n
    → IsFine (if b then buffer_overflow n c else drained events d)
IsFine-if true n c d events e qc qd p = stops n c qc
IsFine-if false n c d events e qc qd p = goes_on events d qd (ground (arith, e, p))

read_chunk-IsFine : (c : Connection) (bs : Bytes) → IsQuiet c → IsFine (read_chunk c bs)
read_chunk-IsFine c bs q =
    let conn = receive_bytes c bs in
    let q' = received-IsQuiet c bs q in
    subst IsFine (sym (read_chunk_lem c bs)) (
      IsFine-if (ltb max_pending_bytes (pending_bytes conn.framer)) _ conn (with_events [] conn)
        conn.events refl q' (with_events-IsQuiet [] conn q') refl)

drained-IsFine :
    (events : List Event) (c : Connection) → IsFine (drained events c) → IsQuiet c × IsBounded c
drained-IsFine events c (goes_on _ _ q b) = (q, b)

overflow-IsFine : (n : ℕ) (c : Connection) → IsFine (buffer_overflow n c) → IsQuiet c
overflow-IsFine n c (stops _ _ q) = q

submit_locked-IsQuiet :
    (c d : Connection) (request : Request) (handle : CommandHandle) (bytes : Bytes)
    → submit_locked c request ≡ some (handle, bytes, d)
    → IsQuiet c
    → IsQuiet d × (d.framer ≡ c.framer)
submit_locked-IsQuiet c d request handle bytes e q =
    let (d', e', empty, q', same) = submit_locked-outbound c request q.queue in
    let is_d : d' ≡ d = ap (λ (h, bs, x). x) (some-injective _ _ (sym e' ∙ e)) in
    let there = subst (λ x. IsQuiet x × (x.framer ≡ c.framer)) is_d in
    there (record { ready = subst IsValid (sym same) q.ready; queue = q'; empty = empty }, same)

-- A step that leaves the connection and lets the reader run only where it ran before.
unchanged-IsBehaved :
    {w v : World}
    → v.shared.connection ≡ w.shared.connection
    → (runs v.reader ≡ true → runs w.reader ≡ true)
    → IsBehaved w
    → IsBehaved v
unchanged-IsBehaved e r h = record {
  quiet = subst IsQuiet (sym e) h.quiet;
  bounded = λ on. subst IsBounded (sym e) (h.bounded (r on));
}

-- The reader ran before the step.
running : {r s : Reader} → r ≡ s → runs s ≡ true → runs r ≡ true
running e on = ap runs e ∙ on

dispatch_event-connection :
    (s : SharedState ℕ) (event : Event) → (dispatch_event s event).1.connection ≡ s.connection
unfolding dispatch_event fire_pending record_event
dispatch_event-connection s (Event.command_completed handle outcome) = refl
dispatch_event-connection s _ = refl

pub Step-IsBehaved : {w v : World} → Step w v → IsBehaved w → IsBehaved v
unfolding register_pending rollback mark_reader_exited drain_pending record_synthetic_log
    record_event
Step-IsBehaved (enters w id request alive free) h = unchanged-IsBehaved refl (λ on. on) h
Step-IsBehaved (queues w id request handle bytes c e q) h =
    let (quiet, same) =
      submit_locked-IsQuiet w.shared.connection c request handle bytes q h.quiet in
    record {
      quiet = quiet;
      bounded = λ on. subst (λ f. pending_bytes f ≤ max_pending_bytes) (sym same) (h.bounded on);
    }
Step-IsBehaved (registers w id handle bytes e) h = unchanged-IsBehaved refl (λ on. on) h
Step-IsBehaved (sends w id handle bytes e) h = unchanged-IsBehaved refl (λ on. on) h
Step-IsBehaved (rolls_back w id handle bytes e) h = unchanged-IsBehaved refl (λ on. on) h
Step-IsBehaved (abandons w id call e can) h = unchanged-IsBehaved refl (λ on. on) h
Step-IsBehaved (reads w bytes events c e r) h =
    let (quiet, bounded) =
      drained-IsFine events c
        (subst IsFine r (read_chunk-IsFine w.shared.connection bytes h.quiet)) in
    record { quiet = quiet; bounded = λ on. bounded }
Step-IsBehaved (overflows w bytes n c e r) h = record {
  quiet =
      overflow-IsFine n c (subst IsFine r (read_chunk-IsFine w.shared.connection bytes h.quiet));
  bounded = λ on. absurd (false≢true on);
}
Step-IsBehaved (closes w e) h = unchanged-IsBehaved refl (λ on. running e refl) h
Step-IsBehaved (dispatches w event events e) h =
    unchanged-IsBehaved (dispatch_event-connection w.shared event) (λ on. running e refl) h
Step-IsBehaved (resumes w e) h = unchanged-IsBehaved refl (λ on. running e refl) h
Step-IsBehaved (marks w e) h = unchanged-IsBehaved refl (λ on. absurd (false≢true on)) h
Step-IsBehaved (drains w e) h = unchanged-IsBehaved refl (λ on. absurd (false≢true on)) h
Step-IsBehaved (logs w text) h = unchanged-IsBehaved refl (λ on. on) h

-- After every interleaving of calls, reader and log, no byte is left in the outbound queue of
-- the connection, its framer and its queue are well-formed, and while the reader is in its loop
-- the unfinished line is at most 16 MiB.
pub Steps-IsBehaved : {version : MiVersion} {w : World} → Steps (initial version) w → IsBehaved w
unfolding outbound pending_bytes
Steps-IsBehaved {version} here = record {
  quiet = record {
    ready = record { in_buf = omega arith };
    queue = record { in_buffer = omega arith };
    empty = refl;
  };
  bounded = λ on. ground arith;
}
Steps-IsBehaved (next r s) = Step-IsBehaved s (Steps-IsBehaved r)
