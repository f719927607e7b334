-- ===== src/Transport/World.antt =====
-- Calls of `submit`, the reader task and the transport's log interleaved: one step for each
-- stretch of code that no other task can interrupt where it matters, as the locks delimit it.
pub mod Bounds
mod Examples
pub mod Orphan
pub mod Covers
pub mod Tracked
use framewalk.Prelude.{
  ℕ, ◌≡◌, Bool, true, false, ◌||◌, Option, none, some, List, [], ◌∷◌, ◌++◌, ◌==◌, Bytes, Map,
  nat_key, get, insert,
}
use framewalk.Protocol.Event.{CommandHandle, Event, MiVersion}
use framewalk.Protocol.Connection.{Connection, with_version_hint}
use framewalk.Transport.Journal.{EventSeq}
use framewalk.Transport.Shared.{Effect, sent, dropped, SharedState, shared_with, mark_reader_exited}
use framewalk.Transport.Pump.{drained, buffer_overflow, read_chunk, dispatch_event, drain_pending}
use framewalk.Transport.Handle.{
  Request, submit_locked, register_pending, rollback, record_synthetic_log,
}

-- Where a call of `submit` or `submit_raw` stands.
pub data Call : Type 0 where
  -- It has seen the reader alive.
  entered : Request → Call
  -- It has released the lock of the connection.
  submitted : CommandHandle → Bytes → Call
  -- Its sender is in the pending map; it waits for the writer channel.
  registered : CommandHandle → Bytes → Call
  -- It waits for its receiver.
  awaiting : CommandHandle → Call
  failed abandoned : Call

pub data Reader : Type 0 where
  reading : Reader
  dispatching : List Event → Reader
  -- The loop has returned; then the guard has marked, then it has drained.
  leaving marked gone : Reader

-- A call is named by a number, and so is its sender. `trace` is what was done with the channels.
pub record World : Type 0 where
  pub shared : SharedState ℕ
  pub calls : Map ℕ Call
  pub reader : Reader
  pub trace : List (Effect ℕ)

abbrev pub initial : MiVersion → World
initial version = record {
  shared = shared_with (with_version_hint version);
  calls = [];
  reader = reading;
  trace = [];
}

-- A call whose future can be dropped at its await.
abbrev pub awaits : Call → Bool
awaits (registered handle bytes) = true
awaits (awaiting handle) = true
awaits _ = false

abbrev pub at : World → ℕ → Call → World
at w id call = record w { calls = insert id call w.calls }

-- The world after a function that changes the shared state and uses the channels.
abbrev pub after_effects : World → List (Effect ℕ) × SharedState ℕ → World
after_effects w (fx, s) = record w { shared = s; trace = w.trace ++ fx }

abbrev pub with_connection : World → Connection → World
with_connection w c = record w { shared = record w.shared { connection = c } }

abbrev pub with_reader : World → Reader → World
with_reader w r = record w { reader = r }

abbrev pub without_seq :
    EventSeq × List (Effect ℕ) × SharedState ℕ → List (Effect ℕ) × SharedState ℕ
without_seq (seq, fx, s) = (fx, s)

pub data Step : World → World → Type 0 where
  enters :
      (w : World) (id : ℕ) (request : Request)
      → w.shared.reader_alive ≡ true
      → get id w.calls ≡ none
      → Step w (at w id (entered request))
  queues :
      (w : World) (id : ℕ) (request : Request) (handle : CommandHandle) (bytes : Bytes)
      (c : Connection)
      → get id w.calls ≡ some (entered request)
      → submit_locked w.shared.connection request ≡ some (handle, bytes, c)
      → Step w (at (with_connection w c) id (submitted handle bytes))
  registers :
      (w : World) (id : ℕ) (handle : CommandHandle) (bytes : Bytes)
      → get id w.calls ≡ some (submitted handle bytes)
      → Step w
          (at (after_effects w (register_pending w.shared handle id)) id (registered handle bytes))
  sends :
      (w : World) (id : ℕ) (handle : CommandHandle) (bytes : Bytes)
      → get id w.calls ≡ some (registered handle bytes)
      → Step w (at w id (awaiting handle))
  rolls_back :
      (w : World) (id : ℕ) (handle : CommandHandle) (bytes : Bytes)
      → get id w.calls ≡ some (registered handle bytes)
      → Step w (at (after_effects w (rollback w.shared handle)) id failed)
  abandons :
      (w : World) (id : ℕ) (call : Call)
      → get id w.calls ≡ some call
      → awaits call ≡ true
      → Step w (at w id abandoned)
  reads :
      (w : World) (bytes : Bytes) (events : List Event) (c : Connection)
      → w.reader ≡ reading
      → read_chunk w.shared.connection bytes ≡ drained events c
      → Step w (with_reader (with_connection w c) (dispatching events))
  overflows :
      (w : World) (bytes : Bytes) (pending : ℕ) (c : Connection)
      → w.reader ≡ reading
      → read_chunk w.shared.connection bytes ≡ buffer_overflow pending c
      → Step w (with_reader (with_connection w c) leaving)
  closes : (w : World) → w.reader ≡ reading → Step w (with_reader w leaving)
  dispatches :
      (w : World) (event : Event) (events : List Event)
      → w.reader ≡ dispatching (event ∷ events)
      → Step w (with_reader (after_effects w (dispatch_event w.shared event)) (dispatching events))
  resumes : (w : World) → w.reader ≡ dispatching [] → Step w (with_reader w reading)
  marks :
      (w : World)
      → w.reader ≡ leaving
      → Step w (with_reader (after_effects w (mark_reader_exited w.shared)) marked)
  drains :
      (w : World)
      → w.reader ≡ marked
      → Step w (with_reader (after_effects w (drain_pending w.shared)) gone)
  logs :
      (w : World) (text : Bytes)
      → Step w (after_effects w (without_seq (record_synthetic_log w.shared text)))

-- Any number of steps.
pub data Steps (w : World) : World → Type 0 where
  here : Steps w w
  next : {u v : World} → Steps w u → Step u v → Steps w v

-- Whether a sender was fired or dropped.
abbrev pub signals : ℕ → Effect ℕ → Bool
signals id (sent tx outcome) = tx == id
signals id (dropped tx) = tx == id
signals id _ = false

unfoldable pub signalled : ℕ → List (Effect ℕ) → Bool
signalled id [] = false
signalled id (e ∷ fx) = signals id e || signalled id fx

-- The handle under which a call waits.
abbrev pub waits_on : Option Call → Option CommandHandle
waits_on (some (registered handle bytes)) = some handle
waits_on (some (awaiting handle)) = some handle
waits_on _ = none
