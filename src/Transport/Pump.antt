-- ===== src/Transport/Pump.antt =====
-- crates/framewalk-mi-transport/src/pump.rs: what the reader task does.
pub mod Chunk
use framewalk.Prelude.{
  ℕ, zero, suc, ◌*◌, Bool, Option, none, some, List, [], ◌∷◌, ◌++◌, ltb, if◌then◌else◌, length,
  Bytes, Map, nat_key, get, remove,
}
use framewalk.Wire.Framer.{pending_bytes}
use framewalk.Protocol.Event.{CommandHandle, CommandOutcome, Event}
use framewalk.Protocol.Connection.{Connection, receive_bytes, poll_event}
use framewalk.Transport.Shared.{
  Effect, sent, dropped, broadcast, notified, SharedState, mark_reader_exited, record_event,
}

abbrev pub max_pending_bytes : ℕ
max_pending_bytes = 16 * 1024 * 1024

-- `while let Some(event) = conn.poll_event() { events.push(event); }`, on fuel.
unfoldable pub poll_round :
    (Connection → List Event × Connection) → Option Event × Connection → List Event × Connection
poll_round again (none, c) = ([], c)
poll_round again (some event, c) = let (events, d) = again c in (event ∷ events, d)

unfoldable pub poll_all : ℕ → Connection → List Event × Connection
unfolding poll_event poll_round
poll_all zero c = ([], c)
poll_all (suc fuel) c = poll_round (poll_all fuel) (poll_event c)

-- What a chunk leads to, under the lock of the connection.
pub data ChunkResult : Type 0 where
  drained : List Event → Connection → ChunkResult
  buffer_overflow : ℕ → Connection → ChunkResult

unfoldable pub read_chunk : Connection → Bytes → ChunkResult
unfolding receive_bytes pending_bytes poll_all
read_chunk c bytes =
    let conn = receive_bytes c bytes in
    let pending = pending_bytes conn.framer in
    let (events, rest) = poll_all (suc (length conn.events)) conn in
    if ltb max_pending_bytes pending then buffer_overflow pending conn else drained events rest

module _ {S : Type 0} where
  abbrev pub fired : Option S → CommandOutcome → List (Effect S)
  fired none outcome = []
  fired (some tx) outcome = sent tx outcome ∷ []

  -- The completion of a command takes its sender out of the pending map and fires it.
  unfoldable pub fire_pending : SharedState S → Event → List (Effect S) × SharedState S
  unfolding get remove
  fire_pending s (Event.command_completed handle outcome) =
      (fired (get handle s.pending) outcome, record s { pending = remove handle s.pending })
  fire_pending s _ = ([], s)

  unfoldable pub dispatch_event : SharedState S → Event → List (Effect S) × SharedState S
  unfolding fire_pending record_event
  dispatch_event s event =
      let (fires, t) = fire_pending s event in
      let (seq, wakes, u) = record_event t event in (fires ++ (wakes ++ broadcast event ∷ []), u)

  unfoldable pub drops : Map CommandHandle S → List (Effect S)
  drops [] = []
  drops ((handle, tx) ∷ m) = dropped tx ∷ drops m

  -- The second half of `PendingDrainGuard::drop`, after `mark_reader_exited`.
  unfoldable pub drain_pending : SharedState S → List (Effect S) × SharedState S
  unfolding drops
  drain_pending s = (drops s.pending, record s { pending = [] })
