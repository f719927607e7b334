-- ===== src/Transport/Pump/Chunk.antt =====
-- What a chunk leads to, with the loop of polls unrolled.
use framewalk.Prelude.{
  ℕ, zero, suc, ◌<◌, ◌≡◌, refl, ap, List, [], ◌∷◌, arith, ltb, if◌then◌else◌, length, Bytes,
}
use framewalk.Wire.Framer.{pending_bytes}
use framewalk.Protocol.Event.{Event}
use framewalk.Protocol.Connection.{Connection, receive_bytes, poll_event}
use framewalk.Transport.Pump.{
  max_pending_bytes, poll_round, poll_all, drained, buffer_overflow, read_chunk,
}

abbrev pub with_events : List Event → Connection → Connection
with_events events c = record c { events = events }

poll_all-lem :
    (n : ℕ) (events : List Event) (c : Connection)
    → length events < n
    → poll_all n (with_events events c) ≡ (events, with_events [] c)
unfolding poll_all poll_round poll_event
poll_all-lem zero events c h = absurd (omega (arith, h))
poll_all-lem (suc n) [] c h = refl
poll_all-lem (suc n) (ev ∷ events) c h =
    ap (λ (evs, d). (ev ∷ evs, d)) (poll_all-lem n events c (omega (arith, h)))

pub read_chunk_lem :
    (c : Connection) (bs : Bytes)
    → let conn = receive_bytes c bs in
      read_chunk c bs ≡ (
        if ltb max_pending_bytes (pending_bytes conn.framer)
        then buffer_overflow (pending_bytes conn.framer) conn
        else drained conn.events (with_events [] conn))
unfolding read_chunk
read_chunk_lem c bs =
    let conn = receive_bytes c bs in
    ap
      (λ (evs, d).
        if ltb max_pending_bytes (pending_bytes conn.framer)
        then buffer_overflow (pending_bytes conn.framer) conn
        else drained evs d)
      (poll_all-lem (suc (length conn.events)) conn.events conn (omega arith))
