-- ===== src/Transport/World/Examples.antt =====
-- The theorems on the transport at a concrete run: a raw command, a log line, and the end of GDB's output.
use framewalk.Prelude.{
  ◌≡◌, refl, arith, true, false, some, [], ◌++◌, Bytes, bytes, nat_key, get, insert,
}
use framewalk.Codec.Encode.{write_u64}
use framewalk.Protocol.Event.{MiVersion}
use framewalk.Protocol.Token.{allocate}
use framewalk.Protocol.Connection.{
  Connection, with_version_hint, submit_raw, outbound, consume_outbound,
}
use framewalk.Protocol.Connection.Outbound.{IsQueue}
use framewalk.Transport.Shared.{record_event, mark_reader_exited}
use framewalk.Transport.Pump.{drain_pending}
use framewalk.Transport.Handle.{
  Request, raw, drain_outbound, queue_request, submit_locked, register_pending,
  record_synthetic_log,
}
use framewalk.Transport.Handle.Outbound.{encoded, submit_locked-outbound}
use framewalk.Transport.World.{
  World, enters, queues, registers, sends, closes, marks, logs, Steps, here, next, initial, at,
  after_effects, with_connection, with_reader, without_seq, entered, submitted, registered,
  awaiting, leaving, marked, signalled,
}
use framewalk.Transport.World.Tracked.{IsTracked, Steps-IsTracked, drains-signals}
use framewalk.Transport.World.Bounds.{IsBehaved, Steps-IsBehaved}
use framewalk.Transport.World.Orphan.{stranded, stranded-waits}

abbrev hint : MiVersion
hint = MiVersion.unknown

abbrev list_features : Request
list_features = raw (bytes "-list-features")

abbrev line : Bytes
line = bytes "1-list-features\n"

abbrev fresh : Connection
fresh = with_version_hint hint

abbrev after_submit : Connection
after_submit = record (submit_raw fresh (bytes "-list-features")).1 {
  outbound = [];
  outbound_consumed = 0;
}

locks : submit_locked fresh list_features ≡ some (1, line, after_submit)
unfolding submit_locked queue_request drain_outbound submit_raw allocate write_u64 outbound
    consume_outbound
locks = refl

-- The call enters, hands its line over, registers and waits.
abbrev has_entered : World
has_entered = at (initial hint) 0 (entered list_features)

abbrev has_submitted : World
has_submitted = at (with_connection has_entered after_submit) 0 (submitted 1 line)

abbrev has_registered : World
has_registered =
    at (after_effects has_submitted (register_pending has_submitted.shared 1 0)) 0
      (registered 1 line)

abbrev waiting : World
waiting = at has_registered 0 (awaiting 1)

-- Then the transport logs a line, the reader sees the end of the output, and marks itself dead.
abbrev has_logged : World
has_logged = after_effects waiting (without_seq (record_synthetic_log waiting.shared (bytes "bye")))

abbrev has_closed : World
has_closed = with_reader has_logged leaving

abbrev has_marked : World
has_marked = with_reader (after_effects has_closed (mark_reader_exited has_closed.shared)) marked

to_marked : Steps (initial hint) has_marked
unfolding get insert register_pending record_synthetic_log record_event mark_reader_exited
to_marked =
    next
      (next
        (next
          (next
            (next
              (next (next here (enters (initial hint) 0 list_features refl refl))
                (queues has_entered 0 list_features 1 line after_submit refl locks))
              (registers has_submitted 0 1 line refl))
            (sends has_registered 0 1 line refl))
          (logs waiting (bytes "bye")))
        (closes has_logged refl))
      (marks has_closed refl)

Steps-IsTracked_example : IsTracked has_marked
Steps-IsTracked_example = Steps-IsTracked to_marked

Steps-IsBehaved_example : IsBehaved has_marked
Steps-IsBehaved_example = Steps-IsBehaved to_marked

drains-signals_example :
    signalled 0 (after_effects has_marked (drain_pending has_marked.shared)).trace ≡ true
unfolding get insert register_pending record_synthetic_log record_event mark_reader_exited
drains-signals_example = drains-signals 0 1 to_marked refl refl

fresh-IsQueue : IsQueue fresh
fresh-IsQueue = record { in_buffer = omega arith }

submit_locked-outbound_example :
    let handle = (queue_request fresh list_features).0 in
    (d : Connection) × (submit_locked fresh list_features
      ≡ some (handle, outbound fresh ++ encoded handle list_features, d))
    × (outbound d ≡ [])
    × IsQueue d
    × (d.framer ≡ fresh.framer)
submit_locked-outbound_example = submit_locked-outbound fresh list_features fresh-IsQueue

-- The wait of a call that enters before the reader leaves and registers after the drain.
stranded-waits_example :
    let lost = stranded hint list_features 1 line after_submit in
    Steps (initial hint) lost
    × (get 0 lost.calls ≡ some (awaiting 1))
    × (signalled 0 lost.trace ≡ false)
stranded-waits_example =
    stranded-waits hint list_features 1 line after_submit
      (stranded hint list_features 1 line after_submit) locks here
