-- ===== src/Transport/Handle/Outbound.antt =====
-- What the locked section of `submit` hands to the writer.
use framewalk.Prelude.{
  ◌≡◌, refl, sym, ap, ◌∙◌, some, [], ◌∷◌, ◌++◌, append-nil, arith, length, drop, drop-append_left,
  Bytes,
}
use framewalk.Codec.Encode.{encode_command, write_u64}
use framewalk.Protocol.Event.{CommandHandle}
use framewalk.Protocol.Connection.{Connection, submit, submit_raw, outbound, Consumed}
use framewalk.Protocol.Connection.Outbound.{
  IsQueue, Consumes, dropped, too_many, consume_outbound-Consumes, submit-outbound,
  submit_raw-outbound,
}
use framewalk.Protocol.Connection.Session.Sound.{Rest, consume-Rest}
use framewalk.Transport.Handle.{
  Request, structured, raw, drained_by, drain_outbound, queue_request, with_handle, submit_locked,
}

-- The line of a request.
abbrev pub encoded : CommandHandle → Request → Bytes
encoded handle (structured command) = encode_command (some handle) command
encoded handle (raw raw_line) = write_u64 handle ++ (raw_line ++ 10 ∷ [])

drop-length : (xs : Bytes) → drop (length xs) xs ≡ []
drop-length xs = ap (drop (length xs)) (sym (append-nil xs)) ∙ drop-append_left xs []

drained-Consumes :
    (c : Connection) (bytes : Bytes) (r : Consumed)
    → bytes ≡ outbound c
    → Consumes c (length bytes) r
    → Rest c r
    → (d : Connection) × (drained_by bytes r ≡ some (bytes, d))
      × (outbound d ≡ [])
      × IsQueue d
      × (d.framer ≡ c.framer)
unfolding Rest
drained-Consumes c bytes _ e (dropped d enough q left) kept =
    (d, refl, left ∙ ap (λ s. drop (length bytes) s) (sym e) ∙ drop-length bytes, q, kept.0)
drained-Consumes c bytes _ e (too_many fewer) kept = absurd (omega (arith, fewer, ap length e))

drain_lem :
    (c : Connection)
    → IsQueue c
    → (d : Connection) × (drain_outbound c ≡ some (outbound c, d))
      × (outbound d ≡ [])
      × IsQueue d
      × (d.framer ≡ c.framer)
unfolding drain_outbound
drain_lem c q =
    let n = length (outbound c) in
    drained-Consumes c (outbound c) _ refl (consume_outbound-Consumes c n q) (consume-Rest c n)

queue_request-outbound :
    (c : Connection) (request : Request)
    → IsQueue c
    → (outbound (queue_request c request).1
        ≡ outbound c ++ encoded (queue_request c request).0 request)
      × IsQueue (queue_request c request).1
unfolding queue_request
queue_request-outbound c (structured command) q = submit-outbound c command q
queue_request-outbound c (raw raw_line) q = submit_raw-outbound c raw_line q

queue_request-framer :
    (c : Connection) (request : Request) → (queue_request c request).1.framer ≡ c.framer
unfolding queue_request submit submit_raw
queue_request-framer c (structured command) = refl
queue_request-framer c (raw raw_line) = refl

-- On a connection whose outbound queue is well-formed, the locked section of a submission does
-- not fail, hands over what was queued followed by the line of the request, empties the queue,
-- and leaves the framer as it was.
pub submit_locked-outbound :
    (c : Connection) (request : Request)
    → IsQueue c
    → let handle = (queue_request c request).0 in
      (d : Connection) × (submit_locked c request
        ≡ some (handle, outbound c ++ encoded handle request, d))
      × (outbound d ≡ [])
      × IsQueue d
      × (d.framer ≡ c.framer)
unfolding submit_locked
submit_locked-outbound c request q =
    let handle = (queue_request c request).0 in
    let (queued, q') = queue_request-outbound c request q in
    let (d, e, empty, q'', same) = drain_lem (queue_request c request).1 q' in
    (
      d,
      ap (with_handle handle) e ∙ ap (λ bytes. some (handle, bytes, d)) queued,
      empty,
      q'',
      same ∙ queue_request-framer c request,
    )
