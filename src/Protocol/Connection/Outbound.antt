-- ===== src/Protocol/Connection/Outbound.antt =====
-- The outbound buffer is a queue of bytes.
use framewalk.Prelude.{
  ℕ, ◌+◌, ◌≤◌, ◌<◌, ◌≡◌, refl, ◌∙◌, Bool, true, false, [], ◌∷◌, ◌++◌, some, ltb, if◌then◌else◌,
  arith, length, length-append, length-drop, drop, drop-append, drop-add, Bytes,
}
use framewalk.Codec.Command.{MiCommand}
use framewalk.Codec.Encode.{encode_command, write_u64}
use framewalk.Protocol.Event.{invariant_violation}
use framewalk.Protocol.Pending.{PendingInfo}
use framewalk.Protocol.Connection.{
  Connection, enqueue, submit, submit_raw, outbound, outbound_len, compact_outbound, Consumed,
  consumed, rejected, consume_outbound,
}

-- The consumed prefix lies in the buffer.
pub record IsQueue (c : Connection) : Type 0 where
  pub in_buffer : c.outbound_consumed ≤ length c.outbound

pub outbound_len_lem : (c : Connection) → outbound_len c ≡ length (outbound c)
unfolding outbound_len outbound
outbound_len_lem c = omega (arith, length-drop c.outbound_consumed c.outbound)

outbound-compact : (c : Connection) → outbound (compact_outbound c) ≡ outbound c
unfolding outbound compact_outbound
outbound-compact c = ground arith

compact-IsQueue : (c : Connection) → IsQueue c → IsQueue (compact_outbound c)
unfolding compact_outbound
compact-IsQueue c q = ground arith

-- What `consume_outbound` promises, of the bytes that it is asked to drop.
pub data Consumes (c : Connection) (n : ℕ) : Consumed → Type 0 where
  dropped :
      (d : Connection)
      → n ≤ length (outbound c)
      → IsQueue d
      → outbound d ≡ drop n (outbound c)
      → Consumes c n (consumed d)
  too_many : length (outbound c) < n → Consumes c n (rejected invariant_violation)

consume_case :
    (c : Connection) (n : ℕ) (b : Bool)
    → IsQueue c
    → ltb (length c.outbound) (c.outbound_consumed + n) ≡ b
    → Consumes c n (
        if b
        then rejected invariant_violation
        else consumed (compact_outbound (record c { outbound_consumed = c.outbound_consumed + n })))
unfolding outbound
consume_case c n true q e = too_many (ground (arith, length-drop c.outbound_consumed c.outbound))
consume_case c n false q e =
    let moved : Connection = record c { outbound_consumed = c.outbound_consumed + n } in
    dropped (compact_outbound moved) (ground (arith, length-drop c.outbound_consumed c.outbound))
      (compact-IsQueue moved (ground arith))
      (outbound-compact moved ∙ drop-add c.outbound_consumed n c.outbound)

-- On a well-formed queue, consume_outbound drops exactly the first n bytes of what outbound
-- shows when there are as many, keeping the queue well-formed, and is rejected when there are
-- fewer.
pub consume_outbound-Consumes :
    (c : Connection) (n : ℕ) → IsQueue c → Consumes c n (consume_outbound c n)
unfolding consume_outbound
consume_outbound-Consumes c n q = consume_case c n _ q refl

enqueue-outbound :
    (c : Connection) (info : PendingInfo) (encoded : ℕ → Bytes)
    → IsQueue c
    → (outbound (enqueue c info encoded).1 ≡ outbound c ++ encoded c.tokens.next)
      × IsQueue (enqueue c info encoded).1
unfolding outbound enqueue
enqueue-outbound c info encoded q = (
  drop-append c.outbound_consumed c.outbound (encoded c.tokens.next) q.in_buffer,
  record {
    in_buffer = omega (arith, q.in_buffer, length-append c.outbound (encoded c.tokens.next));
  },
)

-- On a well-formed queue, submit appends exactly the encoded command to the bytes that outbound
-- shows, and keeps the queue well-formed.
pub submit-outbound :
    (c : Connection) (cmd : MiCommand)
    → IsQueue c
    → (outbound (submit c cmd).1 ≡ outbound c ++ encode_command (some (submit c cmd).0) cmd)
      × IsQueue (submit c cmd).1
unfolding submit
submit-outbound c cmd q = enqueue-outbound c _ (λ token. encode_command (some token) cmd) q

-- On a well-formed queue, submit_raw appends the token, the raw line as it is and a newline to
-- the bytes that outbound shows, and keeps the queue well-formed.
pub submit_raw-outbound :
    (c : Connection) (raw : Bytes)
    → IsQueue c
    → (outbound (submit_raw c raw).1
        ≡ outbound c ++ (write_u64 (submit_raw c raw).0 ++ (raw ++ 10 ∷ [])))
      × IsQueue (submit_raw c raw).1
unfolding submit_raw
submit_raw-outbound c raw q = enqueue-outbound c _ (λ token. write_u64 token ++ (raw ++ 10 ∷ [])) q
