-- ===== src/Protocol/Connection/Session/Sound.antt =====
-- What holds after every session.
use framewalk.Prelude.{
  ℕ, suc, ◌<◌, ltb, drop, ◌++◌, ◌+◌, ◌≡◌, subst, length, refl, sym, ap, ◌∙◌, Bool, true, false,
  Option, none, some, List, [], ◌∷◌, ◌==◌, ==→eq, if◌then◌else◌, arith, Bytes, nat_key, get,
  get-insert, Option-cases, inl, inr,
}
use framewalk.Wire.Framer.Stream.{IsValid}
use framewalk.Codec.Ast.{Token}
use framewalk.Codec.Encode.{encode_command, write_u64}
use framewalk.Codec.Command.{MiCommand}
use framewalk.Protocol.Token.{allocate}
use framewalk.Protocol.Token.Laws.{after, nth_token, count, nth_token_fresh}
use framewalk.Protocol.Event.{Event, ProtocolError}
use framewalk.Protocol.Pending.{PendingInfo}
use framewalk.Protocol.Connection.{
  Connection, enqueue, submit, submit_raw, receive_bytes, poll_event, consume_outbound, Consumed,
  consumed, compact_outbound, rejected,
}
use framewalk.Protocol.Connection.Outbound.{
  IsQueue, Consumes, dropped, consume_outbound-Consumes, submit-outbound, submit_raw-outbound,
}
use framewalk.Protocol.Connection.Receive.{IsReady, receive_bytes-Received}
use framewalk.Protocol.Connection.Session.{
  Reaches, started, submitted, submitted_raw, received, polled, written, receive_bytes-Keeps,
}

-- The token of one of the first `k` commands.
abbrev IsIssued : ℕ → Token → Type 0
IsIssued k j = (i : ℕ) × (i < k) × (j ≡ nth_token i)

-- The invariant of a connection that has submitted `k` commands: the framer and the queue of
-- outgoing bytes are well-formed, the allocator stands at its `k`-th token, and every pending
-- entry stands under a token that was issued.
pub record IsSound (k : ℕ) (c : Connection) : Type 0 where
  pub ready : IsReady c
  pub queue : IsQueue c
  pub allocator : c.tokens ≡ after k
  pub issued : (j : Token) (info : PendingInfo) → get j c.pending ≡ some info → IsIssued k j

older : {k : ℕ} {j : Token} → IsIssued k j → IsIssued (suc k) j
older (i, lt, e) = (i, omega (arith, lt), e)

module _ (k : ℕ) (c : Connection) (s : IsSound k c) where
  pub new_token : c.tokens.next ≡ nth_token k
  unfolding allocate
  new_token = ap (λ t. t.next) s.allocator

  enqueue-allocator :
      (info : PendingInfo) (encoded : Token → Bytes)
      → (enqueue c info encoded).1.tokens ≡ after (suc k)
  unfolding enqueue after
  enqueue-allocator info encoded = ap (λ t. (allocate t).1) s.allocator

  IsIssued-if :
      (b : Bool) (j : Token) (new info : PendingInfo)
      → (c.tokens.next == j) ≡ b
      → (if b then some new else get j c.pending) ≡ some info
      → IsIssued (suc k) j
  IsIssued-if true j new info e h = (k, omega arith, sym (==→eq c.tokens.next j e) ∙ new_token)
  IsIssued-if false j new info e h = older (s.issued j info h)

  enqueue-IsSound :
      (info : PendingInfo) (encoded : Token → Bytes)
      → IsQueue (enqueue c info encoded).1
      → IsSound (suc k) (enqueue c info encoded).1
  unfolding enqueue
  enqueue-IsSound info encoded q = record {
    ready = s.ready;
    queue = q;
    allocator = enqueue-allocator info encoded;
    issued =
        λ j i h. IsIssued-if _ j info i refl (sym (get-insert j c.tokens.next info c.pending) ∙ h);
  }

  submit-IsSound : (cmd : MiCommand) → IsSound (suc k) (submit c cmd).1
  unfolding submit
  submit-IsSound cmd =
      enqueue-IsSound _ (λ token. encode_command (some token) cmd) (submit-outbound c cmd s.queue).1

  submit_raw-IsSound : (line : Bytes) → IsSound (suc k) (submit_raw c line).1
  unfolding submit_raw
  submit_raw-IsSound line =
      enqueue-IsSound _ (λ token. write_u64 token ++ (line ++ 10 ∷ []))
        (submit_raw-outbound c line s.queue).1

  receive-IsSound : (bs : Bytes) → IsSound k (receive_bytes c bs)
  receive-IsSound bs =
      let kept = receive_bytes-Keeps c bs s.ready in
      record {
        ready = (receive_bytes-Received c bs s.ready).ready;
        queue = record {
          in_buffer =
              omega (arith, s.queue.in_buffer, ap length kept.outbound, kept.outbound_consumed);
        };
        allocator = kept.tokens ∙ s.allocator;
        issued = λ j info h. s.issued j info (kept.shrinks j info h);
      }

  poll_case :
      (events : List Event)
      → IsSound k
          (elim events as (λ _. Option Event × Connection) [
            | [] ↦ (none, c)
            | ev ∷ rest ↦ (some ev, record c { events = rest })
          ]).1
  poll_case [] = s
  poll_case (ev ∷ rest) = record {
    ready = s.ready;
    queue = record { in_buffer = s.queue.in_buffer };
    allocator = s.allocator;
    issued = s.issued;
  }

  poll-IsSound : IsSound k (poll_event c).1
  unfolding poll_event
  poll-IsSound = poll_case c.events

-- Consuming touches the outbound buffer only.
unfoldable pub Rest : Connection → Consumed → Type 0
Rest c (consumed d) = (d.framer ≡ c.framer) × (d.tokens ≡ c.tokens) × (d.pending ≡ c.pending)
Rest c (rejected e) = Unit

compact-if :
    (b : Bool) (c d e : Connection)
    → Rest c (consumed d)
    → Rest c (consumed e)
    → Rest c (consumed (if b then d else e))
compact-if true c d e h k = h
compact-if false c d e h k = k

consume-if :
    (b : Bool) (c : Connection) (x y : Consumed) → Rest c x → Rest c y → Rest c (if b then x else y)
consume-if true c x y h k = h
consume-if false c x y h k = k

rejected-Rest : (c : Connection) (e : ProtocolError) → Rest c (rejected e)
unfolding Rest
rejected-Rest c e = tt

outbound-Rest :
    (c : Connection) (out : Bytes) (n : ℕ)
    → Rest c (consumed (record c { outbound = out; outbound_consumed = n }))
unfolding Rest
outbound-Rest c out n = (refl, refl, refl)

pub consume-Rest : (c : Connection) (n : ℕ) → Rest c (consume_outbound c n)
unfolding consume_outbound compact_outbound
consume-Rest c n =
    let m = c.outbound_consumed + n in
    consume-if (ltb (length c.outbound) m) c _ _ (rejected-Rest c _)
      (compact-if _ c _ _ (outbound-Rest c (drop m c.outbound) 0) (outbound-Rest c c.outbound m))

consumed-IsQueue : (c d : Connection) (n : ℕ) → Consumes c n (consumed d) → IsQueue d
consumed-IsQueue c d n (dropped _ _ q _) = q

written-IsSound :
    (k : ℕ) (c d : Connection) (n : ℕ)
    → IsSound k c
    → consume_outbound c n ≡ consumed d
    → IsSound k d
unfolding Rest
written-IsSound k c d n s e =
    let (framer, tokens, pending) = subst (Rest c) e (consume-Rest c n) in
    record {
      ready = subst IsValid (sym framer) s.ready;
      queue =
          consumed-IsQueue c d n (subst (Consumes c n) e (consume_outbound-Consumes c n s.queue));
      allocator = tokens ∙ s.allocator;
      issued = λ j info h. s.issued j info (sym (ap (get j) pending) ∙ h);
    }

-- After every sequence of submissions, received chunks, polls and writes, the framer and the
-- outbound queue are well-formed, the allocator stands where the number of submissions puts it,
-- and every pending entry stands under a token that was issued.
pub session-IsSound : {k : ℕ} {c : Connection} → Reaches k c → IsSound k c
unfolding after get
session-IsSound (started version) = record {
  ready = omega arith;
  queue = record { in_buffer = omega arith };
  allocator = refl;
  issued = λ j info h. ground arith;
}
session-IsSound (submitted r cmd) = submit-IsSound _ _ (session-IsSound r) cmd
session-IsSound (submitted_raw r line) = submit_raw-IsSound _ _ (session-IsSound r) line
session-IsSound (received r bs) = receive-IsSound _ _ (session-IsSound r) bs
session-IsSound (polled r) = poll-IsSound _ _ (session-IsSound r)
session-IsSound (written r n d e) = written-IsSound _ _ d n (session-IsSound r) e

-- After every session of fewer than 2^64 - 1 submissions, the token that the next submission
-- gets is the token of no command that is still pending.
pub submit_unambiguous :
    {k : ℕ} {c : Connection} (cmd : MiCommand)
    → Reaches k c
    → k < count
    → get (submit c cmd).0 c.pending ≡ none
unfolding submit enqueue allocate
submit_unambiguous {k} {c} cmd r h =
    let s = session-IsSound r in
    elim (Option-cases (get c.tokens.next c.pending)) [
      | inl free ↦ free
      | inr (info, taken) ↦
          (let (i, lt, e) = s.issued c.tokens.next info taken in
            absurd ((nth_token_fresh i k lt (omega (arith, h))).2 (sym e ∙ new_token k c s)))
    ]
