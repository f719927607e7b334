-- ===== src/Protocol/Connection/Session.antt =====
-- Sessions: every way in which a transport and a caller can drive a connection.
mod Examples
pub mod Answer
pub mod Sound
use framewalk.Prelude.{
  ℕ, zero, suc, ◌+◌, ◌<◌, ◌≤◌, ◌≡◌, ◌≢◌, refl, sym, ap, subst, ◌∙◌, Bool, true, false, Option, none,
  some, List, [], ◌∷◌, ◌++◌, ◌==◌, ==→eq, if◌then◌else◌, arith, Bytes, bytes, beq, nat_key, get,
  remove, get-insert, get-remove, Bool-cases, Option-cases, inl, inr,
}
use framewalk.Wire.Framer.Stream.{frames}
use framewalk.Codec.Ast.{
  Token, Record, ResultClass, ResultRecord, AsyncRecord, Results, result, exec, status, notify,
  console, target, log,
}
use framewalk.Codec.Command.{MiCommand}
use framewalk.Protocol.Token.{TokenAllocator, allocate}
use framewalk.Protocol.Token.Laws.{after, nth_token, count, nth_token_fresh}
use framewalk.Protocol.Pending.{Operation, PendingInfo, PendingCommands, is_exec_command}
use framewalk.Protocol.Event.{MiVersion, ProtocolError}
use framewalk.Protocol.Connection.{
  Connection, with_version_hint, enqueue, submit, submit_raw, receive_bytes, poll_event,
  consume_outbound, Consumed, consumed, rejected, route_operation, route_class, complete,
  classify_token, classify_exec, on_exec_running, on_exec_stopped, route_notify, classify_record,
  ParsedFrame, record_frame, error_frame, terminator_frame, fuel_frame, classify_frame,
  classify_all, parsed_all,
}
use framewalk.Protocol.Connection.Outbound.{
  IsQueue, Consumes, dropped, too_many, consume_outbound-Consumes, submit-outbound,
  submit_raw-outbound,
}
use framewalk.Protocol.Connection.Receive.{IsReady, waiting, classified, receive_bytes-Received}

-- `Reaches k c`: calls of the public interface, `k` of which submit a command, lead to `c`.
pub data Reaches : ℕ → Connection → Type 0 where
  started : (version : MiVersion) → Reaches zero (with_version_hint version)
  submitted :
      {k : ℕ} {c : Connection} → Reaches k c → (cmd : MiCommand) → Reaches (suc k) (submit c cmd).1
  submitted_raw :
      {k : ℕ} {c : Connection}
      → Reaches k c
      → (line : Bytes) → Reaches (suc k) (submit_raw c line).1
  received : {k : ℕ} {c : Connection} → Reaches k c → (bs : Bytes) → Reaches k (receive_bytes c bs)
  polled : {k : ℕ} {c : Connection} → Reaches k c → Reaches k (poll_event c).1
  written :
      {k : ℕ} {c : Connection}
      → Reaches k c
      → (n : ℕ) (d : Connection) → consume_outbound c n ≡ consumed d
      → Reaches k d

-- The part of a connection that classification has no business with, and the pending table.
pub record Core : Type 0 where
  pub tokens : TokenAllocator
  pub outbound : Bytes
  pub outbound_consumed : ℕ
  pub pending : PendingCommands

abbrev pub core : Connection → Core
core c = record {
  tokens = c.tokens;
  outbound = c.outbound;
  outbound_consumed = c.outbound_consumed;
  pending = c.pending;
}

abbrev SameCore : Connection → Connection → Type 0
SameCore c d = core d ≡ core c

SameCore-if :
    (b : Bool) (c d e : Connection) → SameCore c d → SameCore c e → SameCore c (if b then d else e)
SameCore-if true c d e hd he = hd
SameCore-if false c d e hd he = he

operation-SameCore :
    (op : Operation) (rs : Results) (c : Connection) → SameCore c (route_operation op rs c)
unfolding route_operation
operation-SameCore Operation.break_insert rs c = refl
operation-SameCore _ rs c = refl

class-SameCore :
    (class : ResultClass) (info : Option PendingInfo) (rs : Results) (c : Connection)
    → SameCore c (route_class class info rs c)
unfolding route_class
class-SameCore ResultClass.done none rs c = refl
class-SameCore class none rs c = refl
class-SameCore ResultClass.done (some info) rs c = operation-SameCore info.operation rs c
class-SameCore ResultClass.connected (some info) rs c = operation-SameCore info.operation rs c
class-SameCore ResultClass.error (some info) rs c =
    SameCore-if (is_exec_command info) c _ c refl refl
class-SameCore _ (some info) rs c = refl

exec-SameCore : (ar : AsyncRecord) (c : Connection) → SameCore c (classify_exec ar c)
unfolding classify_exec on_exec_running on_exec_stopped
exec-SameCore ar c =
    SameCore-if (beq ar.class (bytes "running")) c _ _ refl
      (SameCore-if (beq ar.class (bytes "stopped")) c _ _ refl refl)

notify-SameCore : (ar : AsyncRecord) (c : Connection) → SameCore c (route_notify ar c)
unfolding route_notify
notify-SameCore ar c = SameCore-if (beq ar.class (bytes "thread-created")) c _ _ refl (
    SameCore-if (beq ar.class (bytes "thread-exited")) c _ _ refl (
      SameCore-if (beq ar.class (bytes "breakpoint-created")) c _ _ refl (
        SameCore-if (beq ar.class (bytes "breakpoint-modified")) c _ _ refl
          (SameCore-if (beq ar.class (bytes "breakpoint-deleted")) c _ _ refl refl))))

-- Classification allocates no token, queues no byte, and adds no pending command.
pub record Keeps (c d : Connection) : Type 0 where
  pub tokens : d.tokens ≡ c.tokens
  pub outbound : d.outbound ≡ c.outbound
  pub outbound_consumed : d.outbound_consumed ≡ c.outbound_consumed
  pub shrinks :
      (j : Token) (info : PendingInfo) → get j d.pending ≡ some info → get j c.pending ≡ some info

SameCore-Keeps : (c d : Connection) → SameCore c d → Keeps c d
SameCore-Keeps c d h = record {
  tokens = ap (λ e. e.tokens) h;
  outbound = ap (λ e. e.outbound) h;
  outbound_consumed = ap (λ e. e.outbound_consumed) h;
  shrinks = λ j info e. sym (ap (λ p. get j p.pending) h) ∙ e;
}

Keeps-trans : (c d e : Connection) → Keeps c d → Keeps d e → Keeps c e
Keeps-trans c d e h k = record {
  tokens = k.tokens ∙ h.tokens;
  outbound = k.outbound ∙ h.outbound;
  outbound_consumed = k.outbound_consumed ∙ h.outbound_consumed;
  shrinks = λ j info p. h.shrinks j info (k.shrinks j info p);
}

some-if :
    {A : Type 0} (b : Bool) (o : Option A) (a : A) → (if b then none else o) ≡ some a → o ≡ some a
some-if true o a h = ground arith
some-if false o a h = h

complete-Keeps :
    (token : Token) (rr : ResultRecord) (c : Connection) → Keeps c (complete token rr c)
unfolding complete
complete-Keeps token rr c =
    let taken : Connection = record c { pending = remove token c.pending } in
    Keeps-trans c taken _
      (record {
        tokens = refl;
        outbound = refl;
        outbound_consumed = refl;
        shrinks = λ j info h. some-if (token == j) _ info (sym (get-remove j token c.pending) ∙ h);
      })
      (SameCore-Keeps taken _ (class-SameCore rr.class (get token c.pending) rr.results taken))

token-Keeps :
    (token : Option Token) (rr : ResultRecord) (c : Connection)
    → Keeps c (classify_token token rr c)
token-Keeps none rr c = SameCore-Keeps c _ refl
token-Keeps (some token) rr c = complete-Keeps token rr c

record-Keeps : (r : Record) (c : Connection) → Keeps c (classify_record r c)
unfolding classify_record
record-Keeps (result rr) c = token-Keeps rr.token rr c
record-Keeps (exec ar) c = SameCore-Keeps c _ (exec-SameCore ar c)
record-Keeps (status ar) c = SameCore-Keeps c _ refl
record-Keeps (notify ar) c = SameCore-Keeps c _ (notify-SameCore ar c)
record-Keeps (console sr) c = SameCore-Keeps c _ refl
record-Keeps (target sr) c = SameCore-Keeps c _ refl
record-Keeps (log sr) c = SameCore-Keeps c _ refl

frame-Keeps : (p : ParsedFrame) (c : Connection) → Keeps c (classify_frame p c)
unfolding classify_frame
frame-Keeps (record_frame r) c = record-Keeps r c
frame-Keeps (error_frame e) c = SameCore-Keeps c _ refl
frame-Keeps terminator_frame c = SameCore-Keeps c _ refl
frame-Keeps fuel_frame c = SameCore-Keeps c _ refl

classify_all-Keeps : (ps : List ParsedFrame) (c : Connection) → Keeps c (classify_all ps c)
unfolding classify_all
classify_all-Keeps [] c = SameCore-Keeps c c refl
classify_all-Keeps (p ∷ ps) c =
    Keeps-trans c (classify_frame p c) _ (frame-Keeps p c)
      (classify_all-Keeps ps (classify_frame p c))

pub receive_bytes-Keeps : (c : Connection) (bs : Bytes) → IsReady c → Keeps c (receive_bytes c bs)
unfolding classified
receive_bytes-Keeps c bs v =
    let r = receive_bytes-Received c bs v in
    let d = classified c (waiting c ++ bs) in
    Keeps-trans c d _ (classify_all-Keeps (parsed_all (frames [] (waiting c ++ bs))) c)
      (SameCore-Keeps d _ (ap core r.state_lem))
