-- ===== src/Protocol/Connection/Keyed.antt =====
-- Every registry entry stands under its own name, after every session.
use framewalk.Prelude.{
  ℕ, ◌+◌, ◌++◌, ◌≡◌, refl, ap, Bool, true, false, Option, none, some, List, [], ◌∷◌, if◌then◌else◌,
  Bytes, bytes, beq, nat_key, get, remove, subst, sym,
}
use framewalk.Wire.Framer.Stream.{frames}
use framewalk.Codec.Ast.{
  Token, Record, ResultClass, ResultRecord, AsyncRecord, Results, result, exec, status, notify,
  console, target, log,
}
use framewalk.Protocol.View.{get_str, get_tuple}
use framewalk.Protocol.State.Threads
use framewalk.Protocol.State.Breakpoints.{BreakpointRegistry, on_breakpoint_changed}
use framewalk.Protocol.State.Keyed.{
  AreThreads, AreBreakpoints, AreVarObjs, empty-Keyed, on_thread_created-Keyed,
  on_thread_exited-Keyed, on_state-Keyed, upsert-Keyed, on_breakpoint_changed-Keyed,
  on_breakpoint_deleted-Keyed,
}
use framewalk.Protocol.State.VarObjs.Names.{
  on_var_create-Keyed, on_var_update-Keyed, on_var_delete-Keyed,
}
use framewalk.Protocol.Pending.{Operation, PendingInfo, is_exec_command}
use framewalk.Protocol.Event.{Event, ProtocolError}
use framewalk.Protocol.Connection.{
  Connection, push_back, upsert_bkpt, route_operation, route_class, complete, classify_token,
  on_exec_running, on_exec_stopped, classify_exec, route_notify, classify_record, ParsedFrame,
  record_frame, error_frame, terminator_frame, fuel_frame, classify_frame, classify_all, parsed_all,
  enqueue, submit, submit_raw, poll_event, compact_outbound, Consumed, consumed, rejected,
  consume_outbound,
}
use framewalk.Protocol.Connection.Receive.{waiting, classified, receive_bytes-Received}
use framewalk.Protocol.Connection.Session.{
  Reaches, started, submitted, submitted_raw, received, polled, written,
}
use framewalk.Protocol.Connection.Session.Sound.{session-IsSound}

-- The names of the threads, breakpoints and variable objects.
pub record AreKeyed (c : Connection) : Type 0 where
  pub threads : AreThreads c.threads
  pub breakpoints : AreBreakpoints c.breakpoints
  pub varobjs : AreVarObjs c.varobjs

-- Another connection with the same registries.
with_same :
    (c : Connection) {d : Connection}
    → AreKeyed c
    → d.threads ≡ c.threads
    → d.breakpoints ≡ c.breakpoints
    → d.varobjs ≡ c.varobjs
    → AreKeyed d
with_same c k t b v = record {
  threads = subst AreThreads (sym t) k.threads;
  breakpoints = subst AreBreakpoints (sym b) k.breakpoints;
  varobjs = subst AreVarObjs (sym v) k.varobjs;
}

AreKeyed-if :
    (b : Bool) (c d : Connection) → AreKeyed c → AreKeyed d → AreKeyed (if b then c else d)
AreKeyed-if true c d hc hd = hc
AreKeyed-if false c d hc hd = hd

upsert_bkpt-Keyed :
    (m : BreakpointRegistry) (o : Option Results)
    → AreBreakpoints m
    → AreBreakpoints (upsert_bkpt m o)
upsert_bkpt-Keyed m none h = h
upsert_bkpt-Keyed m (some bkpt) h = upsert-Keyed m bkpt h

operation-AreKeyed :
    (op : Operation) (rs : Results) (c : Connection)
    → AreKeyed c
    → AreKeyed (route_operation op rs c)
unfolding route_operation
operation-AreKeyed Operation.break_insert rs c k = record {
  threads = k.threads;
  breakpoints = upsert_bkpt-Keyed _ (get_tuple rs (bytes "bkpt")) k.breakpoints;
  varobjs = k.varobjs;
}
operation-AreKeyed Operation.break_info rs c k = record {
  threads = k.threads;
  breakpoints = upsert_bkpt-Keyed _ (get_tuple rs (bytes "bkpt")) k.breakpoints;
  varobjs = k.varobjs;
}
operation-AreKeyed (Operation.var_create e) rs c k = record {
  threads = k.threads;
  breakpoints = k.breakpoints;
  varobjs = on_var_create-Keyed _ rs e k.varobjs;
}
operation-AreKeyed Operation.var_update rs c k = record {
  threads = k.threads;
  breakpoints = k.breakpoints;
  varobjs = on_var_update-Keyed _ rs k.varobjs;
}
operation-AreKeyed (Operation.var_delete name) rs c k = record {
  threads = k.threads;
  breakpoints = k.breakpoints;
  varobjs = on_var_delete-Keyed _ name k.varobjs;
}
operation-AreKeyed _ rs c k = with_same c k refl refl refl

class-AreKeyed :
    (class : ResultClass) (info : Option PendingInfo) (rs : Results) (c : Connection)
    → AreKeyed c
    → AreKeyed (route_class class info rs c)
unfolding route_class
class-AreKeyed ResultClass.done none rs c k = k
class-AreKeyed class none rs c k = k
class-AreKeyed ResultClass.done (some info) rs c k = operation-AreKeyed info.operation rs c k
class-AreKeyed ResultClass.connected (some info) rs c k = operation-AreKeyed info.operation rs c k
class-AreKeyed ResultClass.error (some info) rs c k =
    AreKeyed-if (is_exec_command info) _ c (with_same c k refl refl refl) k
class-AreKeyed _ (some info) rs c k = k

announced : (c : Connection) (ev : Event) → AreKeyed c → AreKeyed (push_back c ev)
announced c ev k = with_same c k refl refl refl

token-AreKeyed :
    (token : Option Token) (rr : ResultRecord) (c : Connection)
    → AreKeyed c
    → AreKeyed (classify_token token rr c)
unfolding complete
token-AreKeyed none rr c k = announced c _ k
token-AreKeyed (some token) rr c k =
    let taken : Connection = record c { pending = remove token c.pending } in
    announced (route_class rr.class (get token c.pending) rr.results taken) _ (
      class-AreKeyed rr.class (get token c.pending) rr.results taken (with_same c k refl refl refl))

exec-AreKeyed : (ar : AsyncRecord) (c : Connection) → AreKeyed c → AreKeyed (classify_exec ar c)
unfolding classify_exec on_exec_running on_exec_stopped
exec-AreKeyed ar c k =
    let thread = get_str ar.results (bytes "thread-id") in
    AreKeyed-if (beq ar.class (bytes "running")) _ _
      (record {
        threads = on_state-Keyed Threads.running c.threads thread k.threads;
        breakpoints = k.breakpoints;
        varobjs = k.varobjs;
      })
      (AreKeyed-if (beq ar.class (bytes "stopped")) _ _
        (record {
          threads = on_state-Keyed Threads.stopped c.threads thread k.threads;
          breakpoints = k.breakpoints;
          varobjs = k.varobjs;
        })
        (announced c _ k))

notify-AreKeyed : (ar : AsyncRecord) (c : Connection) → AreKeyed c → AreKeyed (route_notify ar c)
unfolding route_notify
notify-AreKeyed ar c k =
    AreKeyed-if (beq ar.class (bytes "thread-created")) _ _
      (record {
        threads = on_thread_created-Keyed _ ar.results k.threads;
        breakpoints = k.breakpoints;
        varobjs = k.varobjs;
      })
      (AreKeyed-if (beq ar.class (bytes "thread-exited")) _ _
        (record {
          threads = on_thread_exited-Keyed _ ar.results k.threads;
          breakpoints = k.breakpoints;
          varobjs = k.varobjs;
        })
        (AreKeyed-if (beq ar.class (bytes "breakpoint-created")) _ _ changed (
          AreKeyed-if (beq ar.class (bytes "breakpoint-modified")) _ _ changed (
            AreKeyed-if (beq ar.class (bytes "breakpoint-deleted")) _ _
              (record {
                threads = k.threads;
                breakpoints = on_breakpoint_deleted-Keyed _ ar.results k.breakpoints;
                varobjs = k.varobjs;
              })
              k))))
  where
    changed : AreKeyed (record c { breakpoints = on_breakpoint_changed c.breakpoints ar.results })
    changed = record {
      threads = k.threads;
      breakpoints = on_breakpoint_changed-Keyed _ ar.results k.breakpoints;
      varobjs = k.varobjs;
    }

record-AreKeyed : (r : Record) (c : Connection) → AreKeyed c → AreKeyed (classify_record r c)
unfolding classify_record
record-AreKeyed (result rr) c k = token-AreKeyed rr.token rr c k
record-AreKeyed (exec ar) c k = exec-AreKeyed ar c k
record-AreKeyed (status ar) c k = announced c _ k
record-AreKeyed (notify ar) c k = announced (route_notify ar c) _ (notify-AreKeyed ar c k)
record-AreKeyed (console sr) c k = announced c _ k
record-AreKeyed (target sr) c k = announced c _ k
record-AreKeyed (log sr) c k = announced c _ k

frame-AreKeyed : (p : ParsedFrame) (c : Connection) → AreKeyed c → AreKeyed (classify_frame p c)
unfolding classify_frame
frame-AreKeyed (record_frame r) c k = record-AreKeyed r c k
frame-AreKeyed (error_frame e) c k = announced c _ k
frame-AreKeyed terminator_frame c k = announced c _ k
frame-AreKeyed fuel_frame c k = k

classify_all-AreKeyed :
    (ps : List ParsedFrame) (c : Connection) → AreKeyed c → AreKeyed (classify_all ps c)
unfolding classify_all
classify_all-AreKeyed [] c k = k
classify_all-AreKeyed (p ∷ ps) c k =
    classify_all-AreKeyed ps (classify_frame p c) (frame-AreKeyed p c k)

polled-AreKeyed :
    (c : Connection) (events : List Event)
    → AreKeyed c
    → AreKeyed
        (elim events as (λ _. Option Event × Connection) [
          | [] ↦ (none, c)
          | ev ∷ rest ↦ (some ev, record c { events = rest })
        ]).1
polled-AreKeyed c [] k = k
polled-AreKeyed c (ev ∷ rest) k = with_same c k refl refl refl

-- Consuming touches the outbound buffer only.
SameRegistries : Connection → Consumed → Type 0
SameRegistries c (consumed d) =
    (d.threads ≡ c.threads) × (d.breakpoints ≡ c.breakpoints) × (d.varobjs ≡ c.varobjs)
SameRegistries c (rejected e) = Unit

consumed-SameRegistries :
    (c : Connection) (n : ℕ) (b b' : Bool) (out : Bytes) (m : ℕ) (e : ProtocolError)
    → SameRegistries c (
        if b
        then rejected e
        else consumed (
            if b'
            then record c { outbound = out; outbound_consumed = 0 }
            else record c { outbound_consumed = m }))
unfolding SameRegistries
consumed-SameRegistries c n true b' out m e = tt
consumed-SameRegistries c n false true out m e = (refl, refl, refl)
consumed-SameRegistries c n false false out m e = (refl, refl, refl)

written-AreKeyed :
    (c d : Connection) (n : ℕ) → AreKeyed c → consume_outbound c n ≡ consumed d → AreKeyed d
unfolding SameRegistries consume_outbound compact_outbound
written-AreKeyed c d n k e =
    let same =
      subst (SameRegistries c) e (consumed-SameRegistries c n _ _ _ (c.outbound_consumed + n) _) in
    with_same c k same.0 same.1 same.2

-- After every session, each thread, breakpoint and variable object stands in its registry under
-- its own identifier.
pub session-AreKeyed : {k : ℕ} {c : Connection} → Reaches k c → AreKeyed c
unfolding submit submit_raw enqueue poll_event classified
session-AreKeyed (started version) = record {
  threads = empty-Keyed (λ info. info.id);
  breakpoints = empty-Keyed (λ b. b.id);
  varobjs = empty-Keyed (λ v. v.name);
}
session-AreKeyed (submitted {c = c} r cmd) = with_same c (session-AreKeyed r) refl refl refl
session-AreKeyed (submitted_raw {c = c} r line) = with_same c (session-AreKeyed r) refl refl refl
session-AreKeyed (received {c = c} r bs) =
    let e = (receive_bytes-Received c bs (session-IsSound r).ready).state_lem in
    with_same (classified c (waiting c ++ bs))
      (classify_all-AreKeyed (parsed_all (frames [] (waiting c ++ bs))) c (session-AreKeyed r))
      (ap (λ d. d.threads) e) (ap (λ d. d.breakpoints) e) (ap (λ d. d.varobjs) e)
session-AreKeyed (polled {c = c} r) = polled-AreKeyed c c.events (session-AreKeyed r)
session-AreKeyed (written {c = c} r n d e) = written-AreKeyed c d n (session-AreKeyed r) e
