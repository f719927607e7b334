-- ===== src/Protocol/Connection/Events.antt =====
-- One event for each frame, in the order of the wire.
use framewalk.Prelude.{
  ℕ, suc, ◌≡◌, refl, sym, ap, ◌∙◌, Bool, true, false, Option, none, some, List, [], ◌∷◌, ◌++◌,
  append_assoc, append-nil, if◌then◌else◌, length, Bytes, bytes, beq, nat_key, get, remove,
}
use framewalk.Wire.Framer.{Frame, line, group_terminator}
use framewalk.Codec.Ast.{
  Token, Record, ResultClass, ResultRecord, AsyncRecord, Results, result, exec, status, notify,
  console, target, log,
}
use framewalk.Codec.Error.{Result}
use framewalk.Codec.Record.{parse_record}
use framewalk.Codec.Record.Total.{Answers, parsed, refused_at, parse_record-Answers}
use framewalk.Protocol.Event.{Event}
use framewalk.Protocol.Pending.{Operation, PendingInfo, is_exec_command}
use framewalk.Protocol.Connection.{
  Connection, route_operation, route_class, push_back, notification, outcome_of, complete,
  classify_token, classify_exec, on_exec_running, on_exec_stopped, route_notify, classify_record,
  parsed_result, parsed_frame, classify_frame, classify_all, parsed_all,
}

abbrev pub Silent : Connection → Connection → Type 0
Silent c d = d.events ≡ c.events

-- A step that puts one event behind those that wait.
abbrev AddsOne : Connection → Connection → Type 0
AddsOne c d = (ev : Event) × (d.events ≡ c.events ++ ev ∷ [])

Silent-if :
    (b : Bool) (c d e : Connection) → Silent c d → Silent c e → Silent c (if b then d else e)
Silent-if true c d e hd he = hd
Silent-if false c d e hd he = he

AddsOne-if :
    (b : Bool) (c d e : Connection) → AddsOne c d → AddsOne c e → AddsOne c (if b then d else e)
AddsOne-if true c d e hd he = hd
AddsOne-if false c d e hd he = he

announced : (c d : Connection) (ev : Event) → Silent c d → AddsOne c (push_back d ev)
announced c d ev h = (ev, ap (λ l. l ++ ev ∷ []) h)

operation-Silent :
    (op : Operation) (rs : Results) (c : Connection) → Silent c (route_operation op rs c)
unfolding route_operation
operation-Silent Operation.break_insert rs c = refl
operation-Silent _ rs c = refl

pub class-Silent :
    (class : ResultClass) (info : Option PendingInfo) (rs : Results) (c : Connection)
    → Silent c (route_class class info rs c)
unfolding route_class
class-Silent ResultClass.done none rs c = refl
class-Silent class none rs c = refl
class-Silent ResultClass.done (some info) rs c = operation-Silent info.operation rs c
class-Silent ResultClass.connected (some info) rs c = operation-Silent info.operation rs c
class-Silent ResultClass.error (some info) rs c = Silent-if (is_exec_command info) c _ c refl refl
class-Silent _ (some info) rs c = refl

token-AddsOne :
    (token : Option Token) (rr : ResultRecord) (c : Connection)
    → AddsOne c (classify_token token rr c)
unfolding complete
token-AddsOne none rr c = (_, refl)
token-AddsOne (some token) rr c =
    let taken : Connection = record c { pending = remove token c.pending } in
    let info = get token c.pending in
    announced c (route_class rr.class info rr.results taken)
      (Event.command_completed token (outcome_of rr.class rr.results))
      (class-Silent rr.class info rr.results taken)

exec-AddsOne : (ar : AsyncRecord) (c : Connection) → AddsOne c (classify_exec ar c)
unfolding classify_exec on_exec_running on_exec_stopped
exec-AddsOne ar c =
    AddsOne-if (beq ar.class (bytes "running")) c _ _ (_, refl)
      (AddsOne-if (beq ar.class (bytes "stopped")) c _ _ (_, refl) (_, refl))

notify-Silent : (ar : AsyncRecord) (c : Connection) → Silent c (route_notify ar c)
unfolding route_notify
notify-Silent ar c = Silent-if (beq ar.class (bytes "thread-created")) c _ _ refl (
    Silent-if (beq ar.class (bytes "thread-exited")) c _ _ refl (
      Silent-if (beq ar.class (bytes "breakpoint-created")) c _ _ refl (
        Silent-if (beq ar.class (bytes "breakpoint-modified")) c _ _ refl
          (Silent-if (beq ar.class (bytes "breakpoint-deleted")) c _ _ refl refl))))

record-AddsOne : (r : Record) (c : Connection) → AddsOne c (classify_record r c)
unfolding classify_record
record-AddsOne (result rr) c = token-AddsOne rr.token rr c
record-AddsOne (exec ar) c = exec-AddsOne ar c
record-AddsOne (status ar) c = (_, refl)
record-AddsOne (notify ar) c =
    announced c (route_notify ar c) (Event.notify (notification ar)) (notify-Silent ar c)
record-AddsOne (console sr) c = (_, refl)
record-AddsOne (target sr) c = (_, refl)
record-AddsOne (log sr) c = (_, refl)

result-IsParsed :
    (l : Bytes) (r : Result Record)
    → Answers l r
    → (c : Connection) → AddsOne c (classify_frame (parsed_result l r) c)
unfolding parsed_result classify_frame
result-IsParsed l _ (parsed r) c = record-AddsOne r c
result-IsParsed l _ (refused_at e h) c = (_, refl)

frame-AddsOne : (fr : Frame) (c : Connection) → AddsOne c (classify_frame (parsed_frame fr) c)
unfolding parsed_frame classify_frame
frame-AddsOne (line l) c = result-IsParsed l (parse_record l) (parse_record-Answers l) c
frame-AddsOne group_terminator c = (_, refl)

-- What a run of frames adds to the queue.
pub record Adds (c : Connection) (n : ℕ) (d : Connection) : Type 0 where
  pub added : List Event
  pub events : d.events ≡ c.events ++ added
  pub one_each : length added ≡ n

pub classify_all-Adds :
    (frs : List Frame) (c : Connection) → Adds c (length frs) (classify_all (parsed_all frs) c)
unfolding classify_all parsed_all
classify_all-Adds [] c = record { added = []; events = sym (append-nil c.events); one_each = refl }
classify_all-Adds (fr ∷ frs) c =
    let (ev, e) = frame-AddsOne fr c in
    let ih = classify_all-Adds frs (classify_frame (parsed_frame fr) c) in
    record {
      added = ev ∷ ih.added;
      events = ih.events ∙ ap (λ l. l ++ ih.added) e ∙ append_assoc c.events (ev ∷ []) ih.added;
      one_each = ap suc ih.one_each;
    }
