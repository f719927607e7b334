-- ===== src/Protocol/Connection/Correlation.antt =====
-- Result records: each is matched with its command once, and feeds the registries once.
use framewalk.Prelude.{
  ◌≡◌, refl, ap, ◌∙◌, Bool, true, false, Option, none, some, [], if◌then◌else◌, ◌==◌, Bytes, bytes,
  starts_with, nat_key, get, remove, get-insert, get-remove, eqb_refl,
}
use framewalk.Codec.Ast.{Token, ResultClass, ResultRecord, Results, result}
use framewalk.Codec.Command.{MiCommand}
use framewalk.Protocol.State.Target.{TargetState, mark_unknown}
use framewalk.Protocol.State.Frames.{clear}
use framewalk.Protocol.Pending
use framewalk.Protocol.Pending.{Operation, PendingInfo, PendingCommands, is_exec_command}
use framewalk.Protocol.Event.{Event}
use framewalk.Protocol.Connection.{
  Connection, push_back, enqueue, submit, submit_raw, route_operation, route_class, outcome_of,
  complete, classify_record,
}

abbrev pub info_of : MiCommand → PendingInfo
info_of cmd = record {
  operation = Pending.from_name cmd.operation cmd.parameters;
  operation_name = cmd.operation;
}

-- submit enters the command into the pending table under the token that it returns, and changes
-- no other entry.
pub submit-tracks :
    (c : Connection) (cmd : MiCommand) (j : Token)
    → get j (submit c cmd).1.pending
      ≡ (if (submit c cmd).0 == j then some (info_of cmd) else get j c.pending)
unfolding submit enqueue
submit-tracks c cmd j = get-insert j c.tokens.next (info_of cmd) c.pending

operation-pending :
    (op : Operation) (rs : Results) (c : Connection) → (route_operation op rs c).pending ≡ c.pending
unfolding route_operation
operation-pending Operation.break_insert rs c = refl
operation-pending _ rs c = refl

pending-if :
    (b : Bool) (c d : Connection) {m : PendingCommands}
    → c.pending ≡ m
    → d.pending ≡ m
    → (if b then c else d).pending ≡ m
pending-if true c d hc hd = hc
pending-if false c d hc hd = hd

class-pending :
    (class : ResultClass) (info : Option PendingInfo) (rs : Results) (c : Connection)
    → (route_class class info rs c).pending ≡ c.pending
unfolding route_class
class-pending ResultClass.done none rs c = refl
class-pending class none rs c = refl
class-pending ResultClass.done (some info) rs c = operation-pending info.operation rs c
class-pending ResultClass.connected (some info) rs c = operation-pending info.operation rs c
class-pending ResultClass.error (some info) rs c = pending-if (is_exec_command info) _ c refl refl
class-pending _ (some info) rs c = refl

pub complete-pending :
    (token : Token) (rr : ResultRecord) (c : Connection)
    → (complete token rr c).pending ≡ remove token c.pending
unfolding complete
complete-pending token rr c = class-pending rr.class (get token c.pending) rr.results _

-- A result takes the command of its token off the pending table, and no other.
pub complete-untracks :
    (token : Token) (rr : ResultRecord) (c : Connection) (j : Token)
    → get j (complete token rr c).pending ≡ (if token == j then none else get j c.pending)
complete-untracks token rr c j =
    ap (get j) (complete-pending token rr c) ∙ get-remove j token c.pending

class-none : (class : ResultClass) (rs : Results) (c : Connection) → route_class class none rs c ≡ c
unfolding route_class
class-none ResultClass.done rs c = refl
class-none _ rs c = refl

-- A result for a token that no command awaits is announced, and feeds no registry.
pub complete-stray :
    (token : Token) (rr : ResultRecord) (c : Connection)
    → get token c.pending ≡ none
    → complete token rr c
      ≡ push_back
          (record c { pending = remove token c.pending })
          (Event.command_completed token (outcome_of rr.class rr.results))
unfolding complete
complete-stray token rr c h =
    let taken : Connection = record c { pending = remove token c.pending } in
    ap
      (λ i.
        push_back (route_class rr.class i rr.results taken)
          (Event.command_completed token (outcome_of rr.class rr.results)))
      h
    ∙ ap (λ d. push_back d (Event.command_completed token (outcome_of rr.class rr.results)))
        (class-none rr.class rr.results taken)

-- After a result for a token, a second result for it changes nothing but the pending table and
-- the queue of events, to which it adds its completion.
pub complete-once :
    (token : Token) (first second : ResultRecord) (c : Connection)
    → let d = complete token first c in
      complete token second d
      ≡ push_back
          (record d { pending = remove token d.pending })
          (Event.command_completed token (outcome_of second.class second.results))
complete-once token first second c =
    complete-stray token second (complete token first c)
      (complete-untracks token first c token ∙ rw (eqb_refl token))

exec_error :
    (info : PendingInfo) (rs : Results) (c : Connection)
    → is_exec_command info ≡ true
    → route_class ResultClass.error (some info) rs c
      ≡ record c { target = mark_unknown c.target; frames = clear c.frames }
unfolding route_class
exec_error info rs c h = rw h

submit-handle :
    (c : Connection) (cmd : MiCommand)
    → get (submit c cmd).0 (submit c cmd).1.pending ≡ some (info_of cmd)
submit-handle c cmd = submit-tracks c cmd (submit c cmd).0 ∙ rw (eqb_refl (submit c cmd).0)

-- An ^error result for a pending command whose name starts with exec- leaves the target unknown
-- and no frame.
pub exec_error_resets :
    (c : Connection) (token : Token) (info : PendingInfo) (rs : Results)
    → get token c.pending ≡ some info
    → is_exec_command info ≡ true
    → let d =
        classify_record
          (result (record { token = some token; class = ResultClass.error; results = rs }))
          c in
      (d.target ≡ TargetState.unknown) × (d.frames ≡ [])
unfolding classify_record complete mark_unknown
exec_error_resets c token info rs h x =
    let taken : Connection = record c { pending = remove token c.pending } in
    let step = ap (λ i. route_class ResultClass.error i rs taken) h ∙ exec_error info rs taken x in
    (ap (λ d. d.target) step, ap (λ d. d.frames) step)

raw_error :
    (info : PendingInfo) (rs : Results) (c : Connection)
    → is_exec_command info ≡ false
    → route_class ResultClass.error (some info) rs c ≡ c
unfolding route_class
raw_error info rs c h = rw h

abbrev raw_info : PendingInfo
raw_info = record { operation = Operation.raw; operation_name = bytes "_raw" }

raw-handle :
    (c : Connection) (line : Bytes)
    → get (submit_raw c line).0 (submit_raw c line).1.pending ≡ some raw_info
unfolding submit_raw enqueue
raw-handle c line =
    get-insert c.tokens.next c.tokens.next raw_info c.pending ∙ rw (eqb_refl c.tokens.next)

-- An ^error result for a line that was submitted raw, arriving at any connection in which that
-- command is still pending as it was entered, changes only the pending table, from which it
-- takes the command, and the queue of events, to which it adds the completion. So the target
-- state and the frames stay as they were just before it, whatever the line holds.
pub raw_error_keeps :
    (c d : Connection) (line : Bytes) (rs : Results)
    → get (submit_raw c line).0 d.pending ≡ get (submit_raw c line).0 (submit_raw c line).1.pending
    → let token = (submit_raw c line).0 in
      classify_record
        (result (record { token = some token; class = ResultClass.error; results = rs }))
        d
      ≡ push_back
          (record d { pending = remove token d.pending })
          (Event.command_completed token (outcome_of ResultClass.error rs))
unfolding classify_record complete is_exec_command starts_with
raw_error_keeps c d line rs h =
    let token = (submit_raw c line).0 in
    let taken : Connection = record d { pending = remove token d.pending } in
    let step =
      ap (λ i. route_class ResultClass.error i rs taken) (h ∙ raw-handle c line)
      ∙ raw_error raw_info rs taken refl in
    ap (λ e. push_back e (Event.command_completed token (outcome_of ResultClass.error rs))) step
