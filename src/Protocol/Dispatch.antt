-- ===== src/Protocol/Dispatch.antt =====
-- crates/framewalk-mi-protocol/src/connection.rs: the connection, and the routing of its records.
use framewalk.Prelude.{
  ℕ, Bool, true, false, Option, none, some, List, [], ◌∷◌, ◌++◌, if◌then◌else◌, Bytes, bytes, beq,
  bytes_key, nat_key, get, remove,
}
use framewalk.Wire.Framer.{Framer}
use framewalk.Codec.Ast.{
  Token, ResultClass, Results, ResultRecord, AsyncRecord, Record, result, exec, status, notify,
  console, target, log,
}
use framewalk.Protocol.View.{get_str, get_string, get_tuple, pos}
use framewalk.Protocol.State.Threads.{
  ThreadId, ThreadRegistry, is_all, on_state, on_running, on_stopped, on_thread_created,
  on_thread_exited,
}
use framewalk.Protocol.State.Frames
use framewalk.Protocol.State.Frames.{FrameRegistry, invalidate, clear, on_stopped_frame}
use framewalk.Protocol.State.Breakpoints.{
  BreakpointRegistry, upsert_from_bkpt_tuple, on_breakpoint_changed, on_breakpoint_deleted,
}
use framewalk.Protocol.State.VarObjs.{VarObjRegistry, on_var_create, on_var_update, on_var_delete}
use framewalk.Protocol.State.Features.{
  FeatureSet, on_list_features, on_list_target_features, invalidate_target_features,
}
use framewalk.Protocol.State.Target
use framewalk.Protocol.State.Target.{TargetState, StoppedReason, mark_unknown}
use framewalk.Protocol.Token.{TokenAllocator}
use framewalk.Protocol.Pending.{Operation, PendingInfo, PendingCommands, is_exec_command}
use framewalk.Protocol.Event.{CommandOutcome, Event, NotifyEvent, MiVersion}

pub record Connection : Type 0 where
  pub framer : Framer
  pub outbound : Bytes
  pub outbound_consumed : ℕ
  pub tokens : TokenAllocator
  pub pending : PendingCommands
  pub events : List Event
  pub target : TargetState
  pub threads : ThreadRegistry
  pub frames : FrameRegistry
  pub breakpoints : BreakpointRegistry
  pub varobjs : VarObjRegistry
  pub features : FeatureSet
  pub mi_version : MiVersion

abbrev pub push_back : Connection → Event → Connection
push_back c ev = record c { events = c.events ++ ev ∷ [] }

abbrev pub upsert_bkpt : BreakpointRegistry → Option Results → BreakpointRegistry
upsert_bkpt m none = m
upsert_bkpt m (some bkpt) = upsert_from_bkpt_tuple m bkpt

-- Which registry the payload of a finished command feeds.
unfoldable pub route_operation : Operation → Results → Connection → Connection
unfolding get_tuple on_var_create on_var_update on_var_delete on_list_features
route_operation Operation.break_insert rs c = record c {
  breakpoints = upsert_bkpt c.breakpoints (get_tuple rs (bytes "bkpt"));
}
route_operation Operation.break_info rs c = record c {
  breakpoints = upsert_bkpt c.breakpoints (get_tuple rs (bytes "bkpt"));
}
route_operation (Operation.var_create expression) rs c = record c {
  varobjs = on_var_create c.varobjs rs expression;
}
route_operation Operation.var_update rs c = record c { varobjs = on_var_update c.varobjs rs }
route_operation (Operation.var_delete name) rs c = record c {
  varobjs = on_var_delete c.varobjs name;
}
route_operation Operation.list_features rs c = record c {
  features = on_list_features c.features rs;
}
route_operation Operation.list_target_features rs c = record c {
  features = on_list_target_features c.features rs;
}
route_operation Operation.target_select rs c = record c {
  features = invalidate_target_features c.features;
}
route_operation Operation.exec_run rs c = record c {
  features = invalidate_target_features c.features;
}
route_operation Operation.other rs c = c
route_operation Operation.raw rs c = c

unfoldable pub route_done : PendingInfo → Results → Connection → Connection
unfolding route_operation
route_done info rs c = route_operation info.operation rs c

abbrev pub or_empty : Option Bytes → Bytes
or_empty none = []
or_empty (some s) = s

-- The first match of `classify_result`: the registries, by class and pending operation.
unfoldable pub route_class : ResultClass → Option PendingInfo → Results → Connection → Connection
unfolding route_done is_exec_command mark_unknown
route_class class none rs c = c
route_class ResultClass.done (some info) rs c = route_done info rs c
route_class ResultClass.connected (some info) rs c = route_done info rs c
route_class ResultClass.error (some info) rs c =
    if is_exec_command info
    then record c { target = mark_unknown c.target; frames = clear c.frames }
    else c
route_class _ (some info) rs c = c

-- The second match: what the caller is told.
unfoldable pub outcome_of : ResultClass → Results → CommandOutcome
unfolding get_str
outcome_of ResultClass.done rs = CommandOutcome.done rs
outcome_of ResultClass.running rs = CommandOutcome.running
outcome_of ResultClass.connected rs = CommandOutcome.connected rs
outcome_of ResultClass.error rs =
    CommandOutcome.error (or_empty (get_string rs (bytes "msg"))) (get_string rs (bytes "code"))
outcome_of ResultClass.exit rs = CommandOutcome.exit

-- `classify_result` once the token is known.
unfoldable pub complete : Token → ResultRecord → Connection → Connection
unfolding route_class outcome_of
complete token rr c =
    let info = get token c.pending in
    let taken : Connection = record c { pending = remove token c.pending } in
    push_back (route_class rr.class info rr.results taken)
      (Event.command_completed token (outcome_of rr.class rr.results))

abbrev pub classify_token : Option Token → ResultRecord → Connection → Connection
classify_token none rr c = push_back c (Event.unknown (result rr))
classify_token (some token) rr c = complete token rr c

unfoldable pub classify_result : ResultRecord → Connection → Connection
unfolding complete
classify_result rr c = classify_token rr.token rr c

abbrev pub frames_on_running : Option ThreadId → FrameRegistry → FrameRegistry
frames_on_running none m = clear m
frames_on_running (some tid) m = if is_all tid then clear m else invalidate m tid

unfoldable pub on_exec_running : AsyncRecord → Connection → Connection
unfolding get_str on_state invalidate
on_exec_running ar c =
    let thread = get_str ar.results (bytes "thread-id") in
    push_back
      (record c {
        target = TargetState.running thread;
        threads = on_running c.threads thread;
        frames = frames_on_running thread c.frames;
      })
      (Event.running thread)

-- The target and the frames after a stop.
unfoldable pub target_on_stopped : Option ThreadId → Option StoppedReason → TargetState
target_on_stopped thread (some StoppedReason.exited_normally) = TargetState.exited (some (pos 0))
target_on_stopped thread (some (StoppedReason.exited code)) = TargetState.exited code
target_on_stopped thread (some (StoppedReason.exited_signalled signal)) = TargetState.exited none
target_on_stopped thread reason = TargetState.stopped thread reason

unfoldable pub is_exit_reason : Option StoppedReason → Bool
is_exit_reason (some StoppedReason.exited_normally) = true
is_exit_reason (some (StoppedReason.exited code)) = true
is_exit_reason (some (StoppedReason.exited_signalled signal)) = true
is_exit_reason _ = false

abbrev pub frame_on_stopped : Option ThreadId → Results → FrameRegistry → FrameRegistry
frame_on_stopped none rs m = m
frame_on_stopped (some tid) rs m = on_stopped_frame m tid rs

unfoldable pub extract_frame : Results → Option Frames.Frame
unfolding get_tuple Frames.from_results
extract_frame rs = elim (get_tuple rs (bytes "frame")) [
  | none ↦ none
  | some frame ↦ some (Frames.from_results frame)
]

unfoldable pub on_exec_stopped : AsyncRecord → Connection → Connection
unfolding get_str on_state Target.from_results target_on_stopped is_exit_reason on_stopped_frame
    extract_frame
on_exec_stopped ar c =
    let thread = get_str ar.results (bytes "thread-id") in
    let reason = Target.from_results ar.results in
    let kept = if is_exit_reason reason then clear c.frames else c.frames in
    push_back
      (record c {
        target = target_on_stopped thread reason;
        threads = on_stopped c.threads thread;
        frames = frame_on_stopped thread ar.results kept;
      })
      (Event.stopped (record {
        reason = reason;
        thread = thread;
        frame = extract_frame ar.results;
        raw = ar.results;
      }))

unfoldable pub classify_exec : AsyncRecord → Connection → Connection
unfolding on_exec_running on_exec_stopped
classify_exec ar c =
    if beq ar.class (bytes "running")
    then on_exec_running ar c
    else if beq ar.class (bytes "stopped")
    then on_exec_stopped ar c
    else push_back c (Event.unknown (exec ar))

-- The registries that a notification feeds.
unfoldable pub route_notify : AsyncRecord → Connection → Connection
unfolding on_thread_created on_thread_exited on_breakpoint_changed on_breakpoint_deleted
route_notify ar c =
    if beq ar.class (bytes "thread-created")
    then record c { threads = on_thread_created c.threads ar.results }
    else if beq ar.class (bytes "thread-exited")
    then record c { threads = on_thread_exited c.threads ar.results }
    else if beq ar.class (bytes "breakpoint-created")
    then record c { breakpoints = on_breakpoint_changed c.breakpoints ar.results }
    else if beq ar.class (bytes "breakpoint-modified")
    then record c { breakpoints = on_breakpoint_changed c.breakpoints ar.results }
    else if beq ar.class (bytes "breakpoint-deleted")
    then record c { breakpoints = on_breakpoint_deleted c.breakpoints ar.results }
    else c

abbrev pub notification : AsyncRecord → NotifyEvent
notification ar = record { class = ar.class; results = ar.results }

unfoldable pub classify_notify : AsyncRecord → Connection → Connection
unfolding route_notify
classify_notify ar c = push_back (route_notify ar c) (Event.notify (notification ar))

unfoldable pub classify_status : AsyncRecord → Connection → Connection
classify_status ar c = push_back c (Event.status (notification ar))

unfoldable pub classify_record : Record → Connection → Connection
unfolding classify_result classify_exec classify_status classify_notify
classify_record (result rr) c = classify_result rr c
classify_record (exec ar) c = classify_exec ar c
classify_record (status ar) c = classify_status ar c
classify_record (notify ar) c = classify_notify ar c
classify_record (console sr) c = push_back c (Event.console sr.text)
classify_record (target sr) c = push_back c (Event.target_output sr.text)
classify_record (log sr) c = push_back c (Event.log sr.text)
