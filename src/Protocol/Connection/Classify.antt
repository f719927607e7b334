-- ===== src/Protocol/Connection/Classify.antt =====
-- What the classification of a frame leaves alone, and the event that it adds.
use framewalk.Prelude.{
  ◌≡◌, refl, ap, ◌∙◌, Bool, true, false, Option, none, some, List, [], ◌∷◌, ◌++◌, if◌then◌else◌,
  bytes, beq, nat_key, get, remove,
}
use framewalk.Wire.Framer.{Framer}
use framewalk.Codec.Ast.{
  Token, Record, ResultClass, ResultRecord, AsyncRecord, Results, result, exec, status, notify,
  console, target, log,
}
use framewalk.Protocol.Event.{Event}
use framewalk.Protocol.Pending.{Operation, PendingInfo, is_exec_command}
use framewalk.Protocol.State.Target.{mark_unknown}
use framewalk.Protocol.State.Frames.{clear}
use framewalk.Protocol.Connection.{
  Connection, push_back, route_operation, route_class, complete, outcome_of, classify_token,
  classify_exec, on_exec_running, on_exec_stopped, route_notify, notification, classify_record,
  ParsedFrame, record_frame, error_frame, terminator_frame, fuel_frame, classify_frame,
  classify_all,
}

abbrev pub with_framer : Framer → Connection → Connection
with_framer f c = record c { framer = f }

-- The framer is no input of a step, and the step does not change it.
abbrev Ignores : (Connection → Connection) → Type 0
Ignores step = (f : Framer) (c : Connection) → step (with_framer f c) ≡ with_framer f (step c)

Ignores-if :
    (b : Bool) (s t : Connection → Connection)
    → Ignores s
    → Ignores t
    → Ignores (λ c. if b then s c else t c)
Ignores-if true s t hs ht = hs
Ignores-if false s t hs ht = ht

operation-Ignores : (op : Operation) (rs : Results) → Ignores (route_operation op rs)
unfolding route_operation
operation-Ignores Operation.break_insert rs f c = refl
operation-Ignores _ rs f c = refl

class-Ignores :
    (class : ResultClass) (info : Option PendingInfo) (rs : Results)
    → Ignores (route_class class info rs)
unfolding route_class
class-Ignores ResultClass.done none rs f c = refl
class-Ignores class none rs f c = refl
class-Ignores ResultClass.done (some info) rs f c = operation-Ignores info.operation rs f c
class-Ignores ResultClass.connected (some info) rs f c = operation-Ignores info.operation rs f c
class-Ignores ResultClass.error (some info) rs f c =
    Ignores-if (is_exec_command info)
      (λ d. record d { target = mark_unknown d.target; frames = clear d.frames }) (λ d. d)
      (λ _ _. refl) (λ _ _. refl) f c
class-Ignores _ (some info) rs f c = refl

complete-Ignores : (token : Token) (rr : ResultRecord) → Ignores (complete token rr)
unfolding complete
complete-Ignores token rr f c =
    ap (λ d. push_back d (Event.command_completed token (outcome_of rr.class rr.results)))
      (class-Ignores rr.class (get token c.pending) rr.results f
        (record c { pending = remove token c.pending }))

result-Ignores : (token : Option Token) (rr : ResultRecord) → Ignores (classify_token token rr)
result-Ignores none rr f c = refl
result-Ignores (some token) rr f c = complete-Ignores token rr f c

exec-Ignores : (ar : AsyncRecord) → Ignores (classify_exec ar)
unfolding classify_exec on_exec_running on_exec_stopped
exec-Ignores ar =
    Ignores-if (beq ar.class (bytes "running")) (on_exec_running ar)
      (λ c.
        if beq ar.class (bytes "stopped")
        then on_exec_stopped ar c
        else push_back c (Event.unknown (exec ar)))
      (λ f c. refl)
      (Ignores-if (beq ar.class (bytes "stopped")) (on_exec_stopped ar)
        (λ c. push_back c (Event.unknown (exec ar))) (λ f c. refl) (λ f c. refl))

notify-Ignores : (ar : AsyncRecord) → Ignores (route_notify ar)
unfolding route_notify
notify-Ignores ar =
    Ignores-if (beq ar.class (bytes "thread-created")) _ _ (λ f c. refl)
      (Ignores-if (beq ar.class (bytes "thread-exited")) _ _ (λ f c. refl)
        (Ignores-if (beq ar.class (bytes "breakpoint-created")) _ _ (λ f c. refl)
          (Ignores-if (beq ar.class (bytes "breakpoint-modified")) _ _ (λ f c. refl)
            (Ignores-if (beq ar.class (bytes "breakpoint-deleted")) _ _ (λ f c. refl)
              (λ f c. refl)))))

record-Ignores : (r : Record) → Ignores (classify_record r)
unfolding classify_record
record-Ignores (result rr) f c = result-Ignores rr.token rr f c
record-Ignores (exec ar) f c = exec-Ignores ar f c
record-Ignores (status ar) f c = refl
record-Ignores (notify ar) f c =
    ap (λ d. push_back d (Event.notify (notification ar))) (notify-Ignores ar f c)
record-Ignores (console sr) f c = refl
record-Ignores (target sr) f c = refl
record-Ignores (log sr) f c = refl

frame-Ignores : (p : ParsedFrame) → Ignores (classify_frame p)
unfolding classify_frame
frame-Ignores (record_frame r) f c = record-Ignores r f c
frame-Ignores (error_frame e) f c = refl
frame-Ignores terminator_frame f c = refl
frame-Ignores fuel_frame f c = refl

-- Classifying frames neither reads nor changes the bytes that the framer holds.
pub classify_all-Ignores :
    (ps : List ParsedFrame) (f : Framer) (c : Connection)
    → classify_all ps (with_framer f c) ≡ with_framer f (classify_all ps c)
unfolding classify_all
classify_all-Ignores [] f c = refl
classify_all-Ignores (p ∷ ps) f c =
    ap (classify_all ps) (frame-Ignores p f c) ∙ classify_all-Ignores ps f (classify_frame p c)

pub classify_all-append :
    (ps qs : List ParsedFrame) (c : Connection)
    → classify_all (ps ++ qs) c ≡ classify_all qs (classify_all ps c)
unfolding classify_all
classify_all-append [] qs c = refl
classify_all-append (p ∷ ps) qs c = classify_all-append ps qs (classify_frame p c)
