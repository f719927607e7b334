-- ===== src/Protocol/Connection/Receive.antt =====
-- `receive_bytes` as a function of the stream, however it is cut into chunks.
use framewalk.Prelude.{
  suc, ◌≡◌, refl, sym, ap, ap₂, ◌∙◌, List, [], ◌∷◌, ◌++◌, append_assoc, arith, length, length-drop,
  Bytes,
}
use framewalk.Wire.Framer
use framewalk.Wire.Framer.{Frame, Framer, push, pending_bytes}
use framewalk.Wire.Framer.Stream.{
  IsValid, pending, frames, frames-append, residue, frames-residue, residue_restart, push-IsValid,
  pending-push,
}
use framewalk.Wire.Framer.Chunks.{pop_all, Drained, pop_all-Drained}
use framewalk.Protocol.Connection.{
  Connection, parsed_frame, classify_all, parsed_all, receive_bytes,
}
use framewalk.Protocol.Connection.Classify.{with_framer, classify_all-Ignores, classify_all-append}
use framewalk.Protocol.Connection.Events.{Adds, classify_all-Adds}

-- The bytes that wait for their newline.
abbrev pub waiting : Connection → Bytes
waiting c = pending c.framer

abbrev pub IsReady : Connection → Type 0
IsReady c = IsValid c.framer

-- The framer after a chunk, and the frames that it gave.
drained : Connection → Bytes → List Frame × Framer
drained c bs = let f = push c.framer bs in pop_all (suc (pending_bytes f)) f

drained-Drained :
    (c : Connection) (bs : Bytes) → IsReady c → Drained (push c.framer bs) (drained c bs)
unfolding drained pending_bytes
drained-Drained c bs v =
    let f = push c.framer bs in
    pop_all-Drained (suc (pending_bytes f)) f (push-IsValid c.framer bs v)
      (omega (arith, length-drop f.read_pos f.buf))

receive_lem :
    (c : Connection) (bs : Bytes)
    → receive_bytes c bs
      ≡ with_framer (drained c bs).1 (classify_all (parsed_all (drained c bs).0) c)
unfolding receive_bytes drained
receive_lem c bs = classify_all-Ignores (parsed_all (drained c bs).0) (drained c bs).1 c

parsed_all-append : (xs ys : List Frame) → parsed_all (xs ++ ys) ≡ parsed_all xs ++ parsed_all ys
unfolding parsed_all
parsed_all-append [] ys = refl
parsed_all-append (x ∷ xs) ys = ap (λ l. parsed_frame x ∷ l) (parsed_all-append xs ys)

-- What a connection is apart from its buffer of received bytes.
abbrev pub state : Connection → Connection
state = with_framer Framer.new

-- The reference semantics of a chunk: every line that it completes, in order.
unfoldable pub classified : Connection → Bytes → Connection
classified c s = classify_all (parsed_all (frames [] s)) c

pub record Received (c : Connection) (bs : Bytes) (d : Connection) : Type 0 where
  pub ready : IsReady d
  pub state_lem : state d ≡ state (classified c (waiting c ++ bs))
  pub kept : waiting d ≡ residue [] (waiting c ++ bs)

-- From a connection whose framer is well-formed, receive_bytes classifies, in order, exactly the
-- complete lines of the bytes that waited and the new ones, and keeps exactly the line that is
-- not complete, in a well-formed framer.
pub receive_bytes-Received :
    (c : Connection) (bs : Bytes) → IsReady c → Received c bs (receive_bytes c bs)
unfolding classified
receive_bytes-Received c bs v =
    let d = drained-Drained c bs v in
    let whole = pending-push c.framer bs v in
    rw receive_lem (record {
      ready = d.valid;
      state_lem =
          ap (λ l. state (classify_all (parsed_all l) c)) (d.all_frames ∙ ap (frames []) whole);
      kept = d.rest ∙ ap (residue []) whole;
    })

classified-state : (c : Connection) (s : Bytes) → classified (state c) s ≡ state (classified c s)
unfolding classified
classified-state c s = classify_all-Ignores _ _ c

classified-append :
    (c : Connection) (s t : Bytes)
    → classified c (s ++ t) ≡ classified (classified c s) (residue [] s ++ t)
unfolding classified
classified-append c s t =
    ap (λ l. classify_all (parsed_all l) c) (frames-append [] s t)
    ∙ ap (λ l. classify_all l c) (parsed_all-append (frames [] s) (frames (residue [] s) t))
    ∙ classify_all-append (parsed_all (frames [] s)) (parsed_all (frames (residue [] s) t)) c
    ∙ ap (λ l. classify_all (parsed_all l) (classified c s)) (sym (frames-residue s t))

-- From a connection whose framer is well-formed, receiving two chunks one after the other leaves
-- the same connection as receiving their concatenation, apart from how the framer stores the
-- bytes that wait, and those bytes are the same.
pub receive_bytes-append :
    (c : Connection) (xs ys : Bytes)
    → IsReady c
    → (state (receive_bytes (receive_bytes c xs) ys) ≡ state (receive_bytes c (xs ++ ys)))
      × (waiting (receive_bytes (receive_bytes c xs) ys) ≡ waiting (receive_bytes c (xs ++ ys)))
receive_bytes-append c xs ys v =
    let one = receive_bytes-Received c xs v in
    let d = receive_bytes c xs in
    let two = receive_bytes-Received d ys one.ready in
    let whole = receive_bytes-Received c (xs ++ ys) v in
    let s = waiting c ++ xs in
    let joined = append_assoc (waiting c) xs ys in
    (
      two.state_lem
          ∙ sym (classified-state d (waiting d ++ ys))
          ∙ ap₂ (λ e w. classified e (w ++ ys)) one.state_lem one.kept
          ∙ classified-state (classified c s) (residue [] s ++ ys)
          ∙ ap state (sym (classified-append c s ys) ∙ ap (classified c) joined)
          ∙ sym whole.state_lem,
      two.kept
          ∙ ap (λ w. residue [] (w ++ ys)) one.kept
          ∙ residue_restart s ys
          ∙ ap (residue []) joined
          ∙ sym whole.kept,
    )

-- From a connection whose framer is well-formed, receive_bytes adds exactly one event for each
-- complete line or terminator, behind the events that wait.
pub receive_bytes-events :
    (c : Connection) (bs : Bytes)
    → IsReady c
    → Adds c (length (frames [] (waiting c ++ bs))) (receive_bytes c bs)
unfolding classified
receive_bytes-events c bs v =
    let r = receive_bytes-Received c bs v in
    let a = classify_all-Adds (frames [] (waiting c ++ bs)) c in
    record {
      added = a.added;
      events = ap (λ d. d.events) r.state_lem ∙ a.events;
      one_each = a.one_each;
    }
