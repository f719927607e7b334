-- ===== src/Wire/Framer/Chunks.antt =====
-- Schedules of `push` and `pop`, and the loop that pops until nothing is left.
use framewalk.Prelude.{
  ℕ, zero, suc, ◌<◌, ◌≡◌, sym, ap, ap₂, ◌∙◌, Option, none, some, List, [], ◌∷◌, ◌++◌, append-nil,
  append_assoc, arith, length, Bytes,
}
use framewalk.Wire.Framer.{Frame, Framer, new, push, pop}
use framewalk.Wire.Framer.Stream.{
  IsValid, pending, frames, frames-append, residue, residue-append, pending-push, push-IsValid,
  Popped, starved, popped, pop-Popped,
}

-- What a caller does with a framer.
pub data Call : Type 0 where
  push_call : Bytes → Call
  pop_call : Call

abbrev cons_some : Option Frame → List Frame → List Frame
cons_some none out = out
cons_some (some fr) out = fr ∷ out

-- The frames that a schedule of calls hands out, and the framer that it leaves.
unfoldable pub run : Framer → List Call → List Frame × Framer
run f [] = ([], f)
run f (push_call bs ∷ calls) = run (push f bs) calls
run f (pop_call ∷ calls) =
    let (fr, g) = pop f in let (out, h) = run g calls in (cons_some fr out, h)

-- All the bytes that a schedule pushes, in order.
pub received : List Call → Bytes
received [] = []
received (push_call bs ∷ calls) = bs ++ received calls
received (pop_call ∷ calls) = received calls

-- What is owed after a schedule, with what it handed out, is what the whole stream holds.
record IsFaithful (f : Framer) (s : Bytes) (r : List Frame × Framer) : Type 0 where
  valid : IsValid r.1
  handed_out : r.0 ++ frames [] (pending r.1) ≡ frames [] (pending f ++ s)
  kept : residue [] (pending r.1) ≡ residue [] (pending f ++ s)

pop-IsFaithful :
    (f : Framer) (s : Bytes) (p : Option Frame × Framer) (r : List Frame × Framer)
    → IsValid f
    → Popped f p
    → IsFaithful p.1 s r
    → IsFaithful f s (cons_some p.0 r.0, r.1)
pop-IsFaithful f s _ r v (starved _ _) h = h
pop-IsFaithful f s _ r v (popped fr g vg e k _) h = record {
  valid = h.valid;
  handed_out =
      ap (λ t. fr ∷ t) (h.handed_out ∙ frames-append [] (pending g) s)
      ∙ ap₂ (λ t c. t ++ frames c s) (sym e) (sym k)
      ∙ sym (frames-append [] (pending f) s);
  kept =
      h.kept
      ∙ residue-append [] (pending g) s
      ∙ ap (λ c. residue c s) (sym k)
      ∙ sym (residue-append [] (pending f) s);
}

pub Popped-IsValid : {f : Framer} {p : Option Frame × Framer} → IsValid f → Popped f p → IsValid p.1
Popped-IsValid v (starved _ _) = v
Popped-IsValid v (popped fr g vg _ _ _) = vg

run-IsFaithful :
    (f : Framer) (calls : List Call) → IsValid f → IsFaithful f (received calls) (run f calls)
unfolding run received
run-IsFaithful f [] v = record { valid = v; handed_out = rw append-nil; kept = rw append-nil }
run-IsFaithful f (push_call bs ∷ calls) v =
    let ih = run-IsFaithful (push f bs) calls (push-IsValid f bs v) in
    let joined =
      ap (λ t. t ++ received calls) (pending-push f bs v)
      ∙ append_assoc (pending f) bs (received calls) in
    record {
      valid = ih.valid;
      handed_out = ih.handed_out ∙ ap (frames []) joined;
      kept = ih.kept ∙ ap (residue []) joined;
    }
run-IsFaithful f (pop_call ∷ calls) v =
    let p = pop-Popped f v in
    pop-IsFaithful f (received calls) (pop f) (run (pop f).1 calls) v p
      (run-IsFaithful (pop f).1 calls (Popped-IsValid v p))

new-IsValid : IsValid new
new-IsValid = omega arith

-- For every sequence of pushes and pops from the empty framer, the frames handed out, followed
-- by those still in the buffer, are the frames of the concatenated pushes; the unfinished line
-- is theirs too, and the read position stays in the buffer.
pub run-frames :
    (calls : List Call)
    → ((run new calls).0 ++ frames [] (pending (run new calls).1) ≡ frames [] (received calls))
      × (residue [] (pending (run new calls).1) ≡ residue [] (received calls))
      × IsValid (run new calls).1
run-frames calls = let h = run-IsFaithful new calls new-IsValid in (h.handed_out, h.kept, h.valid)

-- One round of the loop below: stop where `pop` gives nothing.
pop_round : (Framer → List Frame × Framer) → Option Frame × Framer → List Frame × Framer
pop_round again (none, g) = ([], g)
pop_round again (some fr, g) = let (out, h) = again g in (fr ∷ out, h)

-- `while let Some(frame) = framer.pop()`, on fuel.
unfoldable pub pop_all : ℕ → Framer → List Frame × Framer
unfolding pop_round
pop_all zero f = ([], f)
pop_all (suc n) f = pop_round (pop_all n) (pop f)

-- What the loop returns when it has run to its end.
pub record Drained (f : Framer) (r : List Frame × Framer) : Type 0 where
  pub valid : IsValid r.1
  pub all_frames : r.0 ≡ frames [] (pending f)
  pub rest : pending r.1 ≡ residue [] (pending f)

pop_round-Drained :
    (n : ℕ) (f : Framer) (p : Option Frame × Framer)
    → IsValid f
    → Popped f p
    → ((g : Framer) → IsValid g → length (pending g) < n → Drained g (pop_all n g))
    → length (pending f) < suc n
    → Drained f (pop_round (pop_all n) p)
unfolding pop_round
pop_round-Drained n f _ v (starved a b) ih h = record {
  valid = v;
  all_frames = sym a;
  rest = sym b;
}
pop_round-Drained n f _ v (popped fr g vg a b less) ih h =
    let d = ih g vg (omega arith) in
    record {
      valid = d.valid;
      all_frames = ap (λ t. fr ∷ t) d.all_frames ∙ sym a;
      rest = d.rest ∙ sym b;
    }

-- On a well-formed framer, with more fuel than bytes pending, the loop of pops returns every
-- complete frame and leaves exactly the line that is not complete, in a well-formed framer.
pub pop_all-Drained :
    (n : ℕ) (f : Framer) → IsValid f → length (pending f) < n → Drained f (pop_all n f)
unfolding pop_all
pop_all-Drained zero f v h = elim h [ ]
pop_all-Drained (suc n) f v h =
    pop_round-Drained n f (pop f) v (pop-Popped f v) (pop_all-Drained n) h
