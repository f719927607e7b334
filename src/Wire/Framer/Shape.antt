-- ===== src/Wire/Framer/Shape.antt =====
-- The shape of what the framer hands out.
use framewalk.Prelude.{
  ℕ, ◌≡◌, ◌↔◌, inl, inr, refl, Bool, true, false, not, List, [], ◌∷◌, ◌++◌, arith, length, Bytes,
  bytes, ◌==◌, all, starts_with, drop, Bool-cases,
}
use framewalk.Wire.Framer.{
  Frame, line, group_terminator, new, is_group_terminator, is_blank, frame_of,
}
use framewalk.Wire.Framer.Chunks.{Call, run, received, run-frames}
use framewalk.Wire.Framer.Stream.{pending, frames, strip_return}

starts_with-eq : (p s : Bytes) → starts_with s p ≡ true → s ≡ p ++ drop (length p) s
unfolding starts_with
starts_with-eq [] s h = refl
starts_with-eq (a ∷ p) [] h = cc
starts_with-eq (a ∷ p) (b ∷ s) h = ground (arith, starts_with-eq p s)

starts_with-append : (p s : Bytes) → starts_with (p ++ s) p ≡ true
unfolding starts_with
starts_with-append [] s = refl
starts_with-append (a ∷ p) s = ground (arith, starts_with-append p s)

test_of_split :
    (blanks : Bytes)
    → all is_blank blanks ≡ true
    → is_group_terminator (bytes "(gdb)" ++ blanks) ≡ true
unfolding is_group_terminator
test_of_split blanks h = ground (arith, starts_with-append (bytes "(gdb)") blanks)

split_of_test :
    (l : Bytes)
    → is_group_terminator l ≡ true
    → (l ≡ bytes "(gdb)" ++ drop 5 l) × (all is_blank (drop 5 l) ≡ true)
unfolding is_group_terminator
split_of_test l h = elim (Bool-cases (starts_with l (bytes "(gdb)"))) [
  | inl e ↦ (starts_with-eq (bytes "(gdb)") l e, ground arith)
  | inr e ↦ absurd (ground arith)
]

-- is_group_terminator holds exactly for `(gdb)` followed by spaces and tabs.
pub is_group_terminator_iff :
    (l : Bytes)
    → (is_group_terminator l ≡ true)
      ↔ ((blanks : Bytes) × (l ≡ bytes "(gdb)" ++ blanks) × (all is_blank blanks ≡ true))
is_group_terminator_iff l = (
  λ h. (drop 5 l, (split_of_test l h).0, (split_of_test l h).1),
  λ (blanks, e, b). rw e (test_of_split blanks b),
)

abbrev pub is_text : ℕ → Bool
is_text b = not (b == 10)

-- What a frame promises: a line holds no newline and is no terminator.
abbrev pub IsFrame : Frame → Type 0
IsFrame (line l) = (all is_text l ≡ true) × (is_group_terminator l ≡ false)
IsFrame group_terminator = Unit

abbrev pub AreFrames : List Frame → Type 0
AreFrames [] = Unit
AreFrames (fr ∷ out) = IsFrame fr × AreFrames out

all-append_one :
    (s : Bytes) (b : ℕ) → all is_text s ≡ true → is_text b ≡ true → all is_text (s ++ b ∷ []) ≡ true
all-append_one [] b h e = ground arith
all-append_one (a ∷ s) b h e = ground (arith, all-append_one s b)

all-strip_return : (s : Bytes) → all is_text s ≡ true → all is_text (strip_return s) ≡ true
unfolding strip_return
all-strip_return [] h = refl
all-strip_return (a ∷ []) h = ground arith
all-strip_return (a ∷ b ∷ s) h = ground (arith, all-strip_return (b ∷ s))

frame_of-IsFrame : (l : Bytes) → all is_text l ≡ true → IsFrame (frame_of l)
unfolding frame_of
frame_of-IsFrame l h = elim (Bool-cases (is_group_terminator l)) [
  | inl e ↦ rw e tt
  | inr e ↦ rw e (h, e)
]

frames-AreFrames : (cur s : Bytes) → all is_text cur ≡ true → AreFrames (frames cur s)
unfolding frames
frames-AreFrames cur [] h = tt
frames-AreFrames cur (b ∷ s) h = elim (Bool-cases (b == 10)) [
  | inl e ↦ rw e (frame_of-IsFrame _ (all-strip_return cur h), frames-AreFrames [] s refl)
  | inr e ↦ rw e (frames-AreFrames (cur ++ b ∷ []) s (all-append_one cur b h (ground arith)))
]

AreFrames-left : (out rest : List Frame) → AreFrames (out ++ rest) → AreFrames out
AreFrames-left [] rest h = tt
AreFrames-left (fr ∷ out) rest h = (h.0, AreFrames-left out rest h.1)

-- Whatever the schedule of pushes and pops, no line that the framer hands out holds a newline,
-- and none is the group terminator.
pub run-AreFrames : (calls : List Call) → AreFrames (run new calls).0
run-AreFrames calls =
    AreFrames-left (run new calls).0 (frames [] (pending (run new calls).1))
      (rw (run-frames calls).0 (frames-AreFrames [] (received calls) refl))
