-- ===== src/Wire/Framer/Examples.antt =====
-- Runs of the framer, and its theorems at concrete streams.
use framewalk.Prelude.{◌≡◌, refl, arith, List, [], ◌∷◌, ◌++◌, bytes}
use framewalk.Wire.Framer.{line, group_terminator, Framer, new, push, pop, is_group_terminator}
use framewalk.Wire.Framer.Stream.{IsValid, pending, frames, residue}
use framewalk.Wire.Framer.Chunks.{
  Call, push_call, pop_call, run, received, pop_all, run-frames, Drained, pop_all-Drained,
}
use framewalk.Wire.Framer.Shape.{AreFrames, run-AreFrames}

-- A CRLF cut between its bytes, a terminator with a blank, a line not yet ended.
abbrev calls : List Call
calls =
    push_call (bytes "^done\r")
    ∷ pop_call
    ∷ push_call (bytes "\n(gdb) \nab")
    ∷ pop_call
    ∷ pop_call
    ∷ pop_call
    ∷ []

crlf_across_pushes : (run new calls).0 ≡ line (bytes "^done") ∷ group_terminator ∷ []
unfolding run push pop is_group_terminator
crlf_across_pushes = refl

run-frames_example :
    ((run new calls).0 ++ frames [] (pending (run new calls).1) ≡ frames [] (received calls))
    × (residue [] (pending (run new calls).1) ≡ residue [] (received calls))
    × IsValid (run new calls).1
run-frames_example = run-frames calls

run-AreFrames_example : AreFrames (run new calls).0
run-AreFrames_example = run-AreFrames calls

abbrev two_lines : Framer
two_lines = record { buf = bytes "old\none\r\ntwo\nthr"; read_pos = 4 }

two_lines-IsValid : IsValid two_lines
two_lines-IsValid = omega arith

pop_all-Drained_example : Drained two_lines (pop_all 20 two_lines)
pop_all-Drained_example = pop_all-Drained 20 two_lines two_lines-IsValid (omega arith)
