-- ===== src/Wire/Framer.antt =====
-- crates/framewalk-mi-wire/src/frame.rs and framer.rs: the byte-level framer.
mod Examples
pub mod Single
pub mod Shape
pub mod Chunks
pub mod Stream
use framewalk.Prelude.{
  ℕ, zero, suc, ◌+◌, ◌-◌, ◌/◌, ◌≡◌, refl, Bool, true, false, not, ◌&&◌, ◌||◌, Option, none, some,
  List, [], ◌∷◌, ◌++◌, arith, ltb, leb, ◌==◌, if◌then◌else◌, length, get_elem?, take, drop, all,
  Bytes, bytes, starts_with,
}

-- `Frame`. A line owns its bytes here; the source lends a slice of the buffer.
pub data Frame : Type 0 where
  line : Bytes → Frame
  group_terminator : Frame

pub record Framer : Type 0 where
  pub buf : Bytes
  pub read_pos : ℕ

abbrev pub new : Framer
new = record { buf = []; read_pos = 0 }

-- The capacity is a hint to the allocator.
abbrev pub with_capacity : ℕ → Framer
with_capacity cap = record { buf = []; read_pos = 0 }

compact : Framer → Framer
compact f = if f.read_pos == 0 then f else record f { buf = drop f.read_pos f.buf; read_pos = 0 }

-- The lazy compaction of `push`: past the midpoint the consumed prefix is given back.
make_room : Framer → Framer
unfolding compact
make_room f = if not (f.read_pos == 0) && leb (length f.buf / 2) f.read_pos then compact f else f

unfoldable pub push : Framer → Bytes → Framer
unfolding make_room
push f bs = let c = make_room f in record c { buf = c.buf ++ bs }

unfoldable pub pending_bytes : Framer → ℕ
pending_bytes f = length f.buf - f.read_pos

pub is_blank : ℕ → Bool
is_blank b = b == b' ' || b == 9

unfoldable pub is_group_terminator : Bytes → Bool
unfolding is_blank starts_with
is_group_terminator l =
    if not (starts_with l (bytes "(gdb)")) then false else all is_blank (drop 5 l)

-- `Iterator::position`.
position : (ℕ → Bool) → Bytes → Option ℕ
position p [] = none
position p (b ∷ bs) =
    if p b then some 0 else (elim (position p bs) [ none ↦ none | some i ↦ some (suc i) ])

-- `&buf[from..to]`
abbrev slice : Bytes → ℕ → ℕ → Bytes
slice buf from to = take (to - from) (drop from buf)

is_newline : ℕ → Bool
is_newline b = b == 10

abbrev is_return : Option ℕ → Bool
is_return none = false
is_return (some b) = b == 13

pub frame_of : Bytes → Frame
frame_of l = if is_group_terminator l then group_terminator else line l

-- Where the line ends whose newline stands at `abs_newline`: before a carriage return.
line_end : Framer → ℕ → ℕ
line_end f abs_newline =
    if ltb f.read_pos abs_newline && is_return (get_elem? f.buf (abs_newline - 1))
    then abs_newline - 1
    else abs_newline

-- What `pop` does with the position of a newline in the buffer.
pop_at : Framer → ℕ → Option Frame × Framer
unfolding line_end frame_of is_group_terminator
pop_at f abs_newline = (
  some (frame_of (slice f.buf f.read_pos (line_end f abs_newline))),
  record f { read_pos = abs_newline + 1 },
)

-- `pop` after its scan: `?` returns early where no newline was found.
pop_found : Framer → Option ℕ → Option Frame × Framer
unfolding pop_at
pop_found f none = (none, f)
pop_found f (some rel_newline) = pop_at f (f.read_pos + rel_newline)

unfoldable pub pop : Framer → Option Frame × Framer
unfolding pop_found position is_newline
pop f = pop_found f (position is_newline (drop f.read_pos f.buf))
