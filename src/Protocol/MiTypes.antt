-- ===== src/Protocol/MiTypes.antt =====
-- crates/framewalk-mi-protocol/src/mi_types.rs: the fixed sets of values that GDB takes.
use framewalk.Prelude.{ℕ, Bytes, bytes as text}

pub data PrintValues : Type 0 where
  no_values all_values simple_values : PrintValues

pub data RegisterFormat : Type 0 where
  hex octal binary decimal raw natural : RegisterFormat

pub data OpcodeMode : Type 0 where
  none bytes display : OpcodeMode

pub data WatchType : Type 0 where
  write read access : WatchType

pub data VarFormat : Type 0 where
  binary decimal hexadecimal octal natural zero_hexadecimal : VarFormat

pub data MemoryWordFormat : Type 0 where
  hex decimal octal binary float character string address : MemoryWordFormat

pub data TraceFindMode : Type 0 where
  none : TraceFindMode
  frame_number tracepoint_number : ℕ → TraceFindMode
  pc : Bytes → TraceFindMode
  pc_inside_range pc_outside_range : Bytes → Bytes → TraceFindMode
  line : Bytes → TraceFindMode

-- `as_mi_arg` of each.
abbrev pub print_values_arg : PrintValues → Bytes
print_values_arg no_values = text "--no-values"
print_values_arg all_values = text "--all-values"
print_values_arg simple_values = text "--simple-values"

abbrev pub register_format_arg : RegisterFormat → Bytes
register_format_arg hex = text "x"
register_format_arg octal = text "o"
register_format_arg binary = text "t"
register_format_arg decimal = text "d"
register_format_arg raw = text "r"
register_format_arg natural = text "N"

abbrev pub opcode_mode_arg : OpcodeMode → Bytes
opcode_mode_arg none = text "none"
opcode_mode_arg bytes = text "bytes"
opcode_mode_arg display = text "display"

abbrev pub var_format_arg : VarFormat → Bytes
var_format_arg binary = text "binary"
var_format_arg decimal = text "decimal"
var_format_arg hexadecimal = text "hexadecimal"
var_format_arg octal = text "octal"
var_format_arg natural = text "natural"
var_format_arg zero_hexadecimal = text "zero-hexadecimal"

abbrev pub word_format_arg : MemoryWordFormat → Bytes
word_format_arg hex = text "x"
word_format_arg decimal = text "d"
word_format_arg octal = text "o"
word_format_arg binary = text "t"
word_format_arg float = text "f"
word_format_arg character = text "c"
word_format_arg string = text "s"
word_format_arg address = text "a"
