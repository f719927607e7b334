-- ===== src/Mcp/Tools.antt =====
-- crates/framewalk-mcp/src/tools: the commands that the structured tools send. A data type is a block
-- of tools, and its function says what each tool submits. This file has the steps that they share.
pub mod Breakpoints
pub mod Trace
pub mod Execution
pub mod Inspection
pub mod Variables
pub mod Environment
pub mod Symbols
pub mod Catalog
pub mod Lines
pub mod Guarded
pub mod Wire
mod Examples
use framewalk.Prelude.{
  ℕ, suc, Bool, Option, none, some, List, [], ◌∷◌, ◌++◌, if◌then◌else◌, Bytes, bytes,
}
use framewalk.Codec.Command.{CommandOption, MiCommand, command, option, option_with, parameter}
use framewalk.Codec.Encode.{write_u64}
use framewalk.Protocol.MiTypes.{PrintValues, print_values_arg}
use framewalk.Protocol.View.{ℤ, pos, negsuc}

-- `to_string` of an unsigned integer of at most 64 bits, in decimal.
abbrev pub to_string : ℕ → Bytes
to_string n = write_u64 n

-- `to_string` of an i64.
abbrev pub int_to_string : ℤ → Bytes
int_to_string (pos n) = write_u64 n
int_to_string (negsuc n) = b'-' ∷ write_u64 (suc n)

-- `if wanted { cmd = cmd.option(name); }`
abbrev pub option_if : Bool → Bytes → MiCommand → MiCommand
option_if wanted name c = record c {
  options = if wanted then c.options ++ record { name = name; value = none } ∷ [] else c.options;
}

abbrev pub valued : Bytes → Option Bytes → List CommandOption
valued name none = []
valued name (some v) = record { name = name; value = some v } ∷ []

-- `if let Some(v) = value { cmd = cmd.option_with(name, v); }`
abbrev pub option_some : Bytes → Option Bytes → MiCommand → MiCommand
option_some name value c = record c { options = c.options ++ valued name value }

abbrev pub listed : Option Bytes → List Bytes
listed none = []
listed (some v) = v ∷ []

-- `if let Some(v) = value { cmd = cmd.parameter(v); }`
abbrev pub parameter_some : Option Bytes → MiCommand → MiCommand
parameter_some value c = record c { parameters = c.parameters ++ listed value }

-- `for v in values { cmd = cmd.parameter(v); }`
abbrev pub parameter_each : List Bytes → MiCommand → MiCommand
parameter_each values c = record c { parameters = c.parameters ++ values }

abbrev pub both : Option ℕ → Option ℕ → List Bytes
both (some from) (some to) = to_string from ∷ to_string to ∷ []
both _ _ = []

-- `if let (Some(from), Some(to)) = (..) { cmd = cmd.parameter(from).parameter(to); }`
abbrev pub parameter_range : Option ℕ → Option ℕ → MiCommand → MiCommand
parameter_range from to c = record c { parameters = c.parameters ++ both from to }

-- `number.map(|n| n.to_string())`, as the tests of an optional number do it.
abbrev pub number : Option ℕ → Option Bytes
number none = none
number (some n) = some (to_string n)

-- The same for the values that a command prints.
abbrev pub values_shown : Option PrintValues → Option Bytes
values_shown none = none
values_shown (some pv) = some (print_values_arg pv)
