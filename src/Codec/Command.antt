-- ===== src/Codec/Command.antt =====
-- crates/framewalk-mi-codec/src/command.rs: the commands that callers build.
use framewalk.Prelude.{Option, none, some, List, [], ◌∷◌, ◌++◌, Bytes}

pub record CommandOption : Type 0 where
  pub name : Bytes
  pub value : Option Bytes

pub record MiCommand : Type 0 where
  pub operation : Bytes
  pub options : List CommandOption
  pub parameters : List Bytes

-- `MiCommand::new`
abbrev pub command : Bytes → MiCommand
command operation = record { operation = operation; options = []; parameters = [] }

unfoldable pub option : MiCommand → Bytes → MiCommand
option c name = record c { options = c.options ++ record { name = name; value = none } ∷ [] }

unfoldable pub option_with : MiCommand → Bytes → Bytes → MiCommand
option_with c name v = record c {
  options = c.options ++ record { name = name; value = some v } ∷ [];
}

unfoldable pub parameter : MiCommand → Bytes → MiCommand
parameter c v = record c { parameters = c.parameters ++ v ∷ [] }
