-- ===== src/Codec/Ast.antt =====
-- crates/framewalk-mi-codec/src/ast.rs: the syntax tree of output records.
use framewalk.Prelude.{ℕ, Option, none, some, Bytes, bytes, beq, if◌then◌else◌}

-- A `Token` is a u64.
abbrev pub Token : Type 0
Token = ℕ

-- `Value` and `ListValue`; `Values` is `Vec<Value>`, `Results` is `Vec<(String, Value)>`.
mutual
  pub data Value : Type 0 where
    const : Bytes → Value
    tuple : Results → Value
    list : ListValue → Value

  pub data ListValue : Type 0 where
    empty : ListValue
    values : Values → ListValue
    results : Results → ListValue

  pub data Values : Type 0 where
    no_values : Values
    value : Value → Values → Values

  pub data Results : Type 0 where
    no_results : Results
    result : Bytes → Value → Results → Results

pub data ResultClass : Type 0 where
  done running connected error exit : ResultClass

unfoldable pub from_bytes : Bytes → Option ResultClass
unfolding beq
from_bytes s =
    if beq s (bytes "done")
    then some done
    else if beq s (bytes "running")
    then some running
    else if beq s (bytes "connected")
    then some connected
    else if beq s (bytes "error")
    then some error
    else if beq s (bytes "exit")
    then some exit
    else none

unfoldable pub as_bytes : ResultClass → Bytes
as_bytes done = bytes "done"
as_bytes running = bytes "running"
as_bytes connected = bytes "connected"
as_bytes error = bytes "error"
as_bytes exit = bytes "exit"

pub record ResultRecord : Type 0 where
  pub token : Option Token
  pub class : ResultClass
  pub results : Results

-- `AsyncClass` is its name.
pub record AsyncRecord : Type 0 where
  pub token : Option Token
  pub class : Bytes
  pub results : Results

pub record StreamRecord : Type 0 where
  pub text : Bytes

pub data Record : Type 0 where
  result : ResultRecord → Record
  exec : AsyncRecord → Record
  status : AsyncRecord → Record
  notify : AsyncRecord → Record
  console : StreamRecord → Record
  target : StreamRecord → Record
  log : StreamRecord → Record
