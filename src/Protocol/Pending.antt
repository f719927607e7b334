-- ===== src/Protocol/Pending.antt =====
-- crates/framewalk-mi-protocol/src/pending.rs: the commands that await their result.
use framewalk.Prelude.{
  Bool, Option, none, some, List, [], ◌∷◌, if◌then◌else◌, Bytes, bytes, beq, starts_with, Map,
}
use framewalk.Codec.Ast.{Token}

pub data Operation : Type 0 where
  break_insert break_info : Operation
  var_create : Option Bytes → Operation
  var_update : Operation
  var_delete : Bytes → Operation
  list_features list_target_features target_select exec_run : Operation
  other raw : Operation

abbrev last : List Bytes → Option Bytes
last [] = none
last (p ∷ []) = some p
last (p ∷ q ∷ ps) = last (q ∷ ps)

abbrev first_or_default : List Bytes → Bytes
first_or_default [] = []
first_or_default (p ∷ ps) = p

unfoldable pub from_name : Bytes → List Bytes → Operation
unfolding beq
from_name name parameters =
    if beq name (bytes "break-insert")
    then break_insert
    else if beq name (bytes "break-info")
    then break_info
    else if beq name (bytes "var-create")
    then var_create (last parameters)
    else if beq name (bytes "var-update")
    then var_update
    else if beq name (bytes "var-delete")
    then var_delete (first_or_default parameters)
    else if beq name (bytes "list-features")
    then list_features
    else if beq name (bytes "list-target-features")
    then list_target_features
    else if beq name (bytes "target-select")
    then target_select
    else if beq name (bytes "exec-run")
    then exec_run
    else other

pub record PendingInfo : Type 0 where
  pub operation : Operation
  pub operation_name : Bytes

unfoldable pub is_exec_command : PendingInfo → Bool
unfolding starts_with
is_exec_command info = starts_with info.operation_name (bytes "exec-")

-- `HashMap<Token, PendingInfo>`
abbrev pub PendingCommands : Type 0
PendingCommands = Map Token PendingInfo
