-- ===== src/Mcp/Target.antt =====
-- crates/framewalk-mcp/src/server_helpers.rs and tools/operator.rs: the selection of a remote target. A
-- function takes the replies to its submissions in order, and returns what it does and its result.
pub mod Select
pub mod Reconnect
mod Examples
use framewalk.Prelude.{
  ℕ, Bool, true, false, not, ◌||◌, ◌&&◌, Option, none, some, List, [], ◌∷◌, ◌++◌, ◌==◌,
  if◌then◌else◌, Bytes, bytes, beq, starts_with,
}
use framewalk.Codec.Ast.{Results}
use framewalk.Codec.Command.{MiCommand, command, parameter}
use framewalk.Codec.Encode.{encode_command}
use framewalk.Codec.Utf8.{is_utf8}
use framewalk.Protocol.Event.{CommandOutcome}
use framewalk.Mcp.RawGuard.{
  Guarded, permitted, rejected, trim, to_ascii_lowercase, raw_mi_operation,
}

-- `haystack.contains(needle)`
unfoldable pub contains : Bytes → Bytes → Bool
unfolding starts_with
contains [] needle = starts_with [] needle
contains (b ∷ s) needle = starts_with (b ∷ s) needle || contains s needle

unfoldable pub is_non_stop_mismatch : Bytes → Bool
unfolding contains to_ascii_lowercase
is_non_stop_mismatch msg =
    let haystack = to_ascii_lowercase msg in
    contains haystack (bytes "non-stop")
    && (contains haystack (bytes "does not support")
        || contains haystack (bytes "not supported")
        || contains haystack (bytes "cannot enable"))

unfoldable pub is_remote_target_transport : Bytes → Bool
unfolding trim to_ascii_lowercase beq
is_remote_target_transport transport =
    let name = to_ascii_lowercase (trim transport) in
    beq name (bytes "remote") || beq name (bytes "extended-remote") || beq name (bytes "qnx")

-- `encoded.last() == Some(b'\n')`, then `encoded.pop()`; the code panics on `none`.
unfoldable pub without_newline : Bytes → Option Bytes
without_newline [] = none
without_newline (b ∷ []) = if b == 10 then some [] else none
without_newline (b ∷ c ∷ s) = elim (without_newline (c ∷ s)) [ none ↦ none | some t ↦ some (b ∷ t) ]

abbrev pub checked_text : Option Bytes → Option Bytes
checked_text none = none
checked_text (some s) = if is_utf8 s then some s else none

unfoldable pub encode_mi_command : MiCommand → Option Bytes
unfolding encode_command without_newline is_utf8
encode_mi_command c = checked_text (without_newline (encode_command none c))

-- What `submit` and `submit_raw` answer; `E` is the transport's error type.
pub data Reply (E : Type 0) : Type 0 where
  outcome : CommandOutcome → Reply E
  failure : E → Reply E

-- The three texts of the advisories.
pub data Advisory (E : Type 0) : Type 0 where
  non_stop_rejected : Bytes → Advisory E
  downgrade_returned : CommandOutcome → Advisory E
  downgrade_failed : E → Advisory E

pub data Action (E : Type 0) : Type 0 where
  submits : MiCommand → Action E
  submits_raw : Bytes → Action E
  logs : Advisory E → Action E
  remembers : Option Bytes → Action E
  probes : Action E

-- `Done(_) | Connected(_)`
abbrev pub is_success : CommandOutcome → Bool
is_success (CommandOutcome.done rs) = true
is_success (CommandOutcome.connected rs) = true
is_success _ = false

abbrev pub target_select : Bytes → Bytes → MiCommand
target_select transport_name parameters =
    parameter (parameter (command (bytes "target-select")) transport_name) parameters

abbrev pub downgrade : MiCommand
downgrade = parameter (parameter (command (bytes "gdb-set")) (bytes "non-stop")) (bytes "off")

-- `.ok().is_some_and(..)`
abbrev pub selects_target : Guarded Bytes → Bool
selects_target (permitted operation) = beq (to_ascii_lowercase operation) (bytes "target-select")
selects_target (rejected r) = false

module _ {E : Type 0} where
  abbrev pub original_error : Bytes → Reply E
  original_error msg = outcome (CommandOutcome.error msg none)

  -- The actions behind the warning, by the reply to the downgrade.
  unfoldable pub after_downgrade : Bytes → MiCommand → Reply E → Reply E → List (Action E) × Reply E
  after_downgrade msg rebuilt (outcome (CommandOutcome.done rs)) retried =
      (submits rebuilt ∷ [], retried)
  after_downgrade msg rebuilt (outcome (CommandOutcome.connected rs)) retried =
      (submits rebuilt ∷ [], retried)
  after_downgrade msg rebuilt (outcome other) retried =
      (logs (downgrade_returned other) ∷ [], original_error msg)
  after_downgrade msg rebuilt (failure err) retried =
      (logs (downgrade_failed err) ∷ [], original_error msg)

  unfoldable pub downgrade_non_stop_and_retry :
      Bytes → MiCommand → Reply E → Reply E → List (Action E) × Reply E
  unfolding after_downgrade
  downgrade_non_stop_and_retry msg rebuilt downgraded retried =
      let (acts, result) = after_downgrade msg rebuilt downgraded retried in
      (logs (non_stop_rejected msg) ∷ submits downgrade ∷ acts, result)

  unfoldable pub remember_successful_target_select_command :
      MiCommand → CommandOutcome → List (Action E)
  unfolding encode_mi_command to_ascii_lowercase beq
  remember_successful_target_select_command c reached =
      if is_success reached && beq (to_ascii_lowercase c.operation) (bytes "target-select")
      then remembers (encode_mi_command c) ∷ []
      else []

  unfoldable pub remember_successful_raw_target_select : Bytes → CommandOutcome → List (Action E)
  unfolding raw_mi_operation trim to_ascii_lowercase beq
  remember_successful_raw_target_select raw_command reached =
      if is_success reached && selects_target (raw_mi_operation raw_command)
      then remembers (some (trim raw_command)) ∷ []
      else []

  -- The end of `perform_target_select`, once the outcome is there.
  unfoldable pub conclude : Bytes → MiCommand → Reply E → List (Action E)
  unfolding remember_successful_target_select_command is_remote_target_transport
  conclude transport_name rebuilt (failure err) = []
  conclude transport_name rebuilt (outcome reached) =
      remember_successful_target_select_command rebuilt reached
      ++ (if is_success reached && is_remote_target_transport transport_name
          then probes ∷ []
          else [])

  -- The match on the first reply: the downgrade, or the reply as it is.
  unfoldable pub recovered : MiCommand → Reply E → Reply E → Reply E → List (Action E) × Reply E
  unfolding downgrade_non_stop_and_retry is_non_stop_mismatch
  recovered rebuilt (outcome (CommandOutcome.error msg code)) downgraded retried =
      if is_non_stop_mismatch msg
      then downgrade_non_stop_and_retry msg rebuilt downgraded retried
      else ([], outcome (CommandOutcome.error msg code))
  recovered rebuilt initial downgraded retried = ([], initial)

  unfoldable pub perform_target_select :
      Bytes → Bytes → Reply E → Reply E → Reply E → List (Action E) × Reply E
  unfolding recovered conclude parameter
  perform_target_select transport_name parameters initial downgraded retried =
      let rebuilt = target_select transport_name parameters in
      let (acts, result) = recovered rebuilt initial downgraded retried in
      (submits rebuilt ∷ (acts ++ conclude transport_name rebuilt result), result)

  -- Behind a reply to -target-disconnect: the remembered selection again.
  abbrev pub reconnected : Bytes → Reply E → List (Action E)
  reconnected selection (failure err) = []
  reconnected selection (outcome reached) = remember_successful_raw_target_select selection reached

  -- `none`: there is no selection to go back to, an error to the client.
  unfoldable pub reconnect_target :
      Option Bytes → Reply E → Reply E → Option (List (Action E) × Reply E)
  unfolding remember_successful_raw_target_select
  reconnect_target none disconnected answered = none
  reconnect_target (some selection) (failure err) answered =
      some (submits (command (bytes "target-disconnect")) ∷ [], failure err)
  reconnect_target (some selection) (outcome left) answered = some (
    submits (command (bytes "target-disconnect"))
        ∷ submits_raw selection
        ∷ reconnected selection answered,
    answered,
  )

-- `split_once(':')`
unfoldable pub split_at_colon : Bytes → Option (Bytes × Bytes)
split_at_colon [] = none
split_at_colon (b ∷ s) =
    let rest = split_at_colon s in
    if b == b':'
    then some ([], s)
    else elim rest [ none ↦ none | some (before, behind) ↦ some (b ∷ before, behind) ]

pub data ConnectSpec : Type 0 where
  connects : Bytes → Bytes → ConnectSpec
  no_colon empty_transport empty_parameters : ConnectSpec

abbrev pub checked_spec : Bytes → Bytes → ConnectSpec
checked_spec [] parameters = empty_transport
checked_spec (b ∷ s) [] = empty_parameters
checked_spec (b ∷ s) (c ∷ t) = connects (b ∷ s) (c ∷ t)

abbrev pub trimmed_spec : Option (Bytes × Bytes) → ConnectSpec
trimmed_spec none = no_colon
trimmed_spec (some (transport, parameters)) = checked_spec (trim transport) (trim parameters)

unfoldable pub parse_connect_spec : Bytes → ConnectSpec
unfolding split_at_colon trim
parse_connect_spec spec = trimmed_spec (split_at_colon spec)
