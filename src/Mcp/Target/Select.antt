-- ===== src/Mcp/Target/Select.antt =====
-- What perform_target_select remembers and returns, and how a --connect value is cut.
use framewalk.Prelude.{
  ◌≡◌, refl, ◌∙◌, Bool, false, Option, none, some, List, [], ◌∷◌, ◌++◌, if◌then◌else◌, Bytes, beq,
  Bool-cases, inl, inr,
}
use framewalk.Codec.Command.{parameter}
use framewalk.Protocol.Event.{CommandOutcome}
use framewalk.Mcp.RawGuard.{to_ascii_lowercase}
use framewalk.Mcp.Target.{
  is_non_stop_mismatch, encode_mi_command, Reply, outcome, failure, Action, remembers, is_success,
  target_select, after_downgrade, downgrade_non_stop_and_retry,
  remember_successful_target_select_command, conclude, recovered, perform_target_select,
}

module _ {E : Type 0} where
  -- What the actions remember first.
  abbrev pub remembered : List (Action E) → Option (Option Bytes)
  remembered [] = none
  remembered (remembers text ∷ acts) = some text
  remembered (_ ∷ acts) = remembered acts

  abbrev pub succeeded : Reply E → Bool
  succeeded (outcome reached) = is_success reached
  succeeded (failure err) = false

  module _ (transport_name parameters : Bytes) where
    conclude-remembered :
        (result : Reply E)
        → remembered (conclude transport_name (target_select transport_name parameters) result) ≡ (
            if succeeded result
            then some (encode_mi_command (target_select transport_name parameters))
            else none)
    unfolding conclude remember_successful_target_select_command parameter to_ascii_lowercase beq
    conclude-remembered (failure err) = refl
    conclude-remembered (outcome (CommandOutcome.done rs)) = refl
    conclude-remembered (outcome (CommandOutcome.connected rs)) = refl
    conclude-remembered (outcome CommandOutcome.running) = refl
    conclude-remembered (outcome (CommandOutcome.error msg code)) = refl
    conclude-remembered (outcome CommandOutcome.exit) = refl

    downgrade-remembered :
        (msg : Bytes) (downgraded retried : Reply E) (acts : List (Action E))
        → remembered (
            (downgrade_non_stop_and_retry msg
              (target_select transport_name parameters)
              downgraded
              retried).0
            ++ acts)
          ≡ remembered acts
    unfolding downgrade_non_stop_and_retry after_downgrade
    downgrade-remembered msg (failure err) retried acts = refl
    downgrade-remembered msg (outcome (CommandOutcome.done rs)) retried acts = refl
    downgrade-remembered msg (outcome (CommandOutcome.connected rs)) retried acts = refl
    downgrade-remembered msg (outcome _) retried acts = refl

    -- The actions before the end remember nothing.
    recovered-remembered :
        (initial downgraded retried : Reply E) (acts : List (Action E))
        → remembered (
            (recovered (target_select transport_name parameters) initial downgraded retried).0
            ++ acts)
          ≡ remembered acts
    unfolding recovered downgrade_non_stop_and_retry after_downgrade
    recovered-remembered (failure err) downgraded retried acts = refl
    recovered-remembered (outcome (CommandOutcome.error msg code)) downgraded retried acts =
        elim (Bool-cases (is_non_stop_mismatch msg)) [
          | inl mismatch ↦ rw mismatch (downgrade-remembered msg downgraded retried acts)
          | inr other ↦ rw other
        ]
    recovered-remembered (outcome (CommandOutcome.done rs)) downgraded retried acts = refl
    recovered-remembered (outcome (CommandOutcome.connected rs)) downgraded retried acts = refl
    recovered-remembered (outcome CommandOutcome.running) downgraded retried acts = refl
    recovered-remembered (outcome CommandOutcome.exit) downgraded retried acts = refl

    -- Whatever GDB replies, and whichever path of the downgrade is taken, perform_target_select
    -- remembers the encoded selection exactly when its result is a success, and nothing otherwise.
    pub perform_target_select-remembered :
        (initial downgraded retried : Reply E)
        → let (acts, result) =
            perform_target_select transport_name parameters initial downgraded retried in
          remembered acts ≡ (
            if succeeded result
            then some (encode_mi_command (target_select transport_name parameters))
            else none)
    unfolding perform_target_select
    perform_target_select-remembered initial downgraded retried =
        recovered-remembered initial downgraded retried _
        ∙ conclude-remembered
            (recovered (target_select transport_name parameters) initial downgraded retried).1
