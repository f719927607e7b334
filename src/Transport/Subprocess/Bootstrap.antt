-- ===== src/Transport/Subprocess/Bootstrap.antt =====
-- A session is ready exactly when every bootstrap command succeeds.
use framewalk.Prelude.{ℕ, suc, ◌≡◌, refl, ap, ◌∙◌, Bool, true, false, ◌&&◌, List, [], ◌∷◌, Bytes}
use framewalk.Protocol.Event.{CommandOutcome}
use framewalk.Transport.Subprocess.{
  BootReply, late, answered, failed, BootResult, ready, boot_round, boot_from, bootstrap_session,
  bootstrap_commands,
}

module _ {E : Type 0} where
  abbrev pub succeeds : BootReply E → Bool
  succeeds (answered (CommandOutcome.done rs)) = true
  succeeds (answered (CommandOutcome.connected rs)) = true
  succeeds _ = false

  -- The replies to the commands of a list, from a number on, up to the first that is no success.
  abbrev pub through_first_failure : ℕ → List Bytes → (ℕ → BootReply E) → List Bytes
  through_first_failure n [] replies = []
  through_first_failure n (raw ∷ commands) replies =
      let rest = through_first_failure (suc n) commands replies in
      raw ∷ elim (succeeds (replies n)) [ true ↦ rest | false ↦ [] ]

  abbrev pub all_succeed : ℕ → List Bytes → (ℕ → BootReply E) → Bool
  all_succeed n [] replies = true
  all_succeed n (raw ∷ commands) replies =
      let rest = all_succeed (suc n) commands replies in succeeds (replies n) && rest

  abbrev pub is_ready : BootResult E → Bool
  is_ready ready = true
  is_ready _ = false

  round_lem :
      (raw : Bytes) (reply : BootReply E) (rest : List Bytes × BootResult E)
      → ((boot_round raw reply rest).0 ≡ raw ∷ elim (succeeds reply) [ true ↦ rest.0 | false ↦ [] ])
        × (is_ready (boot_round raw reply rest).1 ≡ (succeeds reply && is_ready rest.1))
  unfolding boot_round
  round_lem raw late rest = (refl, refl)
  round_lem raw (answered (CommandOutcome.done rs)) rest = (refl, refl)
  round_lem raw (answered (CommandOutcome.connected rs)) rest = (refl, refl)
  round_lem raw (answered _) rest = (refl, refl)
  round_lem raw (failed err) rest = (refl, refl)

  boot_from_lem :
      (n : ℕ) (commands : List Bytes) (replies : ℕ → BootReply E)
      → ((boot_from n commands replies).0 ≡ through_first_failure n commands replies)
        × (is_ready (boot_from n commands replies).1 ≡ all_succeed n commands replies)
  unfolding boot_from
  boot_from_lem n [] replies = (refl, refl)
  boot_from_lem n (raw ∷ commands) replies =
      let (sent, result) = round_lem raw (replies n) (boot_from (suc n) commands replies) in
      let (later_sent, later_result) = boot_from_lem (suc n) commands replies in
      (
        sent
            ∙ ap
                (λ l.
                  raw ∷ elim (succeeds (replies n)) as (λ _. List Bytes) [ true ↦ l | false ↦ [] ])
                later_sent,
        result ∙ ap (λ b. succeeds (replies n) && b) later_result,
      )

  -- Whatever the replies, bootstrap_session submits its commands in order up to and with the first
  -- that does not succeed, and is ready exactly when every one succeeds.
  pub bootstrap_session-ready :
      (non_stop : Bool) (replies : ℕ → BootReply E)
      → let (sent, result) = bootstrap_session non_stop replies in
        (sent ≡ through_first_failure 0 (bootstrap_commands non_stop) replies)
        × (is_ready result ≡ all_succeed 0 (bootstrap_commands non_stop) replies)
  unfolding bootstrap_session
  bootstrap_session-ready non_stop replies = boot_from_lem 0 (bootstrap_commands non_stop) replies
