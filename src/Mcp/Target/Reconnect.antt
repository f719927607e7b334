-- ===== src/Mcp/Target/Reconnect.antt =====
-- The remembered selection is sent again as it was.
use framewalk.Prelude.{
  ℕ, ◌≡◌, refl, sym, ap, ◌∙◌, Bool, true, false, none, some, [], ◌∷◌, ◌++◌, append_assoc,
  if◌then◌else◌, Bytes,
}
use mathlib.Core.Option.{some-injective, none-ne-some}
use framewalk.Codec.Command.{MiCommand}
use framewalk.Codec.Encode.{encode_body, encode_command, write_u64}
use framewalk.Codec.Utf8.{is_utf8}
use framewalk.Protocol.Connection.{Connection, submit, submit_raw, outbound}
use framewalk.Protocol.Connection.Outbound.{IsQueue, submit-outbound, submit_raw-outbound}
use framewalk.Mcp.Target.{without_newline, checked_text, encode_mi_command}

without_newline-line : (s : Bytes) → without_newline (s ++ 10 ∷ []) ≡ some s
unfolding without_newline
without_newline-line [] = refl
without_newline-line (b ∷ []) = refl
without_newline-line (b ∷ c ∷ s) = rw (without_newline-line (c ∷ s))

checked-same : (b : Bool) (s raw : Bytes) → (if b then some s else none) ≡ some raw → s ≡ raw
checked-same true s raw h = some-injective _ _ h
checked-same false s raw h = absurd (none-ne-some raw h)

memo-body :
    (c : MiCommand) (raw : Bytes) → encode_mi_command c ≡ some raw → encode_body none c ≡ raw
unfolding encode_mi_command encode_command
memo-body c raw h =
    checked-same (is_utf8 (encode_body none c)) _ raw
      (ap checked_text (sym (without_newline-line (encode_body none c))) ∙ h)

body-token :
    (token : ℕ) (c : MiCommand)
    → encode_command (some token) c ≡ write_u64 token ++ (encode_body none c ++ 10 ∷ [])
unfolding encode_command encode_body
body-token token c = append_assoc (write_u64 token) (encode_body none c) (10 ∷ [])

-- When encode_mi_command gives a text for a command, submitting that text raw leaves the same
-- outbound bytes on a well-formed queue as submitting the command.
pub memo-resubmitted :
    (conn : Connection) (c : MiCommand) (raw : Bytes)
    → IsQueue conn
    → encode_mi_command c ≡ some raw
    → outbound (submit_raw conn raw).1 ≡ outbound (submit conn c).1
unfolding submit submit_raw
memo-resubmitted conn c raw q h =
    let token = (submit conn c).0 in
    (submit_raw-outbound conn raw q).0
    ∙ ap (λ s. outbound conn ++ (write_u64 token ++ (s ++ 10 ∷ []))) (sym (memo-body c raw h))
    ∙ ap (λ s. outbound conn ++ s) (sym (body-token token c))
    ∙ sym (submit-outbound conn c q).0
