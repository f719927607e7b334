-- ===== src/Mcp/RawGuard/Lines.antt =====
-- What the guard lets through, and what reaches GDB.
use framewalk.Prelude.{ℕ, ◌≡◌, refl, ap, ◌∙◌, Bool, true, [], ◌∷◌, ◌++◌, append_assoc, all, Bytes}
use framewalk.Codec.Encode.{write_u64}
use framewalk.Protocol.Connection.{Connection, submit_raw, outbound}
use framewalk.Protocol.Connection.Outbound.{IsQueue, submit_raw-outbound}
use framewalk.Mcp.RawGuard.{
  permitted, is_ascii_alphabetic, is_ascii_whitespace, validate_raw_mi_command,
}
use framewalk.Mcp.RawGuard.FirstWord.{is_graphic, validate-first_word}

newline : is_ascii_whitespace 10 ≡ true
unfolding is_ascii_whitespace
newline = refl

-- When a command of one printable word that begins with a letter is permitted, it is permitted
-- with a newline and any second line behind it, and submit_raw then appends both lines to a
-- well-formed outbound queue, the second as it is.
pub validate-two_lines :
    (c : Connection) (a : ℕ) (word second : Bytes) (allow_shell : Bool)
    → IsQueue c
    → is_ascii_alphabetic a ≡ true
    → all is_graphic word ≡ true
    → validate_raw_mi_command (b'-' ∷ a ∷ word) allow_shell ≡ permitted tt
    → let input : Bytes = b'-' ∷ a ∷ (word ++ 10 ∷ second) in
      (validate_raw_mi_command input allow_shell ≡ permitted tt)
      × (outbound (submit_raw c input).1
          ≡ outbound c
            ++ (write_u64 (submit_raw c input).0
                ++ (b'-' ∷ a ∷ (word ++ 10 ∷ (second ++ 10 ∷ [])))))
validate-two_lines c a word second allow_shell q ha hw h =
    let input : Bytes = b'-' ∷ a ∷ (word ++ 10 ∷ second) in
    (
      validate-first_word a word 10 second allow_shell ha hw newline ∙ h,
      (submit_raw-outbound c input q).0
          ∙ ap (λ s. outbound c ++ (write_u64 (submit_raw c input).0 ++ (b'-' ∷ a ∷ s)))
              (append_assoc word (10 ∷ second) (10 ∷ [])),
    )
