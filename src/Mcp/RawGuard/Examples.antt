-- ===== src/Mcp/RawGuard/Examples.antt =====
-- The guard at concrete inputs.
use framewalk.Prelude.{◌≡◌, refl, arith, true, false, inl, [], ◌∷◌, ◌++◌, bytes, beq, starts_with}
use framewalk.Codec.Encode.{write_u64}
use framewalk.Protocol.Connection.{new, submit_raw, outbound}
use framewalk.Protocol.Connection.Outbound.{IsQueue}
use framewalk.Mcp.RawGuard.{
  permitted, rejected, not_an_mi_command, unknown_command_family, raw_mi_operation,
  to_ascii_lowercase, validate_raw_mi_command, is_ascii_alphabetic, is_ascii_whitespace,
}
use framewalk.Mcp.RawGuard
use framewalk.Mcp.RawGuard.FirstWord.{validate-first_word, validate-shells}
use framewalk.Mcp.RawGuard.Lines.{validate-two_lines}

trims_white_space : validate_raw_mi_command (bytes "   -gdb-version   ") false ≡ permitted tt
unfolding validate_raw_mi_command beq starts_with
trims_white_space = refl

upper_case :
    raw_mi_operation (bytes "  -TARGET-SELECT remote :3333  ") ≡ permitted (bytes "TARGET-SELECT")
unfolding raw_mi_operation
upper_case = refl

rejects_empty : validate_raw_mi_command (bytes " \t ") true ≡ rejected RawGuard.empty
unfolding validate_raw_mi_command
rejects_empty = refl

rejects_cli : validate_raw_mi_command (bytes "shell ls") true ≡ rejected not_an_mi_command
unfolding validate_raw_mi_command
rejects_cli = refl

rejects_exact_neighbour :
    validate_raw_mi_command (bytes "-target-selector") false ≡ rejected unknown_command_family
unfolding validate_raw_mi_command beq starts_with
rejects_exact_neighbour = refl

letter : is_ascii_alphabetic b'g' ≡ true
unfolding is_ascii_alphabetic
letter = refl

newline : is_ascii_whitespace 10 ≡ true
unfolding is_ascii_whitespace
newline = refl

validate-first_word_example :
    validate_raw_mi_command (b'-' ∷ b'g' ∷ (bytes "db-version" ++ 10 ∷ bytes "-shell")) false
    ≡ validate_raw_mi_command (b'-' ∷ b'g' ∷ bytes "db-version") false
validate-first_word_example =
    validate-first_word b'g' (bytes "db-version") 10 (bytes "-shell") false letter refl newline

shell_line :
    raw_mi_operation (bytes " -Interpreter-Exec console \"shell ls\"")
    ≡ permitted (bytes "Interpreter-Exec")
unfolding raw_mi_operation
shell_line = refl

lowered : to_ascii_lowercase (bytes "Interpreter-Exec") ≡ bytes "interpreter-exec"
unfolding to_ascii_lowercase
lowered = refl

validate-shells_example :
    validate_raw_mi_command (bytes " -Interpreter-Exec console \"shell ls\"") false
    ≡ rejected unknown_command_family
validate-shells_example =
    validate-shells (bytes " -Interpreter-Exec console \"shell ls\"") (bytes "Interpreter-Exec")
      shell_line (inl lowered)

version_permitted : validate_raw_mi_command (b'-' ∷ b'g' ∷ bytes "db-version") false ≡ permitted tt
unfolding validate_raw_mi_command beq starts_with
version_permitted = refl

new-IsQueue : IsQueue new
new-IsQueue = record { in_buffer = omega arith }

-- `-interpreter-exec` goes through behind `-gdb-version`.
validate-two_lines_example :
    (validate_raw_mi_command
        (b'-' ∷ b'g' ∷ (bytes "db-version" ++ 10 ∷ bytes "-interpreter-exec"))
        false
      ≡ permitted tt)
    × (outbound
          (submit_raw new (b'-' ∷ b'g' ∷ (bytes "db-version" ++ 10 ∷ bytes "-interpreter-exec"))).1
        ≡ outbound new
          ++ (write_u64
                (submit_raw new
                  (b'-' ∷ b'g' ∷ (bytes "db-version" ++ 10 ∷ bytes "-interpreter-exec"))).0
              ++ (b'-'
                  ∷ b'g'
                  ∷ (bytes "db-version" ++ 10 ∷ (bytes "-interpreter-exec" ++ 10 ∷ [])))))
validate-two_lines_example =
    validate-two_lines new b'g' (bytes "db-version") (bytes "-interpreter-exec") false new-IsQueue
      letter refl version_permitted
