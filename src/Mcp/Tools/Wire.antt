-- ===== src/Mcp/Tools/Wire.antt =====
-- What two of the structured tools put on the wire.
use framewalk.Prelude.{
  ℕ, ◌+◌, ◌≡◌, refl, sym, ap, ◌∙◌, true, none, [], ◌∷◌, ◌++◌, append-nil, length, Bytes, bytes,
}
use framewalk.Codec.Command.{parameter}
use framewalk.Codec.Error.{ok}
use framewalk.Codec.Utf8.{is_utf8}
use framewalk.Codec.CString.{parse_cstring}
use framewalk.Codec.CString.RoundTrip.{parse_cstring-encode_cstring}
use framewalk.Codec.Encode.{is_non_blank_sequence, encode_cstring, encode_parameter, encode_command}
use framewalk.Mcp.Types.{WatchCreateArgs}
use framewalk.Mcp.Tools.Breakpoints.{in_quotes, break_commands, breakpoints_extended_command}
use framewalk.Mcp.Tools.Variables.{watch_create, variables_core_command}

quotes_again : (c : Bytes) → encode_parameter (in_quotes c) ≡ encode_cstring (in_quotes c)
unfolding encode_parameter is_non_blank_sequence
quotes_again c = refl

-- The parameter that break_commands sends for a command reads back, as a c-string, as that
-- command between two more double quotes, when it is UTF-8.
pub break_commands-quoted :
    (id c after : Bytes) (pos : ℕ)
    → is_utf8 (in_quotes c) ≡ true
    → ((breakpoints_extended_command
          (break_commands (record { id = id; commands = c ∷ [] }))).parameters
        ≡ id ∷ in_quotes c ∷ [])
      × (parse_cstring (record { rest = encode_parameter (in_quotes c) ++ after; pos = pos })
          ≡ ok (
            in_quotes c,
            record { rest = after; pos = pos + length (encode_parameter (in_quotes c)) },
          ))
unfolding breakpoints_extended_command parameter
break_commands-quoted id c after pos h = (
  refl,
  ap (λ s. parse_cstring (record { rest = s ++ after; pos = pos })) (quotes_again c)
      ∙ parse_cstring-encode_cstring (in_quotes c) after pos h
      ∙ ap (λ s. ok (in_quotes c, record { rest = after; pos = pos + length s }))
          (sym (quotes_again c)),
)

-- watch_create sends its dash, its star and its expression behind a double dash.
pub watch_create-separated :
    (args : WatchCreateArgs)
    → encode_command none (variables_core_command (watch_create args))
      ≡ bytes "-var-create -- - * " ++ (encode_parameter args.expression ++ 10 ∷ [])
unfolding variables_core_command parameter encode_command encode_parameter is_non_blank_sequence
watch_create-separated args =
    ap (λ s. bytes "-var-create -- - * " ++ (s ++ 10 ∷ []))
      (append-nil (encode_parameter args.expression))
