-- ===== src/Codec/Examples.antt =====
-- The theorems on the codec at concrete lines.
use framewalk.Prelude.{◌+◌, ◌≤◌, ◌≡◌, refl, arith, true, some, [], ◌∷◌, ◌++◌, length, Bytes, bytes}
use framewalk.Codec.Error.{ok}
use framewalk.Codec.Utf8.{is_utf8}
use framewalk.Codec.CString.{parse_cstring}
use framewalk.Codec.CString.RoundTrip.{parse_cstring-encode_cstring}
use framewalk.Codec.Record.Total.{Answers, parse_record-Answers}
use framewalk.Codec.Record.{parse_optional_token, parse_record}
use framewalk.Codec.Record.Tokens.{parse_optional_token-write_u64}
use framewalk.Codec.Command.{MiCommand}
use framewalk.Codec.Encode.{encode_cstring, write_u64, encode_command}
use framewalk.Codec.Encode.Lines.{IsLine, encode_command-IsLine}

abbrev stop_line : Bytes
stop_line = bytes "*stopped,reason=\"breakpoint-hit\",frame={func=\"main\",args=[]}"

parse_record-Answers_example : Answers stop_line (parse_record stop_line)
parse_record-Answers_example = parse_record-Answers stop_line

-- A quote, a backslash, a newline, a control byte and a letter of two bytes.
abbrev odd_text : Bytes
odd_text = b'a' ∷ b'"' ∷ 92 ∷ 10 ∷ 0x1b ∷ 0xc3 ∷ 0xa9 ∷ []

odd_text_utf8 : is_utf8 odd_text ≡ true
unfolding is_utf8
odd_text_utf8 = refl

parse_cstring-encode_cstring_example :
    parse_cstring (record { rest = encode_cstring odd_text ++ bytes ",x"; pos = 3 })
    ≡ ok (odd_text, record { rest = bytes ",x"; pos = 3 + length (encode_cstring odd_text) })
parse_cstring-encode_cstring_example =
    parse_cstring-encode_cstring odd_text (bytes ",x") 3 odd_text_utf8

parse_optional_token-write_u64_example :
    (parse_optional_token
        (record { rest = write_u64 18446744073709551615 ++ b'^' ∷ bytes "done"; pos = 0 })
      ≡ ok (
        some 18446744073709551615,
        record { rest = b'^' ∷ bytes "done"; pos = 0 + length (write_u64 18446744073709551615) },
      ))
    × (length (write_u64 18446744073709551615) ≤ 20)
parse_optional_token-write_u64_example =
    parse_optional_token-write_u64 18446744073709551615 b'^' (bytes "done") 0 (omega arith) refl

-- A parameter with a newline in it, behind an option.
abbrev odd_command : MiCommand
odd_command = record {
  operation = bytes "break-insert";
  options = record { name = bytes "c"; value = some (bytes "x\ny") } ∷ [];
  parameters = bytes "a\nb" ∷ [];
}

encode_command-IsLine_example :
    (body : Bytes) × (encode_command (some 7) odd_command ≡ body ++ 10 ∷ []) × IsLine body
encode_command-IsLine_example = encode_command-IsLine (some 7) odd_command refl refl
