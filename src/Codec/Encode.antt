-- ===== src/Codec/Encode.antt =====
-- crates/framewalk-mi-codec/src/encode: commands into lines. Each function returns what the
-- source appends to `out`.
pub mod Lines
use framewalk.Prelude.{
  ℕ, zero, suc, ◌+◌, ◌-◌, ◌/◌, ◌%◌, ◌^◌, Bool, true, false, not, ◌||◌, ◌&&◌, Option, none, some,
  List, [], ◌∷◌, ◌++◌, leb, ltb, ◌==◌, if◌then◌else◌, all, Bytes, bytes,
}
use framewalk.Codec.Ast.{Token}
use framewalk.Codec.Command.{CommandOption, MiCommand}
use framewalk.Codec.CString.{in_range}

unfoldable pub hex_nibble : ℕ → ℕ
hex_nibble n = if leb n 9 then b'0' + n else if leb n 15 then b'a' + (n - 10) else b'?'

-- One byte of a c-string; `n >> 4` and `n & 0x0f` as quotient and remainder.
unfoldable pub escape_byte : ℕ → Bytes
unfolding hex_nibble
escape_byte b =
    if b == b'"'
    then 92 ∷ b'"' ∷ []
    else if b == 92
    then 92 ∷ 92 ∷ []
    else if b == 10
    then 92 ∷ b'n' ∷ []
    else if b == 13
    then 92 ∷ b'r' ∷ []
    else if b == 9
    then 92 ∷ b't' ∷ []
    else if b == 0x07
    then 92 ∷ b'a' ∷ []
    else if b == 0x08
    then 92 ∷ b'b' ∷ []
    else if b == 0x0b
    then 92 ∷ b'v' ∷ []
    else if b == 0x0c
    then 92 ∷ b'f' ∷ []
    else if leb b 0x1f || b == 0x7f
    then 92 ∷ b'x' ∷ hex_nibble (b / 16) ∷ hex_nibble (b % 16) ∷ []
    else b ∷ []

unfoldable pub escape : Bytes → Bytes
unfolding escape_byte
escape [] = []
escape (b ∷ s) = escape_byte b ++ escape s

unfoldable pub encode_cstring : Bytes → Bytes
unfolding escape
encode_cstring s = b'"' ∷ (escape s ++ b'"' ∷ [])

needs_quotes : ℕ → Bool
needs_quotes b = b == b' ' || b == 9 || b == 10 || b == 13 || b == b'"' || b == 92

unfoldable pub is_non_blank_sequence : Bytes → Bool
unfolding needs_quotes
is_non_blank_sequence [] = false
is_non_blank_sequence (b ∷ s) = all (λ c. not (needs_quotes c)) (b ∷ s)

unfoldable pub encode_parameter : Bytes → Bytes
unfolding is_non_blank_sequence encode_cstring
encode_parameter param = if is_non_blank_sequence param then param else encode_cstring param

abbrev option_value : Option Bytes → Bytes
option_value none = []
option_value (some v) = b' ' ∷ encode_parameter v

pub encode_option : CommandOption → Bytes
unfolding encode_parameter
encode_option opt = b'-' ∷ (opt.name ++ option_value opt.value)

encode_options : List CommandOption → Bytes
unfolding encode_option
encode_options [] = []
encode_options (opt ∷ opts) = b' ' ∷ (encode_option opt ++ encode_options opts)

encode_parameters : List Bytes → Bytes
unfolding encode_parameter
encode_parameters [] = []
encode_parameters (p ∷ ps) = b' ' ∷ (encode_parameter p ++ encode_parameters ps)

abbrev starts_with_dash : Bytes → Bool
starts_with_dash [] = false
starts_with_dash (b ∷ s) = b == b'-'

first_has_dash : List Bytes → Bool
first_has_dash [] = false
first_has_dash (p ∷ ps) = starts_with_dash p

should_emit_double_dash : MiCommand → Bool
unfolding first_has_dash
should_emit_double_dash cmd = first_has_dash cmd.parameters

-- The digits of `write_u64`, least significant first; the buffer holds twenty.
unfoldable pub digits_rev : ℕ → ℕ → Bytes
digits_rev zero n = []
digits_rev (suc f) n =
    let more = (b'0' + n % 10) ∷ digits_rev f (n / 10) in if n == 0 then [] else more

-- The loop that reads the buffer backwards.
unfoldable pub backwards : Bytes → Bytes → Bytes
backwards [] out = out
backwards (d ∷ ds) out = backwards ds (d ∷ out)

unfoldable pub write_u64 : ℕ → Bytes
unfolding digits_rev backwards
write_u64 n = if n == 0 then b'0' ∷ [] else backwards (digits_rev 20 n) []

abbrev pub encode_token : Option Token → Bytes
encode_token none = []
encode_token (some t) = write_u64 t

-- The line without its newline.
unfoldable pub encode_body : Option Token → MiCommand → Bytes
unfolding write_u64 encode_options encode_parameters should_emit_double_dash
encode_body token cmd =
    encode_token token
    ++ (b'-'
        ∷ (cmd.operation
            ++ (encode_options cmd.options
                ++ ((if should_emit_double_dash cmd then bytes " --" else [])
                    ++ encode_parameters cmd.parameters))))

unfoldable pub encode_command : Option Token → MiCommand → Bytes
unfolding encode_body
encode_command token cmd = encode_body token cmd ++ 10 ∷ []
