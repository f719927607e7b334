-- ===== src/Codec/CString.antt =====
-- crates/framewalk-mi-codec/src/parse/cstring.rs: c-strings and their escapes.
pub mod RoundTrip
pub mod Moves
use Prim.Native.Nat.{bit_or}
use framewalk.Prelude.{
  ℕ, zero, suc, ◌+◌, ◌-◌, ◌*◌, ◌%◌, ◌^◌, Bool, true, false, ◌&&◌, Option, none, some, List, [], ◌∷◌,
  ◌++◌, leb, ltb, ◌==◌, if◌then◌else◌, length, Bytes,
}
use framewalk.Codec.Error.{
  Result, ok, err, out_of_fuel, invalid_cstring, invalid_utf8, missing_open_quote,
  missing_close_quote, truncated_escape, invalid_escape, invalid_hex_digit,
}
use framewalk.Codec.Cursor.{
  Cursor, Parser, pure, fail, fail_here, peeked, position, advance, ◌>>=◌, ◌>>◌,
}
use framewalk.Codec.Utf8.{is_utf8}

abbrev pub in_range : ℕ → ℕ → ℕ → Bool
in_range lo hi b = leb lo b && leb b hi

-- `read_hex_digit`
hex_value : ℕ → Option ℕ
hex_value b =
    if in_range b'0' b'9' b
    then some (b - b'0')
    else if in_range b'a' b'f' b
    then some (b - b'a' + 10)
    else if in_range b'A' b'F' b
    then some (b - b'A' + 10)
    else none

nibble_of : ℕ → Parser ℕ
unfolding hex_value
nibble_of b = elim (hex_value b) [
  | none ↦ fail_here (invalid_cstring (invalid_hex_digit b))
  | some nibble ↦ (do advance; pure nibble)
]

read_hex_digit : ℕ → Parser ℕ
unfolding nibble_of
read_hex_digit escape_pos = do
  found ← peeked
  elim found [ none ↦ fail (invalid_cstring truncated_escape) escape_pos | some b ↦ nibble_of b ]

-- `\xHH`: two nibbles, put together by shift and or.
hex_escape : Bytes → ℕ → Parser Bytes
unfolding read_hex_digit
hex_escape out escape_pos = do
  hi ← read_hex_digit escape_pos
  lo ← read_hex_digit escape_pos
  pure (out ++ bit_or (hi * 16 % 2 ^ 8) lo ∷ [])

-- `\ooo`: at most `left` more octal digits; the u16 is cut to a byte at the end.
octal_digits : ℕ → ℕ → Parser ℕ
octal_digits zero acc = pure acc
octal_digits (suc left) acc = do
  found ← peeked
  elim found [
    | none ↦ pure acc
    | some b ↦
        (let more = (do advance; octal_digits left ((acc * 8 + (b - b'0')) % 2 ^ 16)) in
          if in_range b'0' b'7' b then more else pure acc)
  ]

octal_escape : Bytes → Parser Bytes
unfolding octal_digits
octal_escape out = do acc ← octal_digits 3 0; pure (out ++ (acc % 2 ^ 8) ∷ [])

-- The escapes of one letter.
simple_escape : ℕ → Option ℕ
simple_escape b =
    if b == b'"'
    then some b'"'
    else if b == 92
    then some 92
    else if b == 39
    then some 39
    else if b == b'?'
    then some b'?'
    else if b == b'a'
    then some 0x07
    else if b == b'b'
    then some 0x08
    else if b == b'f'
    then some 0x0c
    else if b == b'n'
    then some 10
    else if b == b'r'
    then some 13
    else if b == b't'
    then some 9
    else if b == b'v'
    then some 0x0b
    else none

-- `decode_escape` at the byte after the backslash.
decode_letter : Bytes → ℕ → ℕ → Parser Bytes
unfolding simple_escape hex_escape octal_escape
decode_letter out escape_pos b = elim (simple_escape b) [
  | some decoded ↦ (do advance; pure (out ++ decoded ∷ []))
  | none ↦
      (if b == b'x'
        then (do advance; hex_escape out escape_pos)
        else if in_range b'0' b'7' b
        then octal_escape out
        else fail (invalid_cstring (invalid_escape b)) escape_pos)
]

decode_escape : Bytes → Parser Bytes
unfolding decode_letter
decode_escape out = do
  escape_pos ← position
  advance
  found ← peeked
  elim found [
    | none ↦ fail (invalid_cstring truncated_escape) escape_pos
    | some b ↦ decode_letter out escape_pos b
  ]

-- The loop of `parse_cstring` after the opening quote, on fuel.
cstring_loop : ℕ → ℕ → Bytes → Parser Bytes
unfolding decode_escape
cstring_loop zero open_pos out = λ c. out_of_fuel
cstring_loop (suc fuel) open_pos out = do
  found ← peeked
  elim found [
    | none ↦ fail (invalid_cstring missing_close_quote) open_pos
    | some b ↦
        (let escaped = (do out' ← decode_escape out; cstring_loop fuel open_pos out') in
          let plain = (do advance; cstring_loop fuel open_pos (out ++ b ∷ [])) in
          if b == b'"' then (do advance; pure out) else if b == 92 then escaped else plain)
  ]

checked_utf8 : ℕ → Bytes → Parser Bytes
unfolding is_utf8
checked_utf8 open_pos out = if is_utf8 out then pure out else fail invalid_utf8 open_pos

-- After the opening quote.
cstring_body : ℕ → Parser Bytes
unfolding cstring_loop checked_utf8
cstring_body open_pos =
    λ c. (do out ← cstring_loop (suc (length c.rest)) open_pos []; checked_utf8 open_pos out) c

unfoldable pub parse_cstring : Parser Bytes
unfolding cstring_body
parse_cstring = do
  open_pos ← position
  found ← peeked
  elim found [
    | none ↦ fail (invalid_cstring missing_open_quote) open_pos
    | some b ↦
        (if b == b'"'
          then (do advance; cstring_body open_pos)
          else fail (invalid_cstring missing_open_quote) open_pos)
  ]
