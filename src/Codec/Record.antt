-- ===== src/Codec/Record.antt =====
-- crates/framewalk-mi-codec/src/parse/{mod,result,async_rec,stream}.rs: whole records.
pub mod Tokens
pub mod Total
mod Runs
use framewalk.Prelude.{
  ℕ, zero, suc, ◌+◌, ◌-◌, ◌*◌, ◌^◌, Bool, true, false, ◌||◌, Option, none, some, List, [], ◌∷◌,
  ◌++◌, ltb, ◌==◌, if◌then◌else◌, length, Bytes, bytes,
}
use framewalk.Codec.Ast.{
  Token, ResultClass, from_bytes, Value, Results, no_results, ResultRecord, AsyncRecord,
  StreamRecord, Record, result, exec, status, notify, console, target, log,
}
use framewalk.Codec.Ast
use framewalk.Codec.Error
use framewalk.Codec.Error.{
  Result, ok, err, out_of_fuel, unexpected_byte, unexpected_end, description, unknown_result_class,
  invalid_record_prefix, stream_record_has_token, token_overflow, trailing_garbage,
}
use framewalk.Codec.Cursor.{
  Cursor, new, Parser, pure, fail, fail_here, at_end, peeked, position, advance, collect, ◌>>=◌,
  ◌>>◌,
}
use framewalk.Codec.CString.{in_range, parse_cstring}
use framewalk.Codec.Value.{is_ascii_alphanumeric, non_empty, parse_result}

abbrev is_ascii_lowercase : ℕ → Bool
is_ascii_lowercase = in_range b'a' b'z'

abbrev known_class : ℕ → Bytes → Option ResultClass → Parser ResultClass
known_class start name none = fail (unknown_result_class name) start
known_class start name (some class) = pure class

parse_result_class : Parser ResultClass
unfolding from_bytes
parse_result_class = do
  start ← position
  name ← collect is_ascii_lowercase
  non_empty start name
  known_class start name (from_bytes name)

is_async_class_byte : ℕ → Bool
is_async_class_byte b = is_ascii_alphanumeric b || b == b'-' || b == b'_'

parse_async_class : Parser Bytes
unfolding is_async_class_byte
parse_async_class = do start ← position; name ← collect is_async_class_byte; non_empty start name

-- The loop of `parse_trailing_results`, on fuel; each result gets `depth` for its own parser.
trailing_results : ℕ → ℕ → Parser Results
trailing_results depth zero = λ c. out_of_fuel
trailing_results depth (suc f) = do
  found ← peeked
  elim found [
    | none ↦ pure no_results
    | some b ↦
        (let more = (do
          advance
          (name, v) ← parse_result depth
          rs ← trailing_results depth f
          pure (Ast.Results.result name v rs)) in
          if b == b','
          then more
          else fail_here (unexpected_byte (description (bytes "',' or end of record")) b))
  ]

-- Enough fuel for what is left of the input.
abbrev depth_for : Cursor → ℕ
depth_for c = 4 * length c.rest + 4

parse_trailing_results : Parser Results
unfolding trailing_results
parse_trailing_results c = trailing_results (depth_for c) (suc (length c.rest)) c

parse_result_record : Option Token → Parser ResultRecord
unfolding parse_result_class parse_trailing_results
parse_result_record token = do
  class ← parse_result_class
  rs ← parse_trailing_results
  pure (record { token = token; class = class; results = rs })

parse_async_record : Option Token → Parser AsyncRecord
unfolding parse_async_class parse_trailing_results
parse_async_record token = do
  class ← parse_async_class
  rs ← parse_trailing_results
  pure (record { token = token; class = class; results = rs })

parse_stream_record : Parser StreamRecord
parse_stream_record = do text ← parse_cstring; pure (record { text = text })

-- The loop of `parse_optional_token`; `checked_mul` and `checked_add` fail from 2 ^ 64 on.
token_digits : ℕ → ℕ → Bool → Bytes → ℕ → Result (Option Token × Cursor)
token_digits start acc any [] n =
    ok ((if any then some acc else none), record { rest = []; pos = n })
token_digits start acc any (b ∷ s) n =
    let acc' = acc * 10 + (b - b'0') in
    let more =
      if ltb acc' (2 ^ 64)
      then token_digits start acc' true s (suc n)
      else err (record { kind = token_overflow; offset = start }) in
    if in_range b'0' b'9' b
    then more
    else ok ((if any then some acc else none), record { rest = b ∷ s; pos = n })

pub parse_optional_token : Parser (Option Token)
unfolding token_digits
parse_optional_token c = token_digits c.pos 0 false c.rest c.pos

abbrev stream_kind : ℕ → StreamRecord → Record
stream_kind prefix sr =
    if prefix == b'~' then console sr else if prefix == b'@' then target sr else log sr

abbrev no_token : Option Token → Parser (Unit {0})
no_token none = pure tt
no_token (some t) = fail stream_record_has_token 0

-- The dispatch on the prefix byte.
record_at : Option Token → ℕ → Parser Record
unfolding parse_result_record parse_async_record parse_stream_record
record_at token prefix =
    if prefix == b'^'
    then (do advance; r ← parse_result_record token; pure (result r))
    else if prefix == b'*'
    then (do advance; r ← parse_async_record token; pure (exec r))
    else if prefix == b'+'
    then (do advance; r ← parse_async_record token; pure (status r))
    else if prefix == b'='
    then (do advance; r ← parse_async_record token; pure (notify r))
    else if prefix == b'~' || prefix == b'@' || prefix == b'&'
    then (do no_token token; advance; sr ← parse_stream_record; pure (stream_kind prefix sr))
    else fail_here (invalid_record_prefix prefix)

finished : Parser (Unit {0})
finished c = if at_end c then ok (tt, c) else fail_here trailing_garbage c

record_parser : Parser Record
unfolding parse_optional_token record_at finished
record_parser = do
  token ← parse_optional_token
  found ← peeked
  elim found [
    | none ↦ fail_here unexpected_end
    | some prefix ↦ (do r ← record_at token prefix; finished; pure r)
  ]

unfoldable pub parse_record : Bytes → Result Record
unfolding record_parser
parse_record input = Error.bind (record_parser (new input)) λ (r, c). ok r
