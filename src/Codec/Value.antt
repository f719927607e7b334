-- ===== src/Codec/Value.antt =====
-- crates/framewalk-mi-codec/src/parse/value.rs: values, tuples, lists and results.
pub mod Moves
use framewalk.Prelude.{
  ℕ, zero, suc, ◌+◌, Bool, true, false, ◌||◌, Option, none, some, List, [], ◌∷◌, ◌++◌, ◌==◌,
  if◌then◌else◌, length, Bytes, bytes,
}
use framewalk.Codec.Ast.{
  Value, const, tuple, list, ListValue, empty, values, results, Values, no_values, value, Results,
  no_results, result,
}
use framewalk.Codec.Error.{
  Result, ok, err, out_of_fuel, CodecError, CodecErrorKind, unexpected_byte, unexpected_end, one_of,
  invalid_identifier, expected_equals, mixed_list,
}
use framewalk.Codec.Cursor.{
  Cursor, Parser, pure, fail, fail_here, peek, peeked, position, advance, expect_byte, collect,
  ◌>>=◌, ◌>>◌,
}
use framewalk.Codec.CString.{in_range, parse_cstring}

abbrev pub is_ascii_alphanumeric : ℕ → Bool
is_ascii_alphanumeric b = in_range b'0' b'9' b || in_range b'A' b'Z' b || in_range b'a' b'z' b

unfoldable pub is_identifier_byte : ℕ → Bool
is_identifier_byte b = is_ascii_alphanumeric b || b == b'_' || b == b'-'

abbrev pub non_empty : ℕ → Bytes → Parser Bytes
non_empty start_pos [] = fail invalid_identifier start_pos
non_empty start_pos (b ∷ s) = pure (b ∷ s)

parse_variable : Parser Bytes
parse_variable = do
  start_pos ← position
  name ← collect is_identifier_byte
  non_empty start_pos name

-- The scan ahead of `looks_like_result`, from the second byte on.
ends_in_equals : Bytes → Bool
unfolding is_identifier_byte
ends_in_equals [] = false
ends_in_equals (b ∷ s) =
    let further = ends_in_equals s in if is_identifier_byte b then further else b == b'='

result_ahead : Bytes → Bool
unfolding ends_in_equals
result_ahead [] = false
result_ahead (b ∷ s) = if is_identifier_byte b then ends_in_equals s else false

looks_like_result : Parser Bool
unfolding result_ahead
looks_like_result c = ok (result_ahead c.rest, c)

-- The error of the `=` of a result, made more specific.
abbrev remap_kind : CodecErrorKind → CodecErrorKind
remap_kind (unexpected_byte expected found) = expected_equals
remap_kind k = k

abbrev remap {ℓ} : {A : Type ℓ} → Result A → Result A
remap (ok a) = ok a
remap (err e) = err (record e { kind = remap_kind e.kind })
remap out_of_fuel = out_of_fuel

expect_equals : Parser (Unit {0})
unfolding expect_byte
expect_equals c = remap (expect_byte b'=' c)

-- What follows an item of a tuple or list: a comma, the closing byte, or an error.
pub data Separator : Type 0 where
  comma closing : Separator

separator : ℕ → Bytes → Parser Separator
separator close expected = do
  found ← peeked
  elim found [
    | none ↦ fail_here unexpected_end
    | some b ↦
        (if b == b','
          then (do advance; pure comma)
          else if b == close
          then (do advance; pure closing)
          else fail_here (unexpected_byte (one_of expected) b))
  ]

-- The closing byte right behind the opening one.
closes : ℕ → Parser Bool
closes close = do
  found ← peeked
  elim found [
    | none ↦ pure false
    | some b ↦ (if b == close then (do advance; pure true) else pure false)
  ]

-- A list must go on as it began.
same_shape : Bool → Parser (Unit {0})
unfolding looks_like_result
same_shape expected = do
  found ← looks_like_result
  if found
      then (if expected then pure tt else fail_here mixed_list)
      else (if expected then fail_here mixed_list else pure tt)

-- The parsers of the grammar, on fuel. A loop that pushes its items returns them in order.
unfoldable mutual
  unfolding closes separator same_shape parse_variable expect_equals expect_byte

  pub parse_value : ℕ → Parser Value
  parse_value zero = λ c. out_of_fuel
  parse_value (suc f) = do
    found ← peeked
    elim found [
      | none ↦ fail_here unexpected_end
      | some b ↦
          (if b == b'"'
            then (do text ← parse_cstring; pure (const text))
            else if b == b'{'
            then (do rs ← parse_tuple f; pure (tuple rs))
            else if b == b'['
            then (do items ← parse_list f; pure (list items))
            else fail_here (unexpected_byte (one_of (bytes "\"{[")) b))
    ]

  pub parse_tuple : ℕ → Parser Results
  parse_tuple zero = λ c. out_of_fuel
  parse_tuple (suc f) = do
    expect_byte b'{'
    closed ← closes b'}'
    elim closed [ true ↦ pure no_results | false ↦ tuple_items f ]

  tuple_items : ℕ → Parser Results
  tuple_items zero = λ c. out_of_fuel
  tuple_items (suc f) = do
    (name, v) ← parse_result f
    next ← separator b'}' (bytes ",}")
    elim next [
      | comma ↦ (do rs ← tuple_items f; pure (result name v rs))
      | closing ↦ pure (result name v no_results)
    ]

  pub parse_list : ℕ → Parser ListValue
  parse_list zero = λ c. out_of_fuel
  parse_list (suc f) = do
    expect_byte b'['
    closed ← closes b']'
    elim closed [
      | true ↦ pure empty
      | false ↦ (do
        named ← looks_like_result
        elim named [
          | true ↦ (do rs ← list_results f; pure (results rs))
          | false ↦ (do vs ← list_values f; pure (values vs))
        ])
    ]

  list_results : ℕ → Parser Results
  list_results zero = λ c. out_of_fuel
  list_results (suc f) = do
    (name, v) ← parse_result f
    next ← separator b']' (bytes ",]")
    elim next [
      | comma ↦ (do same_shape true; rs ← list_results f; pure (result name v rs))
      | closing ↦ pure (result name v no_results)
    ]

  list_values : ℕ → Parser Values
  list_values zero = λ c. out_of_fuel
  list_values (suc f) = do
    v ← parse_value f
    next ← separator b']' (bytes ",]")
    elim next [
      | comma ↦ (do same_shape false; vs ← list_values f; pure (value v vs))
      | closing ↦ pure (value v no_values)
    ]

  pub parse_result : ℕ → Parser (Bytes × Value)
  parse_result zero = λ c. out_of_fuel
  parse_result (suc f) = do name ← parse_variable; expect_equals; v ← parse_value f; pure (name, v)
