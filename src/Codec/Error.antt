-- ===== src/Codec/Error.antt =====
-- crates/framewalk-mi-codec/src/error.rs: the errors, and the result of a parser step.
use framewalk.Prelude.{ℕ, Bytes}

pub data Expected : Type 0 where
  byte : ℕ → Expected
  one_of : Bytes → Expected
  description : Bytes → Expected

pub data CStringError : Type 0 where
  missing_open_quote missing_close_quote truncated_escape : CStringError
  invalid_escape : ℕ → CStringError
  invalid_hex_digit : ℕ → CStringError
  invalid_octal_digit : ℕ → CStringError

pub data CodecErrorKind : Type 0 where
  unexpected_end : CodecErrorKind
  unexpected_byte : Expected → ℕ → CodecErrorKind
  invalid_record_prefix : ℕ → CodecErrorKind
  unknown_result_class : Bytes → CodecErrorKind
  stream_record_has_token token_overflow invalid_identifier expected_equals : CodecErrorKind
  mixed_list : CodecErrorKind
  invalid_cstring : CStringError → CodecErrorKind
  invalid_utf8 trailing_garbage : CodecErrorKind

pub record CodecError : Type 0 where
  pub kind : CodecErrorKind
  pub offset : ℕ

-- `Result<A, CodecError>`; `out_of_fuel` has no counterpart in the source.
pub data Result {ℓ} (A : Type ℓ) : Type ℓ where
  ok : A → Result A
  err : CodecError → Result A
  out_of_fuel : Result A

abbrev pub bind {ℓ κ} : {A : Type ℓ} {B : Type κ} → Result A → (A → Result B) → Result B
bind (ok a) f = f a
bind (err e) f = err e
bind out_of_fuel f = out_of_fuel
