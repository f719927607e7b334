-- ===== src/Codec/Record/Total.antt =====
-- Every line is parsed or refused with an offset inside the line; the model's fuel never runs out.
use framewalk.Prelude.{
  ℕ, zero, suc, ◌+◌, ◌*◌, ◌^◌, ◌-◌, ◌≤◌, ◌<◌, ◌≡◌, Bool, true, false, ◌||◌, Option, none, some, [],
  ◌∷◌, arith, ◌==◌, ltb, length, Bytes, Bool-cases, inl, inr,
}
use framewalk.Codec.Ast.{Token, ResultClass, from_bytes, Record}
use framewalk.Codec.Error.{Result, ok, err, CodecError, unexpected_end, bind}
use framewalk.Codec.Cursor.{Cursor, new, Parser, pure, fail_here, ◌>>◌, next, peek, ◌>>=◌}
use framewalk.Codec.Cursor.Moves.{
  Moves, moved, refused, EndsAt, Moves-if, Moves-from, Moves-bind, collect-Moves,
}
use framewalk.Codec.CString.{in_range}
use framewalk.Codec.CString.Moves.{parse_cstring-Moves}
use framewalk.Codec.Value.Moves.{non_empty-Moves, parse_result-Moves}
use framewalk.Codec.Record.{
  is_ascii_lowercase, known_class, parse_result_class, is_async_class_byte, parse_async_class,
  trailing_results, parse_trailing_results, depth_for, parse_result_record, parse_async_record,
  parse_stream_record, token_digits, no_token, record_at, finished, record_parser, parse_record,
}

abbrev at : Bytes → ℕ → Cursor
at s n = record { rest = s; pos = n }

module _ {t : ℕ} where
  known_class-Moves :
      (start : ℕ) (name : Bytes) (o : Option ResultClass) (c : Cursor)
      → start ≤ t
      → EndsAt t c
      → Moves t c.pos (known_class start name o c)
  known_class-Moves start name none c h e = refused _ h
  known_class-Moves start name (some class) c h e = moved _ _ e (omega arith)

  result_class-Moves : (c : Cursor) → EndsAt t c → Moves t c.pos (parse_result_class c)
  unfolding parse_result_class
  result_class-Moves c e = Moves-bind (collect-Moves is_ascii_lowercase c e) λ name d ed fd.
      Moves-bind (non_empty-Moves c.pos name d (omega arith) ed) λ _ d' ed' fd'.
        Moves-from (omega arith)
          (known_class-Moves c.pos name (from_bytes name) d' (omega arith) ed')

  async_class-Moves : (c : Cursor) → EndsAt t c → Moves t c.pos (parse_async_class c)
  unfolding parse_async_class
  async_class-Moves c e =
      Moves-bind (collect-Moves is_async_class_byte c e)
        λ name d ed fd. Moves-from fd (non_empty-Moves c.pos name d (omega arith) ed)

  trailing-Moves :
      (depth f : ℕ) (s : Bytes) (n : ℕ)
      → n + length s ≡ t
      → 4 * length s + 4 ≤ depth
      → length s < f
      → Moves t n (trailing_results depth f (at s n))
  unfolding trailing_results
  trailing-Moves depth zero s n e h l = absurd (omega arith)
  trailing-Moves depth (suc f) [] n e h l = moved _ _ e (omega arith)
  trailing-Moves depth (suc f) (b ∷ s) n e h l =
      Moves-if (b == b',') _ _ _
        (λ _.
          Moves-bind (parse_result-Moves depth (at s (suc n)) (omega arith) (omega arith))
            λ (name, v) d ed fd.
              Moves-bind (trailing-Moves depth f d.rest d.pos ed (omega arith) (omega arith))
                λ rs d' ed' fd'. moved _ _ ed' (omega arith))
        λ _. refused _ (omega arith)

  trailing_results-Moves : (c : Cursor) → EndsAt t c → Moves t c.pos (parse_trailing_results c)
  unfolding parse_trailing_results
  trailing_results-Moves c e =
      trailing-Moves (depth_for c) (suc (length c.rest)) c.rest c.pos e (omega arith) (omega arith)

  result_record-Moves :
      (token : Option Token) (c : Cursor) → EndsAt t c → Moves t c.pos (parse_result_record token c)
  unfolding parse_result_record
  result_record-Moves token c e = Moves-bind (result_class-Moves c e) λ class d ed fd.
      Moves-bind (trailing_results-Moves d ed) λ rs d' ed' fd'. moved _ _ ed' (omega arith)

  async_record-Moves :
      (token : Option Token) (c : Cursor) → EndsAt t c → Moves t c.pos (parse_async_record token c)
  unfolding parse_async_record
  async_record-Moves token c e = Moves-bind (async_class-Moves c e) λ class d ed fd.
      Moves-bind (trailing_results-Moves d ed) λ rs d' ed' fd'. moved _ _ ed' (omega arith)

  stream_record-Moves : (c : Cursor) → EndsAt t c → Moves t c.pos (parse_stream_record c)
  unfolding parse_stream_record
  stream_record-Moves c e =
      Moves-bind (parse_cstring-Moves c e) λ text d ed fd. moved _ _ ed (omega arith)

  no_token-Moves :
      (token : Option Token) (c : Cursor) → EndsAt t c → Moves t c.pos (no_token token c)
  no_token-Moves none c e = moved _ _ e (omega arith)
  no_token-Moves (some n) c e = refused _ (omega arith)

  token_digits-Moves :
      (start acc : ℕ) (any : Bool) (s : Bytes) (n : ℕ)
      → start ≤ t
      → n + length s ≡ t
      → Moves t n (token_digits start acc any s n)
  unfolding token_digits
  token_digits-Moves start acc any [] n h e = moved _ _ e (omega arith)
  token_digits-Moves start acc any (b ∷ s) n h e =
      let ih = token_digits-Moves start (acc * 10 + (b - b'0')) true s (suc n) h (omega arith) in
      elim (Bool-cases (in_range b'0' b'9' b)) [
        | inl digit ↦ elim (Bool-cases (ltb (acc * 10 + (b - b'0')) (2 ^ 64))) [
          | inl fits ↦ rw (digit, fits) (Moves-from (omega arith) ih)
          | inr wide ↦ rw (digit, wide) (refused _ h)
        ]
        | inr other ↦ rw other (moved _ _ e (omega arith))
      ]

  next-EndsAt :
      (s : Bytes) (n : ℕ) → n + length s ≡ t → EndsAt t (next (at s n)) × (n ≤ (next (at s n)).pos)
  next-EndsAt [] n e = (e, omega arith)
  next-EndsAt (b ∷ s) n e = omega arith

  record_at-Moves :
      (token : Option Token) (prefix : ℕ) (s : Bytes) (n : ℕ)
      → n + length (prefix ∷ s) ≡ t
      → Moves t n (record_at token prefix (at (prefix ∷ s) n))
  unfolding record_at
  record_at-Moves token prefix s n e =
      Moves-if (prefix == b'^') _ _ _
        (λ _.
          Moves-bind (result_record-Moves token (at s (suc n)) (omega arith))
            λ r d ed fd. moved _ _ ed (omega arith))
        λ _.
          Moves-if (prefix == b'*') _ _ _ (λ _. Moves-bind async λ r d ed fd. moved _ _ ed fd)
            λ _.
              Moves-if (prefix == b'+') _ _ _ (λ _. Moves-bind async λ r d ed fd. moved _ _ ed fd)
                λ _.
                  Moves-if (prefix == b'=') _ _ _
                    (λ _. Moves-bind async λ r d ed fd. moved _ _ ed fd)
                    λ _.
                      Moves-if (prefix == b'~' || prefix == b'@' || prefix == b'&') _ _ _
                        (λ _. Moves-bind (no_token-Moves token (at (prefix ∷ s) n) e) λ _ d ed fd.
                          let later = next-EndsAt d.rest d.pos ed in
                          Moves-bind (stream_record-Moves (next d) later.0)
                            λ sr d' ed' fd'. moved _ _ ed' (omega (arith, later.1)))
                        (λ _. refused _ (omega arith))
    where
      async : Moves t n (parse_async_record token (at s (suc n)))
      async = Moves-from (omega arith) (async_record-Moves token (at s (suc n)) (omega arith))

  finished-Moves : (s : Bytes) (n : ℕ) → n + length s ≡ t → Moves t n (finished (at s n))
  unfolding finished
  finished-Moves [] n e = moved _ _ e (omega arith)
  finished-Moves (b ∷ s) n e = refused _ (omega arith)

  record_parser-Moves : (c : Cursor) → EndsAt t c → Moves t c.pos (record_parser c)
  unfolding record_parser
  record_parser-Moves c e =
      Moves-bind (token_digits-Moves c.pos 0 false c.rest c.pos (omega arith) e)
        λ token d ed fd. on_prefix token d.rest d.pos ed fd
    where
      on_prefix :
          (token : Option Token) (s : Bytes) (n : ℕ)
          → n + length s ≡ t
          → c.pos ≤ n
          → Moves t c.pos (
              (elim (peek (at s n)) as (λ _. Parser Record) [
                | none ↦ fail_here unexpected_end
                | some prefix ↦ (do r ← record_at token prefix; finished; pure r)
              ])
                (at s n))
      on_prefix token [] n e f = refused _ (omega arith)
      on_prefix token (b ∷ s) n e f = Moves-bind (record_at-Moves token b s n e) λ r d ed fd.
          Moves-bind (finished-Moves d.rest d.pos ed) λ _ d' ed' fd'. moved _ _ ed' (omega arith)

-- What a caller of `parse_record` gets: a record, or an error inside the line.
pub data Answers (input : Bytes) : Result Record → Type 0 where
  parsed : (r : Record) → Answers input (ok r)
  refused_at : (e : CodecError) → e.offset ≤ length input → Answers input (err e)

answer :
    (input : Bytes) (r : Result (Record × Cursor))
    → Moves (length input) 0 r
    → Answers input (bind r λ (a, _). ok a)
answer input _ (moved a d _ _) = parsed a
answer input _ (refused e h) = refused_at e h

-- parse_record returns, for every byte sequence, a record or an error whose offset lies in the
-- line; the fuel of the model never runs out.
pub parse_record-Answers : (input : Bytes) → Answers input (parse_record input)
unfolding parse_record
parse_record-Answers input = answer input _ (record_parser-Moves (new input) (omega arith))
