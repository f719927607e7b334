-- ===== src/Codec/CString/Moves.antt =====
-- The c-string parser always finishes, and its errors point into the input.
use framewalk.Prelude.{ℕ, zero, suc, ◌+◌, ◌≤◌, ◌<◌, ◌≡◌, [], ◌∷◌, arith, ◌==◌, length, Bytes}
use framewalk.Codec.Cursor.{Cursor}
use framewalk.Codec.Cursor.Moves.{
  Moves, moved, refused, EndsAt, Moves-if, Moves-option, Moves-from, Moves-bind,
}
use framewalk.Codec.Utf8.{is_utf8}
use framewalk.Codec.CString.{
  in_range, hex_value, read_hex_digit, hex_escape, octal_digits, octal_escape, simple_escape,
  decode_letter, decode_escape, cstring_loop, checked_utf8, parse_cstring,
}

abbrev at : Bytes → ℕ → Cursor
at s n = record { rest = s; pos = n }

module _ {t : ℕ} where
  read_hex_digit-Moves :
      (o : ℕ) (s : Bytes) (n : ℕ) → o ≤ t → n + length s ≡ t → Moves t n (read_hex_digit o (at s n))
  unfolding read_hex_digit
  read_hex_digit-Moves o [] n h e = refused _ h
  read_hex_digit-Moves o (b ∷ s) n h e =
      Moves-option (hex_value b) _ _ _ (refused _ (omega arith))
        λ v _. moved _ _ (omega arith) (omega arith)

  hex_escape-Moves :
      (out : Bytes) (o : ℕ) (c : Cursor) → o ≤ t → EndsAt t c → Moves t c.pos (hex_escape out o c)
  unfolding hex_escape
  hex_escape-Moves out o c h e = Moves-bind (read_hex_digit-Moves o c.rest c.pos h e) λ hi d ed fd.
      Moves-bind (read_hex_digit-Moves o d.rest d.pos h ed)
        λ lo d' ed' fd'. moved _ _ ed' (omega arith)

  octal_digits-Moves :
      (left acc : ℕ) (s : Bytes) (n : ℕ)
      → n + length s ≡ t
      → Moves t n (octal_digits left acc (at s n))
  unfolding octal_digits
  octal_digits-Moves zero acc s n e = moved _ _ e (omega arith)
  octal_digits-Moves (suc left) acc [] n e = moved _ _ e (omega arith)
  octal_digits-Moves (suc left) acc (b ∷ s) n e =
      Moves-if (in_range b'0' b'7' b) _ _ _
        (λ _. Moves-from (omega arith) (octal_digits-Moves left _ s (suc n) (omega arith)))
        (λ _. moved _ _ e (omega arith))

  octal_escape-Moves : (out : Bytes) (c : Cursor) → EndsAt t c → Moves t c.pos (octal_escape out c)
  unfolding octal_escape
  octal_escape-Moves out c e =
      Moves-bind (octal_digits-Moves 3 0 c.rest c.pos e) λ acc d ed fd. moved _ _ ed fd

  decode_letter-Moves :
      (out : Bytes) (o b : ℕ) (s : Bytes) (n : ℕ)
      → o ≤ t
      → n + length (b ∷ s) ≡ t
      → Moves t n (decode_letter out o b (at (b ∷ s) n))
  unfolding decode_letter
  decode_letter-Moves out o b s n h e =
      Moves-option (simple_escape b) _ _ _
        (Moves-if (b == b'x') _ _ _
          (λ _. Moves-from (omega arith) (hex_escape-Moves out o (at s (suc n)) h (omega arith)))
          (λ _.
            Moves-if (in_range b'0' b'7' b) _ _ _ (λ _. octal_escape-Moves out (at (b ∷ s) n) e)
              (λ _. refused _ h)))
        λ v _. moved _ _ (omega arith) (omega arith)

  decode_escape-Moves :
      (out : Bytes) (b : ℕ) (s : Bytes) (n : ℕ)
      → n + length (b ∷ s) ≡ t
      → Moves t (suc n) (decode_escape out (at (b ∷ s) n))
  unfolding decode_escape
  decode_escape-Moves out b [] n e = refused _ (omega arith)
  decode_escape-Moves out b (a ∷ s) n e =
      decode_letter-Moves out n a s (suc n) (omega arith) (omega arith)

  cstring_loop-Moves :
      (f o : ℕ) (out s : Bytes) (n : ℕ)
      → o ≤ t
      → n + length s ≡ t
      → length s < f
      → Moves t n (cstring_loop f o out (at s n))
  unfolding cstring_loop
  cstring_loop-Moves zero o out s n h e l = absurd (omega arith)
  cstring_loop-Moves (suc f) o out [] n h e l = refused _ h
  cstring_loop-Moves (suc f) o out (b ∷ s) n h e l =
      Moves-if (b == b'"') _ _ _ (λ _. moved _ _ (omega arith) (omega arith))
        λ _.
          Moves-if (b == 92) _ _ _
            (λ _. Moves-bind (decode_escape-Moves out b s n e) λ out' d ed fd.
              Moves-from (omega arith)
                (cstring_loop-Moves f o out' d.rest d.pos h ed (omega arith)))
            (λ _.
              Moves-from (omega arith)
                (cstring_loop-Moves f o _ s (suc n) h (omega arith) (omega arith)))

  checked_utf8-Moves :
      (o : ℕ) (out : Bytes) (c : Cursor) → o ≤ t → EndsAt t c → Moves t c.pos (checked_utf8 o out c)
  unfolding checked_utf8
  checked_utf8-Moves o out c h e =
      Moves-if (is_utf8 out) _ _ _ (λ _. moved _ _ e (omega arith)) (λ _. refused _ h)

  parse_cstring-at-Moves :
      (s : Bytes) (n : ℕ) → n + length s ≡ t → Moves t (suc n) (parse_cstring (at s n))
  unfolding parse_cstring
  parse_cstring-at-Moves [] n e = refused _ (omega arith)
  parse_cstring-at-Moves (b ∷ s) n e =
      Moves-if (b == b'"') _ _ _
        (λ _.
          Moves-bind
            (cstring_loop-Moves (suc (length s)) n [] s (suc n) (omega arith) (omega arith)
              (omega arith))
            λ out d ed fd. Moves-from fd (checked_utf8-Moves n out d (omega arith) ed))
        (λ _. refused _ (omega arith))

-- parse_cstring does not run out of fuel: it consumes at least one byte and ends inside the
-- input, or with an error whose offset lies in it.
pub parse_cstring-Moves : {t : ℕ} (c : Cursor) → EndsAt t c → Moves t (suc c.pos) (parse_cstring c)
parse_cstring-Moves c e = parse_cstring-at-Moves c.rest c.pos e
