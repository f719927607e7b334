-- ===== src/Codec/Cursor.antt =====
-- crates/framewalk-mi-codec/src/parse/cursor.rs: the byte cursor, as a parser monad.
pub mod Moves
use framewalk.Prelude.{
  ℕ, suc, ◌+◌, Bool, true, false, Option, none, some, List, [], ◌∷◌, ◌==◌, if◌then◌else◌, get_elem?,
  Bytes,
}
use framewalk.Codec.Error
use framewalk.Codec.Error.{
  Result, ok, err, byte, unexpected_end, unexpected_byte, CodecErrorKind, bind,
}

-- `rest` is `input[pos..]`.
pub record Cursor : Type 0 where
  pub rest : Bytes
  pub pos : ℕ

abbrev pub new : Bytes → Cursor
new input = record { rest = input; pos = 0 }

abbrev first : Bytes → Option ℕ
first [] = none
first (b ∷ s) = some b

abbrev pub peek : Cursor → Option ℕ
peek c = first c.rest

unfoldable pub peek_at : Cursor → ℕ → Option ℕ
peek_at c offset = get_elem? c.rest offset

abbrev empty : Bytes → Bool
empty [] = true
empty (b ∷ s) = false

abbrev pub at_end : Cursor → Bool
at_end c = empty c.rest

abbrev step : Bytes → ℕ → Cursor
step [] n = record { rest = []; pos = n }
step (b ∷ s) n = record { rest = s; pos = suc n }

abbrev pub next : Cursor → Cursor
next c = step c.rest c.pos

-- A parser that moves the cursor.
abbrev pub Parser {ℓ} : Type ℓ → Type ℓ
Parser A = Cursor → Result (A × Cursor)

abbrev pub pure {ℓ} : {A : Type ℓ} → A → Parser A
pure a c = ok (a, c)

-- `Err(CodecError::new(kind, offset))`
abbrev pub fail {ℓ} : {A : Type ℓ} → CodecErrorKind → ℕ → Parser A
fail kind offset c = err (record { kind = kind; offset = offset })

module _ {ℓ κ} {A : Type ℓ} {B : Type κ} where
  infixl 1 ◌>>=◌ ◌>>◌
  abbrev pub ◌>>=◌ : Parser A → (A → Parser B) → Parser B
  p >>= f = λ c. bind (p c) λ (a, d). f a d

  abbrev pub ◌>>◌ : Parser A → Parser B → Parser B
  p >> q = p >>= λ _. q

-- `cursor.peek()`, `cursor.pos()` and `cursor.advance()` as steps.
abbrev pub peeked : Parser (Option ℕ)
peeked c = ok (peek c, c)

abbrev pub position : Parser ℕ
position c = ok (c.pos, c)

abbrev pub advance : Parser (Unit {0})
advance c = ok (tt, next c)

-- An error at the cursor.
abbrev pub fail_here {ℓ} : {A : Type ℓ} → CodecErrorKind → Parser A
fail_here kind c = fail kind c.pos c

unfoldable pub expect_byte : ℕ → Parser (Unit {0})
expect_byte expected = do
  found ← peeked
  elim found [
    | none ↦ fail_here unexpected_end
    | some b ↦ if b == expected then advance else fail_here (unexpected_byte (byte expected) b)
  ]

-- `while let Some(b) = cursor.peek() { if accepts(b) { name.push(b); cursor.advance(); } else { break; } }`
run_of : (ℕ → Bool) → Bytes → ℕ → Bytes × Cursor
run_of accepts [] n = ([], record { rest = []; pos = n })
run_of accepts (b ∷ s) n =
    let (name, d) = run_of accepts s (suc n) in
    if accepts b then (b ∷ name, d) else ([], record { rest = b ∷ s; pos = n })

unfoldable pub collect : (ℕ → Bool) → Parser Bytes
unfolding run_of
collect accepts c = ok (run_of accepts c.rest c.pos)
