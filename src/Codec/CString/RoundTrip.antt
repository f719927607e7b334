-- ===== src/Codec/CString/RoundTrip.antt =====
-- What `encode_cstring` writes, `parse_cstring` reads back.
use Prim.Native.Nat.{bit_or}
use framewalk.Prelude.{
  ℕ, zero, suc, ◌+◌, ◌*◌, ◌/◌, ◌%◌, ◌^◌, ◌≤◌, ◌<◌, ◌≡◌, refl, sym, ap, ap₂, ◌∙◌, Bool, true, false,
  ◌&&◌, ◌||◌, some, [], ◌∷◌, ◌++◌, append_assoc, append-nil, arith, leb, ◌==◌, ==→eq, if◌then◌else◌,
  length, length-append, Bytes,
}
use framewalk.Codec.Error.{ok, bind}
use framewalk.Codec.Cursor.{Cursor}
use framewalk.Codec.Utf8.{is_utf8}
use framewalk.Codec.CString.{
  hex_value, nibble_of, read_hex_digit, hex_escape, simple_escape, decode_letter, cstring_loop,
  checked_utf8, cstring_body, parse_cstring,
}
use framewalk.Codec.Encode.{hex_nibble, escape_byte, escape, encode_cstring}

abbrev at : Bytes → ℕ → Cursor
at s n = record { rest = s; pos = n }

-- One round of the parser's loop reads `code` as the byte `b`.
abbrev Decodes : ℕ → Bytes → Type 0
Decodes b code =
    (f o : ℕ) (out t : Bytes) (n : ℕ)
    → cstring_loop (suc f) o out (at (code ++ t) n)
      ≡ cstring_loop f o (out ++ b ∷ []) (at t (n + length code))

simple-Decodes : (l b : ℕ) → simple_escape l ≡ some b → Decodes b (92 ∷ l ∷ [])
unfolding cstring_loop
simple-Decodes l b e f o out t n =
    rw (e, decode_letter) (ap (λ k. cstring_loop f o (out ++ b ∷ []) (at t k)) (omega arith))

hex_value-hex_nibble : (k : ℕ) → k < 16 → hex_value (hex_nibble k) ≡ some k
unfolding hex_value hex_nibble
hex_value-hex_nibble k h = ground arith

all_below : ℕ → (ℕ → Bool) → Bool
all_below zero p = true
all_below (suc n) p = p n && all_below n p

all_below_at : (n : ℕ) (p : ℕ → Bool) (x : ℕ) → all_below n p ≡ true → x < n → p x ≡ true
unfolding all_below
all_below_at zero p x h lt = absurd (omega arith)
all_below_at (suc n) p x h lt = ground (arith, all_below_at n p x)

nibbles_table : all_below 256 (λ b. bit_or (b / 16 * 16 % 2 ^ 8) (b % 16) == b) ≡ true
unfolding all_below
nibbles_table = refl

nibbles : (b : ℕ) → b < 256 → bit_or (b / 16 * 16 % 2 ^ 8) (b % 16) ≡ b
nibbles b h = ==→eq _ b (all_below_at 256 _ b nibbles_table h)

read_hex_nibble :
    (k o : ℕ) (t : Bytes) (n : ℕ)
    → k < 16
    → read_hex_digit o (at (hex_nibble k ∷ t) n) ≡ ok (k, at t (suc n))
unfolding read_hex_digit
read_hex_nibble k o t n h = rw (hex_value-hex_nibble k h, nibble_of)

read_hex_byte :
    (b o : ℕ) (out t : Bytes) (n : ℕ)
    → b < 256
    → hex_escape out o (at (hex_nibble (b / 16) ∷ hex_nibble (b % 16) ∷ t) n)
      ≡ ok (out ++ b ∷ [], at t (suc (suc n)))
unfolding hex_escape
read_hex_byte b o out t n h =
    rw (read_hex_nibble (b / 16) o (hex_nibble (b % 16) ∷ t) n (omega arith))
      (rw (read_hex_nibble (b % 16) o t (suc n) (omega arith)) (rw (nibbles b h)))

hex-Decodes :
    (b : ℕ) → b < 256 → Decodes b (92 ∷ b'x' ∷ hex_nibble (b / 16) ∷ hex_nibble (b % 16) ∷ [])
unfolding cstring_loop
hex-Decodes b h f o out t n =
    ap (λ r. bind r λ (out', d). cstring_loop f o out' d) (read_hex_byte b n out t (suc (suc n)) h)
    ∙ ap (λ k. cstring_loop f o (out ++ b ∷ []) (at t k)) (omega arith)

plain-Decodes : (b : ℕ) → (b == b'"') ≡ false → (b == 92) ≡ false → Decodes b (b ∷ [])
unfolding cstring_loop
plain-Decodes b q s f o out t n =
    rw (q, s) (ap (λ k. cstring_loop f o (out ++ b ∷ []) (at t k)) (omega arith))

-- A rung of the encoder's ladder: a fixed byte and its escape letter.
module _ (b k l : ℕ) (code : Bytes) (e : simple_escape l ≡ some k) where
  rung :
      (x : Bool)
      → (b == k) ≡ x
      → ((b == k) ≡ false → Decodes b code)
      → Decodes b (if x then 92 ∷ l ∷ [] else code)
  rung true h other = simple-Decodes l b (e ∙ ap some (sym (==→eq b k h)))
  rung false h other = other h

  Decodes-if :
      ((b == k) ≡ false → Decodes b code) → Decodes b (if b == k then 92 ∷ l ∷ [] else code)
  Decodes-if = rung (b == k) refl

control-Decodes :
    (b : ℕ) (x : Bool)
    → (leb b 0x1f || b == 0x7f) ≡ x
    → (b == b'"') ≡ false
    → (b == 92) ≡ false
    → Decodes b (if x then 92 ∷ b'x' ∷ hex_nibble (b / 16) ∷ hex_nibble (b % 16) ∷ [] else b ∷ [])
control-Decodes b true h q s = hex-Decodes b (ground arith)
control-Decodes b false h q s = plain-Decodes b q s

escape_byte-Decodes : (b : ℕ) → Decodes b (escape_byte b)
unfolding escape_byte simple_escape
escape_byte-Decodes b = Decodes-if b b'"' b'"' _ refl λ quote. Decodes-if b 92 92 _ refl λ slash.
    Decodes-if b 10 b'n' _ refl λ _. Decodes-if b 13 b'r' _ refl λ _.
      Decodes-if b 9 b't' _ refl λ _. Decodes-if b 0x07 b'a' _ refl λ _.
        Decodes-if b 0x08 b'b' _ refl λ _.
          Decodes-if b 0x0b b'v' _ refl
            λ _. Decodes-if b 0x0c b'f' _ refl λ _. control-Decodes b _ refl quote slash

loop-escape :
    (s : Bytes) (f o : ℕ) (out t : Bytes) (n m : ℕ)
    → length s < f
    → m ≡ suc (n + length (escape s))
    → cstring_loop f o out (at (escape s ++ b'"' ∷ t) n) ≡ ok (out ++ s, at t m)
unfolding escape cstring_loop
loop-escape s zero o out t n m h e = absurd (omega arith)
loop-escape [] (suc f) o out t n m h e =
    ap₂ (λ x k. ok (x, at t k)) (sym (append-nil out)) (omega arith)
loop-escape (b ∷ s) (suc f) o out t n m h e =
    let code = escape_byte b in
    ap (λ r. cstring_loop (suc f) o out (at r n)) (append_assoc code (escape s) (b'"' ∷ t))
    ∙ escape_byte-Decodes b f o out (escape s ++ b'"' ∷ t) n
    ∙ loop-escape s f o (out ++ b ∷ []) t (n + length code) m (omega arith)
        (omega (arith, e, length-append code (escape s)))
    ∙ ap (λ x. ok (x, at t m)) (append_assoc out (b ∷ []) s)

length-escape_byte : (b : ℕ) → 0 < length (escape_byte b)
unfolding escape_byte
length-escape_byte b = ground arith

length-escape : (s : Bytes) → length s ≤ length (escape s)
unfolding escape
length-escape [] = omega arith
length-escape (b ∷ s) =
    omega (arith, length-escape s, length-escape_byte b, length-append (escape_byte b) (escape s))

body_lem :
    (s t : Bytes) (o n m : ℕ)
    → is_utf8 s ≡ true
    → m ≡ suc (n + length (escape s))
    → cstring_body o (at (escape s ++ b'"' ∷ t) n) ≡ ok (s, at t m)
unfolding cstring_body
body_lem s t o n m h e =
    let code = escape s in
    ap (λ r. bind r λ (out, d). checked_utf8 o out d)
      (loop-escape s (suc (length (code ++ b'"' ∷ t))) o [] t n m
        (omega (arith, length-escape s, length-append code (b'"' ∷ t))) e)
    ∙ rw (h, checked_utf8)

-- For every UTF-8 string, parse_cstring reads what encode_cstring writes back as that string,
-- whatever follows and wherever it stands, and stops behind the closing quote.
pub parse_cstring-encode_cstring :
    (s t : Bytes) (n : ℕ)
    → is_utf8 s ≡ true
    → parse_cstring (record { rest = encode_cstring s ++ t; pos = n })
      ≡ ok (s, record { rest = t; pos = n + length (encode_cstring s) })
unfolding parse_cstring encode_cstring
parse_cstring-encode_cstring s t n h =
    let code = escape s in
    ap (λ r. cstring_body n (at r (suc n))) (append_assoc code (b'"' ∷ []) t)
    ∙ body_lem s t n (suc n) (n + suc (length (code ++ b'"' ∷ []))) h
        (omega (arith, length-append code (b'"' ∷ [])))
