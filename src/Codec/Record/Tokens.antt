-- ===== src/Codec/Record/Tokens.antt =====
-- The token that a command is written with is the token that is read back.
use framewalk.Prelude.{
  ℕ, zero, suc, ◌+◌, ◌*◌, ◌/◌, ◌%◌, ◌^◌, ◌-◌, ◌≤◌, ◌<◌, ◌≡◌, refl, sym, ap, ap₂, ◌∙◌, Bool, true,
  false, not, some, [], ◌∷◌, ◌++◌, arith, ltb, ◌==◌, ==→eq, if◌then◌else◌, length, Bytes, bytes,
}
use framewalk.Codec.Error.{ok}
use framewalk.Codec.Cursor.{Cursor}
use framewalk.Codec.CString.{in_range}
use framewalk.Codec.Ast.{Record, ResultClass, no_results}
use framewalk.Codec.Cursor.{collect}
use framewalk.Codec.Record.{parse_record, token_digits, parse_optional_token}
use framewalk.Codec.Encode.{digits_rev, backwards, write_u64}

abbrev at : Bytes → ℕ → Cursor
at s n = record { rest = s; pos = n }

-- One digit of the parser's loop.
read_digit :
    (start acc : ℕ) (any : Bool) (d : ℕ) (s : Bytes) (p n : ℕ)
    → d < 10
    → acc * 10 + d ≡ n
    → n < 2 ^ 64
    → token_digits start acc any ((b'0' + d) ∷ s) p ≡ token_digits start n true s (suc p)
unfolding token_digits
read_digit start acc any d s p n h e fits =
    let digit : in_range b'0' b'9' (b'0' + d) ≡ true = ground arith in
    let value : acc * 10 + (b'0' + d - b'0') ≡ n = omega (arith, e) in
    let wide : ltb n (2 ^ 64) ≡ true = ground arith in rw (digit, value, wide)

power : (f n : ℕ) → n < 10 ^ suc f → n / 10 < 10 ^ f
power f n h = omega (arith, h)

digit_small : (n : ℕ) → n % 10 < 10
digit_small n = omega arith

digits_step :
    (f n : ℕ) → (n == 0) ≡ false → digits_rev (suc f) n ≡ (b'0' + n % 10) ∷ digits_rev f (n / 10)
unfolding digits_rev
digits_step f n h = rw h

read_digits :
    (f n start : ℕ) (out : Bytes) (p : ℕ)
    → n < 10 ^ f
    → n < 2 ^ 64
    → token_digits start 0 false (backwards (digits_rev f n) out) p
      ≡ token_digits start n (not (n == 0)) out (p + length (digits_rev f n))
unfolding digits_rev backwards
read_digits zero zero start out p h fits = ap (token_digits start 0 false out) (omega arith)
read_digits zero (suc m) start out p h fits = absurd (omega (arith, h))
read_digits (suc f) zero start out p h fits = ap (token_digits start 0 false out) (omega arith)
read_digits (suc f) (suc m) start out p h fits =
    let n = suc m in
    let nonzero : (n == 0) ≡ false = ground arith in
    let step = digits_step f n nonzero in
    ap (λ ds. token_digits start 0 false (backwards ds out) p) step
    ∙ read_digits f (n / 10) start ((b'0' + n % 10) ∷ out) p (power f n h) (omega arith)
    ∙ read_digit start (n / 10) (not (n / 10 == 0)) (n % 10) out
        (p + length (digits_rev f (n / 10))) n (digit_small n) (omega arith) fits
    ∙ ap₂ (λ any q. token_digits start n any out q) (ap not (sym nonzero))
        (omega (arith, ap length step))

backwards_lem : (ds out t : Bytes) → backwards ds out ++ t ≡ backwards ds (out ++ t)
unfolding backwards
backwards_lem [] out t = refl
backwards_lem (d ∷ ds) out t = backwards_lem ds (d ∷ out) t

length-backwards : (ds out : Bytes) → length (backwards ds out) ≡ length ds + length out
unfolding backwards
length-backwards [] out = omega arith
length-backwards (d ∷ ds) out = length-backwards ds (d ∷ out) ∙ omega arith

length-digits : (f n : ℕ) → length (digits_rev f n) ≤ f
unfolding digits_rev
length-digits zero n = omega arith
length-digits (suc f) n = ground (arith, length-digits f (n / 10))

stops :
    (start n : ℕ) (b : ℕ) (s : Bytes) (p : ℕ)
    → in_range b'0' b'9' b ≡ false
    → token_digits start n true (b ∷ s) p ≡ ok (some n, at (b ∷ s) p)
unfolding token_digits
stops start n b s p e = rw e

written :
    (n : ℕ) (b : ℕ) (s : Bytes) (p : ℕ)
    → n < 2 ^ 64
    → in_range b'0' b'9' b ≡ false
    → (x : Bool) → (n == 0) ≡ x
    → let code = if x then b'0' ∷ [] else backwards (digits_rev 20 n) [] in
      (token_digits p 0 false (code ++ b ∷ s) p ≡ ok (some n, at (b ∷ s) (p + length code)))
      × (length code ≤ 20)
written n b s p h e true z =
    let zero_lem = ==→eq n 0 z in
    (
      read_digit p 0 false 0 (b ∷ s) p n (omega arith) (omega (arith, zero_lem)) h
          ∙ stops p n b s (suc p) e
          ∙ ap (λ q. ok (some n, at (b ∷ s) q)) (omega arith),
      omega arith,
    )
written n b s p h e false z =
    let ds = digits_rev 20 n in
    let size = length-backwards ds [] in
    (
      ap (λ l. token_digits p 0 false l p) (backwards_lem ds [] (b ∷ s))
          ∙ read_digits 20 n p (b ∷ s) p (omega (arith, h)) h
          ∙ ap (λ x. token_digits p n (not x) (b ∷ s) (p + length ds)) z
          ∙ stops p n b s (p + length ds) e
          ∙ ap (λ q. ok (some n, at (b ∷ s) q)) (omega (arith, size)),
      omega (arith, size, length-digits 20 n),
    )

-- For every n below 2^64, parse_optional_token reads what write_u64 writes, followed by a byte
-- that is no digit, back as n and stops at that byte; and write_u64 writes at most twenty
-- digits.
pub parse_optional_token-write_u64 :
    (n : ℕ) (b : ℕ) (s : Bytes) (p : ℕ)
    → n < 2 ^ 64
    → in_range b'0' b'9' b ≡ false
    → (parse_optional_token (at (write_u64 n ++ b ∷ s) p)
        ≡ ok (some n, at (b ∷ s) (p + length (write_u64 n))))
      × (length (write_u64 n) ≤ 20)
unfolding write_u64 parse_optional_token
parse_optional_token-write_u64 n b s p h e = written n b s p h e (n == 0) refl

-- The line with which GDB says that a command is done.
pub done_line :
    (n : ℕ)
    → n < 2 ^ 64
    → parse_record (write_u64 n ++ bytes "^done")
      ≡ ok (
          Record.result (record { token = some n; class = ResultClass.done; results = no_results }))
unfolding parse_record parse_optional_token collect
done_line n h =
    let digits : token_digits 0 0 false (write_u64 n ++ bytes "^done") 0
        ≡ ok (some n, at (bytes "^done") (0 + length (write_u64 n))) =
      (parse_optional_token-write_u64 n b'^' (bytes "done") 0 h refl).0 in
    rw digits
