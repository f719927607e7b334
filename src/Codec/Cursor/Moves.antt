-- ===== src/Codec/Cursor/Moves.antt =====
-- What every parser step keeps: the end of the input stays where it is, the cursor only goes
-- forward, an error points into the input, and the fuel does not run out.
use framewalk.Prelude.{
  ℕ, suc, ◌+◌, ◌≤◌, ◌≡◌, ◌≢◌, ◌∙◌, refl, Bool, true, false, Option, none, some, [], ◌∷◌, arith,
  ◌==◌, if◌then◌else◌, length, Bytes, Bool-cases, inl, inr,
}
use framewalk.Codec.Error.{Result, ok, err, out_of_fuel, CodecError, bind}
use framewalk.Codec.Cursor.{Cursor, Parser, expect_byte, run_of, collect}

-- `t` is the length of the whole input, `from` a position that the cursor has reached.
pub data Moves {ℓ} {A : Type ℓ} (t from : ℕ) : Result (A × Cursor) → Type ℓ where
  moved : (a : A) (d : Cursor) → d.pos + length d.rest ≡ t → from ≤ d.pos → Moves t from (ok (a, d))
  refused : (e : CodecError) → e.offset ≤ t → Moves t from (err e)

abbrev pub EndsAt : ℕ → Cursor → Type 0
EndsAt t c = c.pos + length c.rest ≡ t

module _ {ℓ} {A : Type ℓ} {t from : ℕ} where
  pub Moves-if :
      (b : Bool) (p q : Parser A) (c : Cursor)
      → (b ≡ true → Moves t from (p c))
      → (b ≡ false → Moves t from (q c))
      → Moves t from ((if b then p else q) c)
  Moves-if true p q c hp hq = hp refl
  Moves-if false p q c hp hq = hq refl

  -- A branch on an optional value.
  pub Moves-option {κ} :
      {X : Type κ} (o : Option X) (p : Parser A) (q : X → Parser A) (c : Cursor)
      → Moves t from (p c)
      → ((x : X) → o ≡ some x → Moves t from (q x c))
      → Moves t from ((elim o as (λ _. Parser A) [ none ↦ p | some x ↦ q x ]) c)
  Moves-option none p q c hp hq = hp
  Moves-option (some x) p q c hp hq = hq x refl

  pub Moves-bind {κ} :
      {B : Type κ} {to : ℕ} {r : Result (A × Cursor)} {f : A → Parser B}
      → Moves t from r
      → ((a : A) (d : Cursor) → EndsAt t d → from ≤ d.pos → Moves t to (f a d))
      → Moves t to (bind r λ (a, d). f a d)
  Moves-bind (moved a d e h) k = k a d e h
  Moves-bind (refused e h) k = refused e h

  -- What has moved past a point has moved past those before it.
  pub Moves-from :
      {later : ℕ} {r : Result (A × Cursor)} → from ≤ later → Moves t later r → Moves t from r
  Moves-from le (moved a d e h) = moved a d e (omega arith)
  Moves-from le (refused e h) = refused e h

  pub Moves-ne-out_of_fuel : {r : Result (A × Cursor)} → Moves t from r → r ≢ out_of_fuel
  Moves-ne-out_of_fuel (moved a d e h) = cc
  Moves-ne-out_of_fuel (refused e h) = cc

pub expect_byte-Moves :
    {t : ℕ} (b : ℕ) (s : Bytes) (n : ℕ)
    → n + length s ≡ t
    → Moves t (suc n) (expect_byte b (record { rest = s; pos = n }))
unfolding expect_byte
expect_byte-Moves b [] n e = refused _ (omega arith)
expect_byte-Moves b (a ∷ s) n e =
    Moves-if (a == b) _ _ _ (λ _. moved _ _ (omega arith) (omega arith))
      (λ _. refused _ (omega arith))

run_of-EndsAt :
    (p : ℕ → Bool) (s : Bytes) (n : ℕ)
    → ((run_of p s n).1.pos + length (run_of p s n).1.rest ≡ n + length s)
      × (n ≤ (run_of p s n).1.pos)
unfolding run_of
run_of-EndsAt p [] n = omega arith
run_of-EndsAt p (a ∷ s) n =
    let ih = run_of-EndsAt p s (suc n) in
    elim (Bool-cases (p a)) [ inl e ↦ rw e (omega (arith, ih)) | inr e ↦ rw e (omega arith) ]

pub collect-Moves : {t : ℕ} (p : ℕ → Bool) (c : Cursor) → EndsAt t c → Moves t c.pos (collect p c)
unfolding collect
collect-Moves p c e =
    let (ends, forward) = run_of-EndsAt p c.rest c.pos in moved _ _ (ends ∙ e) forward
