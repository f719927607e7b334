-- ===== src/Codec/Value/Moves.antt =====
-- The fuel of the value parsers: four units for each byte that is left always suffice.
use framewalk.Prelude.{
  ℕ, zero, suc, ◌+◌, ◌*◌, ◌≤◌, ◌≡◌, Bool, true, false, [], ◌∷◌, arith, ◌==◌, length, Bytes, bytes,
}
use framewalk.Codec.Error.{Result}
use framewalk.Codec.Cursor.{Cursor, Parser}
use framewalk.Codec.Cursor.Moves.{
  Moves, moved, refused, EndsAt, Moves-if, Moves-from, Moves-bind, expect_byte-Moves, collect-Moves,
}
use framewalk.Codec.CString.Moves.{parse_cstring-Moves}
use framewalk.Codec.Value.{
  is_identifier_byte, non_empty, parse_variable, result_ahead, remap, expect_equals, Separator,
  comma, closing, separator, closes, same_shape, parse_value, parse_tuple, tuple_items, parse_list,
  list_results, list_values, parse_result,
}

abbrev at : Bytes → ℕ → Cursor
at s n = record { rest = s; pos = n }

module _ {t : ℕ} where
  pub non_empty-Moves :
      (start : ℕ) (name : Bytes) (c : Cursor)
      → start ≤ t
      → EndsAt t c
      → Moves t c.pos (non_empty start name c)
  non_empty-Moves start [] c h e = refused _ h
  non_empty-Moves start (b ∷ s) c h e = moved _ _ e (omega arith)

  parse_variable-Moves : (c : Cursor) → EndsAt t c → Moves t c.pos (parse_variable c)
  unfolding parse_variable
  parse_variable-Moves c e =
      Moves-bind (collect-Moves is_identifier_byte c e)
        λ name d ed fd. Moves-from fd (non_empty-Moves c.pos name d (omega arith) ed)

  remap-Moves {ℓ} :
      {A : Type ℓ} {from : ℕ} (r : Result (A × Cursor)) → Moves t from r → Moves t from (remap r)
  remap-Moves _ (moved a d e h) = moved a d e h
  remap-Moves _ (refused e h) = refused _ h

  expect_equals-Moves : (c : Cursor) → EndsAt t c → Moves t (suc c.pos) (expect_equals c)
  unfolding expect_equals
  expect_equals-Moves c e = remap-Moves _ (expect_byte-Moves b'=' c.rest c.pos e)

  separator-Moves :
      (close : ℕ) (expected s : Bytes) (n : ℕ)
      → n + length s ≡ t
      → Moves t (suc n) (separator close expected (at s n))
  unfolding separator
  separator-Moves close expected [] n e = refused _ (omega arith)
  separator-Moves close expected (b ∷ s) n e =
      Moves-if (b == b',') _ _ _ (λ _. moved _ _ (omega arith) (omega arith))
        λ _.
          Moves-if (b == close) _ _ _ (λ _. moved _ _ (omega arith) (omega arith))
            (λ _. refused _ (omega arith))

  closes-Moves :
      (close : ℕ) (s : Bytes) (n : ℕ) → n + length s ≡ t → Moves t n (closes close (at s n))
  unfolding closes
  closes-Moves close [] n e = moved _ _ e (omega arith)
  closes-Moves close (b ∷ s) n e =
      Moves-if (b == close) _ _ _ (λ _. moved _ _ (omega arith) (omega arith))
        λ _. moved _ _ e (omega arith)

  same_shape-Moves : (x : Bool) (c : Cursor) → EndsAt t c → Moves t c.pos (same_shape x c)
  unfolding same_shape
  same_shape-Moves x c e =
      Moves-if (result_ahead c.rest) _ _ _
        (λ _. Moves-if x _ _ _ (λ _. moved _ _ e (omega arith)) (λ _. refused _ (omega arith)))
        λ _. Moves-if x _ _ _ (λ _. refused _ (omega arith)) (λ _. moved _ _ e (omega arith))

module _ {ℓ} {A : Type ℓ} {t from : ℕ} (p q : Parser A) (c : Cursor) where
  Moves-closed :
      (b : Bool)
      → Moves t from (p c)
      → Moves t from (q c)
      → Moves t from ((elim b as (λ _. Parser A) [ true ↦ p | false ↦ q ]) c)
  Moves-closed true hp hq = hp
  Moves-closed false hp hq = hq

  Moves-separator :
      (after : Separator)
      → Moves t from (p c)
      → Moves t from (q c)
      → Moves t from ((elim after as (λ _. Parser A) [ comma ↦ p | closing ↦ q ]) c)
  Moves-separator comma hp hq = hp
  Moves-separator closing hp hq = hq

mutual
  unfolding parse_value

  value-Moves :
      {t : ℕ} (f : ℕ) (s : Bytes) (n : ℕ)
      → n + length s ≡ t
      → 4 * length s + 3 ≤ f
      → Moves t n (parse_value f (at s n))
  value-Moves zero s n e h = absurd (omega arith)
  value-Moves (suc f) [] n e h = refused _ (omega arith)
  value-Moves (suc f) (b ∷ s) n e h =
      Moves-if (b == b'"') _ _ _
        (λ _.
          Moves-bind (parse_cstring-Moves (at (b ∷ s) n) e)
            λ text d ed fd. moved _ _ ed (omega arith))
        λ _.
          Moves-if (b == b'{') _ _ _
            (λ _.
              Moves-bind (tuple-Moves f (b ∷ s) n e (omega arith)) λ rs d ed fd. moved _ _ ed fd)
            λ _.
              Moves-if (b == b'[') _ _ _
                (λ _.
                  Moves-bind (list-Moves f (b ∷ s) n e (omega arith)) λ rs d ed fd. moved _ _ ed fd)
                λ _. refused _ (omega arith)

  tuple-Moves :
      {t : ℕ} (f : ℕ) (s : Bytes) (n : ℕ)
      → n + length s ≡ t
      → 4 * length s + 2 ≤ f
      → Moves t n (parse_tuple f (at s n))
  tuple-Moves zero s n e h = absurd (omega arith)
  tuple-Moves (suc f) s n e h = Moves-bind (expect_byte-Moves b'{' s n e) λ _ d ed fd.
      Moves-bind (closes-Moves b'}' d.rest d.pos ed) λ closed d' ed' fd'.
        Moves-closed _ _ d' closed (moved _ _ ed' (omega arith))
          (Moves-from (omega arith) (tuple_items-Moves f d'.rest d'.pos ed' (omega arith)))

  tuple_items-Moves :
      {t : ℕ} (f : ℕ) (s : Bytes) (n : ℕ)
      → n + length s ≡ t
      → 4 * length s + 5 ≤ f
      → Moves t n (tuple_items f (at s n))
  tuple_items-Moves zero s n e h = absurd (omega arith)
  tuple_items-Moves (suc f) s n e h =
      Moves-bind (result-Moves f s n e (omega arith)) λ (name, v) d ed fd.
        Moves-bind (separator-Moves b'}' (bytes ",}") d.rest d.pos ed) λ after d' ed' fd'.
          Moves-separator _ _ d' after
            (Moves-bind (tuple_items-Moves f d'.rest d'.pos ed' (omega arith))
              λ rest d₂ e₂ f₂. moved _ _ e₂ (omega arith))
            (moved _ _ ed' (omega arith))

  list-Moves :
      {t : ℕ} (f : ℕ) (s : Bytes) (n : ℕ)
      → n + length s ≡ t
      → 4 * length s + 2 ≤ f
      → Moves t n (parse_list f (at s n))
  list-Moves zero s n e h = absurd (omega arith)
  list-Moves (suc f) s n e h = Moves-bind (expect_byte-Moves b'[' s n e) λ _ d ed fd.
      Moves-bind (closes-Moves b']' d.rest d.pos ed) λ closed d' ed' fd'.
        Moves-closed _ _ d' closed (moved _ _ ed' (omega arith)) (
          Moves-closed _ _ d' (result_ahead d'.rest)
            (Moves-bind (list_results-Moves f d'.rest d'.pos ed' (omega arith))
              λ rs d₁ e₁ f₁. moved _ _ e₁ (omega arith))
            (Moves-bind (list_values-Moves f d'.rest d'.pos ed' (omega arith))
              λ vs d₁ e₁ f₁. moved _ _ e₁ (omega arith)))

  list_results-Moves :
      {t : ℕ} (f : ℕ) (s : Bytes) (n : ℕ)
      → n + length s ≡ t
      → 4 * length s + 5 ≤ f
      → Moves t n (list_results f (at s n))
  list_results-Moves zero s n e h = absurd (omega arith)
  list_results-Moves (suc f) s n e h =
      Moves-bind (result-Moves f s n e (omega arith)) λ (name, v) d ed fd.
        Moves-bind (separator-Moves b']' (bytes ",]") d.rest d.pos ed) λ after d' ed' fd'.
          Moves-separator _ _ d' after
            (Moves-bind (same_shape-Moves true d' ed') λ _ d₁ e₁ f₁.
              Moves-bind (list_results-Moves f d₁.rest d₁.pos e₁ (omega arith))
                λ rest d₂ e₂ f₂. moved _ _ e₂ (omega arith))
            (moved _ _ ed' (omega arith))

  list_values-Moves :
      {t : ℕ} (f : ℕ) (s : Bytes) (n : ℕ)
      → n + length s ≡ t
      → 4 * length s + 5 ≤ f
      → Moves t n (list_values f (at s n))
  list_values-Moves zero s n e h = absurd (omega arith)
  list_values-Moves (suc f) s n e h = Moves-bind (value-Moves f s n e (omega arith)) λ v d ed fd.
      Moves-bind (separator-Moves b']' (bytes ",]") d.rest d.pos ed) λ after d' ed' fd'.
        Moves-separator _ _ d' after
          (Moves-bind (same_shape-Moves false d' ed') λ _ d₁ e₁ f₁.
            Moves-bind (list_values-Moves f d₁.rest d₁.pos e₁ (omega arith))
              λ rest d₂ e₂ f₂. moved _ _ e₂ (omega arith))
          (moved _ _ ed' (omega arith))

  result-Moves :
      {t : ℕ} (f : ℕ) (s : Bytes) (n : ℕ)
      → n + length s ≡ t
      → 4 * length s + 4 ≤ f
      → Moves t n (parse_result f (at s n))
  result-Moves zero s n e h = absurd (omega arith)
  result-Moves (suc f) s n e h = Moves-bind (parse_variable-Moves (at s n) e) λ name d ed fd.
      Moves-bind (expect_equals-Moves d ed) λ _ d' ed' fd'.
        Moves-bind (value-Moves f d'.rest d'.pos ed' (omega arith))
          λ v d'' ed'' fd''. moved _ _ ed'' (omega arith)

-- With four units of fuel for each byte that is left, and four more, parse_result does not run
-- out of fuel: it ends inside the input, or with an error whose offset lies in it.
pub parse_result-Moves :
    {t : ℕ} (f : ℕ) (c : Cursor)
    → EndsAt t c
    → 4 * length c.rest + 4 ≤ f
    → Moves t c.pos (parse_result f c)
parse_result-Moves f c e h = result-Moves f c.rest c.pos e h
