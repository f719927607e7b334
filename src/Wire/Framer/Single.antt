-- ===== src/Wire/Framer/Single.antt =====
-- A line that holds a caret is one frame of its own.
use framewalk.Prelude.{
  ℕ, ◌≡◌, refl, sym, ap, ◌∙◌, Bool, true, false, not, [], ◌∷◌, ◌++◌, arith, ◌==◌, all, Bytes,
  Bool-cases, inl, inr,
}
use mathlib.Core.Bool.{false≢true}
use framewalk.Wire.Framer.{line, is_blank, is_group_terminator, frame_of}
use framewalk.Wire.Framer.Stream.{strip_return, frames, frames-append, residue, unended}
use framewalk.Wire.Framer.Shape.{is_group_terminator_iff}

abbrev is_plain : ℕ → Bool
is_plain b = not (b == b'^')

plain-blanks : (s : Bytes) → all is_blank s ≡ true → all is_plain s ≡ true
unfolding is_blank
plain-blanks [] h = refl
plain-blanks (b ∷ s) h = ground (arith, plain-blanks s)

caret_found : (r t : Bytes) → all is_plain (r ++ b'^' ∷ t) ≡ false
caret_found [] t = refl
caret_found (b ∷ r) t = ground (arith, caret_found r t)

caret_no_terminator : (r t : Bytes) → is_group_terminator (r ++ b'^' ∷ t) ≡ false
caret_no_terminator r t = elim (Bool-cases (is_group_terminator (r ++ b'^' ∷ t))) [
  | inl h ↦
      (let (blanks, e, hb) = (is_group_terminator_iff (r ++ b'^' ∷ t)).0 h in
        absurd (false≢true (sym (caret_found r t) ∙ ap (all is_plain) e ∙ plain-blanks blanks hb)))
  | inr h ↦ h
]

pub strip_return-last :
    (r : Bytes) (b : ℕ) → (b == 13) ≡ false → strip_return (r ++ b ∷ []) ≡ r ++ b ∷ []
unfolding strip_return
strip_return-last [] b h = rw h
strip_return-last (a ∷ []) b h = ap (λ s. a ∷ s) (strip_return-last [] b h)
strip_return-last (a ∷ c ∷ r) b h = ap (λ s. a ∷ s) (strip_return-last (c ∷ r) b h)

pub frames-caret :
    (s r t : Bytes)
    → s ≡ r ++ b'^' ∷ t
    → strip_return s ≡ s
    → all (λ b. not (b == 10)) s ≡ true
    → frames [] (s ++ 10 ∷ []) ≡ line s ∷ []
unfolding frames frame_of
frames-caret s r t e strip h =
    let open_line = unended [] s h in
    frames-append [] s (10 ∷ [])
    ∙ ap (λ l. l ++ frames (residue [] s) (10 ∷ [])) open_line.0
    ∙ ap (λ cur. frames cur (10 ∷ [])) open_line.1
    ∙ ap (λ l. frame_of l ∷ []) strip
    ∙ rw (ap is_group_terminator e ∙ caret_no_terminator r t)
