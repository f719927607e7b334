-- ===== src/Wire/Framer/Stream.antt =====
-- The framer against a reference reader that takes the stream one byte at a time.
use framewalk.Prelude.{
  ℕ, zero, suc, ◌+◌, ◌-◌, ◌≤◌, ◌<◌, ◌≡◌, refl, sym, ap, ap₂, not, all, ◌∙◌, Bool, true, false, inl,
  inr, Option, none, some, List, [], ◌∷◌, ◌++◌, append-nil, append_assoc, arith, ◌==◌,
  if◌then◌else◌, length, get_elem?, take, drop, length-append, get_elem?-drop, length-drop,
  drop-append, drop-add, Bytes, Bool-cases,
}
use framewalk.Wire.Framer.{
  Frame, Framer, push, pop, pop_at, pop_found, make_room, position, is_newline, is_return, slice,
  frame_of, line_end,
}

-- The read position lies in the buffer: no slice of the source is out of range.
pub record IsValid (f : Framer) : Type 0 where
  pub in_buf : f.read_pos ≤ length f.buf

-- What was received and not yet handed out.
abbrev pub pending : Framer → Bytes
pending f = drop f.read_pos f.buf

-- A line without the carriage return of a CRLF.
unfoldable pub strip_return : Bytes → Bytes
strip_return [] = []
strip_return (b ∷ []) = if b == 13 then [] else b ∷ []
strip_return (b ∷ c ∷ s) = b ∷ strip_return (c ∷ s)

-- The reference reader: `cur` is the line read so far.
unfoldable pub frames : Bytes → Bytes → List Frame
frames cur [] = []
frames cur (b ∷ s) =
    let ended = frame_of (strip_return cur) ∷ frames [] s in
    let longer = frames (cur ++ b ∷ []) s in if b == 10 then ended else longer

unfoldable pub residue : Bytes → Bytes → Bytes
residue cur [] = cur
residue cur (b ∷ s) = residue (if b == 10 then [] else cur ++ b ∷ []) s

pub frames-append :
    (cur s t : Bytes) → frames cur (s ++ t) ≡ frames cur s ++ frames (residue cur s) t
unfolding frames residue
frames-append cur [] t = refl
frames-append cur (b ∷ s) t =
    ground (arith, frames-append [] s t, frames-append (cur ++ b ∷ []) s t)

pub residue-append : (cur s t : Bytes) → residue cur (s ++ t) ≡ residue (residue cur s) t
unfolding residue
residue-append cur [] t = refl
residue-append cur (b ∷ s) t = residue-append (if b == 10 then [] else cur ++ b ∷ []) s t

abbrev no_newline : Bytes → Bool
no_newline = all (λ b. not (b == 10))

no_newline_one :
    (s : Bytes) (b : ℕ) → no_newline s ≡ true → (b == 10) ≡ false → no_newline (s ++ b ∷ []) ≡ true
no_newline_one [] b h e = ground arith
no_newline_one (a ∷ s) b h e = ground (arith, no_newline_one s b)

residue-no_newline : (cur s : Bytes) → no_newline cur ≡ true → no_newline (residue cur s) ≡ true
unfolding residue
residue-no_newline cur [] h = h
residue-no_newline cur (b ∷ s) h = elim (Bool-cases (b == 10)) [
  | inl e ↦ rw e (residue-no_newline [] s refl)
  | inr e ↦ rw e (residue-no_newline (cur ++ b ∷ []) s (no_newline_one cur b h e))
]

-- A line that is not ended gives no frame and stays as it is.
pub unended :
    (cur r : Bytes) → no_newline r ≡ true → (frames cur r ≡ []) × (residue cur r ≡ cur ++ r)
unfolding frames residue
unended cur [] h = (refl, sym (append-nil cur))
unended cur (b ∷ r) h =
    let e : (b == 10) ≡ false = ground arith in
    let ih = unended (cur ++ b ∷ []) r (ground arith) in
    rw e (ih.0, ih.1 ∙ append_assoc cur (b ∷ []) r)

-- Reading on from what was left over, or from the start of the line, is the same.
pub frames-residue : (s t : Bytes) → frames [] (residue [] s ++ t) ≡ frames (residue [] s) t
frames-residue s t =
    let r = residue [] s in
    let u = unended [] r (residue-no_newline [] s refl) in
    frames-append [] r t ∙ ap₂ (λ l c. l ++ frames c t) u.0 u.1

pub residue_restart : (s t : Bytes) → residue [] (residue [] s ++ t) ≡ residue [] (s ++ t)
residue_restart s t =
    let r = residue [] s in
    let u = unended [] r (residue-no_newline [] s refl) in
    residue-append [] r t ∙ ap (λ c. residue c t) u.1 ∙ sym (residue-append [] s t)

make_room-pending : (f : Framer) → pending (make_room f) ≡ pending f
unfolding make_room
make_room-pending f = ground arith

make_room-IsValid : (f : Framer) → IsValid f → IsValid (make_room f)
unfolding make_room
make_room-IsValid f v = ground arith

pub push-IsValid : (f : Framer) (bs : Bytes) → IsValid f → IsValid (push f bs)
unfolding push
push-IsValid f bs v = record {
  in_buf = omega (arith, length-append (make_room f).buf bs, (make_room-IsValid f v).in_buf);
}

-- Pushing appends to what is pending.
pub pending-push : (f : Framer) (bs : Bytes) → IsValid f → pending (push f bs) ≡ pending f ++ bs
unfolding push
pending-push f bs v =
    drop-append (make_room f).read_pos (make_room f).buf bs (make_room-IsValid f v).in_buf
    ∙ ap (λ t. t ++ bs) (make_room-pending f)

position-eq-none :
    (cur s : Bytes)
    → position is_newline s ≡ none
    → (frames cur s ≡ []) × (residue cur s ≡ cur ++ s)
unfolding position is_newline frames residue
position-eq-none cur [] h = (refl, sym (append-nil cur))
position-eq-none cur (b ∷ s) h =
    let ih = position-eq-none (cur ++ b ∷ []) s in
    let assoc = append_assoc cur (b ∷ []) s in (ground (arith, ih), ground (arith, ih, assoc))

position-eq-some :
    (cur s : Bytes) (i : ℕ)
    → position is_newline s ≡ some i
    → (i < length s)
      × (frames cur s ≡ frame_of (strip_return (cur ++ take i s)) ∷ frames [] (drop (suc i) s))
      × (residue cur s ≡ residue [] (drop (suc i) s))
unfolding position is_newline frames residue
position-eq-some cur [] i h = cc
position-eq-some cur (b ∷ s) zero h = elim (Bool-cases (b == 10)) [
  | inl e ↦ rw (e, append-nil) (omega arith, refl, refl)
  | inr e ↦ absurd (ground arith)
]
position-eq-some cur (b ∷ s) (suc i) h = elim (Bool-cases (b == 10)) [
  | inl e ↦ absurd (ground arith)
  | inr e ↦
      let ih = position-eq-some (cur ++ b ∷ []) s i (ground arith) in
      rw e (omega (arith, ih.0), rw append_assoc at ih.1, ih.2)
]

take-strip :
    (s : Bytes) (n : ℕ)
    → n < length s
    → take (if is_return (get_elem? s n) then n else suc n) s ≡ strip_return (take (suc n) s)
unfolding strip_return
take-strip [] n h = absurd (omega arith)
take-strip (b ∷ s) zero h = ground arith
take-strip (b ∷ []) (suc n) h = absurd (omega arith)
take-strip (b ∷ c ∷ s) (suc n) h = ground (arith, take-strip (c ∷ s) n)

line_end_lem :
    (f : Framer) (i : ℕ)
    → line_end f (f.read_pos + suc i)
      ≡ f.read_pos + (if is_return (get_elem? (pending f) i) then i else suc i)
unfolding line_end
line_end_lem f i =
    let before : f.read_pos + suc i - 1 ≡ f.read_pos + i = omega arith in
    rw (before, get_elem?-drop) (ground arith)

slice-add : (buf : Bytes) (a n : ℕ) → slice buf a (a + n) ≡ take n (drop a buf)
slice-add buf a n = ap (λ k. take k (drop a buf)) (omega arith)

line_cut :
    (f : Framer) (i : ℕ)
    → i < length (pending f)
    → slice f.buf f.read_pos (line_end f (f.read_pos + i)) ≡ strip_return (take i (pending f))
unfolding line_end strip_return
line_cut f zero h = ap (λ k. slice f.buf f.read_pos k) (ground arith) ∙ slice-add f.buf f.read_pos 0
line_cut f (suc i) h = rw (line_end_lem, slice-add) (take-strip (pending f) i (omega arith))

pending-pop_at :
    (f : Framer) (i : ℕ) → pending (pop_at f (f.read_pos + i)).1 ≡ drop (suc i) (pending f)
unfolding pop_at
pending-pop_at f i = ap (λ k. drop k f.buf) (omega arith) ∙ drop-add f.read_pos (suc i) f.buf

-- What one call of `pop` does, in terms of the bytes pending.
pub data Popped (f : Framer) : Option Frame × Framer → Type 0 where
  starved : frames [] (pending f) ≡ [] → residue [] (pending f) ≡ pending f → Popped f (none, f)
  popped :
      (fr : Frame) (g : Framer)
      → IsValid g
      → frames [] (pending f) ≡ fr ∷ frames [] (pending g)
      → residue [] (pending f) ≡ residue [] (pending g)
      → length (pending g) < length (pending f)
      → Popped f (some fr, g)

pop_at-IsValid :
    (f : Framer) (i : ℕ)
    → IsValid f
    → i < length (pending f)
    → IsValid (pop_at f (f.read_pos + i)).1
unfolding pop_at
pop_at-IsValid f i v h = record { in_buf = omega (arith, length-drop f.read_pos f.buf) }

pop_at-Popped :
    (f : Framer) (i : ℕ)
    → IsValid f
    → position is_newline (pending f) ≡ some i
    → Popped f (pop_at f (f.read_pos + i))
unfolding pop_at
pop_at-Popped f i v e =
    let found = position-eq-some [] (pending f) i e in
    let later = pending-pop_at f i in
    popped _ (pop_at f (f.read_pos + i)).1 (pop_at-IsValid f i v found.0)
      (rw (line_cut f i found.0, later) found.1) (rw later found.2)
      (rw later (omega (arith, found.0, length-drop (suc i) (pending f))))

pop_found-Popped :
    (f : Framer) (o : Option ℕ)
    → IsValid f
    → position is_newline (pending f) ≡ o
    → Popped f (pop_found f o)
unfolding pop_found
pop_found-Popped f none v e = let p = position-eq-none [] (pending f) e in starved p.0 p.1
pop_found-Popped f (some i) v e = pop_at-Popped f i v e

-- Every call of `pop` takes one frame of the reference reader, or finds that it has none.
pub pop-Popped : (f : Framer) → IsValid f → Popped f (pop f)
unfolding pop
pop-Popped f v = pop_found-Popped f _ v refl
