-- ===== src/Mcp/RawGuard/FirstWord.antt =====
-- The guard reads the first word of its input, and nothing else.
use framewalk.Prelude.{
  ℕ, zero, suc, ◌≡◌, refl, sym, ap, ◌∙◌, Bool, true, false, [], ◌∷◌, ◌++◌, arith, if◌then◌else◌,
  all, append-nil, Bytes, bytes, inl, inr, ◌⊎◌, starts_with, beq,
}
use framewalk.Codec.CString.{in_range}
use framewalk.Mcp.RawGuard.{
  any_matches, matches, allowed_commands, Guarded, permitted, rejected, unknown_command_family,
  white_width, trim_start, all_white, trim_end, trim, is_ascii_alphabetic, is_ascii_whitespace,
  first_word, operation_of, raw_mi_operation, to_ascii_lowercase, decide, validate_raw_mi_command,
}

-- A printable byte of ASCII that is no white space.
abbrev pub is_graphic : ℕ → Bool
is_graphic = in_range 0x21 0x7e

graphic-width : (b : ℕ) (s : Bytes) → is_graphic b ≡ true → white_width (b ∷ s) ≡ 0
unfolding white_width
graphic-width b s h = ground arith

graphic-all_white : (b : ℕ) (s : Bytes) → is_graphic b ≡ true → all_white 0 (b ∷ s) ≡ false
unfolding all_white
graphic-all_white b s h =
    ap (λ n. elim n as (λ _. Bool) [ zero ↦ false | suc k ↦ all_white k s ]) (graphic-width b s h)

graphic-trim_start : (b : ℕ) (s : Bytes) → is_graphic b ≡ true → trim_start 0 (b ∷ s) ≡ b ∷ s
unfolding trim_start
graphic-trim_start b s h =
    ap (λ n. elim n as (λ _. Bytes) [ zero ↦ b ∷ s | suc k ↦ trim_start k s ]) (graphic-width b s h)

trim_end-append :
    (word s : Bytes) → all is_graphic word ≡ true → trim_end (word ++ s) ≡ word ++ trim_end s
unfolding trim_end
trim_end-append [] s h = refl
trim_end-append (b ∷ word) s h =
    rw (graphic-all_white b (word ++ s) (ground arith))
      (ap (λ t. b ∷ t) (trim_end-append word s (ground arith)))

-- White space, then anything: what is left of it after `trim_end` does not reach into the word.
word_before :
    (word : Bytes) (w : ℕ) (rest : Bytes) (b : Bool)
    → all is_graphic word ≡ true
    → is_ascii_whitespace w ≡ true
    → first_word (word ++ (if b then [] else w ∷ rest)) ≡ word
unfolding first_word is_ascii_whitespace
word_before [] w rest true h e = refl
word_before [] w rest false h e = rw e
word_before (a ∷ word) w rest b h e =
    let plain : is_ascii_whitespace a ≡ false = ground arith in
    rw plain (ap (λ t. a ∷ t) (word_before word w rest b (ground arith) e))

first_word-trim_end :
    (word : Bytes) (w : ℕ) (rest : Bytes)
    → all is_graphic word ≡ true
    → is_ascii_whitespace w ≡ true
    → first_word (trim_end (word ++ w ∷ rest)) ≡ word
unfolding trim_end
first_word-trim_end word w rest h e =
    ap first_word (trim_end-append word (w ∷ rest) h)
    ∙ word_before word w (trim_end rest) (all_white 0 (w ∷ rest)) h e

operation_of-letter :
    (a : ℕ) (s : Bytes)
    → is_ascii_alphabetic a ≡ true
    → operation_of (b'-' ∷ a ∷ s) ≡ permitted (first_word (a ∷ s))
unfolding operation_of
operation_of-letter a s h = rw h

first_word-graphic : (word : Bytes) → all is_graphic word ≡ true → first_word word ≡ word
unfolding first_word is_ascii_whitespace
first_word-graphic [] h = refl
first_word-graphic (a ∷ word) h =
    let plain : is_ascii_whitespace a ≡ false = ground arith in
    rw plain (ap (λ t. a ∷ t) (first_word-graphic word (ground arith)))

module _ (a : ℕ) (word : Bytes) (ha : is_ascii_alphabetic a ≡ true)
    (hw : all is_graphic word ≡ true) where
  word-graphic : all is_graphic (a ∷ word) ≡ true
  unfolding is_ascii_alphabetic
  word-graphic = ground arith

  trimmed :
      (s : Bytes)
      → raw_mi_operation (b'-' ∷ a ∷ (word ++ s))
        ≡ permitted (first_word (trim_end (a ∷ (word ++ s))))
  unfolding raw_mi_operation trim
  trimmed s =
      ap (λ t. operation_of (trim_end t)) (graphic-trim_start b'-' (a ∷ (word ++ s)) refl)
      ∙ ap operation_of (trim_end-append (b'-' ∷ a ∷ word) s word-graphic)
      ∙ operation_of-letter a (word ++ trim_end s) ha
      ∙ ap (λ t. permitted (first_word t)) (sym (trim_end-append (a ∷ word) s word-graphic))

  operation_before :
      (w : ℕ) (rest : Bytes)
      → is_ascii_whitespace w ≡ true
      → raw_mi_operation (b'-' ∷ a ∷ (word ++ w ∷ rest)) ≡ permitted (a ∷ word)
  operation_before w rest e =
      trimmed (w ∷ rest) ∙ ap permitted (first_word-trim_end (a ∷ word) w rest word-graphic e)

  operation_alone : raw_mi_operation (b'-' ∷ a ∷ word) ≡ permitted (a ∷ word)
  unfolding trim_end
  operation_alone =
      ap (λ t. raw_mi_operation (b'-' ∷ a ∷ t)) (sym (append-nil word))
      ∙ trimmed []
      ∙ ap (λ t. permitted (first_word t)) (trim_end-append (a ∷ word) [] word-graphic)
      ∙ ap (λ t. permitted (first_word (a ∷ t))) (append-nil word)
      ∙ ap permitted (first_word-graphic (a ∷ word) word-graphic)

-- For a first word of printable bytes that begins with a letter, followed by one white space,
-- the guard decides as if the first word stood alone, whatever follows.
pub validate-first_word :
    (a : ℕ) (word : Bytes) (w : ℕ) (rest : Bytes) (allow_shell : Bool)
    → is_ascii_alphabetic a ≡ true
    → all is_graphic word ≡ true
    → is_ascii_whitespace w ≡ true
    → validate_raw_mi_command (b'-' ∷ a ∷ (word ++ w ∷ rest)) allow_shell
      ≡ validate_raw_mi_command (b'-' ∷ a ∷ word) allow_shell
unfolding validate_raw_mi_command
validate-first_word a word w rest allow_shell ha hw e =
    ap (decide allow_shell)
      (operation_before a word ha hw w rest e ∙ sym (operation_alone a word ha hw))

-- Without allow_shell, an input whose operation is, in any mix of cases, interpreter-exec or
-- target-exec-command is rejected.
pub validate-shells :
    (input operation : Bytes)
    → raw_mi_operation input ≡ permitted operation
    → (to_ascii_lowercase operation ≡ bytes "interpreter-exec")
      ⊎ (to_ascii_lowercase operation ≡ bytes "target-exec-command")
    → validate_raw_mi_command input false ≡ rejected unknown_command_family
unfolding validate_raw_mi_command decide any_matches matches starts_with beq
validate-shells input operation h s = ap (decide false) h ∙ ap allowed_or_not (only s)
  where
    allowed_or_not : Bool → Guarded Unit
    allowed_or_not b = if b then permitted tt else rejected unknown_command_family

    only :
        (to_ascii_lowercase operation ≡ bytes "interpreter-exec")
          ⊎ (to_ascii_lowercase operation ≡ bytes "target-exec-command")
        → any_matches allowed_commands (to_ascii_lowercase operation) ≡ false
    only (inl e) = ap (any_matches allowed_commands) e ∙ refl
    only (inr e) = ap (any_matches allowed_commands) e ∙ refl
