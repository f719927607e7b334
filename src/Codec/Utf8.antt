-- ===== src/Codec/Utf8.antt =====
-- `String::from_utf8` of the standard library: which byte strings are well-formed UTF-8.
use framewalk.Prelude.{
  ℕ, Bool, true, false, ◌&&◌, Option, none, some, List, [], ◌∷◌, leb, ltb, if◌then◌else◌, Bytes,
}

-- The ranges that the bytes after a lead byte must fall in.
abbrev pub Ranges : Type 0
Ranges = List (ℕ × ℕ)

abbrev cont : ℕ × ℕ
cont = (0x80, 0xbf)

tails : ℕ → Option Ranges
tails b =
    if ltb b 0x80
    then some []
    else if ltb b 0xc2
    then none
    else if ltb b 0xe0
    then some (cont ∷ [])
    else if leb b 0xe0
    then some ((0xa0, 0xbf) ∷ cont ∷ [])
    else if leb b 0xec
    then some (cont ∷ cont ∷ [])
    else if leb b 0xed
    then some ((0x80, 0x9f) ∷ cont ∷ [])
    else if leb b 0xef
    then some (cont ∷ cont ∷ [])
    else if leb b 0xf0
    then some ((0x90, 0xbf) ∷ cont ∷ cont ∷ [])
    else if leb b 0xf3
    then some (cont ∷ cont ∷ cont ∷ [])
    else if leb b 0xf4
    then some ((0x80, 0x8f) ∷ cont ∷ cont ∷ [])
    else none

utf8_from : Ranges → Bytes → Bool
unfolding tails
utf8_from [] [] = true
utf8_from (r ∷ rs) [] = false
utf8_from [] (b ∷ s) = elim (tails b) [ none ↦ false | some rs ↦ utf8_from rs s ]
utf8_from ((lo, hi) ∷ rs) (b ∷ s) = leb lo b && leb b hi && utf8_from rs s

unfoldable pub is_utf8 : Bytes → Bool
unfolding utf8_from
is_utf8 s = utf8_from [] s
