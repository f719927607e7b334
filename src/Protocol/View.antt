-- ===== src/Protocol/View.antt =====
-- crates/framewalk-mi-protocol/src/results_view.rs: fields of a result list. With `str::parse` of
-- the standard library for `u32` and `i32`.
use framewalk.Prelude.{
  ℕ, zero, suc, ◌+◌, ◌-◌, ◌*◌, ◌^◌, Bool, ◌||◌, Option, none, some, [], ◌∷◌, leb, ◌==◌,
  if◌then◌else◌, Bytes, bytes, beq,
}
use framewalk.Codec.Ast.{Value, const, tuple, Results, no_results, result}
use framewalk.Codec.CString.{in_range}

-- The first constant under a name.
unfoldable pub get_str : Results → Bytes → Option Bytes
get_str no_results name = none
get_str (result k (const s) rs) name = if beq k name then some s else get_str rs name
get_str (result k _ rs) name = get_str rs name

-- `get_string` clones what `get_str` lends.
abbrev pub get_string : Results → Bytes → Option Bytes
get_string = get_str

-- The first tuple under a name.
unfoldable pub get_tuple : Results → Bytes → Option Results
get_tuple no_results name = none
get_tuple (result k (tuple rs) rest) name = if beq k name then some rs else get_tuple rest name
get_tuple (result k _ rest) name = get_tuple rest name

-- The first value under a name, whatever its shape.
unfoldable pub get_value : Results → Bytes → Option Value
get_value no_results name = none
get_value (result k v rs) name = if beq k name then some v else get_value rs name

abbrev is_yes : Bytes → Bool
is_yes s = beq s (bytes "y") || beq s (bytes "yes") || beq s (bytes "true")

unfoldable pub get_bool : Results → Bytes → Option Bool
unfolding get_str
get_bool rs name = elim (get_str rs name) [ none ↦ none | some s ↦ some (is_yes s) ]

-- Decimal digits, up to a bound.
decimal : ℕ → ℕ → Bytes → Option ℕ
decimal bound acc [] = some acc
decimal bound acc (b ∷ s) =
    let acc' = acc * 10 + (b - b'0') in
    let more = decimal bound acc' s in
    if in_range b'0' b'9' b then (if leb acc' bound then more else none) else none

some_decimal : ℕ → Bytes → Option ℕ
unfolding decimal
some_decimal bound [] = none
some_decimal bound (b ∷ s) = decimal bound 0 (b ∷ s)

parse_u32 : Bytes → Option ℕ
unfolding some_decimal
parse_u32 [] = none
parse_u32 (b ∷ s) = some_decimal (2 ^ 32 - 1) (if b == b'+' then s else b ∷ s)

-- `negsuc n` is -(n + 1).
pub data ℤ : Type 0 where
  pos : ℕ → ℤ
  negsuc : ℕ → ℤ

abbrev negated : ℕ → ℤ
negated zero = pos 0
negated (suc n) = negsuc n

abbrev as_pos : Option ℕ → Option ℤ
as_pos none = none
as_pos (some n) = some (pos n)

abbrev as_neg : Option ℕ → Option ℤ
as_neg none = none
as_neg (some n) = some (negated n)

parse_i32 : Bytes → Option ℤ
unfolding some_decimal
parse_i32 [] = none
parse_i32 (b ∷ s) =
    if b == b'-'
    then as_neg (some_decimal (2 ^ 31) s)
    else as_pos (some_decimal (2 ^ 31 - 1) (if b == b'+' then s else b ∷ s))

unfoldable pub get_u32 : Results → Bytes → Option ℕ
unfolding get_str parse_u32
get_u32 rs name = elim (get_str rs name) [ none ↦ none | some s ↦ parse_u32 s ]

unfoldable pub get_i32 : Results → Bytes → Option ℤ
unfolding get_str parse_i32
get_i32 rs name = elim (get_str rs name) [ none ↦ none | some s ↦ parse_i32 s ]
