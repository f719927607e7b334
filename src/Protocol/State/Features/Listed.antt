-- ===== src/Protocol/State/Features/Listed.antt =====
-- The features that are known are those that GDB listed.
use framewalk.Prelude.{
  ◌≡◌, refl, ap, ◌∙◌, Bool, false, ◌||◌, Option, none, some, [], ◌∷◌, arith, Bytes, bytes, beq,
  beq_iff,
}
use framewalk.Codec.Ast.{
  Value, const, tuple, list, empty, values, results, Values, no_values, value, Results,
}
use framewalk.Protocol.View.{get_value}
use framewalk.Protocol.State.Features.{
  TextSet, contains, insert, FeatureSet, has, target_has, texts, strings_in, extract_string_list,
  on_list_features, on_list_target_features,
}

contains-insert : (x y : Bytes) (s : TextSet) → contains (insert x s) y ≡ (beq x y || contains s y)
unfolding contains insert
contains-insert x y [] = refl
contains-insert x y (z ∷ s) =
    ground (arith, contains-insert x y s, beq_iff z x, beq_iff z y, beq_iff x y)

-- Whether a text stands in a list of values.
abbrev pub names : Values → Bytes → Bool
names no_values y = false
names (value (const x) vs) y = beq x y || names vs y
names (value _ vs) y = names vs y

contains-texts :
    (s : TextSet) (vs : Values) (y : Bytes) → contains (texts s vs) y ≡ (contains s y || names vs y)
unfolding texts
contains-texts s no_values y = ground arith
contains-texts s (value (const x) vs) y =
    contains-texts (insert x s) vs y
    ∙ ap (λ b. b || names vs y) (contains-insert x y s)
    ∙ ground arith
contains-texts s (value (tuple rs) vs) y = contains-texts s vs y
contains-texts s (value (list l) vs) y = contains-texts s vs y

-- Whether a value lists a text.
abbrev pub lists : Option Value → Bytes → Bool
lists (some (list (values vs))) y = names vs y
lists _ y = false

contains-strings : (o : Option Value) (y : Bytes) → contains (strings_in o) y ≡ lists o y
unfolding strings_in contains
contains-strings (some (list (values vs))) y = contains-texts [] vs y
contains-strings (some (list empty)) y = refl
contains-strings (some (list (results rs))) y = refl
contains-strings (some (const s)) y = refl
contains-strings (some (tuple rs)) y = refl
contains-strings none y = refl

-- After a -list-features reply, has answers true exactly for the strings among the listed
-- values, and the target features are as before; after -list-target-features the same holds with
-- the two sets exchanged.
pub on_list_features-has :
    (f : FeatureSet) (rs : Results) (y : Bytes)
    → (has (on_list_features f rs) y ≡ lists (get_value rs (bytes "features")) y)
      × (target_has (on_list_features f rs) y ≡ target_has f y)
      × (target_has (on_list_target_features f rs) y ≡ lists (get_value rs (bytes "features")) y)
      × (has (on_list_target_features f rs) y ≡ has f y)
unfolding has target_has on_list_features on_list_target_features extract_string_list
on_list_features-has f rs y =
    let listed = contains-strings (get_value rs (bytes "features")) y in
    (listed, refl, listed, refl)
