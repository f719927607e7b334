-- ===== src/Protocol/State/Features.antt =====
-- crates/framewalk-mi-protocol/src/state/features.rs: what GDB and the target can do.
mod Examples
pub mod Listed
use framewalk.Prelude.{
  Bool, false, ◌||◌, Option, some, List, [], ◌∷◌, if◌then◌else◌, Bytes, bytes, beq, blt,
}
use framewalk.Codec.Ast.{Value, const, list, values, Values, no_values, value, Results}
use framewalk.Protocol.View.{get_value}

-- `BTreeSet<String>`: a list in order, each text once.
abbrev pub TextSet : Type 0
TextSet = List Bytes

unfoldable pub contains : TextSet → Bytes → Bool
contains [] x = false
contains (y ∷ s) x = beq y x || contains s x

unfoldable pub insert : Bytes → TextSet → TextSet
insert x [] = x ∷ []
insert x (y ∷ s) = if beq y x then y ∷ s else if blt x y then x ∷ y ∷ s else y ∷ insert x s

pub record FeatureSet : Type 0 where
  pub features : TextSet
  pub target_features : TextSet

unfoldable pub has : FeatureSet → Bytes → Bool
unfolding contains
has f feature = contains f.features feature

unfoldable pub target_has : FeatureSet → Bytes → Bool
unfolding contains
target_has f feature = contains f.target_features feature

-- `filter_map(..).collect()`
unfoldable pub texts : TextSet → Values → TextSet
unfolding insert
texts s no_values = s
texts s (value (const x) vs) = texts (insert x s) vs
texts s (value _ vs) = texts s vs

unfoldable pub strings_in : Option Value → TextSet
unfolding texts
strings_in (some (list (values vs))) = texts [] vs
strings_in _ = []

unfoldable pub extract_string_list : Results → Bytes → TextSet
unfolding get_value strings_in
extract_string_list rs key = strings_in (get_value rs key)

unfoldable pub on_list_features : FeatureSet → Results → FeatureSet
unfolding extract_string_list
on_list_features f rs = record f { features = extract_string_list rs (bytes "features") }

unfoldable pub on_list_target_features : FeatureSet → Results → FeatureSet
unfolding extract_string_list
on_list_target_features f rs = record f {
  target_features = extract_string_list rs (bytes "features");
}

unfoldable pub invalidate_target_features : FeatureSet → FeatureSet
invalidate_target_features f = record f { target_features = [] }
