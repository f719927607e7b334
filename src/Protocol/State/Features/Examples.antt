-- ===== src/Protocol/State/Features/Examples.antt =====
-- The theorem on feature lists at a reply of GDB.
use framewalk.Prelude.{◌≡◌, [], ◌∷◌, bytes}
use framewalk.Codec.Ast.{const, list, values, value, no_values, Results, no_results, result}
use framewalk.Protocol.View.{get_value}
use framewalk.Protocol.State.Features.{
  FeatureSet, has, target_has, on_list_features, on_list_target_features,
}
use framewalk.Protocol.State.Features.Listed.{lists, on_list_features-has}

abbrev reply : Results
reply =
    result (bytes "features")
      (list (
        values
          (value (const (bytes "pending-breakpoints")) (value (const (bytes "async")) no_values))))
      no_results

abbrev before : FeatureSet
before = record { features = []; target_features = bytes "reverse" ∷ [] }

on_list_features-has_example :
    (has (on_list_features before reply) (bytes "async")
      ≡ lists (get_value reply (bytes "features")) (bytes "async"))
    × (target_has (on_list_features before reply) (bytes "async")
        ≡ target_has before (bytes "async"))
    × (target_has (on_list_target_features before reply) (bytes "async")
        ≡ lists (get_value reply (bytes "features")) (bytes "async"))
    × (has (on_list_target_features before reply) (bytes "async") ≡ has before (bytes "async"))
on_list_features-has_example = on_list_features-has before reply (bytes "async")
