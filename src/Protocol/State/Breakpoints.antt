-- ===== src/Protocol/State/Breakpoints.antt =====
-- crates/framewalk-mi-protocol/src/state/breakpoints.rs: the breakpoint registry.
use framewalk.Prelude.{
  ℕ, Bool, true, Option, none, some, List, [], ◌∷◌, Bytes, bytes, Map, bytes_key, insert, remove,
}
use framewalk.Codec.Ast.{Value, tuple, list, values, Values, no_values, value, Results}
use framewalk.Protocol.View.{get_str, get_u32, get_bool, get_tuple, get_value}

abbrev pub BreakpointId : Type 0
BreakpointId = Bytes

pub record BreakpointLocation : Type 0 where
  pub number : Option Bytes
  pub addr : Option Bytes
  pub func : Option Bytes
  pub file : Option Bytes
  pub fullname : Option Bytes
  pub line : Option ℕ
  pub enabled : Bool

pub record Breakpoint : Type 0 where
  pub id : BreakpointId
  pub kind : Option Bytes
  pub disp : Option Bytes
  pub enabled : Bool
  pub times : Option ℕ
  pub locations : List BreakpointLocation

abbrev pub or_true : Option Bool → Bool
or_true none = true
or_true (some b) = b

-- `BreakpointLocation::from_results`
unfoldable pub from_results : Results → BreakpointLocation
unfolding get_str get_u32 get_bool
from_results rs = record {
  number = get_str rs (bytes "number");
  addr = get_str rs (bytes "addr");
  func = get_str rs (bytes "func");
  file = get_str rs (bytes "file");
  fullname = get_str rs (bytes "fullname");
  line = get_u32 rs (bytes "line");
  enabled = or_true (get_bool rs (bytes "enabled"));
}

-- The tuples among a list of values.
locations_of : Values → List BreakpointLocation
unfolding from_results
locations_of no_values = []
locations_of (value (tuple rs) vs) = from_results rs ∷ locations_of vs
locations_of (value _ vs) = locations_of vs

locations_in : Option Value → List BreakpointLocation
unfolding locations_of
locations_in (some (list (values vs))) = locations_of vs
locations_in _ = []

pub extract_locations : Results → List BreakpointLocation
unfolding get_value locations_in
extract_locations rs = locations_in (get_value rs (bytes "locations"))

abbrev pub BreakpointRegistry : Type 0
BreakpointRegistry = Map BreakpointId Breakpoint

abbrev or_itself : Results → List BreakpointLocation → List BreakpointLocation
or_itself rs [] = from_results rs ∷ []
or_itself rs (l ∷ ls) = l ∷ ls

unfoldable pub breakpoint_of : BreakpointId → Results → Breakpoint
unfolding get_str get_bool get_u32 extract_locations
breakpoint_of id rs = record {
  id = id;
  kind = get_str rs (bytes "type");
  disp = get_str rs (bytes "disp");
  enabled = or_true (get_bool rs (bytes "enabled"));
  times = get_u32 rs (bytes "times");
  locations = or_itself rs (extract_locations rs);
}

unfoldable pub upsert_from_bkpt_tuple : BreakpointRegistry → Results → BreakpointRegistry
unfolding get_str insert breakpoint_of
upsert_from_bkpt_tuple m rs = elim (get_str rs (bytes "number")) [
  | none ↦ m
  | some number ↦ insert number (breakpoint_of number rs) m
]

-- `on_breakpoint_created` and `on_breakpoint_modified` have one body.
unfoldable pub on_breakpoint_changed : BreakpointRegistry → Results → BreakpointRegistry
unfolding get_tuple upsert_from_bkpt_tuple
on_breakpoint_changed m rs = elim (get_tuple rs (bytes "bkpt")) [
  | none ↦ m
  | some bkpt ↦ upsert_from_bkpt_tuple m bkpt
]

unfoldable pub on_breakpoint_deleted : BreakpointRegistry → Results → BreakpointRegistry
unfolding get_str remove
on_breakpoint_deleted m rs = elim (get_str rs (bytes "id")) [ none ↦ m | some id ↦ remove id m ]
