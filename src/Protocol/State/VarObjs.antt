-- ===== src/Protocol/State/VarObjs.antt =====
-- crates/framewalk-mi-protocol/src/state/varobjs.rs: the variable objects.
pub mod Names
use framewalk.Prelude.{
  ℕ, Bool, Option, none, some, [], ◌∷◌, Bytes, bytes, Map, bytes_key, get, insert, remove,
}
use framewalk.Codec.Ast.{
  Value, const, tuple, list, ListValue, empty, values, results, Values, no_values, value, Results,
}
use framewalk.Protocol.View.{get_str, get_u32, get_bool, get_value}

pub record VarObj : Type 0 where
  pub name : Bytes
  pub expression : Option Bytes
  pub type_name : Option Bytes
  pub value : Option Bytes
  pub numchild : Option ℕ
  pub in_scope : Option Bool

-- `VarObj::new`
abbrev pub fresh : Bytes → VarObj
fresh name = record {
  name = name;
  expression = none;
  type_name = none;
  value = none;
  numchild = none;
  in_scope = none;
}

abbrev pub VarObjRegistry : Type 0
VarObjRegistry = Map Bytes VarObj

unfoldable pub created : Bytes → Option Bytes → Results → VarObj
unfolding get_str get_u32
created name expression rs = record {
  name = name;
  expression = expression;
  type_name = get_str rs (bytes "type");
  value = get_str rs (bytes "value");
  numchild = get_u32 rs (bytes "numchild");
  in_scope = none;
}

unfoldable pub on_var_create : VarObjRegistry → Results → Option Bytes → VarObjRegistry
unfolding get_str insert created
on_var_create m rs expression = elim (get_str rs (bytes "name")) [
  | none ↦ m
  | some name ↦ insert name (created name expression rs) m
]

-- A field that an update names is replaced, any other is kept.
abbrev pub replaced {ℓ} : {A : Type ℓ} → Option A → Option A → Option A
replaced old none = old
replaced old (some new) = some new

abbrev pub or_fresh : Bytes → Option VarObj → VarObj
or_fresh name none = fresh name
or_fresh name (some v) = v

unfoldable pub updated : Results → VarObj → VarObj
unfolding get_str get_bool
updated rs v = record v {
  value = replaced v.value (get_str rs (bytes "value"));
  in_scope = replaced v.in_scope (get_bool rs (bytes "in_scope"));
  type_name = replaced v.type_name (get_str rs (bytes "new_type"));
}

-- One entry of a changelist.
unfoldable pub update_one : VarObjRegistry → Results → VarObjRegistry
unfolding get_str insert get updated
update_one m rs = elim (get_str rs (bytes "name")) [
  | none ↦ m
  | some name ↦ insert name (updated rs (or_fresh name (get name m))) m
]

-- The loop over the changelist; entries that are no tuples are passed over.
update_all : VarObjRegistry → Values → VarObjRegistry
unfolding update_one
update_all m no_values = m
update_all m (Values.value (tuple rs) vs) = update_all (update_one m rs) vs
update_all m (Values.value _ vs) = update_all m vs

update_in : VarObjRegistry → Option Value → VarObjRegistry
unfolding update_all
update_in m (some (list (values vs))) = update_all m vs
update_in m _ = m

unfoldable pub on_var_update : VarObjRegistry → Results → VarObjRegistry
unfolding get_value update_in
on_var_update m rs = update_in m (get_value rs (bytes "changelist"))

unfoldable pub on_var_delete : VarObjRegistry → Bytes → VarObjRegistry
unfolding remove
on_var_delete m name = remove name m
