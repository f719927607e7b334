-- ===== src/Protocol/State/VarObjs/Names.antt =====
-- Every variable object stands under its own name, whatever GDB reports.
use framewalk.Prelude.{◌≡◌, refl, Option, none, some, Bytes, bytes, bytes_key, get, insert}
use framewalk.Codec.Ast.{
  Value, const, tuple, list, empty, values, results, Values, no_values, value, Results,
}
use framewalk.Protocol.View.{get_str, get_value}
use framewalk.Protocol.State.Keyed.{Keyed, AreVarObjs, insert-Keyed, remove-Keyed}
use framewalk.Protocol.State.VarObjs.{
  VarObj, VarObjRegistry, created, updated, or_fresh, update_one, update_all, update_in,
  on_var_create, on_var_update, on_var_delete,
}

pub on_var_create-Keyed :
    (m : VarObjRegistry) (rs : Results) (expression : Option Bytes)
    → AreVarObjs m
    → AreVarObjs (on_var_create m rs expression)
unfolding on_var_create created
on_var_create-Keyed m rs expression h = of (get_str rs (bytes "name"))
  where
    of :
        (o : Option Bytes)
        → AreVarObjs (elim o as (λ _. VarObjRegistry) [
          | none ↦ m
          | some name ↦ insert name (created name expression rs) m
        ])
    of none = h
    of (some name) = insert-Keyed (λ v. v.name) name _ m refl h

name-updated :
    (rs : Results) (name : Bytes) (o : Option VarObj)
    → ((w : VarObj) → o ≡ some w → w.name ≡ name)
    → (updated rs (or_fresh name o)).name ≡ name
unfolding updated
name-updated rs name none h = refl
name-updated rs name (some w) h = h w refl

update_one-Keyed : (m : VarObjRegistry) (rs : Results) → AreVarObjs m → AreVarObjs (update_one m rs)
unfolding update_one Keyed
update_one-Keyed m rs h = of (get_str rs (bytes "name"))
  where
    of :
        (o : Option Bytes)
        → AreVarObjs (elim o as (λ _. VarObjRegistry) [
          | none ↦ m
          | some name ↦ insert name (updated rs (or_fresh name (get name m))) m
        ])
    of none = h
    of (some name) =
        insert-Keyed (λ v. v.name) name _ m (name-updated rs name (get name m) (h name)) h

update_all-Keyed : (m : VarObjRegistry) (vs : Values) → AreVarObjs m → AreVarObjs (update_all m vs)
unfolding update_all
update_all-Keyed m no_values h = h
update_all-Keyed m (value (tuple rs) vs) h =
    update_all-Keyed (update_one m rs) vs (update_one-Keyed m rs h)
update_all-Keyed m (value (const s) vs) h = update_all-Keyed m vs h
update_all-Keyed m (value (list l) vs) h = update_all-Keyed m vs h

update_in-Keyed :
    (m : VarObjRegistry) (o : Option Value) → AreVarObjs m → AreVarObjs (update_in m o)
unfolding update_in
update_in-Keyed m (some (list (values vs))) h = update_all-Keyed m vs h
update_in-Keyed m (some (list empty)) h = h
update_in-Keyed m (some (list (results rs))) h = h
update_in-Keyed m (some (const s)) h = h
update_in-Keyed m (some (tuple rs)) h = h
update_in-Keyed m none h = h

pub on_var_update-Keyed :
    (m : VarObjRegistry) (rs : Results) → AreVarObjs m → AreVarObjs (on_var_update m rs)
unfolding on_var_update
on_var_update-Keyed m rs h = update_in-Keyed m (get_value rs (bytes "changelist")) h

pub on_var_delete-Keyed :
    (m : VarObjRegistry) (name : Bytes) → AreVarObjs m → AreVarObjs (on_var_delete m name)
unfolding on_var_delete
on_var_delete-Keyed m name h = remove-Keyed (λ v. v.name) name m h
