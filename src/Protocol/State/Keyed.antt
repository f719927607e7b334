-- ===== src/Protocol/State/Keyed.antt =====
-- Every entry of a registry stands under its own name.
use framewalk.Prelude.{
  ◌≡◌, refl, sym, ap, ◌∙◌, Bool, true, false, Option, none, some, [], if◌then◌else◌, arith, Bytes,
  bytes, beq, beq→eq, Map, bytes_key, get, insert, remove, map_values, get-insert, get-remove,
  get-map_values,
}
use mathlib.Core.Option.{some-injective}
use framewalk.Codec.Ast.{Results}
use framewalk.Protocol.View.{get_str, get_tuple}
use framewalk.Protocol.State.Threads.{
  ThreadId, ThreadState, ThreadInfo, ThreadRegistry, is_all, created, on_thread_created,
  on_thread_exited, in_state, or_fresh, on_state,
}
use framewalk.Protocol.State.Breakpoints.{
  BreakpointRegistry, breakpoint_of, upsert_from_bkpt_tuple, on_breakpoint_changed,
  on_breakpoint_deleted,
}
use framewalk.Protocol.State.VarObjs.{VarObjRegistry}

unfoldable pub Keyed : {V : Type 0} → (V → Bytes) → Map Bytes V → Type 0
Keyed name m = (k : Bytes) (v : _) → get k m ≡ some v → name v ≡ k

module _ {V : Type 0} (name : V → Bytes) where
  entry-if :
      (b : Bool) (k j : Bytes) (w v : V) (o : Option V)
      → beq k j ≡ b
      → name w ≡ k
      → (o ≡ some v → name v ≡ j)
      → (if b then some w else o) ≡ some v
      → name v ≡ j
  entry-if true k j w v o e hw ho h = sym (ap name (some-injective _ _ h)) ∙ hw ∙ beq→eq k j e
  entry-if false k j w v o e hw ho h = ho h

  gone-if : (b : Bool) (v : V) (o : Option V) → (if b then none else o) ≡ some v → o ≡ some v
  gone-if true v o h = ground arith
  gone-if false v o h = h

  pub empty-Keyed : Keyed name []
  unfolding Keyed get
  empty-Keyed k v h = ground arith

  pub insert-Keyed :
      (k : Bytes) (w : V) (m : Map Bytes V) → name w ≡ k → Keyed name m → Keyed name (insert k w m)
  unfolding Keyed
  insert-Keyed k w m hw hm j v h =
      entry-if (beq k j) k j w v (get j m) refl hw (hm j v) (sym (get-insert j k w m) ∙ h)

  pub remove-Keyed : (k : Bytes) (m : Map Bytes V) → Keyed name m → Keyed name (remove k m)
  unfolding Keyed
  remove-Keyed k m hm j v h = hm j v (gone-if (beq k j) v (get j m) (sym (get-remove j k m) ∙ h))

  mapped :
      (f : V → V) (j : Bytes) (v : V) (o : Option V)
      → ((w : V) → name (f w) ≡ name w)
      → ((w : V) → o ≡ some w → name w ≡ j)
      → (elim o as (λ _. Option V) [ none ↦ none | some w ↦ some (f w) ]) ≡ some v
      → name v ≡ j
  mapped f j v none hf ho h = ground arith
  mapped f j v (some w) hf ho h = sym (ap name (some-injective _ _ h)) ∙ hf w ∙ ho w refl

  pub map_values-Keyed :
      (f : V → V) (m : Map Bytes V)
      → ((w : V) → name (f w) ≡ name w)
      → Keyed name m
      → Keyed name (map_values f m)
  unfolding Keyed
  map_values-Keyed f m hf hm j v h =
      mapped f j v (get j m) hf (hm j) (sym (get-map_values j f m) ∙ h)

abbrev pub AreThreads : ThreadRegistry → Type 0
AreThreads = Keyed (λ info. info.id)

abbrev pub AreBreakpoints : BreakpointRegistry → Type 0
AreBreakpoints = Keyed (λ b. b.id)

abbrev pub AreVarObjs : VarObjRegistry → Type 0
AreVarObjs = Keyed (λ v. v.name)

id-of :
    (o : Option ThreadInfo) (id : ThreadId)
    → ((w : ThreadInfo) → o ≡ some w → w.id ≡ id)
    → (or_fresh id o).id ≡ id
id-of none id h = refl
id-of (some w) id h = h w refl

id-created :
    (o : Option ThreadInfo) (id : ThreadId) (group : Option Bytes)
    → ((w : ThreadInfo) → o ≡ some w → w.id ≡ id)
    → (created id group o).id ≡ id
id-created none id group h = refl
id-created (some w) id group h = h w refl

pub on_thread_created-Keyed :
    (m : ThreadRegistry) (rs : Results) → AreThreads m → AreThreads (on_thread_created m rs)
unfolding on_thread_created Keyed
on_thread_created-Keyed m rs h = of (get_str rs (bytes "id"))
  where
    of :
        (o : Option Bytes)
        → AreThreads (elim o as (λ _. ThreadRegistry) [
          | none ↦ m
          | some id ↦ insert id (created id (get_str rs (bytes "group-id")) (get id m)) m
        ])
    of none = h
    of (some id) =
        insert-Keyed (λ info. info.id) id _ m
          (id-created (get id m) id (get_str rs (bytes "group-id")) (h id)) h

pub on_thread_exited-Keyed :
    (m : ThreadRegistry) (rs : Results) → AreThreads m → AreThreads (on_thread_exited m rs)
unfolding on_thread_exited
on_thread_exited-Keyed m rs h = of (get_str rs (bytes "id"))
  where
    of :
        (o : Option Bytes)
        → AreThreads (elim o as (λ _. ThreadRegistry) [ none ↦ m | some id ↦ remove id m ])
    of none = h
    of (some id) = remove-Keyed (λ info. info.id) id m h

Keyed-if :
    (b : Bool) (m n : ThreadRegistry)
    → AreThreads m
    → AreThreads n
    → AreThreads (if b then m else n)
Keyed-if true m n hm hn = hm
Keyed-if false m n hm hn = hn

pub on_state-Keyed :
    (st : ThreadState) (m : ThreadRegistry) (thread : Option ThreadId)
    → AreThreads m
    → AreThreads (on_state st m thread)
unfolding on_state Keyed
on_state-Keyed st m none h = map_values-Keyed (λ info. info.id) (in_state st) m (λ w. refl) h
on_state-Keyed st m (some id) h =
    Keyed-if (is_all id) (map_values (in_state st) m)
      (insert id (in_state st (or_fresh id (get id m))) m)
      (map_values-Keyed (λ info. info.id) (in_state st) m (λ w. refl) h)
      (insert-Keyed (λ info. info.id) id _ m (id-of (get id m) id (h id)) h)

pub upsert-Keyed :
    (m : BreakpointRegistry) (rs : Results)
    → AreBreakpoints m
    → AreBreakpoints (upsert_from_bkpt_tuple m rs)
unfolding upsert_from_bkpt_tuple breakpoint_of
upsert-Keyed m rs h = of (get_str rs (bytes "number"))
  where
    of :
        (o : Option Bytes)
        → AreBreakpoints (elim o as (λ _. BreakpointRegistry) [
          | none ↦ m
          | some number ↦ insert number (breakpoint_of number rs) m
        ])
    of none = h
    of (some number) = insert-Keyed (λ b. b.id) number _ m refl h

pub on_breakpoint_changed-Keyed :
    (m : BreakpointRegistry) (rs : Results)
    → AreBreakpoints m
    → AreBreakpoints (on_breakpoint_changed m rs)
unfolding on_breakpoint_changed
on_breakpoint_changed-Keyed m rs h = of (get_tuple rs (bytes "bkpt"))
  where
    of :
        (o : Option Results)
        → AreBreakpoints (elim o as (λ _. BreakpointRegistry) [
          | none ↦ m
          | some bkpt ↦ upsert_from_bkpt_tuple m bkpt
        ])
    of none = h
    of (some bkpt) = upsert-Keyed m bkpt h

pub on_breakpoint_deleted-Keyed :
    (m : BreakpointRegistry) (rs : Results)
    → AreBreakpoints m
    → AreBreakpoints (on_breakpoint_deleted m rs)
unfolding on_breakpoint_deleted
on_breakpoint_deleted-Keyed m rs h = of (get_str rs (bytes "id"))
  where
    of :
        (o : Option Bytes)
        → AreBreakpoints (elim o as (λ _. BreakpointRegistry) [ none ↦ m | some id ↦ remove id m ])
    of none = h
    of (some id) = remove-Keyed (λ b. b.id) id m h
