-- ===== src/Prelude/Assoc.antt =====
-- Maps and sets of the standard library: association lists kept in the order of their keys.
use Prim.Native.Nat.{ℕ}
use mathlib.Core.Path.{◌≡◌, refl}
use mathlib.Core.Logic.{◌↔◌}
use mathlib.Core.Bool.{Bool, true}
use mathlib.Core.Option.{Option, none, some}
use mathlib.Core.List.{List, [], ◌∷◌}
use native.Mathlib.Omega.{arith}
use framewalk.Prelude.Tests.{ltb, ◌==◌, if◌then◌else◌}
use framewalk.Prelude.Text.{Bytes, beq, beq_iff, blt}

-- Keys: their equality test and their order.
pub record Key {ℓ} (K : Type ℓ) : Type ℓ where
  pub eqb : K → K → Bool
  pub less : K → K → Bool
  pub eqb_iff : (a b : K) → (eqb a b ≡ true) ↔ (a ≡ b)

pub nat_eqb : (a b : ℕ) → ((a == b) ≡ true) ↔ (a ≡ b)
nat_eqb a b = ground arith

instance abbrev pub nat_key : Key ℕ
nat_key = record { eqb = ◌==◌; less = ltb; eqb_iff = nat_eqb }

instance abbrev pub bytes_key : Key Bytes
bytes_key = record { eqb = beq; less = blt; eqb_iff = beq_iff }

abbrev pub Map {ℓ κ} : Type ℓ → Type κ → Type (ℓ ⊔ κ)
Map K V = List (K × V)

module _ {ℓ κ} {K : Type ℓ} {V : Type κ} ⦃o : Key K⦄ where
  unfoldable pub get : K → Map K V → Option V
  get k [] = none
  get k ((j, v) ∷ m) = if o.eqb j k then some v else get k m

  unfoldable pub insert : K → V → Map K V → Map K V
  insert k v [] = (k, v) ∷ []
  insert k v ((j, w) ∷ m) =
      if o.eqb j k
      then (k, v) ∷ m
      else if o.less k j
      then (k, v) ∷ (j, w) ∷ m
      else (j, w) ∷ insert k v m

  unfoldable pub remove : K → Map K V → Map K V
  remove k [] = []
  remove k ((j, w) ∷ m) = let rest = remove k m in if o.eqb j k then rest else (j, w) ∷ rest

  unfoldable pub map_values : (V → V) → Map K V → Map K V
  map_values f [] = []
  map_values f ((j, w) ∷ m) = (j, f w) ∷ map_values f m

  pub get-insert :
      (j k : K) (v : V) (m : Map K V)
      → get j (insert k v m) ≡ (if o.eqb k j then some v else get j m)
  unfolding get insert
  get-insert j k v [] = refl
  get-insert j k v ((i, w) ∷ m) =
      ground (arith, get-insert j k v m, o.eqb_iff i k, o.eqb_iff i j, o.eqb_iff k j)

  pub get-remove :
      (j k : K) (m : Map K V) → get j (remove k m) ≡ (if o.eqb k j then none else get j m)
  unfolding get remove
  get-remove j k [] = ground arith
  get-remove j k ((i, w) ∷ m) =
      ground (arith, get-remove j k m, o.eqb_iff i k, o.eqb_iff i j, o.eqb_iff k j)

  pub get-map_values :
      (j : K) (f : V → V) (m : Map K V)
      → get j (map_values f m)
        ≡ (elim (get j m) as (λ _. Option V) [ none ↦ none | some v ↦ some (f v) ])
  unfolding get map_values
  get-map_values j f [] = refl
  get-map_values j f ((i, w) ∷ m) = ground (arith, get-map_values j f m)

pub eqb_refl {ℓ} : {K : Type ℓ} ⦃o : Key K⦄ (k : K) → o.eqb k k ≡ true
eqb_refl ⦃o⦄ k = (o.eqb_iff k k).1 refl
