-- ===== src/Common/Assoc.antt =====
-- The language's `Map`: entries in order of insertion, one for each key. A write to a key that is
-- present keeps its place, and a deletion leaves no entry of the key.
use mathlib.Core.Path.{◌≡◌, refl, subst₂}
use mathlib.Core.Logic.{inl, inr}
use mathlib.Core.Bool.{Bool, false, ◌||◌}
use mathlib.Core.Option.{Option, none, some}
use mathlib.Core.List.{List, [], ◌∷◌, map}
use native.Mathlib.Omega.{arith}
use theokit_plugins.Common.Tests.{if◌then◌else◌, Bool-cases}
use theokit_plugins.Common.Lists.{All}
use theokit_plugins.Common.Keys.{Eq, ◌==◌}

abbrev pub Assoc : Type 0 → Type 0 → Type 0
Assoc K V = List (K × V)

module _ {K V : Type 0} ⦃e : Eq K⦄ where
  unfoldable pub get : K → Assoc K V → Option V
  get k [] = none
  get k ((j, v) ∷ m) = if j == k then some v else get k m

  unfoldable pub set : K → V → Assoc K V → Assoc K V
  set k v [] = (k, v) ∷ []
  set k v ((j, w) ∷ m) = if j == k then (k, v) ∷ m else (j, w) ∷ set k v m

  unfoldable pub delete : K → Assoc K V → Assoc K V
  delete k [] = []
  delete k ((j, w) ∷ m) = if j == k then delete k m else (j, w) ∷ delete k m

  unfoldable pub has : K → Assoc K V → Bool
  has k [] = false
  has k ((j, v) ∷ m) = j == k || has k m

  pub get-set :
      (k j : K) (v : V) (m : Assoc K V) → get j (set k v m) ≡ (if k == j then some v else get j m)
  unfolding get set
  get-set k j v [] = refl
  get-set k j v ((i, w) ∷ m) =
      ground (arith, e.beq_iff k j, e.beq_iff i k, e.beq_iff i j, get-set k j v m)

  pub get-delete :
      (k j : K) (m : Assoc K V) → get j (delete k m) ≡ (if k == j then none else get j m)
  unfolding get delete
  get-delete k j [] = ground arith
  get-delete k j ((i, w) ∷ m) =
      ground (arith, e.beq_iff k j, e.beq_iff i k, e.beq_iff i j, get-delete k j m)

-- A predicate of every entry.
module _ {K V : Type 0} ⦃e : Eq K⦄ (P : K → V → Type 0) where
  abbrev pub Each : Assoc K V → Type 0
  Each m = All (λ p. P p.0 p.1) m

  pub Each-set : (k : K) (v : V) (m : Assoc K V) → Each m → P k v → Each (set k v m)
  unfolding set
  Each-set k v [] h p = (p, tt)
  Each-set k v ((j, w) ∷ m) (q, h) p = ground (arith, Each-set k v m h p)

  pub Each-delete : (k : K) (m : Assoc K V) → Each m → Each (delete k m)
  unfolding delete
  Each-delete k [] h = tt
  Each-delete k ((j, w) ∷ m) (q, h) = ground (arith, Each-delete k m h)

  pub Each-get : (k : K) (m : Assoc K V) {v : V} → Each m → get k m ≡ some v → P k v
  unfolding get
  Each-get k [] h found = cc
  Each-get k ((j, w) ∷ m) {v} (q, h) found = elim (Bool-cases (j == k)) [
    | inl same ↦ let here : w ≡ v = ground arith in subst₂ P ((e.beq_iff j k).0 same) here q
    | inr other ↦ Each-get k m h (ground arith)
  ]

abbrev pub keys : {K V : Type 0} → Assoc K V → List K
keys m = map (λ p. p.0) m

abbrev pub values : {K V : Type 0} → Assoc K V → List V
values m = map (λ p. p.1) m
