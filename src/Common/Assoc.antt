-- ===== src/Common/Assoc.antt =====
-- `HashMap` as an association list and `HashSet` as a list of its elements, in insertion order.
use mathlib.Core.Path.{◌≡◌, refl}
use mathlib.Core.Bool.{Bool, false, not, ◌||◌, ◌&&◌}
use mathlib.Core.Option.{Option, none, some}
use mathlib.Core.List.{List, [], ◌∷◌}
use native.Mathlib.Omega.{arith}
use android_packages_modules.Common.Tests.{if◌then◌else◌}
use android_packages_modules.Common.Keys.{Eq, ◌==◌}

module _ {ℓ κ} {K : Type ℓ} {V : Type κ} where
  unfoldable pub lookup : ⦃e : Eq K⦄ → K → List (K × V) → Option V
  lookup k [] = none
  lookup k ((j, v) ∷ m) = if j == k then some v else lookup k m

  -- `insert`: an old value of the key is replaced.
  unfoldable pub insert : ⦃e : Eq K⦄ → K → V → List (K × V) → List (K × V)
  insert k v [] = (k, v) ∷ []
  insert k v ((j, w) ∷ m) = if j == k then (k, v) ∷ m else (j, w) ∷ insert k v m

  unfoldable pub remove : ⦃e : Eq K⦄ → K → List (K × V) → List (K × V)
  remove k [] = []
  remove k ((j, v) ∷ m) = let rest = remove k m in if j == k then rest else (j, v) ∷ rest

  abbrev pub keys : List (K × V) → List K
  keys [] = []
  keys ((k, v) ∷ m) = k ∷ keys m

  abbrev pub values : List (K × V) → List V
  values [] = []
  values ((k, v) ∷ m) = v ∷ values m

module _ {ℓ κ} {K : Type ℓ} {V : Type κ} ⦃e : Eq K⦄ where
  pub lookup-insert :
      (k sought : K) (v : V) (m : List (K × V))
      → lookup sought (insert k v m) ≡ (if k == sought then some v else lookup sought m)
  unfolding lookup insert
  lookup-insert k sought v [] = refl
  lookup-insert k sought v ((i, w) ∷ m) =
      ground
        (arith, e.beq_iff k sought, e.beq_iff i k, e.beq_iff i sought, lookup-insert k sought v m)

  pub lookup-remove :
      (k j : K) (m : List (K × V)) → lookup j (remove k m) ≡ (if k == j then none else lookup j m)
  unfolding lookup remove
  lookup-remove k j [] = ground arith
  lookup-remove k j ((i, w) ∷ m) =
      ground (arith, e.beq_iff k j, e.beq_iff i k, e.beq_iff i j, lookup-remove k j m)

module _ {ℓ} {K : Type ℓ} ⦃e : Eq K⦄ where
  unfoldable pub contains : K → List K → Bool
  contains k [] = false
  contains k (j ∷ s) = j == k || contains k s

  -- `HashSet::remove`
  unfoldable pub subtract : K → List K → List K
  subtract k [] = []
  subtract k (j ∷ s) = let rest = subtract k s in if j == k then rest else j ∷ rest

  -- `HashSet::extend`
  unfoldable pub extend : List K → List K → List K
  unfolding contains
  extend s [] = s
  extend s (k ∷ ks) = extend (if contains k s then s else k ∷ s) ks

  pub contains-subtract :
      (k j : K) (s : List K) → contains j (subtract k s) ≡ (not (k == j) && contains j s)
  unfolding contains subtract
  contains-subtract k j [] = ground arith
  contains-subtract k j (i ∷ s) =
      ground (arith, e.beq_iff k j, e.beq_iff i k, e.beq_iff i j, contains-subtract k j s)

  pub contains-extend :
      (j : K) (s ks : List K) → contains j (extend s ks) ≡ (contains j s || contains j ks)
  unfolding contains extend
  contains-extend j s [] = ground arith
  contains-extend j s (k ∷ ks) =
      ground (arith, e.beq_iff k j, contains-extend j s ks, contains-extend j (k ∷ s) ks)
