-- ===== src/Common/Uniqueness.antt =====
-- Lists with no element twice, and what an insertion of a new key does to a map.
use mathlib.Core.Path.{◌≡◌, refl}
use mathlib.Core.Bool.{true, false, ◌||◌}
use mathlib.Core.Option.{none}
use mathlib.Core.List.{List, [], ◌∷◌, ◌++◌}
use native.Mathlib.Omega.{arith}
use android_packages_modules.Common.Tests.{if◌then◌else◌}
use android_packages_modules.Common.Keys.{Eq}
use android_packages_modules.Common.Assoc.{lookup, insert, keys, contains, extend}

module _ {ℓ} {K : Type ℓ} ⦃e : Eq K⦄ where
  abbrev pub Distinct : List K → Type 0
  Distinct [] = Unit
  Distinct (x ∷ xs) = (contains x xs ≡ false) × Distinct xs

  pub contains-append :
      (k : K) (xs ys : List K) → contains k (xs ++ ys) ≡ (contains k xs || contains k ys)
  unfolding contains
  contains-append k [] ys = refl
  contains-append k (x ∷ xs) ys = ground (arith, contains-append k xs ys)

  pub Distinct-extend : (s ks : List K) → Distinct s → Distinct (extend s ks)
  unfolding extend
  Distinct-extend s [] d = d
  Distinct-extend s (k ∷ ks) d = Distinct-extend (if contains k s then s else k ∷ s) ks (add k s d)
    where
      add : (k : K) (s : List K) → Distinct s → Distinct (if contains k s then s else k ∷ s)
      add k s d = ground arith

module _ {ℓ κ} {K : Type ℓ} {V : Type κ} ⦃e : Eq K⦄ where
  pub contains-keys : (k : K) (m : List (K × V)) → lookup k m ≡ none → contains k (keys m) ≡ false
  unfolding lookup contains
  contains-keys k [] h = refl
  contains-keys k ((j, v) ∷ m) h = ground (arith, contains-keys k m)

  pub lookup_of_not_contains :
      (k : K) (m : List (K × V)) → contains k (keys m) ≡ false → lookup k m ≡ none
  unfolding lookup contains
  lookup_of_not_contains k [] h = refl
  lookup_of_not_contains k ((j, v) ∷ m) h = ground (arith, lookup_of_not_contains k m)

  -- A new key goes to the end.
  pub insert_fresh :
      (k : K) (v : V) (m : List (K × V)) → lookup k m ≡ none → insert k v m ≡ m ++ (k, v) ∷ []
  unfolding lookup insert
  insert_fresh k v [] h = refl
  insert_fresh k v ((j, w) ∷ m) h = ground (arith, insert_fresh k v m)

  pub keys-append : (m n : List (K × V)) → keys (m ++ n) ≡ keys m ++ keys n
  keys-append [] n = refl
  keys-append ((k, v) ∷ m) n = ground (arith, keys-append m n)

module _ {ℓ} {K : Type ℓ} ⦃e : Eq K⦄ where
  pub contains-head : (k : K) (xs : List K) → contains k (k ∷ xs) ≡ true
  unfolding contains
  contains-head k xs = ground (arith, e.beq_iff k k)

  pub nil_of_contains : (xs : List K) → ((k : K) → contains k xs ≡ false) → xs ≡ []
  nil_of_contains [] h = refl
  nil_of_contains (x ∷ xs) h = cc (h x, contains-head x xs)

  abbrev pub Disjoint : List K → List K → Type ℓ
  Disjoint xs ys = (k : K) → contains k xs ≡ true → contains k ys ≡ false

  pub Distinct-append :
      (xs ys : List K) → Distinct xs → Distinct ys → Disjoint xs ys → Distinct (xs ++ ys)
  unfolding contains
  Distinct-append [] ys dx dy h = dy
  Distinct-append (x ∷ xs) ys dx dy h = (
    ground (arith, contains-append x xs ys, h x (contains-head x xs)),
    Distinct-append xs ys dx.1 dy (λ k c. h k (ground arith)),
  )

  pub Distinct-split :
      (xs ys : List K) → Distinct (xs ++ ys) → Distinct xs × Distinct ys × Disjoint xs ys
  unfolding contains
  Distinct-split [] ys d = (tt, d, λ k h. cc)
  Distinct-split (x ∷ xs) ys d =
      let (dx, dy, h) = Distinct-split xs ys d.1 in
      (
        (ground (arith, contains-append x xs ys), dx),
        dy,
        λ k c. ground (arith, e.beq_iff x k, contains-append x xs ys, d.0, h k),
      )

  -- A new element may stand anywhere.
  pub Distinct-insert :
      (k : K) (xs ys : List K)
      → Distinct (xs ++ ys)
      → contains k (xs ++ ys) ≡ false
      → Distinct (xs ++ k ∷ ys)
  unfolding contains
  Distinct-insert k [] ys d h = (h, d)
  Distinct-insert k (x ∷ xs) ys d h = (
    ground (
      arith,
      d.0,
      h,
      contains-append x xs ys,
      contains-append x xs (k ∷ ys),
      e.beq_iff k x,
      e.beq_iff x k,
    ),
    Distinct-insert k xs ys d.1 (ground (arith, h)),
  )
