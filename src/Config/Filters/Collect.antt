-- ===== src/Config/Filters/Collect.antt =====
-- The two loops of `resolve_binder_transaction_filters` in one form: each element gives an entry,
-- and an entry whose key is there already is an error.
use mathlib.Core.List.{append-nil, append_assoc}
use android_packages_modules.Common.{
  true, false, none, some, List, [], ◌∷◌, ◌++◌, Eq, ◌==◌, lookup, insert, keys, contains, Distinct,
  insert_fresh, contains-keys, contains-append, keys-append, Outcome, ok, err, panicked, Cause,
  other, ◌>>=◌, traverse, ◌≡◌, refl, sym, ◌∙◌, arith, inl, inr, Option-cases, subst, All, ◌↔◌,
}

module _ {A K V : Type 0} ⦃e : Eq K⦄ (f : A → Outcome (K × V)) (duplicate : Cause) where
  abbrev add_new : List (K × V) → K × V → Outcome (List (K × V))
  add_new m (k, v) = elim (lookup k m) [ none ↦ ok (insert k v m) | some w ↦ err (other duplicate) ]

  unfoldable pub collect_map : List (K × V) → List A → Outcome (List (K × V))
  collect_map m [] = ok m
  collect_map m (x ∷ xs) = f x >>= λ r. add_new m r >>= λ m'. collect_map m' xs

  -- The keys of the second list are distinct and none is a key of the first.
  abbrev Fresh : List (K × V) → List (K × V) → Type 0
  Fresh m [] = Unit
  Fresh m ((k, v) ∷ n) = (lookup k m ≡ none) × Fresh (m ++ (k, v) ∷ []) n

  abbrev ResultOf : List (K × V) → List A → List (K × V) → Type 0
  ResultOf m xs r = (n : List (K × V)) × (traverse f xs ≡ ok n) × (r ≡ m ++ n) × Fresh m n

  abbrev Head : List (K × V) → A → List A → List (K × V) → Type 0
  Head m x xs r =
      (k : K) × (v : V) × (f x ≡ ok (k, v))
      × (lookup k m ≡ none)
      × (collect_map (m ++ (k, v) ∷ []) xs ≡ ok r)

  Head-of :
      (m : List (K × V)) (x : A) (xs : List A) (o : Outcome (K × V)) {r : List (K × V)}
      → f x ≡ o
      → (o >>= λ r. add_new m r >>= λ m'. collect_map m' xs) ≡ ok r
      → Head m x xs r
  Head-of m x xs (ok (k, v)) q h = elim (Option-cases (lookup k m)) [
    | inl new ↦ (k, v, q, new, ground (arith, insert_fresh k v m))
    | inr (w, old) ↦ ground arith
  ]
  Head-of m x xs (err c) q h = cc
  Head-of m x xs panicked q h = cc

  pub collect_map-traverse :
      (m : List (K × V)) (xs : List A) {r : List (K × V)}
      → collect_map m xs ≡ ok r
      → ResultOf m xs r
  unfolding collect_map traverse
  collect_map-traverse m [] h = ([], refl, ground (arith, append-nil m), tt)
  collect_map-traverse m (x ∷ xs) h =
      let (k, v, q, new, later) = Head-of m x xs (f x) refl h in
      let (n, t, eq, fresh) = collect_map-traverse (m ++ (k, v) ∷ []) xs later in
      ((k, v) ∷ n, ground (arith, q, t), eq ∙ append_assoc m ((k, v) ∷ []) n, (new, fresh))

  Fresh-avoids :
      (k : K) (m n : List (K × V))
      → Fresh m n
      → contains k (keys m) ≡ true
      → contains k (keys n) ≡ false
  unfolding contains
  Fresh-avoids k m [] fresh h = refl
  Fresh-avoids k m ((j, w) ∷ n) fresh h = ground (
    arith,
    e.beq_iff j k,
    contains-keys j m fresh.0,
    Fresh-avoids k (m ++ (j, w) ∷ []) n fresh.1,
    contains-append k (keys m) (j ∷ []),
    keys-append m ((j, w) ∷ []),
  )

  pub Fresh-Distinct : (m n : List (K × V)) → Fresh m n → Distinct (keys n)
  unfolding contains
  Fresh-Distinct m [] fresh = tt
  Fresh-Distinct m ((j, w) ∷ n) fresh = (
    Fresh-avoids j (m ++ (j, w) ∷ []) n fresh.1 (
        ground
          (arith, e.beq_iff j j, contains-append j (keys m) (j ∷ []), keys-append m ((j, w) ∷ []))),
    Fresh-Distinct (m ++ (j, w) ∷ []) n fresh.1,
  )

  lookup-append :
      (j k : K) (v : V) (m : List (K × V))
      → lookup j m ≡ none
      → (k == j) ≡ false
      → lookup j (m ++ (k, v) ∷ []) ≡ none
  unfolding lookup
  lookup-append j k v [] h ne = ground arith
  lookup-append j k v ((i, w) ∷ m) h ne = ground (arith, lookup-append j k v m)

  still_new :
      (k : K) (v : V) (m : List (K × V)) (ks : List K)
      → contains k ks ≡ false
      → All (λ j. lookup j m ≡ none) ks
      → All (λ j. lookup j (m ++ (k, v) ∷ []) ≡ none) ks
  unfolding contains
  still_new k v m [] c h = tt
  still_new k v m (j ∷ ks) c h = (
    lookup-append j k v m h.0 (ground (arith, e.beq_iff k j, e.beq_iff j k)),
    still_new k v m ks (ground arith) h.1,
  )

  pub Distinct-Fresh :
      (m n : List (K × V)) → Distinct (keys n) → All (λ j. lookup j m ≡ none) (keys n) → Fresh m n
  Distinct-Fresh m [] d h = tt
  Distinct-Fresh m ((k, v) ∷ n) d h =
      (h.0, Distinct-Fresh (m ++ (k, v) ∷ []) n d.1 (still_new k v m (keys n) d.0 h.1))

  none_of_nil : (ks : List K) → let m : List (K × V) = [] in All (λ j. lookup j m ≡ none) ks
  unfolding lookup
  none_of_nil [] = tt
  none_of_nil (k ∷ ks) = (refl, none_of_nil ks)

  pub collect_map_complete :
      (m : List (K × V)) (xs : List A) (n : List (K × V))
      → traverse f xs ≡ ok n
      → Fresh m n
      → collect_map m xs ≡ ok (m ++ n)
  unfolding collect_map traverse
  collect_map_complete m [] n t fresh = ground (arith, append-nil m)
  collect_map_complete m (x ∷ xs) [] t fresh = ground arith
  collect_map_complete m (x ∷ xs) ((k, v) ∷ n) t fresh = ground (
    arith,
    insert_fresh k v m fresh.0,
    append_assoc m ((k, v) ∷ []) n,
    collect_map_complete (m ++ (k, v) ∷ []) xs n (ground arith) fresh.1,
  )

  -- From the empty map the loop gives the entries in order, if their keys are distinct.
  pub collect_map-exact :
      (xs : List A) (r : List (K × V))
      → (collect_map [] xs ≡ ok r) ↔ ((traverse f xs ≡ ok r) × Distinct (keys r))
  collect_map-exact xs r = (
    λ h.
        let (n, t, eq, fresh) = collect_map-traverse [] xs h in
        (
          cc (t, eq),
          subst (λ (m : List (K × V)). Distinct (keys m)) (sym eq) (Fresh-Distinct [] n fresh),
        ),
    λ h. collect_map_complete [] xs r h.0 (Distinct-Fresh [] r h.1 (none_of_nil (keys r))),
  )
