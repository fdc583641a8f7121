-- ===== src/BpfMap/Drain.antt =====
-- What the loop of `drain` does to the kernel's map.
use android_packages_modules.Common.{
  ℕ, zero, suc, ◌<◌, true, false, Option, none, some, List, [], ◌∷◌, list_eq, contains, subtract,
  length, All, Distinct, Outcome, ok, err, other, delete_failed, ◌≡◌, refl, arith, ◌∙◌, ap,
  list_beq_refl,
}
use android_packages_modules.BpfMap.{Kernel, to_c_key, from_c_key, drain_round, drain}

abbrev pub first : List (List ℕ) → Option (List ℕ)
first [] = none
first (c ∷ cs) = some c

-- A kernel that holds a set of keys and whose calls do not fail, as bpf(2) describes them: the first
-- key is some key of the map, and a deletion says whether the key was there and removes it.
pub record IsHealthy {M : Type 0} (k : Kernel M) (keys : M → List (List ℕ)) : Type 0 where
  pub first_key : (m : M) → k.bpf_map_get_first_key m ≡ (ok (first (keys m)), m)
  pub delete_answer :
      (c : List ℕ) (m : M) → (k.bpf_map_delete_elem c m).0 ≡ ok (contains c (keys m))
  pub delete_effect :
      (c : List ℕ) (m : M) → keys (k.bpf_map_delete_elem c m).1 ≡ subtract c (keys m)

-- The key is found again under the name that is read from it.
abbrev pub IsCanonical : List ℕ → Type 0
IsCanonical c = to_c_key (from_c_key c) ≡ c

subtract_absent : (c : List ℕ) (cs : List (List ℕ)) → contains c cs ≡ false → subtract c cs ≡ cs
unfolding contains subtract
subtract_absent c [] h = refl
subtract_absent c (d ∷ cs) h = ground (arith, subtract_absent c cs)

subtract_head : (c : List ℕ) (cs : List (List ℕ)) → contains c cs ≡ false → subtract c (c ∷ cs) ≡ cs
unfolding subtract
subtract_head c cs h = ground (arith, list_beq_refl c, subtract_absent c cs h)

module _ {M : Type 0} (k : Kernel M) (keys : M → List (List ℕ)) (healthy : IsHealthy k keys) where
  abbrev Drained : Option (Outcome (Unit {0}) × M) → Type 0
  Drained none = ⊥
  Drained (some (r, m)) = (r ≡ ok tt) × (keys m ≡ [])

  round_deletes :
      (m : M) (c : List ℕ) (cs : List (List ℕ))
      → keys m ≡ c ∷ cs
      → IsCanonical c
      → drain_round k m ≡ (ok true, (k.bpf_map_delete_elem c m).1)
  unfolding drain_round contains
  round_deletes m c cs e a =
      ground (arith, healthy.first_key m, healthy.delete_answer c m, list_beq_refl c)

  drain-keys :
      (fuel : ℕ) (m : M) (cs : List (List ℕ))
      → keys m ≡ cs
      → Distinct cs
      → All IsCanonical cs
      → length cs < fuel
      → Drained (drain k fuel m)
  unfolding drain contains
  drain-keys zero m cs e d a h = absurd (omega arith)
  drain-keys (suc fuel) m [] e d a h = ground (arith, healthy.first_key m)
  drain-keys (suc fuel) m (c ∷ cs) e d a h =
      let m' : M = (k.bpf_map_delete_elem c m).1 in
      let left : keys m' ≡ cs =
        healthy.delete_effect c m ∙ ap (subtract c) e ∙ subtract_head c cs d.0 in
      let later = drain-keys fuel m' cs left d.1 a.1 (omega arith) in
      let round : drain_round k m ≡ (ok true, m') = round_deletes m c cs e a.0 in rw round later

-- On a healthy kernel whose keys can all be found again, the loop ends, succeeds and leaves the map
-- empty, given more fuel than there are keys.
pub drain-empties :
    {M : Type 0} (k : Kernel M) (keys : M → List (List ℕ)) (fuel : ℕ) (m : M)
    → IsHealthy k keys
    → Distinct (keys m)
    → All IsCanonical (keys m)
    → length (keys m) < fuel
    → (m' : M) × (drain k fuel m ≡ some (ok tt, m')) × (keys m' ≡ [])
drain-empties {M} k keys fuel m healthy d a h =
    finished (drain k fuel m) refl (drain-keys k keys healthy fuel m (keys m) refl d a h)
  where
    finished :
        (r : Option (Outcome (Unit {0}) × M))
        → drain k fuel m ≡ r
        → Drained k keys healthy r
        → (m' : M) × (drain k fuel m ≡ some (ok tt, m')) × (keys m' ≡ [])
    finished none e f = absurd f
    finished (some (r, m')) e f = (m', ground arith, f.1)

-- If the first key is not the key of the name that is read from it, and that one is not in the map,
-- the loop fails and deletes nothing.
pub drain_stuck :
    {M : Type 0} (k : Kernel M) (keys : M → List (List ℕ)) (fuel : ℕ) (m : M) (c : List ℕ)
    → IsHealthy k keys
    → first (keys m) ≡ some c
    → contains (to_c_key (from_c_key c)) (keys m) ≡ false
    → (m' : M) × (drain k (suc fuel) m ≡ some (err (other delete_failed), m')) × (keys m' ≡ keys m)
unfolding drain drain_round
drain_stuck k keys fuel m c healthy e absent =
    let key : List ℕ = to_c_key (from_c_key c) in
    (
      (k.bpf_map_delete_elem key m).1,
      ground (arith, healthy.first_key m, healthy.delete_answer key m),
      healthy.delete_effect key m ∙ subtract_absent key (keys m) absent,
    )
