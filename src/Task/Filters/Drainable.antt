-- ===== src/Task/Filters/Drainable.antt =====
-- Keys that a drain can remove, and what an insertion adds to them.
use android_packages_modules.Common.{
  ℕ, suc, ◌≤◌, ◌<◌, true, false, List, ◌∷◌, ◌++◌, Str, list_eq, contains, length, length-append,
  All, Distinct, panicked, ap, ◌≡◌, ◌≢◌, ◌⊎◌, arith, subst, sym, Distinct-insert, All-insert,
}
use android_packages_modules.Strings.{is_utf8}
use android_packages_modules.Strings.Laws.{NoNul}
use android_packages_modules.BpfMap.{Kernel, UpdateMapElemFlags, to_c_key}
use android_packages_modules.BpfMap.Keys.{from_c_key-to_c_key}
use android_packages_modules.BpfMap.Drain.{IsCanonical}

-- A key more, at some place.
abbrev pub Inserted : List ℕ → List (List ℕ) → List (List ℕ) → Type 0
Inserted c before after = (u v : List (List ℕ)) × (before ≡ u ++ v) × (after ≡ u ++ (c ∷ v))

-- An insertion, as bpf(2) describes it: it adds a key that was not there, or it changes nothing.
pub record IsInserting {M : Type 0} (k : Kernel M) (keys : M → List (List ℕ)) : Type 0 where
  pub insert_ends :
      (c v : List ℕ) (m : M) → (k.bpf_map_update_elem c v UpdateMapElemFlags.insert m).0 ≢ panicked
  pub insert_effect :
      (c v : List ℕ) (m : M)
      → let m' = (k.bpf_map_update_elem c v UpdateMapElemFlags.insert m).1 in
        (keys m' ≡ keys m) ⊎ ((contains c (keys m) ≡ false) × Inserted c (keys m) (keys m'))

-- An interface name that fits in a key and is text.
abbrev pub IsShort : Str → Type 0
IsShort name = (length name < 128) × NoNul name × (is_utf8 name ≡ true)

pub to_c_key-IsCanonical : (name : Str) → IsShort name → IsCanonical (to_c_key name)
to_c_key-IsCanonical name (short, clean, valid) =
    ap to_c_key (from_c_key-to_c_key name short clean valid)

-- Keys that a drain can remove, at most so many.
abbrev pub IsDrainable : ℕ → List (List ℕ) → Type 0
IsDrainable n cs = Distinct cs × All IsCanonical cs × (length cs ≤ n)

pub Inserted-IsDrainable :
    (n : ℕ) (c : List ℕ) (before after : List (List ℕ))
    → IsCanonical c
    → contains c before ≡ false
    → Inserted c before after
    → IsDrainable n before
    → IsDrainable (suc n) after
Inserted-IsDrainable n c before after canonical absent (u, v, e, e') d =
    let (distinct, canonicals, short) = subst (IsDrainable n) e d in
    subst (IsDrainable (suc n)) (sym e') (
      Distinct-insert c u v distinct (rw e at absent),
      All-insert IsCanonical c u v canonical canonicals,
      omega (arith, length-append u v, length-append u (c ∷ v)),
    )

pub weaken : (n : ℕ) (cs : List (List ℕ)) → IsDrainable n cs → IsDrainable (suc n) cs
weaken n cs d = (d.0, d.1, omega (arith, d.2))
