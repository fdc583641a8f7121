-- ===== src/BpfMap/Raw/Refines.antt =====
-- The checked calls are a kernel that inserts and drains.
use android_packages_modules.Common.{
  ℕ, ℤ, pos, int_eq, int_beq_iff, Bool, true, false, List, [], ◌∷◌, list_eq, contains, subtract, ok,
  panicked, ◌≡◌, ◌≢◌, ◌⊎◌, arith, ap, ◌∙◌, if◌then◌else◌,
}
use android_packages_modules.BpfMap.Drain.{IsHealthy, first}
use android_packages_modules.BpfMap.Raw.{
  RawKernel, checked, checked_value, checked_delete, kernel_of,
}
use android_packages_modules.Task.Filters.Drainable.{Inserted, IsInserting}

-- The answer for the first of some keys.
abbrev pub FirstKey : ℤ → List (List ℕ) → ℤ × List ℕ → Type 0
FirstKey enoent [] (res, key) = res ≡ enoent
FirstKey enoent (c ∷ cs) (res, key) = (res ≡ pos 0) × (key ≡ c)

-- The C calls, as bpf(2) describes them for a hash map.
pub record IsMap {M : Type 0} (enoent : ℤ) (raw : RawKernel M) (keys : M → List (List ℕ))
    : Type 0 where
  pub enoent_fails : enoent ≢ pos 0
  pub first_key : (m : M) → FirstKey enoent (keys m) (raw.map_get_first_key m).0
  pub first_key_keeps : (m : M) → (raw.map_get_first_key m).1 ≡ m
  pub delete_status :
      (c : List ℕ) (m : M)
      → (raw.map_delete_elem c m).0 ≡ (if contains c (keys m) then pos 0 else enoent)
  pub delete_effect : (c : List ℕ) (m : M) → keys (raw.map_delete_elem c m).1 ≡ subtract c (keys m)
  pub insert_effect :
      (c v : List ℕ) (m : M)
      → let m' = (raw.map_update_elem c v 1 m).1 in
        (keys m' ≡ keys m) ⊎ ((contains c (keys m) ≡ false) × Inserted c (keys m) (keys m'))

module _ (enoent : ℤ) (fails : enoent ≢ pos 0) where
  checked_value-first :
      (cs : List (List ℕ)) (r : ℤ × List ℕ)
      → FirstKey enoent cs r
      → checked_value enoent r ≡ ok (first cs)
  checked_value-first [] (res, key) h = ground (arith, h, int_beq_iff res enoent)
  checked_value-first (c ∷ cs) (res, key) h =
      ground (arith, h, fails, int_beq_iff res enoent, int_beq_iff res (pos 0))

  checked_delete-status : (b : Bool) → checked_delete enoent (if b then pos 0 else enoent) ≡ ok b
  checked_delete-status true = ground (arith, fails, int_beq_iff (pos 0) enoent)
  checked_delete-status false = ground (arith, int_beq_iff enoent enoent)

checked-ends : (enoent res : ℤ) → checked enoent res ≢ panicked
checked-ends enoent res e = ground (arith, e)

-- Over C calls that behave as bpf(2) describes, the checked calls keep what the drain and the filters rely
-- on: a missing key is an answer and not an error, and an insertion adds a new key or changes nothing.
pub kernel_of-IsHealthy :
    {M : Type 0} (enoent : ℤ) (raw : RawKernel M) (keys : M → List (List ℕ))
    → IsMap enoent raw keys
    → IsHealthy (kernel_of enoent raw) keys × IsInserting (kernel_of enoent raw) keys
unfolding kernel_of
kernel_of-IsHealthy enoent raw keys map = (
  record {
    first_key = λ m. cc (
      checked_value-first enoent map.enoent_fails (keys m) (raw.map_get_first_key m).0
          (map.first_key m),
      map.first_key_keeps m,
    );
    delete_answer = λ c m.
        ap (checked_delete enoent) (map.delete_status c m)
        ∙ checked_delete-status enoent map.enoent_fails (contains c (keys m));
    delete_effect = map.delete_effect;
  },
  record {
    insert_ends = λ c v m. checked-ends enoent (raw.map_update_elem c v 1 m).0;
    insert_effect = map.insert_effect;
  },
)
