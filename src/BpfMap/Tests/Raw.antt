-- ===== src/BpfMap/Tests/Raw.antt =====
-- C calls on a list of keys.
use android_packages_modules.Common.{
  ℕ, ℤ, pos, negsuc, List, [], ◌∷◌, list_eq, contains, subtract, inl, inr, refl, Bool-cases,
  if◌then◌else◌,
}
use android_packages_modules.BpfMap.Drain.{IsHealthy}
use android_packages_modules.BpfMap.Raw.{RawKernel, kernel_of}
use android_packages_modules.BpfMap.Raw.Refines.{IsMap, FirstKey, kernel_of-IsHealthy}
use android_packages_modules.Task.Filters.Drainable.{IsInserting}

abbrev Keys : Type 0
Keys = List (List ℕ)

abbrev same : Keys → List (List ℕ)
same m = m

abbrev first_status : Keys → ℤ × List ℕ
first_status [] = (negsuc 1, [])
first_status (c ∷ cs) = (pos 0, c)

abbrev raw : RawKernel Keys
raw = record {
  map_update_elem = λ c v flags m. if contains c m then (negsuc 16, m) else (pos 0, c ∷ m);
  map_lookup_elem = λ c m. ((negsuc 1, []), m);
  map_get_first_key = λ m. (first_status m, m);
  map_delete_elem = λ c m. ((if contains c m then pos 0 else negsuc 1), subtract c m);
}

first_answer : (m : Keys) → FirstKey (negsuc 1) m (first_status m)
first_answer [] = refl
first_answer (c ∷ cs) = (refl, refl)

raw-IsMap : IsMap (negsuc 1) raw same
raw-IsMap = record {
  enoent_fails = λ e. cc e;
  first_key = first_answer;
  first_key_keeps = λ m. refl;
  delete_status = λ c m. refl;
  delete_effect = λ c m. refl;
  insert_effect = λ c v m. elim (Bool-cases (contains c m)) [
    | inl q ↦ rw q (inl refl)
    | inr q ↦ rw q (inr (refl, ([], m, refl, refl)))
  ];
}

raw_kernel : IsHealthy (kernel_of (negsuc 1) raw) same × IsInserting (kernel_of (negsuc 1) raw) same
raw_kernel = kernel_of-IsHealthy (negsuc 1) raw same raw-IsMap
