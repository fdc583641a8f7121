-- ===== src/BpfMap/Tests.antt =====
-- A kernel's map as a list of keys, with a short name and one that is too long.
pub mod Raw
use android_packages_modules.Common.{
  ℕ, zero, suc, true, false, none, some, List, [], ◌∷◌, ◌++◌, Str, codes, list_eq, list_beq,
  contains, subtract, length, take, replicate, Distinct, ok, err, other, delete_failed, ◌≡◌, refl,
  arith, ◌-◌,
}
use android_packages_modules.Strings.{is_utf8}
use android_packages_modules.Strings.Laws.{NoNul}
use android_packages_modules.BpfMap.{Kernel, to_c_key, from_c_key, to_c_value, from_c_value, drain}
use android_packages_modules.BpfMap.Keys.{
  length-to_c_key, from_c_key-to_c_key, from_c_key-to_c_key_long, from_c_value-to_c_value,
}
use android_packages_modules.BpfMap.Drain.{
  IsHealthy, IsCanonical, first, drain-empties, drain_stuck,
}

abbrev set_kernel : Kernel (List (List ℕ))
set_kernel = record {
  bpf_map_update_elem = λ c v flags m. (ok tt, c ∷ m);
  bpf_map_lookup_elem = λ c m. (ok none, m);
  bpf_map_get_first_key = λ m. (ok (first m), m);
  bpf_map_delete_elem = λ c m. (ok (contains c m), subtract c m);
}

abbrev same : List (List ℕ) → List (List ℕ)
same m = m

set_kernel-IsHealthy : IsHealthy set_kernel same
set_kernel-IsHealthy = record {
  first_key = λ m. refl;
  delete_answer = λ c m. refl;
  delete_effect = λ c m. refl;
}

abbrev short : Str
short = codes "IFoo"

short-NoNul : NoNul short
short-NoNul = (omega arith, (omega arith, (omega arith, (omega arith, tt))))

short_utf8 : is_utf8 short ≡ true
unfolding is_utf8
short_utf8 = refl

short_back : from_c_key (to_c_key short) ≡ short
short_back = from_c_key-to_c_key short (omega arith) short-NoNul short_utf8

abbrev long : Str
long = replicate 128 65

long-NoNul : (n : ℕ) → NoNul (replicate n 65)
long-NoNul zero = tt
long-NoNul (suc n) = (omega arith, long-NoNul n)

long_lost : from_c_key (to_c_key long) ≡ []
long_lost = from_c_key-to_c_key_long long (omega arith) (long-NoNul 128)

long-length : length (to_c_key long) ≡ 128
long-length = length-to_c_key long

values_back :
    from_c_value (to_c_value (5 ∷ 6 ∷ []))
    ≡ take 10 (5 ∷ 6 ∷ []) ++ replicate (10 - length {A = ℕ} (5 ∷ 6 ∷ [])) 0
values_back = from_c_value-to_c_value (5 ∷ 6 ∷ [])

abbrev one_key : List (List ℕ)
one_key = to_c_key short ∷ []

one_key-Distinct : Distinct one_key
unfolding contains
one_key-Distinct = (refl, tt)

short-IsCanonical : IsCanonical (to_c_key short)
short-IsCanonical = rw short_back refl

drain_example : (m : List (List ℕ)) × (drain set_kernel 2 one_key ≡ some (ok tt, m)) × (m ≡ [])
drain_example =
    drain-empties set_kernel same 2 one_key set_kernel-IsHealthy one_key-Distinct
      (short-IsCanonical, tt) (omega arith)

long_absent : contains (to_c_key (from_c_key (to_c_key long))) (to_c_key long ∷ []) ≡ false
unfolding contains list_beq to_c_key
long_absent = rw long_lost refl

stuck_example :
    (m : List (List ℕ)) × (drain set_kernel 1 (to_c_key long ∷ [])
      ≡ some (err (other delete_failed), m))
    × (m ≡ to_c_key long ∷ [])
stuck_example =
    drain_stuck set_kernel same 0 (to_c_key long ∷ []) (to_c_key long) set_kernel-IsHealthy refl
      long_absent
