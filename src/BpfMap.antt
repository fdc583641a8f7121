-- ===== src/BpfMap.antt =====
-- The map of the binder transaction filters (daemon/android/bpf_map.rs and
-- daemon/android/bpf_map/binder_transaction.rs). The kernel's map is a parameter: a state and the
-- calls of daemon/ffi/bpf/bpf.rs on it.
pub mod Keys
pub mod Drain
pub mod Raw
mod Tests
use android_packages_modules.Common.{
  ℕ, zero, suc, Bool, true, false, Option, none, some, List, [], ◌∷◌, Str, Outcome, ok, err,
  panicked, other, delete_failed, Error, length, if◌then◌else◌,
}
use android_packages_modules.Effects.{Eff, ◌>>=◌, lift, pure}
use android_packages_modules.Strings.{bytes_as_str}

-- A zeroed array of the given size into which as much of the list is copied as fits.
unfoldable pub copy_into : ℕ → List ℕ → List ℕ
copy_into zero xs = []
copy_into (suc n) [] = 0 ∷ copy_into n []
copy_into (suc n) (x ∷ xs) = x ∷ copy_into n xs

unfoldable pub to_c_key : Str → List ℕ
unfolding copy_into
to_c_key key = copy_into 128 key

unfoldable pub to_c_value : List ℕ → List ℕ
unfolding copy_into
to_c_value value = copy_into 10 value

unfoldable pub from_c_value : List ℕ → List ℕ
from_c_value value = value

abbrev unwrap_or_default : Outcome Str → Str
unwrap_or_default (ok s) = s
unwrap_or_default (err e) = []
unwrap_or_default panicked = []

unfoldable pub from_c_key : List ℕ → Str
from_c_key key = unwrap_or_default (bytes_as_str key)

-- `UpdateMapElemFlags`
pub data UpdateMapElemFlags : Type 0 where
  upsert insert update : UpdateMapElemFlags

-- The wrappers of the bpf syscalls, over the C keys and values.
pub record Kernel (M : Type 0) : Type 0 where
  pub bpf_map_update_elem : List ℕ → List ℕ → UpdateMapElemFlags → Eff M (Unit {0})
  pub bpf_map_lookup_elem : List ℕ → Eff M (Option (List ℕ))
  pub bpf_map_get_first_key : Eff M (Option (List ℕ))
  pub bpf_map_delete_elem : List ℕ → Eff M Bool

module _ {M : Type 0} (k : Kernel M) where
  unfoldable pub put : Str → List ℕ → UpdateMapElemFlags → Eff M (Unit {0})
  put key value flags = k.bpf_map_update_elem (to_c_key key) (to_c_value value) flags

  unfoldable pub get : Str → Eff M (Option (List ℕ))
  get key = k.bpf_map_lookup_elem (to_c_key key) >>= λ found.
      pure (elim found [ none ↦ none | some v ↦ some (from_c_value v) ])

  unfoldable pub get_first_key : Eff M (Option Str)
  get_first_key = k.bpf_map_get_first_key >>= λ found.
      pure (elim found [ none ↦ none | some c ↦ some (from_c_key c) ])

  unfoldable pub delete : Str → Eff M Bool
  delete key = k.bpf_map_delete_elem (to_c_key key)

  -- One round of the loop of `drain`: `true` goes on, `false` is the loop's end.
  unfoldable pub drain_round : Eff M Bool
  unfolding get_first_key delete
  drain_round = do
    found ← get_first_key
    elim found [
      | none ↦ pure false
      | some key ↦ (do
        deleted ← delete key
        if deleted then pure true else lift (err (other delete_failed)))
    ]

  abbrev go_on :
      Option (Outcome (Unit {0}) × M) → Outcome Bool × M → Option (Outcome (Unit {0}) × M)
  go_on rest (ok true, m) = rest
  go_on rest (ok false, m) = some (ok tt, m)
  go_on rest (err e, m) = some (err e, m)
  go_on rest (panicked, m) = some (panicked, m)

  -- The `while let` loop; `none` is fuel that ran out.
  unfoldable pub drain : ℕ → M → Option (Outcome (Unit {0}) × M)
  unfolding drain_round
  drain zero m = none
  drain (suc fuel) m = let rest = drain fuel (drain_round m).1 in go_on rest (drain_round m)
