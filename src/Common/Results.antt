-- ===== src/Common/Results.antt =====
-- `anyhow::Result` with the errors that the code tells apart, and panics.
use mathlib.Core.Path.{◌≡◌, refl}
use mathlib.Core.Logic.{◌⊎◌, inl, inr}
use mathlib.Core.Bool.{Bool, true, false}
use mathlib.Core.Option.{Option, none, some}
use mathlib.Core.List.{List, [], ◌∷◌}
use Prim.Native.Nat.{ℕ}
use android_packages_modules.Common.Int.{ℤ}

-- Which message an `anyhow!` error carries; `foreign` is an error of code outside the repository.
pub data Cause : Type 0 where
  no_nul bad_utf8 empty_string int_conversion : Cause
  bpf_name_required method_signature_missing class_name_missing method_name_missing : Cause
  method_signature_invalid class_name_required method_name_required : Cause
  disabled_by_flag duration_required duration_not_positive offsets_not_found : Cause
  filters_required filters_unsupported interface_name_required interface_name_empty : Cause
  method_configs_empty method_id_required method_config_empty duplicate_method : Cause
  duplicate_interface atom_id_required atom_id_not_positive config_parse : Cause
  not_one_task disallowed maps_in_use write_filter_failed drain_failed delete_failed : Cause
  unsupported_map_path map_path_mismatch thread_errors invalid_variant accessibility_bpf : Cause
  no_binder_config unknown_field_position process_name_required pid_not_found : Cause
  retries_exhausted unexpected_status unexpected_service_error statsd_write : Cause
  embedded_nul path_without_filename start_timeout observer_not_created : Cause
  observer_not_registered running_apps_unavailable running_apps_null : Cause
  process_not_running system_server_not_found manager_failed statsd_rejected thread_error
        thread_panic bpf_failed :
      Cause
  foreign : ℕ → Cause

-- The first two constructors are `UprobeStatsError`, the third is `ReportedToStatsd`.
pub data Error : Type 0 where
  bpf_program_error bpf_data_invalid : ℤ → Error
  reported_to_statsd : Error → Error
  other : Cause → Error

pub data Outcome {ℓ} (A : Type ℓ) : Type ℓ where
  ok : A → Outcome A
  err : Error → Outcome A
  panicked : Outcome A

module _ {ℓ κ} {A : Type ℓ} {B : Type κ} where
  infixl 5 ◌>>=◌
  abbrev pub ◌>>=◌ : Outcome A → (A → Outcome B) → Outcome B
  ok a >>= f = f a
  err e >>= f = err e
  panicked >>= f = panicked

infixl 5 ◌>>◌
abbrev pub ◌>>◌ {ℓ} : {B : Type ℓ} → Outcome (Unit {0}) → Outcome B → Outcome B
m >> k = m >>= λ _. k

-- `ensure!`
abbrev pub ensure : Bool → Cause → Outcome (Unit {0})
ensure true c = ok tt
ensure false c = err (other c)

module _ {ℓ} {A : Type ℓ} where
  -- `ok_or`, and the `?` on a `TryFromIntError`
  abbrev pub ok_or : Option A → Cause → Outcome A
  ok_or none c = err (other c)
  ok_or (some a) c = ok a

  -- `map_err`
  abbrev pub map_err : (Error → Error) → Outcome A → Outcome A
  map_err f (ok a) = ok a
  map_err f (err e) = err (f e)
  map_err f panicked = panicked

  -- `unwrap`
  abbrev pub unwrap : Option A → Outcome A
  unwrap none = panicked
  unwrap (some a) = ok a

-- `iter().map(f).collect::<Result<Vec<_>>>()`: it stops at the first error.
module _ {ℓ κ} {A : Type ℓ} {B : Type κ} where
  unfoldable pub traverse : (A → Outcome B) → List A → Outcome (List B)
  traverse f [] = ok []
  traverse f (x ∷ xs) = let rest = traverse f xs in (f x >>= λ y. rest >>= λ ys. ok (y ∷ ys))

-- To split on a computed outcome and keep the equation.
pub Outcome-cases {ℓ} :
    {A : Type ℓ} (o : Outcome A)
    → ((a : A) × (o ≡ ok a)) ⊎ (((e : Error) × (o ≡ err e)) ⊎ (o ≡ panicked))
Outcome-cases (ok a) = inl (a, refl)
Outcome-cases (err e) = inr (inl (e, refl))
Outcome-cases panicked = inr (inr refl)

-- Inversion of a successful step.
pub >>=-eq-ok {ℓ κ} :
    {A : Type ℓ} {B : Type κ} (m : Outcome A) (next : A → Outcome B) {y : B}
    → (m >>= next) ≡ ok y
    → (x : A) × (m ≡ ok x) × (next x ≡ ok y)
>>=-eq-ok (ok x) next h = (x, refl, h)
>>=-eq-ok (err e) next h = cc
>>=-eq-ok panicked next h = cc
