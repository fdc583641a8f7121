-- ===== src/Task/Filters.antt =====
-- The binder transaction filters of a task: steps 3a and 3c of daemon/android/task.rs. Whether the map
-- of the filters opens is a parameter, beside the kernel's calls on it.
pub mod Drainable
pub mod Written
use android_packages_modules.Common.{
  ℕ, ℤ, pos, Bool, true, false, Option, none, some, List, [], ◌∷◌, Str, Outcome, ok, err, panicked,
  Error, other, write_filter_failed, drain_failed, if◌then◌else◌,
}
use android_packages_modules.Effects.{Eff, ◌>>=◌, ◌>>◌, pure, for_each}
use android_packages_modules.Config.Resolved.{InterfaceConfig, method_ids, ResolvedProbe}
use android_packages_modules.BpfMap.{Kernel, UpdateMapElemFlags, put, drain}

abbrev pub Filters : Type 0
Filters = List (Str × InterfaceConfig)

module _ {M : Type 0} (k : Kernel M) where
  abbrev pub write_filter : Str × InterfaceConfig → Eff M (Unit {0})
  write_filter (interface_name, interface_config) =
      put k interface_name (method_ids interface_config) UpdateMapElemFlags.insert

  unfoldable pub write_binder_transaction_filter_to_binder_bpf_map : Filters → Eff M (Unit {0})
  unfolding for_each
  write_binder_transaction_filter_to_binder_bpf_map filters = for_each write_filter filters

  -- The error of a write, after the map is drained.
  abbrev pub after_drain : Option (Outcome (Unit {0}) × M) → Option (Outcome Bool × M)
  after_drain none = none
  after_drain (some (ok u, m)) = some (err (other write_filter_failed), m)
  after_drain (some (err e, m)) = some (err (other drain_failed), m)
  after_drain (some (panicked, m)) = some (panicked, m)

  -- What follows the writes of one probe: `rest` for the other probes, or the `map_err`.
  abbrev pub after_write :
      (M → Option (Outcome (Unit {0}) × M))
      → (M → Option (Outcome Bool × M))
      → Outcome (Unit {0}) × M
      → Option (Outcome Bool × M)
  after_write drain_all rest (ok u, m) = rest m
  after_write drain_all rest (err e, m) = after_drain (drain_all m)
  after_write drain_all rest (panicked, m) = some (panicked, m)

  abbrev pub when_open :
      Outcome (Unit {0}) → M → Option (Outcome Bool × M) → Option (Outcome Bool × M)
  when_open (ok u) m next = next
  when_open (err e) m next = some (err e, m)
  when_open panicked m next = some (panicked, m)

  -- The body of the loop, for the filters of one probe. The flag says whether
  -- `maybe_binder_interface_bpf_map` is set.
  unfoldable pub setup_probe :
      Outcome (Unit {0})
      → ℕ
      → Filters
      → (Bool → M → Option (Outcome Bool × M))
      → Bool
      → M
      → Option (Outcome Bool × M)
  unfolding write_binder_transaction_filter_to_binder_bpf_map
  setup_probe new_accessor fuel [] rest opened m = rest opened m
  setup_probe new_accessor fuel (f ∷ fs) rest opened m =
      when_open (if opened then ok tt else new_accessor) m (
        after_write (drain k fuel) (rest true)
          (write_binder_transaction_filter_to_binder_bpf_map (f ∷ fs) m))

  -- The loop over the probes. The flag at the end is the result; `none` is fuel of a drain that ran out.
  unfoldable pub setup_probes :
      Outcome (Unit {0}) → ℕ → List ResolvedProbe → Bool → M → Option (Outcome Bool × M)
  unfolding setup_probe
  setup_probes new_accessor fuel [] opened m = some (ok opened, m)
  setup_probes new_accessor fuel (probe ∷ probes) opened m =
      setup_probe new_accessor fuel probe.binder_transaction_filters
        (setup_probes new_accessor fuel probes) opened m

  unfoldable pub setup_binder_transaction_filters :
      Outcome (Unit {0}) → ℕ → List ResolvedProbe → M → Option (Outcome Bool × M)
  unfolding setup_probes
  setup_binder_transaction_filters new_accessor fuel probes m =
      setup_probes new_accessor fuel probes false m

  -- `cleanup_binder_transaction_filters`, up to the report of an error.
  unfoldable pub cleanup_filters : ℕ → Bool → M → Option (Outcome (Unit {0}) × M)
  cleanup_filters fuel false m = some (ok tt, m)
  cleanup_filters fuel true m = drain k fuel m
