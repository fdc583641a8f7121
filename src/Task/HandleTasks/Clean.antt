-- ===== src/Task/HandleTasks/Clean.antt =====
-- The daemon after the one task.
use android_packages_modules.Common.{
  ℕ, ◌<◌, false, none, some, List, [], Str, list_eq, contains, nil_of_contains, Outcome, ok, err,
  panicked, All, ◌≡◌, ◌≢◌, refl, arith, ap,
}
use android_packages_modules.Config.Resolved
use android_packages_modules.Config.Resolved.{ResolvedTask, ConfigResult, ConfigError}
use android_packages_modules.Config.Resolve.{Device, resolve_config}
use android_packages_modules.BpfMap.{Kernel}
use android_packages_modules.BpfMap.Drain.{IsHealthy}
use android_packages_modules.Task.State.{
  update_polled_bpf_maps, cleanup_polled_bpf_maps, remove_all, active_unless_empty,
}
use android_packages_modules.Task.State.Sets.{contains-remove_all}
use android_packages_modules.Task.Filters.Drainable.{IsInserting}
use android_packages_modules.Task.Filters.Written.{AreShort, count_filters}
use android_packages_modules.Task.Attach.{Bpf}
use android_packages_modules.Task.Attach.Reports.{Returns}
use android_packages_modules.Task.Execute.{Executed, execute}
use android_packages_modules.Task.Execute.Emptied.{IsEmptied, execute-IsEmptied}
use android_packages_modules.Task.HandleTasks.{
  Daemon, Handled, release, resolved_or_report, handle_tasks,
}

-- A task whose filters the kernel can hold and a drain can remove.
abbrev pub IsManageable : ℕ → ResolvedTask → Type 0
IsManageable fuel task =
    All (λ p. AreShort p.binder_transaction_filters) task.resolved_probes
    × (count_filters task.resolved_probes < fuel)

remove_all_self : (paths : List Str) → remove_all paths paths ≡ []
remove_all_self paths = nil_of_contains (remove_all paths paths) (λ p. absent p)
  where
    absent : (p : Str) → contains p (remove_all paths paths) ≡ false
    absent p = ground (arith, contains-remove_all p paths paths)

module _ {M : Type 0} (k : Kernel M) (keys : M → List (List ℕ)) where
  -- It has returned without a panic, no task is active, and no filter is left.
  abbrev pub IsClean : Handled M → Type 0
  IsClean none = ⊥
  IsClean (some (r, d)) = (r ≢ panicked) × (d.state ≡ none) × (keys d.map ≡ [])

  module _ (device : Device) (bpf : Bpf) (new_accessor : Outcome (Unit {0})) where
    release-IsClean :
        (task : ResolvedTask) (e : Executed M)
        → IsEmptied k keys e
        → IsClean (
            release device k bpf new_accessor task
              (some (record { polled_bpf_maps = task.bpf_map_paths }))
              e)
    unfolding cleanup_polled_bpf_maps
    release-IsClean task none h = absurd h
    release-IsClean task (some (ok u, m, reports)) h =
        ((λ q. cc q), ap active_unless_empty (remove_all_self task.bpf_map_paths), h)
    release-IsClean task (some (err e, m, reports)) h = absurd h
    release-IsClean task (some (panicked, m, reports)) h = absurd h

    resolved-IsClean :
        (inserting : IsInserting k keys) (fuel : ℕ) (d : Daemon M) (r : ConfigResult)
        → IsHealthy k keys
        → Returns bpf
        → new_accessor ≢ panicked
        → d.state ≡ none
        → keys d.map ≡ []
        → r ≢ Resolved.config_panicked
        → ((task : ResolvedTask) → r ≡ Resolved.resolved task → IsManageable fuel task)
        → IsClean (resolved_or_report device k bpf new_accessor fuel d r)
    unfolding update_polled_bpf_maps
    resolved-IsClean inserting fuel d (Resolved.resolved task) healthy returns opens idle empty
          total h =
        rw idle (
          release-IsClean task (execute k bpf new_accessor fuel task d.map d.reports) (
            execute-IsEmptied k keys inserting bpf task fuel new_accessor d.map d.reports healthy
              returns opens (h task refl).0 (h task refl).1 empty))
    resolved-IsClean inserting fuel d (Resolved.invalid e) healthy returns opens idle empty total
          h =
        ((λ q. cc q), idle, empty)
    resolved-IsClean inserting fuel d Resolved.config_panicked healthy returns opens idle empty
          total h =
        absurd (total refl)

-- The daemon that starts with no task and no filter ends so, whether the configuration is refused, the
-- task fails or it succeeds: on a kernel that inserts and drains as described, with a library and a
-- resolution of the configuration that return, and for tasks whose interface names fit in the keys.
pub handle_tasks-IsClean :
    {M : Type 0} (k : Kernel M) (keys : M → List (List ℕ)) (inserting : IsInserting k keys)
    (device : Device) (bpf : Bpf) (new_accessor : Outcome (Unit {0})) (fuel : ℕ) (bytes : List ℕ)
    (d : Daemon M)
    → IsHealthy k keys
    → Returns bpf
    → new_accessor ≢ panicked
    → d.state ≡ none
    → keys d.map ≡ []
    → resolve_config device bytes ≢ Resolved.config_panicked
    → ((task : ResolvedTask)
        → resolve_config device bytes ≡ Resolved.resolved task
        → IsManageable fuel task)
    → IsClean k keys (handle_tasks device k bpf new_accessor fuel (ok bytes) d)
unfolding handle_tasks
handle_tasks-IsClean k keys inserting device bpf new_accessor fuel bytes d healthy returns opens
      idle empty total h =
    resolved-IsClean k keys device bpf new_accessor inserting fuel d (resolve_config device bytes)
      healthy returns opens idle empty total h
