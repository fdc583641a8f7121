-- ===== src/Task/HandleTasks.antt =====
-- `handle_tasks` of daemon/uprobestats.rs below SDK level 37: the one task of the configuration file is
-- resolved, claimed, executed and released under one lock.
pub mod Clean
use android_packages_modules.Common.{
  ℕ, ℤ, pos, negsuc, Option, none, some, List, [], ◌∷◌, Outcome, ok, err, panicked, Error,
}
use android_packages_modules.Config.Resolved
use android_packages_modules.Config.Resolved.{
  ResolvedTask, ConfigError, ConfigResult, task_id, task_validation, config_other,
}
use android_packages_modules.Config.Resolve.{Device, resolve_config}
use android_packages_modules.BpfMap.{Kernel}
use android_packages_modules.Poll.{
  Report, ErrorType, internal_error, config_parse_failed, task_conflict,
}
use android_packages_modules.Task.State.{
  GlobalState, update_polled_bpf_maps, cleanup_polled_bpf_maps,
}
use android_packages_modules.Task.Attach.{Bpf}
use android_packages_modules.Task.Execute.{Executed, report_of_task, execute}

-- The state behind the mutex, the map of the filters, and the reports.
pub record Daemon (M : Type 0) : Type 0 where
  pub state : GlobalState
  pub map : M
  pub reports : List Report

abbrev pub Handled : Type 0 → Type 0
Handled M = Option (Outcome (Unit {0}) × Daemon M)

-- `e.task_id().unwrap_or(-1)`
abbrev pub reported_task_id : ConfigError → ℤ
reported_task_id e = elim (task_id e) [ none ↦ negsuc 0 | some id ↦ id ]

abbrev inner_error : ConfigError → Error
inner_error (task_validation id e) = e
inner_error (config_other e) = e

abbrev config_report : ConfigError → Report
config_report e = internal_error config_parse_failed (reported_task_id e) none none (pos 0)

module _ {M : Type 0} (device : Device) (k : Kernel M) (bpf : Bpf)
    (new_accessor : Outcome (Unit {0})) where
  -- From the execution on: the maps are released after it.
  abbrev release : ResolvedTask → GlobalState → Executed M → Handled M
  release task g none = none
  release task g (some (ok u, m, reports)) =
      let released = cleanup_polled_bpf_maps g task in
      some (released.0, record { state = released.1; map = m; reports = reports })
  release task g (some (err e, m, reports)) =
      some (err e, record { state = g; map = m; reports = reports })
  release task g (some (panicked, m, reports)) =
      some (panicked, record { state = g; map = m; reports = reports })

  abbrev claim : ℕ → ResolvedTask → Daemon M → Outcome (Unit {0}) × GlobalState → Handled M
  claim fuel task d (ok u, g) =
      release task g (execute k bpf new_accessor fuel task d.map d.reports)
  claim fuel task d (err e, g) =
      some (err e, record d { state = g; reports = report_of_task task_conflict task ∷ d.reports })
  claim fuel task d (panicked, g) = some (panicked, record d { state = g })

  abbrev resolved_or_report : ℕ → Daemon M → ConfigResult → Handled M
  resolved_or_report fuel d (Resolved.resolved task) =
      claim fuel task d (update_polled_bpf_maps d.state task)
  resolved_or_report fuel d (Resolved.invalid e) =
      some (err (inner_error e), record d { reports = config_report e ∷ d.reports })
  resolved_or_report fuel d Resolved.config_panicked = some (panicked, d)

  -- From the contents of the configuration file on.
  unfoldable pub handle_tasks : ℕ → Outcome (List ℕ) → Daemon M → Handled M
  unfolding resolve_config update_polled_bpf_maps cleanup_polled_bpf_maps execute
  handle_tasks fuel (ok config_bytes) d =
      resolved_or_report fuel d (resolve_config device config_bytes)
  handle_tasks fuel (err e) d = some (err e, d)
  handle_tasks fuel panicked d = some (panicked, d)
