-- ===== src/Task/Execute.antt =====
-- Step 3 of daemon/android/task.rs: `execute`, which sets the filters up, attaches and polls, and
-- drains the filters.
pub mod Emptied
pub mod Reported
use android_packages_modules.Common.{
  ℕ, ℤ, pos, Bool, true, false, Option, none, some, List, [], ◌∷◌, Outcome, ok, err, panicked,
  Error, bpf_program_error, bpf_data_invalid, reported_to_statsd, other,
}
use android_packages_modules.Config.Resolved.{ResolvedTask}
use android_packages_modules.BpfMap.{Kernel}
use android_packages_modules.Poll.{
  Report, ErrorType, internal_error, task_execution_failed, binder_filter_setup_failed,
  binder_filter_cleanup_failed,
}
use android_packages_modules.Task.Filters.{setup_binder_transaction_filters, cleanup_filters}
use android_packages_modules.Task.Attach.{Bpf, attach_probes_and_poll_maps}

-- `e.is::<ReportedToStatsd>() || e.is::<UprobeStatsError>()`
unfoldable pub is_reported : Error → Bool
is_reported (reported_to_statsd e) = true
is_reported (bpf_program_error point) = true
is_reported (bpf_data_invalid point) = true
is_reported (other cause) = false

abbrev pub report_of_task : ErrorType → ResolvedTask → Report
report_of_task kind task = internal_error kind task.id none none (pos 0)

abbrev report_unless : Bool → Report → List Report → List Report
report_unless true report reports = reports
report_unless false report reports = report ∷ reports

-- The reports after the arm for `attach_probes_and_poll_maps`.
unfoldable pub report_execution : ResolvedTask → Outcome (Unit {0}) × List Report → List Report
unfolding is_reported
report_execution task (ok u, reports) = reports
report_execution task (err e, reports) =
    report_unless (is_reported e) (report_of_task task_execution_failed task) reports
report_execution task (panicked, reports) = reports

-- `execute` returns no value: a panic is told apart, and `none` is fuel that ran out.
abbrev pub Executed : Type 0 → Type 0
Executed M = Option (Outcome (Unit {0}) × M × List Report)

-- The end of `cleanup_binder_transaction_filters`.
abbrev pub report_cleanup :
    {M : Type 0} → ResolvedTask → List Report → Option (Outcome (Unit {0}) × M) → Executed M
report_cleanup task reports none = none
report_cleanup task reports (some (ok u, m)) = some (ok tt, m, reports)
report_cleanup task reports (some (err e, m)) =
    some (ok tt, m, report_of_task binder_filter_cleanup_failed task ∷ reports)
report_cleanup task reports (some (panicked, m)) = some (panicked, m, reports)

module _ {M : Type 0} (k : Kernel M) (bpf : Bpf) where
  -- The `Ok` arm, which a panic leaves before the filters are drained.
  abbrev pub execute_with :
      ℕ → ResolvedTask → Bool → M → Outcome (Unit {0}) × List Report → Executed M
  execute_with fuel task opened m (panicked, reports) = some (panicked, m, reports)
  execute_with fuel task opened m (ok u, reports) =
      report_cleanup task (report_execution task (ok u, reports)) (cleanup_filters k fuel opened m)
  execute_with fuel task opened m (err e, reports) =
      report_cleanup task (report_execution task (err e, reports)) (cleanup_filters k fuel opened m)

  abbrev pub after_setup : ℕ → ResolvedTask → List Report → Option (Outcome Bool × M) → Executed M
  after_setup fuel task reports none = none
  after_setup fuel task reports (some (ok opened, m)) =
      execute_with fuel task opened m (attach_probes_and_poll_maps bpf task reports)
  after_setup fuel task reports (some (err e, m)) =
      some (ok tt, m, report_of_task binder_filter_setup_failed task ∷ reports)
  after_setup fuel task reports (some (panicked, m)) = some (panicked, m, reports)

  unfoldable pub execute : Outcome (Unit {0}) → ℕ → ResolvedTask → M → List Report → Executed M
  unfolding setup_binder_transaction_filters attach_probes_and_poll_maps cleanup_filters
      report_execution
  execute new_accessor fuel task m reports =
      after_setup fuel task reports
        (setup_binder_transaction_filters k new_accessor fuel task.resolved_probes m)
