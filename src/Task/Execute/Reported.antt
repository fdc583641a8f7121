-- ===== src/Task/Execute/Reported.antt =====
-- What an execution that fails reports.
use android_packages_modules.Common.{
  ℕ, pos, Bool, false, Option, none, some, List, [], ◌∷◌, Str, Outcome, ok, err, panicked, Error,
  ◌≡◌, refl, arith, Outcome-cases, inl, inr,
}
use android_packages_modules.Effects.{◌>>◌, for_each}
use android_packages_modules.Config.Resolved.{ResolvedProbe, ResolvedTask}
use android_packages_modules.Poll.{
  Report, ErrorType, internal_error, task_execution_failed, bpf_program_attach_failed,
}
use android_packages_modules.BpfMap.{Kernel}
use android_packages_modules.Task.Filters.{setup_binder_transaction_filters, cleanup_filters}
use android_packages_modules.Task.Attach.{
  Bpf, discard_map, attach_probe, poll_maps, check_errors, attach_probes_and_poll_maps,
}
use android_packages_modules.Task.Attach.Logged.{IsLogged, Stopped, stack, attach-IsLogged}
use android_packages_modules.Task.Execute.{is_reported, report_execution, report_cleanup, execute}

-- An error of the BPF library, which knows nothing of the daemon's own errors.
abbrev pub IsForeign : Outcome Bool → Type 0
IsForeign (ok b) = Unit
IsForeign (err e) = is_reported e ≡ false
IsForeign panicked = Unit

-- The last report is an error of the task: an attachment that failed, or the execution.
abbrev pub EndsInError : ResolvedTask → List Report → Type 0
EndsInError task reports =
    (kind : ErrorType) × (program : Option Str) × (before : List Report) × (reports
      ≡ internal_error kind task.id program none (pos 0) ∷ before)

module _ (bpf : Bpf) (task : ResolvedTask) where
  abbrev ErrorReported : Outcome (Unit {0}) × List Report → Type 0
  ErrorReported (ok u, reports) = Unit
  ErrorReported (err e, reports) = EndsInError task (report_execution task (err e, reports))
  ErrorReported (panicked, reports) = Unit

  plain-ErrorReported :
      (e : Error) (reports : List Report) → is_reported e ≡ false → ErrorReported (err e, reports)
  unfolding report_execution
  plain-ErrorReported e reports h = (task_execution_failed, none, reports, ground (arith, h))

  discard-ErrorReported :
      (paths : List Str) (reports : List Report)
      → ((path : Str) → IsForeign (bpf.bpf_ring_buffer_discard path))
      → ErrorReported (for_each (discard_map bpf task) paths reports)
  unfolding for_each
  discard-ErrorReported [] reports h = tt
  discard-ErrorReported (path ∷ paths) reports h =
      elim (Outcome-cases (bpf.bpf_ring_buffer_discard path)) [
        | inl (b, o) ↦ rw o (discard-ErrorReported paths reports h)
        | inr (inl (e, o)) ↦ rw o (plain-ErrorReported e reports (rw (o, IsForeign) at (h path)))
        | inr (inr o) ↦ rw o tt
      ]

  stop-ErrorReported :
      (e : Error) (probe : ResolvedProbe) (before after : List Report)
      → Stopped bpf task e probe before after
      → ErrorReported (err e, after)
  unfolding report_execution is_reported
  stop-ErrorReported e probe before after (inl (e', q, a)) =
      (bpf_program_attach_failed, some probe.bpf_program_path, before, ground (arith, q, a))
  stop-ErrorReported e probe before after (inr (q, a)) =
      (task_execution_failed, none, after, ground (arith, q))

  logged-ErrorReported :
      (probes : List ResolvedProbe) (before : List Report) (r : Outcome (Unit {0}) × List Report)
      → IsLogged bpf task probes before r
      → ErrorReported r
  logged-ErrorReported probes before (ok u, after) l = tt
  logged-ErrorReported probes before (err e, after) (done, rest, probe, split, stopped) =
      stop-ErrorReported e probe (stack bpf task done before) after stopped
  logged-ErrorReported probes before (panicked, after) l = tt

  checked-ErrorReported : (r : List Error × List Report) → ErrorReported (check_errors bpf task r)
  unfolding report_execution is_reported
  checked-ErrorReported ([], reports) = tt
  checked-ErrorReported (e ∷ es, reports) = (task_execution_failed, none, reports, refl)

  then-ErrorReported :
      (r : Outcome (Unit {0}) × List Report) (next : List Report → Outcome (Unit {0}) × List Report)
      → ErrorReported r
      → ((reports : List Report) → ErrorReported (next reports))
      → ErrorReported (((λ s. r) >> next) [])
  then-ErrorReported (ok u, reports) next h later = later reports
  then-ErrorReported (err e, reports) next h later = h
  then-ErrorReported (panicked, reports) next h later = tt

  attach-ErrorReported :
      (reports : List Report)
      → ((path : Str) → IsForeign (bpf.bpf_ring_buffer_discard path))
      → ErrorReported (attach_probes_and_poll_maps bpf task reports)
  unfolding attach_probes_and_poll_maps
  attach-ErrorReported reports h =
      then-ErrorReported
        ((for_each (discard_map bpf task) task.bpf_map_paths
            >> for_each (attach_probe bpf task) task.resolved_probes)
          reports)
        (λ r. check_errors bpf task (poll_maps bpf task task.bpf_map_paths r))
        (then-ErrorReported (for_each (discard_map bpf task) task.bpf_map_paths reports)
          (for_each (attach_probe bpf task) task.resolved_probes)
          (discard-ErrorReported task.bpf_map_paths reports h)
          (λ r.
            logged-ErrorReported task.resolved_probes r _
              (attach-IsLogged bpf task task.resolved_probes r)))
        (λ r. checked-ErrorReported (poll_maps bpf task task.bpf_map_paths r))

-- No failure of the attachment or of the polling is silent: where the set-up of the filters is done and
-- the discarding fails only with errors of the BPF library, the last report before the filters are
-- drained is an error of the task.
pub execute-EndsInError :
    {M : Type 0} (k : Kernel M) (bpf : Bpf) (task : ResolvedTask) (fuel : ℕ)
    (new_accessor : Outcome (Unit {0})) (opened : Bool) (m m' : M) (reports reports' : List Report)
    (e : Error)
    → ((path : Str) → IsForeign (bpf.bpf_ring_buffer_discard path))
    → setup_binder_transaction_filters k new_accessor fuel task.resolved_probes m
      ≡ some (ok opened, m')
    → attach_probes_and_poll_maps bpf task reports ≡ (err e, reports')
    → (last : List Report) × EndsInError task last
      × (execute k bpf new_accessor fuel task m reports
          ≡ report_cleanup task last (cleanup_filters k fuel opened m'))
unfolding execute
execute-EndsInError k bpf task fuel new_accessor opened m m' reports reports' e h s a = (
  report_execution task (err e, reports'),
  rw (a, ErrorReported) at (attach-ErrorReported bpf task reports h),
  rw s (rw a refl),
)
