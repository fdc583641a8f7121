-- ===== src/Task/Attach.antt =====
-- Step 3b of daemon/android/task.rs: `attach_probes_and_poll_maps`. The calls of
-- daemon/ffi/bpf/bpf.rs and the threads that poll are parameters; the reports of the threads are taken
-- in the order in which the threads are spawned.
pub mod Reports
pub mod Logged
use android_packages_modules.Common.{
  ℕ, ℤ, pos, to_signed, Bool, true, false, Option, none, some, List, [], ◌∷◌, ◌++◌, Str, Outcome,
  ok, err, panicked, Error, other, reported_to_statsd, ok_or, int_conversion, thread_errors,
  thread_error, thread_panic,
}
use android_packages_modules.Effects.{Eff, ◌>>=◌, ◌>>◌, pure, lift, for_each}
use android_packages_modules.Config.Resolved.{ResolvedProbe, ResolvedTask, Duration}
use android_packages_modules.Poll.{Report, internal_error, bpf_attached, bpf_program_attach_failed}

abbrev pub Reporting : Type 0 → Type 0
Reporting A = Eff (List Report) A

-- What the BPF library and the registry of handlers do.
pub record Bpf : Type 0 where
  pub bpf_ring_buffer_discard : Str → Outcome Bool
  pub bpf_perf_event_open : Str → ℤ → ℤ → Str → Outcome (Unit {0})
  pub poll_registry : Str → ResolvedTask → Duration → Reporting (Unit {0})

abbrev pub write_report : Report → Reporting (Unit {0})
write_report report reports = (ok tt, report ∷ reports)

abbrev pub none_failed : List Error → Bool
none_failed [] = true
none_failed (e ∷ es) = false

module _ (bpf : Bpf) (task : ResolvedTask) where
  -- `bpf_ring_buffer_discard(map_path)?`, whose answer is only logged
  abbrev pub discard_map : Str → Reporting (Unit {0})
  discard_map map_path = lift (bpf.bpf_ring_buffer_discard map_path) >> pure tt

  -- `map_err` on the result of the attachment
  abbrev pub or_report_attach : ResolvedProbe → Outcome (Unit {0}) → Reporting (Unit {0})
  or_report_attach probe (ok fd) reports = (ok tt, reports)
  or_report_attach probe (err e) reports = (
    err (reported_to_statsd e),
    internal_error bpf_program_attach_failed task.id (some probe.bpf_program_path) none (pos 0)
        ∷ reports,
  )
  or_report_attach probe panicked reports = (panicked, reports)

  abbrev pub attached_report : ResolvedProbe → Report
  attached_report probe =
      bpf_attached probe.bpf_program_path probe.method_descriptor.fully_qualified_class_name
        probe.method_descriptor.method_name task.resolved_process.name task.id

  -- The closure over the probes.
  unfoldable pub attach_probe : ResolvedProbe → Reporting (Unit {0})
  attach_probe probe = do
    offset ← lift (ok_or (to_signed 31 probe.offsets.method_offset) int_conversion)
    or_report_attach probe (
        bpf.bpf_perf_event_open probe.offsets.container_path offset task.resolved_process.pid
          probe.bpf_program_path)
    write_report (attached_report probe)

  -- The error of a joined thread, a panic included.
  abbrev pub join : Outcome (Unit {0}) → List Error → List Error
  join (ok u) errors = errors
  join (err e) errors = other thread_error ∷ errors
  join panicked errors = other thread_panic ∷ errors

  unfoldable pub poll_maps : List Str → List Report → List Error × List Report
  poll_maps [] reports = ([], reports)
  poll_maps (map_path ∷ map_paths) reports =
      let polled = bpf.poll_registry map_path task task.duration reports in
      let rest = poll_maps map_paths polled.1 in (join polled.0 rest.0, rest.1)

  abbrev pub check_errors : List Error × List Report → Outcome (Unit {0}) × List Report
  check_errors ([], reports) = (ok tt, reports)
  check_errors (e ∷ es, reports) = (err (other thread_errors), reports)

  unfoldable pub attach_probes_and_poll_maps : Reporting (Unit {0})
  unfolding for_each attach_probe poll_maps
  attach_probes_and_poll_maps =
      for_each discard_map task.bpf_map_paths
      >> for_each attach_probe task.resolved_probes
      >> λ reports. check_errors (poll_maps task.bpf_map_paths reports)
