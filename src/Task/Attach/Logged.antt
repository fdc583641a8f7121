-- ===== src/Task/Attach/Logged.antt =====
-- The reports of the probes that are attached, and of the one that is not.
use android_packages_modules.Common.{
  pos, to_signed, none, some, List, [], ◌∷◌, ◌++◌, Outcome, ok, err, panicked, Error, other,
  reported_to_statsd, int_conversion, ◌≡◌, refl, Option-cases, inl, inr, ◌⊎◌, ap, subst,
}
use android_packages_modules.Effects.{◌>>◌, for_each}
use android_packages_modules.Config.Resolved.{ResolvedProbe, ResolvedTask}
use android_packages_modules.Poll.{Report, internal_error, bpf_program_attach_failed}
use android_packages_modules.Task.Attach.{
  Reporting, Bpf, write_report, or_report_attach, attached_report, attach_probe,
}

module _ (bpf : Bpf) (task : ResolvedTask) where
  -- One report for each probe, the last one on top.
  abbrev pub stack : List ResolvedProbe → List Report → List Report
  stack [] reports = reports
  stack (probe ∷ probes) reports = stack probes (attached_report bpf task probe ∷ reports)

  abbrev pub attach_failed : ResolvedProbe → Report
  attach_failed probe =
      internal_error bpf_program_attach_failed task.id (some probe.bpf_program_path) none (pos 0)

  -- Why a probe stops the attachment, and what is reported of it.
  abbrev pub Stopped : Error → ResolvedProbe → List Report → List Report → Type 0
  Stopped e probe before after =
      ((e' : Error) × (e ≡ reported_to_statsd e') × (after ≡ attach_failed probe ∷ before))
      ⊎ ((e ≡ other int_conversion) × (after ≡ before))

  abbrev pub IsLogged : List ResolvedProbe → List Report → Outcome (Unit {0}) × List Report → Type 0
  IsLogged probes before (ok u, after) = after ≡ stack probes before
  IsLogged probes before (err e, after) =
      (done rest : List ResolvedProbe) × (probe : ResolvedProbe) × (probes ≡ done ++ (probe ∷ rest))
      × Stopped e probe (stack done before) after
  IsLogged probes before (panicked, after) = Unit

  abbrev One : ResolvedProbe → List Report → Outcome (Unit {0}) × List Report → Type 0
  One probe before (ok u, after) = after ≡ attached_report bpf task probe ∷ before
  One probe before (err e, after) = Stopped e probe before after
  One probe before (panicked, after) = Unit

  attach_probe-One :
      (probe : ResolvedProbe) (before : List Report)
      → One probe before (attach_probe bpf task probe before)
  unfolding attach_probe
  attach_probe-One probe before = elim (Option-cases (to_signed 31 probe.offsets.method_offset)) [
    | inl q ↦ rw q (inr (refl, refl))
    | inr (offset, q) ↦ rw q (
        opened (
          bpf.bpf_perf_event_open probe.offsets.container_path offset task.resolved_process.pid
            probe.bpf_program_path))
  ]
    where
      opened :
          (r : Outcome (Unit {0}))
          → One probe before (
              (or_report_attach bpf task probe r >> write_report (attached_report bpf task probe))
                before)
      opened (ok u) = refl
      opened (err e) = inl (e, refl, refl)
      opened panicked = tt

  one_more :
      (probe : ResolvedProbe) (probes : List ResolvedProbe) (before : List Report)
      (r : Outcome (Unit {0}) × List Report)
      → IsLogged probes (attached_report bpf task probe ∷ before) r
      → IsLogged (probe ∷ probes) before r
  one_more probe probes before (ok u, after) l = l
  one_more probe probes before (err e, after) (done, rest, p, split, stopped) =
      (probe ∷ done, rest, p, ap (◌∷◌ probe) split, stopped)
  one_more probe probes before (panicked, after) l = tt

  before_rest :
      (probe : ResolvedProbe) (probes : List ResolvedProbe) (before : List Report)
      (r : Outcome (Unit {0}) × List Report) (next : Reporting (Unit {0}))
      → One probe before r
      → ((reports : List Report) → IsLogged probes reports (next reports))
      → IsLogged (probe ∷ probes) before (((λ s. r) >> next) before)
  before_rest probe probes before (ok u, after) next one later =
      one_more probe probes before (next after)
        (subst (λ l. IsLogged probes l (next after)) one (later after))
  before_rest probe probes before (err e, after) next one later = ([], probes, probe, refl, one)
  before_rest probe probes before (panicked, after) next one later = tt

  pub attach-IsLogged :
      (probes : List ResolvedProbe) (before : List Report)
      → IsLogged probes before (for_each (attach_probe bpf task) probes before)
  unfolding for_each
  attach-IsLogged [] before = refl
  attach-IsLogged (probe ∷ probes) before =
      before_rest probe probes before (attach_probe bpf task probe before)
        (for_each (attach_probe bpf task) probes) (attach_probe-One probe before)
        (attach-IsLogged probes)
