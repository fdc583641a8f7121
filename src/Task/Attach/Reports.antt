-- ===== src/Task/Attach/Reports.antt =====
-- What attaching and polling reports, and that it does not panic.
use android_packages_modules.Common.{
  ℕ, ℤ, to_signed, List, [], ◌∷◌, Str, Outcome, ok, err, panicked, Error, ok_or, int_conversion,
  ◌≢◌, refl, Outcome-cases, Option-cases, inl, inr,
}
use android_packages_modules.Effects.{◌>>=◌, lift, for_each}
use android_packages_modules.Config.Resolved.{ResolvedProbe, ResolvedTask}
use android_packages_modules.Poll.{Report}
use android_packages_modules.Task.Attach.{
  Reporting, Bpf, discard_map, or_report_attach, attach_probe, poll_maps, check_errors,
  attach_probes_and_poll_maps,
}

-- The calls of the BPF library return.
pub record Returns (bpf : Bpf) : Type 0 where
  pub discard_returns : (map_path : Str) → bpf.bpf_ring_buffer_discard map_path ≢ panicked
  pub attach_returns :
      (path : Str) (offset pid : ℤ) (program : Str)
      → bpf.bpf_perf_event_open path offset pid program ≢ panicked

abbrev Ends : {A : Type 0} → Reporting A → Type 0
Ends m = (reports : List Report) → (m reports).0 ≢ panicked

then-Ends :
    {A B : Type 0} (m : Reporting A) (f : A → Reporting B)
    → Ends m
    → ((a : A) → Ends (f a))
    → Ends (m >>= f)
then-Ends m f hm hf reports = elim (Outcome-cases (m reports).0) [
  | inl (a, o) ↦ rw o (hf a (m reports).1)
  | inr (inl (e, o)) ↦ rw o (λ q. cc q)
  | inr (inr o) ↦ absurd (hm reports o)
]

for_each-Ends :
    {A : Type 0} (body : A → Reporting (Unit {0})) (xs : List A)
    → ((x : A) → Ends (body x))
    → Ends (for_each body xs)
unfolding for_each
for_each-Ends body [] h reports = λ q. cc q
for_each-Ends body (x ∷ xs) h reports =
    then-Ends (body x) (λ u. for_each body xs) (h x) (λ u. for_each-Ends body xs h) reports

module _ (bpf : Bpf) (task : ResolvedTask) (returns : Returns bpf) where
  offset-Ends : (n : ℕ) → Ends (lift (ok_or (to_signed 31 n) int_conversion))
  offset-Ends n reports = elim (Option-cases (to_signed 31 n)) [
    | inl q ↦ rw q (λ e. cc e)
    | inr (i, q) ↦ rw q (λ e. cc e)
  ]

  or_report_attach-Ends :
      (probe : ResolvedProbe) (r : Outcome (Unit {0}))
      → r ≢ panicked
      → Ends (or_report_attach bpf task probe r)
  or_report_attach-Ends probe (ok u) h reports = λ e. cc e
  or_report_attach-Ends probe (err x) h reports = λ e. cc e
  or_report_attach-Ends probe panicked h reports = absurd (h refl)

  attach_probe-Ends : (probe : ResolvedProbe) → Ends (attach_probe bpf task probe)
  unfolding attach_probe
  attach_probe-Ends probe =
      then-Ends (lift (ok_or (to_signed 31 probe.offsets.method_offset) int_conversion)) _
        (offset-Ends probe.offsets.method_offset)
        (λ offset.
          then-Ends (or_report_attach bpf task probe _) _
            (or_report_attach-Ends probe _ (
              returns.attach_returns probe.offsets.container_path offset task.resolved_process.pid
                probe.bpf_program_path))
            (λ u reports e. cc e))

  check_errors-ends : (r : List Error × List Report) → (check_errors bpf task r).0 ≢ panicked
  check_errors-ends ([], reports) = λ q. cc q
  check_errors-ends (e ∷ es, reports) = λ q. cc q

  -- Where the library's calls return, attaching and polling does too: the panic of a thread that polls
  -- is an error.
  pub attach_probes_and_poll_maps-Ends :
      (reports : List Report) → (attach_probes_and_poll_maps bpf task reports).0 ≢ panicked
  unfolding attach_probes_and_poll_maps
  attach_probes_and_poll_maps-Ends =
      then-Ends _ _
        (then-Ends _ _
          (for_each-Ends (discard_map bpf task) task.bpf_map_paths (λ map_path.
            then-Ends (lift (bpf.bpf_ring_buffer_discard map_path)) _
              (λ reports. returns.discard_returns map_path) (λ b reports e. cc e)))
          (λ u. for_each-Ends (attach_probe bpf task) task.resolved_probes attach_probe-Ends))
        (λ u reports. check_errors-ends (poll_maps bpf task task.bpf_map_paths reports))
