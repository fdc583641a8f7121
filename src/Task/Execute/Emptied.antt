-- ===== src/Task/Execute/Emptied.antt =====
-- The map of the filters after a task.
use android_packages_modules.Common.{
  ℕ, ◌<◌, Bool, true, false, Option, none, some, List, [], Outcome, ok, err, panicked, All, ◌≡◌,
  ◌≢◌, refl, arith,
}
use android_packages_modules.Config.Resolved.{ResolvedTask}
use android_packages_modules.Poll.{Report}
use android_packages_modules.BpfMap.{Kernel}
use android_packages_modules.BpfMap.Drain.{IsHealthy, drain-empties}
use android_packages_modules.Task.Filters.{setup_binder_transaction_filters, cleanup_filters}
use android_packages_modules.Task.Filters.Written.{
  AreShort, count_filters, SetUp, setup_binder_transaction_filters-SetUp,
}
use android_packages_modules.Task.Filters.Drainable.{IsInserting, IsDrainable}
use android_packages_modules.Task.Attach.{Bpf, attach_probes_and_poll_maps}
use android_packages_modules.Task.Attach.Reports.{Returns, attach_probes_and_poll_maps-Ends}
use android_packages_modules.Task.Execute.{
  Executed, report_cleanup, execute_with, after_setup, execute,
}

module _ {M : Type 0} (k : Kernel M) (keys : M → List (List ℕ)) where
  -- The execution has returned, with no key in the map.
  abbrev pub IsEmptied : Executed M → Type 0
  IsEmptied none = ⊥
  IsEmptied (some (ok u, m, reports)) = keys m ≡ []
  IsEmptied (some (err e, m, reports)) = ⊥
  IsEmptied (some (panicked, m, reports)) = ⊥

  abbrev Cleaned : Option (Outcome (Unit {0}) × M) → Type 0
  Cleaned none = ⊥
  Cleaned (some (r, m)) = (r ≡ ok tt) × (keys m ≡ [])

  report_cleanup-IsEmptied :
      (task : ResolvedTask) (reports : List Report) (r : Option (Outcome (Unit {0}) × M))
      → Cleaned r
      → IsEmptied (report_cleanup task reports r)
  report_cleanup-IsEmptied task reports none h = absurd h
  report_cleanup-IsEmptied task reports (some (ok u, m)) h = h.1
  report_cleanup-IsEmptied task reports (some (err e, m)) h = absurd (cc (h.0))
  report_cleanup-IsEmptied task reports (some (panicked, m)) h = absurd (cc (h.0))

  module _ (bpf : Bpf) (task : ResolvedTask) (fuel : ℕ) where
    execute_with-IsEmptied :
        (opened : Bool) (m : M) (r : Outcome (Unit {0}) × List Report)
        → r.0 ≢ panicked
        → Cleaned (cleanup_filters k fuel opened m)
        → IsEmptied (execute_with k bpf fuel task opened m r)
    execute_with-IsEmptied opened m (ok u, reports) h c =
        report_cleanup-IsEmptied task _ (cleanup_filters k fuel opened m) c
    execute_with-IsEmptied opened m (err e, reports) h c =
        report_cleanup-IsEmptied task _ (cleanup_filters k fuel opened m) c
    execute_with-IsEmptied opened m (panicked, reports) h c = absurd (h refl)

    cleanup-Cleaned :
        (total : ℕ) (m : M)
        → IsHealthy k keys
        → total < fuel
        → IsDrainable total (keys m)
        → Cleaned (cleanup_filters k fuel true m)
    unfolding cleanup_filters
    cleanup-Cleaned total m healthy h d =
        let (m', q, z) = drain-empties k keys fuel m healthy d.0 d.1 (omega (arith, d.2)) in
        rw q (refl, z)

    after_setup-IsEmptied :
        (inserting : IsInserting k keys) (total : ℕ) (reports : List Report)
        (r : Option (Outcome Bool × M))
        → IsHealthy k keys
        → Returns bpf
        → total < fuel
        → SetUp k keys inserting total r
        → IsEmptied (after_setup k bpf fuel task reports r)
    unfolding cleanup_filters
    after_setup-IsEmptied inserting total reports none healthy returns h s = absurd s
    after_setup-IsEmptied inserting total reports (some (ok true, m)) healthy returns h s =
        execute_with-IsEmptied true m (attach_probes_and_poll_maps bpf task reports)
          (attach_probes_and_poll_maps-Ends bpf task returns reports)
          (cleanup-Cleaned total m healthy h s)
    after_setup-IsEmptied inserting total reports (some (ok false, m)) healthy returns h s =
        execute_with-IsEmptied false m (attach_probes_and_poll_maps bpf task reports)
          (attach_probes_and_poll_maps-Ends bpf task returns reports) (refl, s)
    after_setup-IsEmptied inserting total reports (some (err e, m)) healthy returns h s = s
    after_setup-IsEmptied inserting total reports (some (panicked, m)) healthy returns h s =
        absurd s

-- A task that starts with no filter in the map ends with none: on a kernel that inserts and drains as
-- described, where opening the map and the BPF library's calls return, and with interface names that fit
-- in the keys, the execution returns, given more fuel than there are filters, whatever fails in it and
-- whatever the threads that poll do.
pub execute-IsEmptied :
    {M : Type 0} (k : Kernel M) (keys : M → List (List ℕ)) (inserting : IsInserting k keys)
    (bpf : Bpf) (task : ResolvedTask) (fuel : ℕ) (new_accessor : Outcome (Unit {0})) (m : M)
    (reports : List Report)
    → IsHealthy k keys
    → Returns bpf
    → new_accessor ≢ panicked
    → All (λ p. AreShort p.binder_transaction_filters) task.resolved_probes
    → count_filters task.resolved_probes < fuel
    → keys m ≡ []
    → IsEmptied k keys (execute k bpf new_accessor fuel task m reports)
unfolding execute
execute-IsEmptied k keys inserting bpf task fuel new_accessor m reports healthy returns opens short
      h z =
    after_setup-IsEmptied k keys bpf task fuel inserting (count_filters task.resolved_probes)
      reports (setup_binder_transaction_filters k new_accessor fuel task.resolved_probes m) healthy
      returns h
      (setup_binder_transaction_filters-SetUp k keys inserting new_accessor fuel
        task.resolved_probes m healthy opens short h z)
