-- ===== src/Resolver/Process/Located.antt =====
-- Where a process that is resolved comes from.
use android_packages_modules.Common.{
  ℕ, ℤ, pos, to_signed, int_eq, true, false, Option, none, some, List, Str, codes, list_eq, ◌==◌,
  list_beq_iff, ok, ok_or, int_conversion, pid_not_found, >>=-eq-ok, ◌≡◌, ◌≢◌, ◌⊎◌, refl, arith,
  sym, Bool-cases, inl, inr,
}
use android_packages_modules.Config.Resolved.{Duration, ResolvedProcess, TargetProcessSelection}
use android_packages_modules.Config.Resolved
use android_packages_modules.Resolver.Proc.{ProcEntry, get_pid}
use android_packages_modules.Resolver.Proc.First.{Found, get_pid-Found}
use android_packages_modules.Resolver.Observer.{
  ObserverCall, RunningApp, get_running_process_pid_uid,
}
use android_packages_modules.Resolver.Observer.Observed.{
  IsWanted, Observed, wait_for_app_start_observer-Observed, Runs, get_running-Runs,
}
use android_packages_modules.Resolver.Uprobe.{is_wanted}
use android_packages_modules.Resolver.Uprobe.Ends.{Polled, wait_for_app_start_uprobe-Polled}
use android_packages_modules.Resolver.Process.{
  Platform, wait_for_app_start, resolve_running, by_name, resolve_process,
}

module _ (platform : Platform) where
  -- A start that is wanted: the first one that the observer reports, or a change that a poll gave.
  abbrev pub HasStarted : Option Str → ResolvedProcess → Type 0
  HasStarted name resolved =
      ((platform.use_process_observer_api ≡ true) × Observed name platform.observer.starts resolved)
      ⊎ ((platform.use_process_observer_api ≡ false)
          × Polled platform.process_changes name resolved
          × IsWanted name resolved.name)

  -- The system server is found in /proc, any other process in the list of running processes.
  abbrev pub IsRunning : Str → ResolvedProcess → Type 0
  IsRunning target resolved =
      (resolved.name ≡ target)
      × (((target ≡ codes "system_server")
            × ((entries : List (Option ProcEntry)) × (platform.proc ≡ some entries)
                × Found platform.from_utf8_lossy target entries resolved.pid)
            × (resolved.uid ≡ pos platform.aid_system))
          ⊎ ((target ≢ codes "system_server")
              × ((apps : List (Option RunningApp)) × (uid : ℕ) × (platform.running_apps
                    ≡ (pos 0, some apps))
                  × Runs platform.from_utf8_lossy target apps resolved.pid uid
                  × (resolved.uid ≡ pos uid))))

  abbrev pub IsNamedRunning : Option Str → ResolvedProcess → Type 0
  IsNamedRunning name resolved = (target : Str) × (name ≡ some target) × IsRunning target resolved

  abbrev pub IsLocated : Option Str → TargetProcessSelection → ResolvedProcess → Type 0
  IsLocated name Resolved.specific_app_process_on_start resolved = HasStarted name resolved
  IsLocated name Resolved.any_app_process_on_start resolved = HasStarted none resolved
  IsLocated name Resolved.specific_process_name resolved = IsNamedRunning name resolved
  IsLocated name TargetProcessSelection.unknown resolved = IsNamedRunning name resolved

is_wanted-IsWanted : (name : Option Str) (s : Str) → is_wanted name s ≡ true → IsWanted name s
unfolding is_wanted
is_wanted-IsWanted none s e = tt
is_wanted-IsWanted (some target) s e = sym ((list_beq_iff target s).0 e)

to_i32_lem : (n : ℕ) (z : ℤ) → ok_or (to_signed 31 n) int_conversion ≡ ok z → z ≡ pos n
unfolding to_signed
to_i32_lem n z e = ground (arith, e)

get_pid_proc :
    (from_utf8_lossy : List ℕ → Str) (target : Str) (proc : Option (List (Option ProcEntry)))
    (pid : ℤ)
    → get_pid from_utf8_lossy target proc ≡ some pid
    → (entries : List (Option ProcEntry)) × (proc ≡ some entries)
      × Found from_utf8_lossy target entries pid
unfolding get_pid
get_pid_proc from_utf8_lossy target none pid e = absurd (cc e)
get_pid_proc from_utf8_lossy target (some entries) pid e =
    (entries, refl, get_pid-Found from_utf8_lossy target entries pid e)

module _ (platform : Platform) where
  wait-HasStarted :
      (name : Option Str) (duration : Duration) (fuel : ℕ) (log log' : List ObserverCall)
      (resolved : ResolvedProcess)
      → wait_for_app_start platform name duration fuel log ≡ some (ok resolved, log')
      → HasStarted platform name resolved
  unfolding wait_for_app_start
  wait-HasStarted name duration fuel log log' resolved e =
      elim (Bool-cases platform.use_process_observer_api) [
        | inl f ↦ inl (
          f,
          wait_for_app_start_observer-Observed platform.observer name log log' resolved
              (ground (arith, rw f at e)),
        )
        | inr f ↦
            let p =
              wait_for_app_start_uprobe-Polled platform.binder platform.from_utf8_lossy
                platform.manager platform.perf_event_open platform.process_changes
                (get_pid platform.from_utf8_lossy (codes "system_server") platform.proc) name
                duration fuel resolved (ground (arith, rw f at e)) in
            let (round, timeout, changes, change, q, i, s) = p in
            inr (f, p, is_wanted-IsWanted name resolved.name s.4)
      ]

  resolve_running-IsRunning :
      (target : Str) (resolved : ResolvedProcess)
      → resolve_running platform target ≡ ok resolved
      → IsRunning platform target resolved
  unfolding resolve_running
  resolve_running-IsRunning target resolved e =
      elim (Bool-cases (target == codes "system_server")) [
        | inl q ↦
            let (pid, p, rest) =
              >>=-eq-ok
                (ok_or (get_pid platform.from_utf8_lossy target platform.proc) pid_not_found) _
                (rw q at e) in
            let (uid, u, last) =
              >>=-eq-ok (ok_or (to_signed 31 platform.aid_system) int_conversion) _ rest in
            let is : record { pid = pid; uid = uid; name = target } ≡ resolved =
              ground (arith, last) in
            let found =
              get_pid_proc platform.from_utf8_lossy target platform.proc pid (ground (arith, p)) in
            rw (← is) (
              refl,
              inl (
                (list_beq_iff target (codes "system_server")).0 q,
                found,
                to_i32_lem platform.aid_system uid u,
              ),
            )
        | inr q ↦
            let (running, p, rest) =
              >>=-eq-ok
                (get_running_process_pid_uid platform.from_utf8_lossy platform.running_apps target)
                _ (rw q at e) in
            let (uid, u, last) = >>=-eq-ok (ok_or (to_signed 31 running.1) int_conversion) _ rest in
            let is : record { pid = running.0; uid = uid; name = target } ≡ resolved =
              ground (arith, last) in
            let (apps, a, runs) =
              get_running-Runs platform.from_utf8_lossy target platform.running_apps running.0
                running.1 p in
            rw (← is) (
              refl,
              inr (
                (λ same. ground (arith, q, (list_beq_iff target (codes "system_server")).1 same)),
                (apps, running.1, a, runs, to_i32_lem running.1 uid u),
              ),
            )
      ]

  by_name-IsNamedRunning :
      (name : Option Str) (resolved : ResolvedProcess)
      → by_name platform name ≡ ok resolved
      → IsNamedRunning platform name resolved
  by_name-IsNamedRunning none resolved e = absurd (cc e)
  by_name-IsNamedRunning (some target) resolved e =
      (target, refl, resolve_running-IsRunning target resolved e)

-- A process that is resolved is the one that the task selects. On a start, it is the first start that the
-- observer reports of a process with the name asked for (or of any process), or, without the observer,
-- one that a poll gave, with that name. Else a name is given and the process has it: the system server is
-- the first entry of /proc that qualifies by `get_pid`, whose command line begins with the name, with the
-- system's uid, and any other is the first entry of the list of running processes whose name is the one
-- asked for, with the entry's pid and uid.
pub resolve_process-IsLocated :
    (platform : Platform) (name : Option Str) (selection : TargetProcessSelection)
    (duration : Duration) (fuel : ℕ) (log log' : List ObserverCall) (resolved : ResolvedProcess)
    → resolve_process platform name selection duration fuel log ≡ some (ok resolved, log')
    → IsLocated platform name selection resolved
unfolding resolve_process
resolve_process-IsLocated platform name Resolved.specific_app_process_on_start duration fuel log
      log' resolved e =
    wait-HasStarted platform name duration fuel log log' resolved e
resolve_process-IsLocated platform name Resolved.any_app_process_on_start duration fuel log log'
      resolved e =
    wait-HasStarted platform none duration fuel log log' resolved e
resolve_process-IsLocated platform name Resolved.specific_process_name duration fuel log log'
      resolved e =
    by_name-IsNamedRunning platform name resolved (ground (arith, e))
resolve_process-IsLocated platform name TargetProcessSelection.unknown duration fuel log log'
      resolved e =
    by_name-IsNamedRunning platform name resolved (ground (arith, e))
