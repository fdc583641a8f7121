-- ===== src/Resolver/Process.antt =====
-- `ProcessResolverImpl::resolve_process` and `wait_for_app_start` of daemon/android/process.rs.
pub mod Located
use android_packages_modules.Common.{
  ℕ, ℤ, to_signed, Bool, Option, none, some, List, Str, codes, list_eq, ◌==◌, Outcome, ok, err,
  other, ◌>>=◌, ok_or, int_conversion, pid_not_found, process_name_required, if◌then◌else◌,
}
use android_packages_modules.Config.Resolved.{Duration, ResolvedProcess, TargetProcessSelection}
use android_packages_modules.Config.Resolved
use android_packages_modules.Poll.{RingBuffer}
use android_packages_modules.Resolver.Manager.{Binder, Manager}
use android_packages_modules.Resolver.Proc.{ProcEntry, get_pid}
use android_packages_modules.Resolver.Observer.{
  ObserverApi, ObserverCall, RunningApps, get_running_process_pid_uid, wait_for_app_start_observer,
}
use android_packages_modules.Resolver.Uprobe.{
  ProcessChange, PerfEventOpen, wait_for_app_start_uprobe,
}

-- What the resolver is given by the platform.
pub record Platform : Type 1 where
  pub use_process_observer_api : Bool
  pub binder : Binder
  pub manager : Manager
  pub perf_event_open : PerfEventOpen
  pub process_changes : RingBuffer ProcessChange
  pub observer : ObserverApi
  pub running_apps : RunningApps
  pub proc : Option (List (Option ProcEntry))
  pub from_utf8_lossy : List ℕ → Str
  pub aid_system : ℕ

-- The result with the calls of the observer, or `none` where the fuel ran out.
abbrev pub Resolution : Type 0
Resolution = Option (Outcome ResolvedProcess × List ObserverCall)

abbrev with_log : List ObserverCall → Option (Outcome ResolvedProcess) → Resolution
with_log log none = none
with_log log (some r) = some (r, log)

module _ (platform : Platform) where
  unfoldable pub wait_for_app_start : Option Str → Duration → ℕ → List ObserverCall → Resolution
  wait_for_app_start process_name duration fuel log =
      if platform.use_process_observer_api
      then some (wait_for_app_start_observer platform.observer process_name log)
      else with_log log (
          wait_for_app_start_uprobe platform.binder platform.from_utf8_lossy platform.manager
            platform.perf_event_open platform.process_changes
            (get_pid platform.from_utf8_lossy (codes "system_server") platform.proc) process_name
            duration fuel)

  -- The last arm, from the name on.
  unfoldable pub resolve_running : Str → Outcome ResolvedProcess
  resolve_running process_name =
      if process_name == codes "system_server"
      then (do
        pid ← ok_or (get_pid platform.from_utf8_lossy process_name platform.proc) pid_not_found
        uid ← ok_or (to_signed 31 platform.aid_system) int_conversion
        ok (record { pid = pid; uid = uid; name = process_name }))
      else (do
        found ←
            get_running_process_pid_uid platform.from_utf8_lossy platform.running_apps process_name
        uid ← ok_or (to_signed 31 found.1) int_conversion
        ok (record { pid = found.0; uid = uid; name = process_name }))

  abbrev pub by_name : Option Str → Outcome ResolvedProcess
  by_name name = ok_or name process_name_required >>= resolve_running

  unfoldable pub resolve_process :
      Option Str → TargetProcessSelection → Duration → ℕ → List ObserverCall → Resolution
  unfolding resolve_running wait_for_app_start
  resolve_process name Resolved.specific_app_process_on_start duration fuel log =
      wait_for_app_start name duration fuel log
  resolve_process name Resolved.any_app_process_on_start duration fuel log =
      wait_for_app_start none duration fuel log
  resolve_process name Resolved.specific_process_name duration fuel log = some (by_name name, log)
  resolve_process name TargetProcessSelection.unknown duration fuel log = some (by_name name, log)
