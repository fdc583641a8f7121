-- ===== src/Resolver/Observer.antt =====
-- Process starts by the observer API, and the running processes: `AppStartObserver` and
-- `wait_for_app_start_observer` of daemon/android/process.rs, over
-- daemon/ffi/activity_manager/activity_manager.rs. What the C functions return is a parameter; the
-- calls that make and destroy the observer are logged, the last one first.
pub mod First
pub mod Observed
use android_packages_modules.Common.{
  ℕ, ℤ, pos, int_eq, as_signed, Bool, true, false, not, Option, none, some, List, [], ◌∷◌, ◌++◌,
  Str, list_eq, ◌==◌, Outcome, ok, err, panicked, other, start_timeout, observer_not_created,
  observer_not_registered, running_apps_unavailable, running_apps_null, process_not_running,
  if◌then◌else◌,
}
use android_packages_modules.Effects.{Eff, ◌>>=◌, ◌>>◌, pure, lift, raise, when}
use android_packages_modules.Strings.{is_utf8}
use android_packages_modules.Config.Resolved.{ResolvedProcess}

-- A call of the C callback; the names are the bytes before the NUL.
pub record Start : Type 0 where
  pub pid : ℤ
  pub process_uid : ℕ
  pub package_uid : ℕ
  pub package_name : List ℕ
  pub process_name : List ℕ

-- `CStr::to_str` and `unwrap_or_default`
unfoldable pub to_str_or_default : List ℕ → Str
to_str_or_default bytes = if is_utf8 bytes then bytes else []

-- The messages in the channel, the first one first.
abbrev pub Channel : Type 0
Channel = List ResolvedProcess

-- `AppStartObserver::on_process_started`
unfoldable pub on_process_started : Option Str → ℤ → ℕ → ℕ → Str → Str → Channel → Channel
unfolding as_signed
on_process_started target_process_name pid process_uid package_uid package_name process_name sent =
    let resolved : ResolvedProcess = record {
      pid = pid;
      uid = as_signed 31 process_uid;
      name = process_name;
    } in
    elim target_process_name [
      | none ↦ sent ++ (resolved ∷ [])
      | some target_name ↦
          if not (target_name == process_name) then sent else sent ++ (resolved ∷ [])
    ]

unfoldable pub on_process_started_trampoline : Option Str → Start → Channel → Channel
unfolding on_process_started to_str_or_default
on_process_started_trampoline target_process_name start sent =
    on_process_started target_process_name start.pid start.process_uid start.package_uid
      (to_str_or_default start.package_name) (to_str_or_default start.process_name) sent

-- The callbacks of some starts, in their order.
unfoldable pub observe : Option Str → List Start → Channel → Channel
unfolding on_process_started_trampoline
observe target_process_name [] sent = sent
observe target_process_name (start ∷ starts) sent =
    observe target_process_name starts
      (on_process_started_trampoline target_process_name start sent)

pub data ObserverCall : Type 0 where
  create_observer set_callbacks register_observer destroy_observer : ObserverCall

-- Whether the observer is created, the status of its registration, and the callbacks that come before
-- the timeout.
pub record ObserverApi : Type 0 where
  pub created : Bool
  pub registration : ℤ
  pub starts : List Start

abbrev pub log_call : ObserverCall → Eff (List ObserverCall) (Unit {0})
log_call call log = (ok tt, call ∷ log)

-- The test of the status: an observer that is not registered is destroyed.
abbrev registered : Bool → Eff (List ObserverCall) (Unit {0})
registered true = pure tt
registered false = log_call destroy_observer >> raise (other observer_not_registered)

-- `ProcessObserver::register`
unfoldable pub register : ObserverApi → Eff (List ObserverCall) (Unit {0})
register api =
    if not api.created
    then raise (other observer_not_created)
    else log_call create_observer
      >> log_call set_callbacks
      >> log_call register_observer
      >> registered (api.registration == pos 0)

-- `Receiver::recv_timeout`
abbrev pub receive : Channel → Outcome ResolvedProcess
receive [] = err (other start_timeout)
receive (resolved ∷ rest) = ok resolved

-- The observer is dropped at the end, whatever was received.
unfoldable pub wait_for_app_start_observer :
    ObserverApi → Option Str → Eff (List ObserverCall) ResolvedProcess
unfolding register observe
wait_for_app_start_observer api process_name = do
  register api
  log_call destroy_observer
  lift (receive (observe process_name api.starts []))

-- An entry of the list of running processes, with `none` for a null name.
pub record RunningApp : Type 0 where
  pub process_name : Option (List ℕ)
  pub pid : ℤ
  pub uid : ℕ

-- The loop of `get_running_process_pid_uid`; a null entry is `none`.
unfoldable pub find_running : (List ℕ → Str) → Str → List (Option RunningApp) → Outcome (ℤ × ℕ)
find_running to_string_lossy target [] = err (other process_not_running)
find_running to_string_lossy target (none ∷ apps) = find_running to_string_lossy target apps
find_running to_string_lossy target (some app ∷ apps) =
    let rest = find_running to_string_lossy target apps in
    elim app.process_name [
      | none ↦ rest
      | some name ↦ if to_string_lossy name == target then ok (app.pid, app.uid) else rest
    ]

-- The status of the C call and the list that it leaves, `none` for null.
abbrev pub RunningApps : Type 0
RunningApps = ℤ × Option (List (Option RunningApp))

unfoldable pub get_running_process_pid_uid : (List ℕ → Str) → RunningApps → Str → Outcome (ℤ × ℕ)
unfolding find_running
get_running_process_pid_uid to_string_lossy (status, apps) target =
    if not (status == pos 0) then err (other running_apps_unavailable) else elim apps [
      | none ↦ err (other running_apps_null)
      | some list ↦ find_running to_string_lossy target list
    ]
