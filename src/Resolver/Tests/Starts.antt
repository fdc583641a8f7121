-- ===== src/Resolver/Tests/Starts.antt =====
-- Processes that are found on a small device.
use android_packages_modules.Common.{
  ℕ, ◌+◌, ◌*◌, ℤ, pos, negsuc, to_signed, true, false, Option, none, some, List, [], ◌∷◌, ◌++◌, map,
  codes, starts_with, list_beq, list_eq, ok, ◌≡◌, refl, arith, contains,
}
use android_packages_modules.Strings.{is_utf8, until_nul, bytes_as_str}
use android_packages_modules.Config.Resolved.{ResolvedProcess}
use android_packages_modules.Config.Resolved
use android_packages_modules.Poll.{RingBuffer, remaining_millis}
use android_packages_modules.Poll.Ends.{Ended}
use android_packages_modules.Resolver.Manager.{
  c_string, get_offsets, get_container_path, get_method_offset, new_target_process,
  new_method_descriptor,
}
use android_packages_modules.Resolver.Proc.{
  ProcEntry, digits, parse_i32, pid_of, scan_proc, get_pid,
}
use android_packages_modules.Resolver.Proc.First.{Found, get_pid-Found}
use android_packages_modules.Resolver.Observer.{
  find_running, get_running_process_pid_uid, Start, ObserverApi, ObserverCall,
  wait_for_app_start_observer, create_observer, destroy_observer,
}
use android_packages_modules.Resolver.Observer.First.{
  wait_for_app_start_observer-releases, or_timeout, count,
}
use android_packages_modules.Resolver.Uprobe.{
  ProcessChange, is_wanted, first_start, wait_round, wait_rounds, get_start_offsets, start_probe,
  attach_start_probe, wait_for_app_start_uprobe,
}
use android_packages_modules.Resolver.Uprobe.Ends.{
  Polled, wait_for_app_start_uprobe-Ended, wait_for_app_start_uprobe-Polled,
}
use android_packages_modules.Resolver.Uprobe.Agrees.{
  change_of, first_start-wait_for_app_start_observer,
}
use android_packages_modules.Resolver.Process.{Platform, resolve_running, resolve_process}
use android_packages_modules.Resolver.Process.Located.{IsLocated, resolve_process-IsLocated}
use android_packages_modules.Resolver.Tests.{binder, manager}
use android_packages_modules.Common.{traverse}

-- A file, a process that cannot be read, and two whose command lines begin alike.
abbrev entries : List (Option ProcEntry)
entries =
    some (record { is_dir = false; file_name = codes "uptime"; cmdline = none })
    ∷ some (record { is_dir = true; file_name = codes "1"; cmdline = some (codes "init") })
    ∷ some (record {
      is_dir = true;
      file_name = codes "612";
      cmdline = some (codes "system_server" ++ 0 ∷ []);
    })
    ∷ some (record { is_dir = true; file_name = codes "71"; cmdline = some (codes "app") })
    ∷ []

abbrev identity : List ℕ → List ℕ
identity bytes = bytes

pid_run : get_pid identity (codes "system_server") (some entries) ≡ some (pos 612)
unfolding get_pid scan_proc pid_of parse_i32 digits starts_with is_utf8 list_beq
pid_run = refl

pid_in_proc : Found identity (codes "system_server") entries (pos 612)
pid_in_proc = get_pid-Found identity (codes "system_server") entries (pos 612) pid_run

-- The entry that ends the scan, although the process is there.
unreadable_entry : get_pid identity (codes "app") (some (none ∷ entries)) ≡ none
unfolding get_pid scan_proc
unreadable_entry = refl

abbrev start_of : ℤ → List ℕ → Start
start_of pid name = record {
  pid = pid;
  process_uid = 10001;
  package_uid = 10001;
  package_name = name;
  process_name = name;
}

abbrev starts : List Start
starts = start_of (pos 5) (codes "b") ∷ start_of (pos 6) (codes "a") ∷ []

abbrev observer : ObserverApi
observer = record { created = true; registration = pos 0; starts = starts }

abbrev refused : ObserverApi
refused = record observer { registration = negsuc 0 }

abbrev refused_log : List ObserverCall
refused_log = (wait_for_app_start_observer refused none []).1

observer_released : count create_observer refused_log + 0 ≡ count destroy_observer refused_log + 0
observer_released = wait_for_app_start_observer-releases refused none []

same_process :
    (found : Option ResolvedProcess) × (first_start
        (some (codes "a"))
        (map (change_of (0 ∷ [])) starts)
      ≡ ok found)
    × ((wait_for_app_start_observer observer (some (codes "a")) []).0 ≡ or_timeout found)
unfolding is_utf8
same_process =
    first_start-wait_for_app_start_observer observer (some (codes "a")) (0 ∷ []) [] refl refl (
      (refl, omega arith, (ground arith, tt), refl),
      ((refl, omega arith, (ground arith, tt), refl), tt),
    )

-- The starts come in the first poll, and each round takes a second.
abbrev changes : RingBuffer ProcessChange
changes = record {
  new = ok tt;
  poll = λ round timeout. ok (map (change_of (0 ∷ [])) starts);
  elapsed_millis = λ round. round * 1000;
}

abbrev platform : Platform
platform = record {
  use_process_observer_api = false;
  binder = binder;
  manager = λ n. manager 2;
  perf_event_open = λ path offset pid program. ok tt;
  process_changes = changes;
  observer = observer;
  running_apps = (pos 0, some []);
  proc = some entries;
  from_utf8_lossy = identity;
  aid_system = 1000;
}

abbrev started : ResolvedProcess
started = record { pid = pos 6; uid = pos 10001; name = codes "a" }

uprobe_run :
    wait_for_app_start_uprobe binder identity
      (λ n. manager 2)
      (platform.perf_event_open)
      changes
      (some (pos 612))
      (some (codes "a"))
      3000000
      1
    ≡ some (ok started)
unfolding wait_for_app_start_uprobe attach_start_probe start_probe get_start_offsets wait_rounds
    wait_round first_start is_wanted bytes_as_str until_nul is_utf8 list_beq remaining_millis
    to_signed new_target_process new_method_descriptor c_string contains traverse get_offsets
    get_container_path get_method_offset
uprobe_run = refl

uprobe_found : Polled changes (some (codes "a")) started
uprobe_found =
    wait_for_app_start_uprobe-Polled binder identity (λ n. manager 2) platform.perf_event_open
      changes (some (pos 612)) (some (codes "a")) 3000000 1 started uprobe_run

uprobe_stops : Ended (
    wait_for_app_start_uprobe binder identity
      (λ n. manager 2)
      platform.perf_event_open
      changes
      (some (pos 612))
      (some (codes "z"))
      3000000
      5)
uprobe_stops =
    wait_for_app_start_uprobe-Ended binder identity (λ n. manager 2) platform.perf_event_open
      changes (some (pos 612)) (some (codes "z")) 3000000 4 5 (omega arith) (omega arith)

-- A list of running processes with a null entry and two names.
abbrev running : Platform
running = record platform {
  running_apps = (
    pos 0,
    some (
        none
        ∷ some (record { process_name = some (codes "b"); pid = pos 5; uid = 10002 })
        ∷ some (record { process_name = some (codes "a"); pid = pos 6; uid = 10001 })
        ∷ []),
  );
}

running_run :
    resolve_process running (some (codes "a")) Resolved.specific_process_name 3000000 0 []
    ≡ some (ok started, [])
unfolding resolve_process resolve_running get_running_process_pid_uid find_running list_beq
    to_signed
running_run = refl

process-IsLocated : IsLocated running (some (codes "a")) Resolved.specific_process_name started
process-IsLocated =
    resolve_process-IsLocated running (some (codes "a")) Resolved.specific_process_name 3000000 0 []
      [] started running_run
