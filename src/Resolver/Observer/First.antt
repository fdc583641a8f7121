-- ===== src/Resolver/Observer/First.antt =====
-- Which start the observer reports, and that the observer is released.
use android_packages_modules.Common.{
  ℕ, suc, ◌+◌, pos, int_eq, as_signed, Bool, true, Option, none, some, List, [], ◌∷◌, Str, list_eq,
  ◌==◌, Outcome, ok, err, other, start_timeout, ◌≡◌, refl, arith, Bool-cases, int_beq_iff, inl, inr,
  if◌then◌else◌,
}
use android_packages_modules.Config.Resolved.{ResolvedProcess}
use android_packages_modules.Resolver.Observer.{
  Start, to_str_or_default, Channel, on_process_started, on_process_started_trampoline, observe,
  ObserverCall, create_observer, destroy_observer, ObserverApi, register, receive,
  wait_for_app_start_observer,
}

abbrev pub wants : Option Str → Str → Bool
wants none name = true
wants (some target) name = target == name

-- The process of a start.
abbrev pub process_of : Start → ResolvedProcess
process_of start = record {
  pid = start.pid;
  uid = as_signed 31 start.process_uid;
  name = to_str_or_default start.process_name;
}

-- The first start of a wanted process.
abbrev pub first_wanted : Option Str → List Start → Option ResolvedProcess
first_wanted target [] = none
first_wanted target (start ∷ starts) =
    if wants target (to_str_or_default start.process_name)
    then some (process_of start)
    else first_wanted target starts

abbrev pub or_timeout : Option ResolvedProcess → Outcome ResolvedProcess
or_timeout none = err (other start_timeout)
or_timeout (some resolved) = ok resolved

receive-observe :
    (target : Option Str) (starts : List Start) (resolved : ResolvedProcess) (sent : Channel)
    → receive (observe target starts (resolved ∷ sent)) ≡ ok resolved
unfolding observe on_process_started_trampoline on_process_started
receive-observe target [] resolved sent = refl
receive-observe none (start ∷ starts) resolved sent = receive-observe none starts resolved _
receive-observe (some name) (start ∷ starts) resolved sent =
    elim (Bool-cases (name == to_str_or_default start.process_name)) [
      | inl q ↦ rw q (receive-observe (some name) starts resolved _)
      | inr q ↦ rw q (receive-observe (some name) starts resolved sent)
    ]

pub observe-first :
    (target : Option Str) (starts : List Start)
    → receive (observe target starts []) ≡ or_timeout (first_wanted target starts)
unfolding observe on_process_started_trampoline on_process_started
observe-first target [] = refl
observe-first none (start ∷ starts) = receive-observe none starts (process_of start) []
observe-first (some name) (start ∷ starts) =
    elim (Bool-cases (name == to_str_or_default start.process_name)) [
      | inl q ↦ rw q (receive-observe (some name) starts (process_of start) [])
      | inr q ↦ rw q (observe-first (some name) starts)
    ]

-- How many observers are created less how many are destroyed is read off the log.
abbrev pub count : ObserverCall → List ObserverCall → ℕ
count call [] = 0
count create_observer (create_observer ∷ log) = suc (count create_observer log)
count destroy_observer (destroy_observer ∷ log) = suc (count destroy_observer log)
count call (other_call ∷ log) = count call log

-- Every observer that a wait creates is destroyed by the end of it, on each of its paths.
pub wait_for_app_start_observer-releases :
    (api : ObserverApi) (process_name : Option Str) (log : List ObserverCall)
    → let log' = (wait_for_app_start_observer api process_name log).1 in
      count create_observer log' + count destroy_observer log
      ≡ count destroy_observer log' + count create_observer log
unfolding wait_for_app_start_observer register
wait_for_app_start_observer-releases api process_name log = ground arith

-- With an observer that is created and registered, the result is the first start of a process with the
-- name asked for, or of any process if there is no name; without one, it is the timeout's error.
pub wait_for_app_start_observer-first :
    (api : ObserverApi) (process_name : Option Str) (log : List ObserverCall)
    → api.created ≡ true
    → api.registration ≡ pos 0
    → (wait_for_app_start_observer api process_name log).0
      ≡ or_timeout (first_wanted process_name api.starts)
unfolding wait_for_app_start_observer register
wait_for_app_start_observer-first api process_name log c r =
    ground
      (arith, c, r, int_beq_iff api.registration (pos 0), observe-first process_name api.starts)
