-- ===== src/Task/Schedule.antt =====
-- The threads of `startTasks` (daemon/android/uprobestats_service.rs) as a schedule: a thread takes
-- the lock to claim its maps, runs without it, and takes it again to release them. A panic under the
-- lock poisons the mutex, and every later `lock().unwrap()` panics.
pub mod Invariant
pub mod Poison
use android_packages_modules.Common.{
  ℕ, zero, suc, Bool, true, false, Option, none, some, List, [], ◌∷◌, Outcome, ok, err, panicked,
  get_elem?, if◌then◌else◌,
}
use android_packages_modules.Config.Resolved.{ResolvedTask}
use android_packages_modules.Task.State.{
  GlobalState, update_polled_bpf_maps, cleanup_polled_bpf_maps,
}

pub record System : Type 0 where
  pub state : GlobalState
  pub poisoned : Bool
  pub running : List ResolvedTask  -- the threads between the two locks

-- A thread whose configuration has resolved reaches the first lock; the running thread at a position
-- reaches the second.
pub data Event : Type 0 where
  claims : ResolvedTask → Event
  releases : ℕ → Event

abbrev pub init : System
init = record { state = none; poisoned = false; running = [] }

unfoldable pub drop_at {ℓ} : {A : Type ℓ} → ℕ → List A → List A
drop_at i [] = []
drop_at zero (x ∷ xs) = xs
drop_at (suc i) (x ∷ xs) = x ∷ drop_at i xs

abbrev claimed : System → ResolvedTask → Outcome (Unit {0}) × GlobalState → System
claimed s task (ok u, g) = record s { state = g; running = task ∷ s.running }
claimed s task (err e, g) = record s { state = g }
claimed s task (panicked, g) = record s { state = g; poisoned = true }

abbrev released : System → ℕ → Outcome (Unit {0}) × GlobalState → System
released s i (ok u, g) = record s { state = g; running = drop_at i s.running }
released s i (err e, g) = record s { state = g; running = drop_at i s.running }
released s i (panicked, g) = record s { state = g; poisoned = true; running = drop_at i s.running }

release : System → ℕ → Option ResolvedTask → System
release s i none = s
release s i (some task) =
    if s.poisoned
    then record s { running = drop_at i s.running }
    else released s i (cleanup_polled_bpf_maps s.state task)

unfoldable pub step : System → Event → System
unfolding update_polled_bpf_maps release cleanup_polled_bpf_maps drop_at
step s (claims task) =
    if s.poisoned then s else claimed s task (update_polled_bpf_maps s.state task)
step s (releases i) = release s i (get_elem? s.running i)

unfoldable pub run : System → List Event → System
unfolding step
run s [] = s
run s (e ∷ es) = run (step s e) es
