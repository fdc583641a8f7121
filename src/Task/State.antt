-- ===== src/Task/State.antt =====
-- Which maps are polled: `GlobalState`, `update_polled_bpf_maps` and `cleanup_polled_bpf_maps` of
-- daemon/android/task.rs. The guard that keeps the lazy service alive has no state that is read.
pub mod Sets
use android_packages_modules.Common.{
  Bool, true, false, Option, none, some, List, [], ◌∷◌, Str, list_eq, contains, subtract, extend,
  select, Outcome, ok, err, panicked, other, maps_in_use, if◌then◌else◌,
}
use android_packages_modules.Config.Resolved.{ResolvedTask}

pub record ActiveState : Type 0 where
  pub polled_bpf_maps : List Str

abbrev pub GlobalState : Type 0
GlobalState = Option ActiveState

abbrev pub none_left : List Str → Bool
none_left [] = true
none_left (p ∷ ps) = false

-- The mutable reference to the state comes back beside the result.
unfoldable pub update_polled_bpf_maps :
    GlobalState → ResolvedTask → Outcome (Unit {0}) × GlobalState
update_polled_bpf_maps none task = (ok tt, some (record { polled_bpf_maps = task.bpf_map_paths }))
update_polled_bpf_maps (some active) task =
    let conflicts = select (λ p. contains p active.polled_bpf_maps) task.bpf_map_paths in
    if none_left conflicts
    then (
      ok tt,
      some (record { polled_bpf_maps = extend active.polled_bpf_maps task.bpf_map_paths }),
    )
    else (err (other maps_in_use), some active)

-- The loop that removes the paths of a task.
unfoldable pub remove_all : List Str → List Str → List Str
remove_all polled [] = polled
remove_all polled (p ∷ ps) = remove_all (subtract p polled) ps

abbrev pub active_unless_empty : List Str → GlobalState
active_unless_empty [] = none
active_unless_empty (p ∷ ps) = some (record { polled_bpf_maps = p ∷ ps })

unfoldable pub cleanup_polled_bpf_maps :
    GlobalState → ResolvedTask → Outcome (Unit {0}) × GlobalState
unfolding remove_all
cleanup_polled_bpf_maps none task = (panicked, none)
cleanup_polled_bpf_maps (some active) task =
    (ok tt, active_unless_empty (remove_all active.polled_bpf_maps task.bpf_map_paths))
