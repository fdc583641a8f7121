-- ===== src/Task/Tests.antt =====
-- Two tasks that share no map, and one without maps.
pub mod Executed
pub mod Handled
use android_packages_modules.Common.{
  pos, none, some, List, [], ◌∷◌, Str, list_eq, list_beq, contains, ok, err, other, maps_in_use,
  ◌≡◌, refl, ◌⊎◌,
}
use android_packages_modules.Config.Resolved.{ResolvedTask, from_secs}
use android_packages_modules.Task.State.{
  GlobalState, update_polled_bpf_maps, cleanup_polled_bpf_maps,
}
use android_packages_modules.Task.State.Sets.{
  Claimed, Conflicting, polled, update_polled_bpf_maps-cases, cleanup-update,
}
use android_packages_modules.Task.Schedule.{Event, claims, releases, init, run}
use android_packages_modules.Task.Schedule.Invariant.{PollsMaps, IsConsistent, run-IsConsistent}

abbrev task_with : List Str → ResolvedTask
task_with paths = record {
  id = pos 1;
  duration = from_secs 1;
  resolved_process = record { pid = pos 9; uid = pos 1000; name = [] };
  bpf_map_paths = paths;
  statsd_logging_config = none;
  resolved_probes = [];
}

abbrev first_task : ResolvedTask
first_task = task_with ((1 ∷ []) ∷ (2 ∷ []) ∷ [])

abbrev second_task : ResolvedTask
second_task = task_with ((3 ∷ []) ∷ [])

abbrev busy : GlobalState
busy = some (record { polled_bpf_maps = (3 ∷ []) ∷ [] })

update_example :
    (((update_polled_bpf_maps busy first_task).0 ≡ ok tt)
      × Claimed busy first_task (update_polled_bpf_maps busy first_task).1)
    ⊎ ((update_polled_bpf_maps busy first_task ≡ (err (other maps_in_use), busy))
        × Conflicting busy first_task)
update_example = update_polled_bpf_maps-cases busy first_task

first_claims : (update_polled_bpf_maps busy first_task).0 ≡ ok tt
unfolding update_polled_bpf_maps contains list_beq
first_claims = refl

cleanup_example :
    polled
      (3 ∷ [])
      (cleanup_polled_bpf_maps (update_polled_bpf_maps busy first_task).1 first_task).1
    ≡ polled (3 ∷ []) busy
cleanup_example = cleanup-update busy first_task (3 ∷ []) first_claims

first-PollsMaps : PollsMaps first_task
unfolding contains list_beq
first-PollsMaps = record { is_set = (refl, (refl, tt)); nonempty = refl }

second-PollsMaps : PollsMaps second_task
unfolding contains list_beq
second-PollsMaps = record { is_set = (refl, tt); nonempty = refl }

abbrev schedule : List Event
schedule = claims first_task ∷ claims second_task ∷ claims first_task ∷ releases 1 ∷ []

schedule_example : IsConsistent (run init schedule)
schedule_example =
    run-IsConsistent schedule (first-PollsMaps, (second-PollsMaps, (first-PollsMaps, (tt, tt))))
