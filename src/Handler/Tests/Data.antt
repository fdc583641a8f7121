-- ===== src/Handler/Tests/Data.antt =====
-- A world, a task and bytes from a BPF program.
use android_packages_modules.Common.{ℕ, ◌++◌, ℤ, pos, true, some, List, [], ◌∷◌, Str, ok, refl}
use android_packages_modules.Config.Resolved.{ResolvedTask, from_secs}
use android_packages_modules.Handler.World.{World, Local}
use android_packages_modules.Handler.Writes.{Takes, TakesUnstructured}

abbrev pub world : World
world = record {
  write = λ cs a. ok tt;
  write_codegen = λ cs a. ok tt;
  get = λ cs. ok tt;
  get_uid_for_package = λ cs name. ok (pos 10001);
  package_has_enabled_accessibility_service = λ cs name. ok true;
  is_launcher_activity = λ cs pkg cls relaunch. ok true;
  enqueue_event = λ cs event flush. ok tt;
  is_user_build = true;
  system_time = λ cs. some 7000000;
  random = λ cs. pos 5;
}

pub world-Takes : Takes world
world-Takes cs a = refl

pub world-TakesUnstructured : TakesUnstructured world
world-TakesUnstructured cs a = refl

abbrev pub task_logging : List ℤ → ResolvedTask
task_logging positions = record {
  id = pos 1;
  duration = from_secs 1;
  resolved_process = record { pid = pos 9; uid = pos 1000; name = [] };
  bpf_map_paths = [];
  statsd_logging_config =
      some (record { atom_id = some (pos 915); primitive_argument_positions = positions });
  resolved_probes = [];
}

abbrev pub fresh : {H : Type 0} → H → Local H
fresh h = record { own = h; calls = [] }

-- The text and a NUL after it.
abbrev pub nul_terminated : Str → List ℕ
nul_terminated s = s ++ 0 ∷ []
