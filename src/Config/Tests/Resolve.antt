-- ===== src/Config/Tests/Resolve.antt =====
-- A configuration that resolves, and one that is refused.
use android_packages_modules.Common.{
  list_beq, pos, none, some, [], ◌∷◌, list_eq, codes, ok, other, disallowed, extend, contains,
  traverse, to_unsigned, starts_with, contains_str, ◌≡◌, refl,
}
use android_packages_modules.Config.Proto.{Task, UprobestatsConfig}
use android_packages_modules.Config.Resolved
use android_packages_modules.Config.Resolved.{ResolvedTask, from_secs, task_validation, task_id}
use android_packages_modules.Config.Flags.{is_bpf_file_enabled, prefix_bpf}
use android_packages_modules.Config.Filters.{resolve_binder_transaction_filters}
use android_packages_modules.Config.Guardrail.{
  is_allowed, check_tasks, check_probes, check_probe, get_full_method_name, is_method_allowed,
  matches_prefix,
}
use android_packages_modules.Config.Resolve.{
  resolve_config, resolve_tasks, resolve_single_task, resolve_probes, resolve_probe, resolve_map,
  process_selection, get_task_id,
}
use android_packages_modules.Config.Resolve.Accepted.{
  IsAccepted, resolve_config-IsAccepted, resolve_config-task_id,
}
use android_packages_modules.Config.Tests.Data.{adjuster_probe, task, config, device_of}

abbrev pub resolved_task : ResolvedTask
resolved_task = record {
  id = pos 42;
  duration = from_secs 3;
  resolved_process = record { pid = pos 9; uid = pos 1000; name = codes "p" };
  bpf_map_paths = codes "/sys/fs/bpf/uprobestats/map_Generic" ∷ [];
  statsd_logging_config = none;
  resolved_probes =
      record {
        method_descriptor = record {
          fully_qualified_class_name = codes "com.android.server.am.OomAdjuster";
          method_name = codes "run";
          fully_qualified_parameters = [];
        };
        offsets = record {
          container_path = codes "a.oat";
          container_offset = 16;
          method_offset = 4;
        };
        bpf_program_path = codes "/sys/fs/bpf/uprobestats/prog_Generic";
        binder_transaction_filters = [];
      }
      ∷ [];
}

pub config_resolves : resolve_config (device_of config) [] ≡ Resolved.resolved resolved_task
unfolding resolve_config resolve_tasks resolve_single_task resolve_probes resolve_probe resolve_map
    process_selection is_bpf_file_enabled prefix_bpf resolve_binder_transaction_filters is_allowed
    check_tasks check_probes check_probe get_full_method_name is_method_allowed matches_prefix
    starts_with contains_str traverse extend contains to_unsigned list_beq
config_resolves = refl

resolves_example : IsAccepted (device_of config) [] resolved_task
resolves_example = resolve_config-IsAccepted (device_of config) [] resolved_task config_resolves

-- The method of this probe only begins like an allowed one.
abbrev other_config : UprobestatsConfig
other_config = record {
  tasks =
      record task {
        probe_configs =
            record adjuster_probe {
              fully_qualified_class_name = some (codes "com.android.server.am.OomAdjusterX");
            }
            ∷ [];
      }
      ∷ [];
}

config_refused :
    resolve_config (device_of other_config) []
    ≡ Resolved.invalid (task_validation (pos 42) (other disallowed))
unfolding resolve_config resolve_tasks resolve_single_task resolve_probes resolve_probe resolve_map
    process_selection is_bpf_file_enabled prefix_bpf resolve_binder_transaction_filters is_allowed
    check_tasks check_probes check_probe get_full_method_name is_method_allowed matches_prefix
    starts_with contains_str traverse extend contains to_unsigned list_beq
config_refused = refl

names_task : task_id (task_validation (pos 42) (other disallowed)) ≡ some (pos 42)
unfolding task_id
names_task = refl

task_id_example :
    (c : UprobestatsConfig) × (t : Task) × ((device_of other_config).parse_from_bytes [] ≡ ok c)
    × (c.tasks ≡ t ∷ [])
    × (pos 42 ≡ get_task_id (device_of other_config) t)
task_id_example =
    resolve_config-task_id (device_of other_config) [] (task_validation (pos 42) (other disallowed))
      (pos 42) config_refused names_task
