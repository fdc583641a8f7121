-- ===== src/Config/Tests/Data.antt =====
-- A configuration with one probe, and a device that resolves it.
use android_packages_modules.Common.{pos, true, none, some, [], ◌∷◌, Str, codes, ok}
use android_packages_modules.Config.Proto.{
  AtomConfigProto, MethodConfigProto, ProbeConfig, Task, UprobestatsConfig,
}
use android_packages_modules.Config.Flags.{Flags}
use android_packages_modules.Config.Resolve.{Device}

abbrev pub adjuster_probe : ProbeConfig
adjuster_probe = record {
  bpf_name = some (codes "prog_Generic");
  method_signature = none;
  fully_qualified_class_name = some (codes "com.android.server.am.OomAdjuster");
  method_name = some (codes "run");
  fully_qualified_parameters = [];
  binder_transaction_filters = [];
}

abbrev pub atom_config : AtomConfigProto
atom_config = record { atom_id = some (pos 915); atom_field_positions = pos 1 ∷ pos 3 ∷ [] }

abbrev pub method_config : MethodConfigProto
method_config = record {
  method_id = some (pos 7);
  event_service_config = none;
  atom_config = some atom_config;
}

abbrev pub interface : Str
interface = codes "IFoo"

abbrev pub binder_probe : ProbeConfig
binder_probe = record {
  bpf_name = some (codes "prog_Binder");
  method_signature = none;
  fully_qualified_class_name = some (codes "android.os.Binder");
  method_name = some (codes "execTransactInternal");
  fully_qualified_parameters = [];
  binder_transaction_filters =
      record { interface_name = some interface; method_configs = method_config ∷ [] } ∷ [];
}

abbrev pub task : Task
task = record {
  probe_configs = adjuster_probe ∷ [];
  bpf_maps = codes "map_Generic" ∷ [];
  target_process_name = some (codes "system_server");
  duration_seconds = some (pos 3);
  statsd_logging_config = none;
  target_process_selection = some (pos 1);
  task_id = some (pos 42);
}

abbrev pub config : UprobestatsConfig
config = record { tasks = task ∷ [] }

abbrev pub flags : Flags
flags = record {
  monitor_disruptive_app_activities = true;
  enable_bitmap_snapshot = true;
  enable_bitmap_instrumentation = true;
  enable_bitmap_scaled_instrumentation = true;
  enable_binder_transaction = true;
  a11y_runtime_permission = true;
}

abbrev pub device_of : UprobestatsConfig → Device
device_of c = record {
  flags = flags;
  is_user_build = true;
  parse_from_bytes = λ bytes. ok c;
  resolve_process =
      λ name selection duration. ok (record { pid = pos 9; uid = pos 1000; name = codes "p" });
  resolve_offsets = λ process descriptor.
      ok (
        some (record { container_path = codes "a.oat"; container_offset = 16; method_offset = 4 }));
}
