-- ===== src/Config/Flags.antt =====
-- The build flags that gate BPF programs and maps: `is_bpf_file_enabled` and `prefix_bpf` of
-- daemon/core/config_resolver.rs. The flag functions are generated code: a record of their values.
pub mod Gates
use android_packages_modules.Common.{
  Bool, true, ◌||◌, ◌++◌, Str, codes, contains_str, if◌then◌else◌, ◌≡◌, arith, Bool-cases, inl, inr,
}

pub record Flags : Type 0 where
  pub monitor_disruptive_app_activities : Bool
  pub enable_bitmap_snapshot : Bool
  pub enable_bitmap_instrumentation : Bool
  pub enable_bitmap_scaled_instrumentation : Bool
  pub enable_binder_transaction : Bool
  pub a11y_runtime_permission : Bool

unfoldable pub is_bpf_file_enabled : Flags → Str → Bool
is_bpf_file_enabled f name =
    if contains_str name (codes "DisruptiveApp")
    then f.monitor_disruptive_app_activities
    else if contains_str name (codes "prog_BitmapAllocation_uprobe_bitmap_creation_for_snapshot")
        || contains_str name (codes "prog_BitmapAllocation_uprobe_apply_free_function")
    then f.enable_bitmap_snapshot
    else if contains_str name (codes "BitmapAllocation")
    then f.enable_bitmap_instrumentation || f.enable_bitmap_snapshot
    else if contains_str name (codes "Binder")
    then f.enable_binder_transaction
    else if contains_str name (codes "prog_BitmapAllocation_uprobe_create_scaled_bitmap")
    then f.enable_bitmap_scaled_instrumentation
    else if contains_str name (codes "Accessibility")
    then f.a11y_runtime_permission
    else true

abbrev pub bpf_dir : Str
bpf_dir = codes "/sys/fs/bpf/uprobestats/"

unfoldable pub prefix_bpf : Str → Str
prefix_bpf path = bpf_dir ++ path
