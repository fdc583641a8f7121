-- ===== src/Statsd/Paths.antt =====
-- Paths as enums: the functions on paths of daemon/android/atom.rs, and `write_internal_error`. A
-- `match` on a file name is a table of its arms.
pub mod Files
pub mod Names
use android_packages_modules.Common.{
  ℕ, ℤ, pos, eqb, Bool, Option, none, some, List, [], ◌∷◌, Str, codes, list_eq, lookup, Outcome, ok,
  err, panicked, other, ◌>>=◌, path_without_filename, if◌then◌else◌,
}
use android_packages_modules.Poll.{Report, ErrorType, internal_error}
use android_packages_modules.Statsd.Enums
use android_packages_modules.Statsd.Enums.{BpfProgram, MapPath}
use android_packages_modules.Statsd.Enums.Internal

-- The first segment, and the others, of what `split('/')` gives.
abbrev pub segments : Str → Str × List Str
segments [] = ([], [])
segments (c ∷ s) =
    let rest = segments s in if eqb c 47 then ([], rest.0 ∷ rest.1) else (c ∷ rest.0, rest.1)

abbrev pub last_of : Str → List Str → Str
last_of s [] = s
last_of s (t ∷ ts) = last_of t ts

-- `rsplit('/').next()`
unfoldable pub rsplit_next : Str → Option Str
rsplit_next path = let parts = segments path in some (last_of parts.0 parts.1)

abbrev pub program_names : List (Str × BpfProgram)
program_names =
    (
      codes "prog_Accessibility_uprobe_dispatch_gesture",
      Enums.prog_accessibility_uprobe_accessibility_service_connection,
    )
    ∷ (
      codes "prog_Accessibility_uprobe_grant_runtime_permission",
      Enums.prog_accessibility_uprobe_grant_runtime_permission,
    )
    ∷ (
      codes "prog_Binder_uprobe_exec_transact_internal",
      Enums.prog_binder_uprobe_exec_transact_internal,
    )
    ∷ (
      codes "prog_BitmapAllocation_uprobe_activity_perform_start",
      Enums.prog_bitmap_allocation_uprobe_activity_perform_start,
    )
    ∷ (
      codes "prog_BitmapAllocation_uprobe_apply_free_function",
      Enums.prog_bitmap_allocation_uprobe_apply_free_function,
    )
    ∷ (
      codes "prog_BitmapAllocation_uprobe_bitmap_creation_for_snapshot",
      Enums.prog_bitmap_allocation_uprobe_bitmap_creation_for_snapshot,
    )
    ∷ (
      codes "prog_BitmapAllocation_uprobe_create_scaled_bitmap",
      Enums.prog_bitmap_allocation_uprobe_create_scaled_bitmap,
    )
    ∷ (
      codes "prog_DisruptiveApp_uprobe_bind_service_locked",
      Enums.prog_disruptive_app_uprobe_bind_service_locked,
    )
    ∷ (
      codes "prog_DisruptiveApp_uprobe_set_component_enabled_setting",
      Enums.prog_disruptive_app_uprobe_set_component_enabled_setting,
    )
    ∷ (
      codes "prog_GenericInstrumentation_uprobe_call_detail",
      Enums.prog_generic_instrumentation_uprobe_call_detail,
    )
    ∷ (
      codes "prog_GenericInstrumentation_uprobe_call_timestamp",
      Enums.prog_generic_instrumentation_uprobe_call_timestamp,
    )
    ∷ []

abbrev pub map_names : List (Str × MapPath)
map_names =
    (codes "map_Accessibility_output_buf", Enums.bpf_map_path_accessibility_output_buf)
    ∷ (codes "map_Binder_output_buf", Enums.bpf_map_path_binder_output_buf)
    ∷ (codes "map_BitmapAllocation_output", Enums.bpf_map_path_bitmap_allocation_output)
    ∷ (
      codes "map_DisruptiveApp_BindServiceLocked_output_buf",
      Enums.bpf_map_path_disruptive_app_bind_service_locked_output_buf,
    )
    ∷ (
      codes "map_DisruptiveApp_ComponentEnabledSetting_output_buf",
      Enums.bpf_map_path_disruptive_app_component_enabled_setting_output_buf,
    )
    ∷ (
      codes "map_GenericInstrumentation_call_detail_buf",
      Enums.bpf_map_path_generic_instrumentation_call_detail_buf,
    )
    ∷ (
      codes "map_GenericInstrumentation_call_timestamp_buf",
      Enums.bpf_map_path_generic_instrumentation_call_timestamp_buf,
    )
    ∷ []

abbrev or_default : {A : Type 0} → A → Option A → A
or_default a none = a
or_default a (some b) = b

unfoldable pub bpf_program_path_to_enum : Str → Outcome BpfProgram
unfolding rsplit_next lookup
bpf_program_path_to_enum path = elim (rsplit_next path) [
  | none ↦ err (other path_without_filename)
  | some filename ↦
      ok (or_default Enums.uprobe_stats_bpf_program_unspecified (lookup filename program_names))
]

unfoldable pub bpf_map_path_to_enum : Str → Outcome MapPath
unfolding rsplit_next lookup
bpf_map_path_to_enum map_path = elim (rsplit_next map_path) [
  | none ↦ err (other path_without_filename)
  | some filename ↦
      ok (or_default Enums.uprobe_stats_bpf_map_path_unspecified (lookup filename map_names))
]

unfoldable pub to_internal_error_bpf_attached_program : BpfProgram → Internal.BpfProgram
to_internal_error_bpf_attached_program Enums.uprobe_stats_bpf_program_unspecified =
    Internal.uprobe_stats_bpf_program_unspecified
to_internal_error_bpf_attached_program
      Enums.prog_accessibility_uprobe_accessibility_service_connection =
    Internal.prog_accessibility_uprobe_accessibility_service_connection
to_internal_error_bpf_attached_program Enums.prog_accessibility_uprobe_grant_runtime_permission =
    Internal.prog_accessibility_uprobe_grant_runtime_permission
to_internal_error_bpf_attached_program Enums.prog_binder_uprobe_exec_transact_internal =
    Internal.prog_binder_uprobe_exec_transact_internal
to_internal_error_bpf_attached_program Enums.prog_bitmap_allocation_output =
    Internal.prog_bitmap_allocation_output
to_internal_error_bpf_attached_program Enums.prog_bitmap_allocation_uprobe_activity_perform_start =
    Internal.prog_bitmap_allocation_uprobe_activity_perform_start
to_internal_error_bpf_attached_program Enums.prog_bitmap_allocation_uprobe_apply_free_function =
    Internal.prog_bitmap_allocation_uprobe_apply_free_function
to_internal_error_bpf_attached_program
      Enums.prog_bitmap_allocation_uprobe_bitmap_creation_for_snapshot =
    Internal.prog_bitmap_allocation_uprobe_bitmap_creation_for_snapshot
to_internal_error_bpf_attached_program Enums.prog_bitmap_allocation_uprobe_create_scaled_bitmap =
    Internal.prog_bitmap_allocation_uprobe_create_scaled_bitmap
to_internal_error_bpf_attached_program Enums.prog_disruptive_app_uprobe_bind_service_locked =
    Internal.prog_disruptive_app_uprobe_bind_service_locked
to_internal_error_bpf_attached_program
      Enums.prog_disruptive_app_uprobe_set_component_enabled_setting =
    Internal.prog_disruptive_app_uprobe_set_component_enabled_setting
to_internal_error_bpf_attached_program Enums.prog_generic_instrumentation_uprobe_call_detail =
    Internal.prog_generic_instrumentation_uprobe_call_detail
to_internal_error_bpf_attached_program Enums.prog_generic_instrumentation_uprobe_call_timestamp =
    Internal.prog_generic_instrumentation_uprobe_call_timestamp
to_internal_error_bpf_attached_program Enums.prog_keepalive_uprobe_acquire_wake_lock_internal =
    Internal.prog_keepalive_uprobe_acquire_wake_lock_internal
to_internal_error_bpf_attached_program Enums.prog_keepalive_uprobe_release_wake_lock_internal =
    Internal.prog_keepalive_uprobe_release_wake_lock_internal

unfoldable pub to_internal_error_bpf_map_polled_path : MapPath → Internal.MapPath
to_internal_error_bpf_map_polled_path Enums.uprobe_stats_bpf_map_path_unspecified =
    Internal.uprobe_stats_bpf_map_path_unspecified
to_internal_error_bpf_map_polled_path Enums.bpf_map_path_accessibility_output_buf =
    Internal.bpf_map_path_accessibility_output_buf
to_internal_error_bpf_map_polled_path Enums.bpf_map_path_binder_output_buf =
    Internal.bpf_map_path_binder_output_buf
to_internal_error_bpf_map_polled_path Enums.bpf_map_path_bitmap_allocation_output =
    Internal.bpf_map_path_bitmap_allocation_output
to_internal_error_bpf_map_polled_path
      Enums.bpf_map_path_disruptive_app_bind_service_locked_output_buf =
    Internal.bpf_map_path_disruptive_app_bind_service_locked_output_buf
to_internal_error_bpf_map_polled_path
      Enums.bpf_map_path_disruptive_app_component_enabled_setting_output_buf =
    Internal.bpf_map_path_disruptive_app_component_enabled_setting_output_buf
to_internal_error_bpf_map_polled_path Enums.bpf_map_path_generic_instrumentation_call_detail_buf =
    Internal.bpf_map_path_generic_instrumentation_call_detail_buf
to_internal_error_bpf_map_polled_path
      Enums.bpf_map_path_generic_instrumentation_call_timestamp_buf =
    Internal.bpf_map_path_generic_instrumentation_call_timestamp_buf
to_internal_error_bpf_map_polled_path Enums.bpf_map_path_keepalive_output_buf =
    Internal.bpf_map_path_keepalive_output_buf

-- The fields of the atom of an internal error.
pub record InternalError : Type 0 where
  pub error_type : ErrorType
  pub task_id : ℤ
  pub bpf_program : Internal.BpfProgram
  pub map_path : Internal.MapPath
  pub failure_point : ℤ

abbrev program_field : Option Str → Outcome Internal.BpfProgram
program_field none = ok Internal.uprobe_stats_bpf_program_unspecified
program_field (some path) = elim (bpf_program_path_to_enum path) [
  | ok program ↦ ok (to_internal_error_bpf_attached_program program)
  | _ ↦ panicked
]

abbrev map_field : Option Str → Outcome Internal.MapPath
map_field none = ok Internal.uprobe_stats_bpf_map_path_unspecified
map_field (some path) = elim (bpf_map_path_to_enum path) [
  | ok map_path ↦ ok (to_internal_error_bpf_map_polled_path map_path)
  | _ ↦ panicked
]

-- `write_internal_error`, up to the call of `stats_write`, whose error is only logged.
unfoldable pub write_internal_error :
    ErrorType → ℤ → Option Str → Option Str → ℤ → Outcome InternalError
unfolding bpf_program_path_to_enum bpf_map_path_to_enum to_internal_error_bpf_attached_program
    to_internal_error_bpf_map_polled_path
write_internal_error error_type task_id bpf_program_path bpf_map_path failure_point = do
  program ← program_field bpf_program_path
  path ← map_field bpf_map_path
  ok (record {
    error_type = error_type;
    task_id = task_id;
    bpf_program = program;
    map_path = path;
    failure_point = failure_point;
  })
