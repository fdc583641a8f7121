-- ===== src/Statsd/Enums.antt =====
-- The generated enums that daemon/android/atom.rs converts between: the same variants stand in the
-- atoms of the attached programs and polled maps and, as types of their own, in the atom of the internal
-- errors.
pub mod Internal

pub data BpfProgram : Type 0 where
  uprobe_stats_bpf_program_unspecified : BpfProgram
  prog_accessibility_uprobe_accessibility_service_connection : BpfProgram
  prog_accessibility_uprobe_grant_runtime_permission : BpfProgram
  prog_binder_uprobe_exec_transact_internal : BpfProgram
  prog_bitmap_allocation_output : BpfProgram
  prog_bitmap_allocation_uprobe_activity_perform_start : BpfProgram
  prog_bitmap_allocation_uprobe_apply_free_function : BpfProgram
  prog_bitmap_allocation_uprobe_bitmap_creation_for_snapshot : BpfProgram
  prog_bitmap_allocation_uprobe_create_scaled_bitmap : BpfProgram
  prog_disruptive_app_uprobe_bind_service_locked : BpfProgram
  prog_disruptive_app_uprobe_set_component_enabled_setting : BpfProgram
  prog_generic_instrumentation_uprobe_call_detail : BpfProgram
  prog_generic_instrumentation_uprobe_call_timestamp : BpfProgram
  prog_keepalive_uprobe_acquire_wake_lock_internal : BpfProgram
  prog_keepalive_uprobe_release_wake_lock_internal : BpfProgram

pub data MapPath : Type 0 where
  uprobe_stats_bpf_map_path_unspecified : MapPath
  bpf_map_path_accessibility_output_buf : MapPath
  bpf_map_path_binder_output_buf : MapPath
  bpf_map_path_bitmap_allocation_output : MapPath
  bpf_map_path_disruptive_app_bind_service_locked_output_buf : MapPath
  bpf_map_path_disruptive_app_component_enabled_setting_output_buf : MapPath
  bpf_map_path_generic_instrumentation_call_detail_buf : MapPath
  bpf_map_path_generic_instrumentation_call_timestamp_buf : MapPath
  bpf_map_path_keepalive_output_buf : MapPath
