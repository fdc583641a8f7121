-- ===== src/Config/Resolve.antt =====
-- `resolve_config`, `resolve_single_task` and `resolve_probes` of daemon/core/config_resolver.rs.
-- The protobuf parser and the two resolver traits are parameters.
pub mod Accepted
use android_packages_modules.Common.{
  ℕ, ℤ, pos, ltb_ℤ, eqb, to_unsigned, Bool, true, Option, none, some, List, [], ◌∷◌, Str, Outcome,
  ok, err, panicked, Error, other, ◌>>=◌, ◌>>◌, ensure, ok_or, traverse, if◌then◌else◌, ◌==◌,
  nat_eq, list_eq, extend, length, bpf_name_required, disabled_by_flag, class_name_required,
  method_name_required, offsets_not_found, duration_required, duration_not_positive, int_conversion,
  not_one_task, disallowed,
}
use android_packages_modules.Config.Proto.{ProbeConfig, Task, UprobestatsConfig}
use android_packages_modules.Config.Resolved
use android_packages_modules.Config.Resolved.{
  Duration, from_secs, MethodDescriptor, ExecutableMethodFileOffsets, ResolvedProcess,
  TargetProcessSelection, ResolvedProbe, ResolvedTask, ConfigError, ConfigResult, task_validation,
  config_other,
}
use android_packages_modules.Config.Flags.{Flags, is_bpf_file_enabled, prefix_bpf}
use android_packages_modules.Config.Filters.{resolve_binder_transaction_filters}
use android_packages_modules.Config.Guardrail.{is_allowed}

-- What `resolve_config` is given by the rest of the system.
pub record Device : Type 0 where
  pub flags : Flags
  pub is_user_build : Bool
  pub parse_from_bytes : List ℕ → Outcome UprobestatsConfig
  pub resolve_process : Option Str → TargetProcessSelection → Duration → Outcome ResolvedProcess
  pub resolve_offsets :
      ResolvedProcess → MethodDescriptor → Outcome (Option ExecutableMethodFileOffsets)

-- `enum_value_or_default` at `TargetProcessSelection`
unfoldable pub process_selection : Option ℤ → TargetProcessSelection
process_selection none = TargetProcessSelection.unknown
process_selection (some (pos n)) =
    if n == 1
    then Resolved.specific_process_name
    else if n == 2
    then Resolved.any_app_process_on_start
    else if n == 3
    then Resolved.specific_app_process_on_start
    else TargetProcessSelection.unknown
process_selection (some _) = TargetProcessSelection.unknown

module _ (device : Device) where
  -- The closure that `resolve_probes` maps over the probes.
  unfoldable pub resolve_probe : ResolvedProcess → ProbeConfig → Outcome ResolvedProbe
  unfolding prefix_bpf
  resolve_probe process probe = do
    bpf_name ← ok_or probe.bpf_name bpf_name_required
    ensure (is_bpf_file_enabled device.flags bpf_name) disabled_by_flag
    filters ← resolve_binder_transaction_filters probe bpf_name
    class_name ← ok_or probe.fully_qualified_class_name class_name_required
    method_name ← ok_or probe.method_name method_name_required
    let descriptor : MethodDescriptor = record {
      fully_qualified_class_name = class_name;
      method_name = method_name;
      fully_qualified_parameters = probe.fully_qualified_parameters;
    }
    found ← device.resolve_offsets process descriptor
    offsets ← ok_or found offsets_not_found
    ok (record {
      method_descriptor = descriptor;
      offsets = offsets;
      bpf_program_path = prefix_bpf bpf_name;
      binder_transaction_filters = filters;
    })

  unfoldable pub resolve_probes : List ProbeConfig → ResolvedProcess → Outcome (List ResolvedProbe)
  resolve_probes probes process = traverse (resolve_probe process) probes

  -- The closure over the bpf maps.
  unfoldable pub resolve_map : Str → Outcome Str
  unfolding prefix_bpf
  resolve_map bpf_map = do
    ensure (is_bpf_file_enabled device.flags bpf_map) disabled_by_flag
    ok (prefix_bpf bpf_map)

  unfoldable pub resolve_single_task : Task → ℤ → Outcome ResolvedTask
  unfolding resolve_probes resolve_map
  resolve_single_task task id = do
    paths ← traverse resolve_map task.bpf_maps
    duration_seconds ← ok_or task.duration_seconds duration_required
    ensure (ltb_ℤ (pos 0) duration_seconds) duration_not_positive
    seconds ← ok_or (to_unsigned 64 duration_seconds) int_conversion
    process ←
        device.resolve_process task.target_process_name
          (process_selection task.target_process_selection) (from_secs seconds)
    probes ← resolve_probes task.probe_configs process
    ok (record {
      id = id;
      duration = from_secs seconds;
      resolved_process = process;
      bpf_map_paths = extend [] paths;
      statsd_logging_config = task.statsd_logging_config;
      resolved_probes = probes;
    })

  -- The last `map_err` of `resolve_config`.
  abbrev pub with_task_id : ℤ → Outcome ResolvedTask → ConfigResult
  with_task_id id (ok task) = Resolved.resolved task
  with_task_id id (err e) = Resolved.invalid (task_validation id e)
  with_task_id id panicked = Resolved.config_panicked

  abbrev pub get_task_id : Task → ℤ
  get_task_id task = elim task.task_id [ none ↦ pos 0 | some id ↦ id ]

  abbrev check_guardrail : ℤ → Outcome Bool → ConfigResult → ConfigResult
  check_guardrail id (ok allowed) next =
      if allowed then next else Resolved.invalid (task_validation id (other disallowed))
  check_guardrail id (err e) next = Resolved.invalid (task_validation id e)
  check_guardrail id panicked next = Resolved.config_panicked

  -- `config.tasks.len() != 1` and then `config.tasks[0]`
  unfoldable pub resolve_tasks : UprobestatsConfig → List Task → ConfigResult
  unfolding resolve_single_task
  resolve_tasks config (task ∷ []) =
      check_guardrail (get_task_id task) (is_allowed config device.is_user_build true)
        (with_task_id (get_task_id task) (resolve_single_task task (get_task_id task)))
  resolve_tasks config _ = Resolved.invalid (config_other (other not_one_task))

  abbrev resolve_parsed : Outcome UprobestatsConfig → ConfigResult
  resolve_parsed (ok config) = resolve_tasks config config.tasks
  resolve_parsed (err e) = Resolved.invalid (config_other e)
  resolve_parsed panicked = Resolved.config_panicked

  unfoldable pub resolve_config : List ℕ → ConfigResult
  unfolding resolve_tasks
  resolve_config bytes = resolve_parsed (device.parse_from_bytes bytes)
