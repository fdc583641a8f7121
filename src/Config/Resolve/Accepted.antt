-- ===== src/Config/Resolve/Accepted.antt =====
-- What a configuration that resolves has passed, and which task an error names.
use android_packages_modules.Common
use android_packages_modules.Common.{
  ℕ, ◌<◌, ℤ, pos, pos_part, to_unsigned, Bool, true, Option, none, some, List, [], ◌∷◌, map, Str,
  Outcome, ok, err, ◌>>=◌, >>=-eq-ok, ensure, ok_or, traverse, traverse-Aligned, Aligned, All,
  contains, extend, contains-extend, Distinct, Distinct-extend, ◌≡◌, refl, ◌∙◌, sym, arith, nat_eq,
  list_eq, Outcome-cases, Option-cases, inl, inr,
}
use android_packages_modules.Config.Proto.{ProbeConfig, Task, UprobestatsConfig}
use android_packages_modules.Config.Resolved
use android_packages_modules.Config.Resolved.{
  from_secs, ResolvedProcess, ResolvedProbe, ResolvedTask, ConfigError, task_id, task_validation,
}
use android_packages_modules.Config.Flags.{is_bpf_file_enabled, prefix_bpf}
use android_packages_modules.Config.Filters.{resolve_binder_transaction_filters}
use android_packages_modules.Config.Guardrail.{is_allowed}
use android_packages_modules.Config.Resolve.{
  Device, process_selection, resolve_probe, resolve_map, resolve_single_task, get_task_id,
  with_task_id, resolve_tasks, resolve_config,
}

module _ (device : Device) where
  -- A resolved probe against the configured one.
  pub record IsProbeOf (process : ResolvedProcess) (probe : ProbeConfig) (r : ResolvedProbe)
      : Type 0 where
    pub bpf_name : Str
    pub has_name : probe.bpf_name ≡ some bpf_name
    pub enabled : is_bpf_file_enabled device.flags bpf_name ≡ true
    pub program_path : r.bpf_program_path ≡ prefix_bpf bpf_name
    pub class_name :
        probe.fully_qualified_class_name ≡ some r.method_descriptor.fully_qualified_class_name
    pub method_name : probe.method_name ≡ some r.method_descriptor.method_name
    pub parameters :
        r.method_descriptor.fully_qualified_parameters ≡ probe.fully_qualified_parameters
    pub located : device.resolve_offsets process r.method_descriptor ≡ ok (some r.offsets)
    pub filtered :
        resolve_binder_transaction_filters probe bpf_name ≡ ok r.binder_transaction_filters

  resolve_probe-IsProbeOf :
      (process : ResolvedProcess) (probe : ProbeConfig) (r : ResolvedProbe)
      → resolve_probe device process probe ≡ ok r
      → IsProbeOf process probe r
  unfolding resolve_probe
  resolve_probe-IsProbeOf process probe r h =
      let (bpf_name, h0, k0) = >>=-eq-ok (ok_or probe.bpf_name _) _ h in
      record {
        bpf_name = bpf_name;
        has_name = ground arith;
        enabled = ground arith;
        program_path = ground arith;
        class_name = ground arith;
        method_name = ground arith;
        parameters = ground arith;
        located = ground arith;
        filtered = ground arith;
      }

  -- A resolved task against the configured one.
  pub record IsTaskOf (task : Task) (r : ResolvedTask) : Type 0 where
    pub id : r.id ≡ get_task_id device task
    pub seconds : ℕ
    pub has_duration : task.duration_seconds ≡ some (pos seconds)
    pub positive : 0 < seconds
    pub duration : r.duration ≡ from_secs seconds
    pub process :
        device.resolve_process task.target_process_name
          (process_selection task.target_process_selection)
          (from_secs seconds)
        ≡ ok r.resolved_process
    pub maps :
        (path : Str) → contains path r.bpf_map_paths ≡ contains path (map prefix_bpf task.bpf_maps)
    pub maps_distinct : Distinct r.bpf_map_paths
    pub maps_enabled : All (λ m. is_bpf_file_enabled device.flags m ≡ true) task.bpf_maps
    pub probes : Aligned (IsProbeOf r.resolved_process) task.probe_configs r.resolved_probes

  resolve_map_lem :
      (maps paths : List Str)
      → traverse (resolve_map device) maps ≡ ok paths
      → (paths ≡ map prefix_bpf maps) × All (λ m. is_bpf_file_enabled device.flags m ≡ true) maps
  unfolding traverse resolve_map
  resolve_map_lem [] paths h = (ground arith, tt)
  resolve_map_lem (m ∷ ms) paths h =
      let (p, h0, k0) = >>=-eq-ok (resolve_map device m) _ h in
      let (ps, h1, k1) = >>=-eq-ok (traverse (resolve_map device) ms) _ k0 in
      let (e, enabled) = resolve_map_lem ms ps h1 in (ground arith, (ground arith, enabled))

  resolve_single_task-IsTaskOf :
      (task : Task) (r : ResolvedTask)
      → resolve_single_task device task (get_task_id device task) ≡ ok r
      → IsTaskOf task r
  unfolding resolve_single_task to_unsigned contains
  resolve_single_task-IsTaskOf task r h =
      let (paths, h0, k0) = >>=-eq-ok (traverse (resolve_map device) task.bpf_maps) _ h in
      let (d, h1, k1) = >>=-eq-ok (ok_or task.duration_seconds Common.duration_required) _ k0 in
      let (paths_eq, enabled) = resolve_map_lem task.bpf_maps paths h0 in
      let unique : r.bpf_map_paths ≡ extend [] paths = ground arith in
      record {
        id = ground arith;
        seconds = pos_part d;
        has_duration = ground arith;
        positive = ground arith;
        duration = ground arith;
        process = ground arith;
        maps = λ path.
            rw (unique, paths_eq, contains-extend path [] (map prefix_bpf task.bpf_maps))
              (ground arith);
        maps_distinct = rw unique (Distinct-extend [] paths tt);
        maps_enabled = enabled;
        probes =
            traverse-Aligned (IsProbeOf r.resolved_process)
              (resolve_probe device r.resolved_process) (resolve_probe-IsProbeOf r.resolved_process)
              task.probe_configs r.resolved_probes (ground arith);
      }

  -- What a successful resolution has passed.
  pub record IsAccepted (bytes : List ℕ) (r : ResolvedTask) : Type 0 where
    pub config : UprobestatsConfig
    pub parsed : device.parse_from_bytes bytes ≡ ok config
    pub task : Task
    pub only_task : config.tasks ≡ task ∷ []
    pub allowed : is_allowed config device.is_user_build true ≡ ok true
    pub resolved_as : IsTaskOf task r

  -- An outcome of the last step, taken apart.
  single_result :
      (id : ℤ) (o : Outcome ResolvedTask) {r : ResolvedTask}
      → with_task_id device id o ≡ Resolved.resolved r
      → o ≡ ok r
  single_result id (ok t) h = ground arith
  single_result id (err e) h = cc
  single_result id Common.panicked h = cc

  -- A configuration that resolves has parsed, has exactly one task and has passed the guardrail, and
  -- the resolved task is that task's: its id, a positive duration, the process, the set of the
  -- prefixed paths of its maps, none of them disabled, and for each probe in order its program, its
  -- method, the offsets found for it and its filters.
  pub resolve_config-IsAccepted :
      (bytes : List ℕ) (r : ResolvedTask)
      → resolve_config device bytes ≡ Resolved.resolved r
      → IsAccepted bytes r
  unfolding resolve_config resolve_tasks
  resolve_config-IsAccepted bytes r h = elim (Outcome-cases (device.parse_from_bytes bytes)) [
    | inl (config, p) ↦ of_tasks config p config.tasks refl
    | inr (inl (e, p)) ↦ ground arith
    | inr (inr p) ↦ ground arith
  ]
    where
      of_tasks :
          (config : UprobestatsConfig)
          → device.parse_from_bytes bytes ≡ ok config
          → (tasks : List Task) → config.tasks ≡ tasks
          → IsAccepted bytes r
      of_tasks config p [] q = ground arith
      of_tasks config p (task ∷ a ∷ rest) q = ground arith
      of_tasks config p (task ∷ []) q =
          let id : ℤ = get_task_id device task in
          let done : with_task_id device id (resolve_single_task device task id)
              ≡ Resolved.resolved r =
            ground arith in
          record {
            config = config;
            parsed = p;
            task = task;
            only_task = q;
            allowed = ground arith;
            resolved_as = resolve_single_task-IsTaskOf task r (single_result id _ done);
          }

  -- An error that names a task names the only task of a configuration that has parsed.
  pub resolve_config-task_id :
      (bytes : List ℕ) (e : ConfigError) (id : ℤ)
      → resolve_config device bytes ≡ Resolved.invalid e
      → task_id e ≡ some id
      → (config : UprobestatsConfig) × (task : Task) × (device.parse_from_bytes bytes ≡ ok config)
        × (config.tasks ≡ task ∷ [])
        × (id ≡ get_task_id device task)
  unfolding resolve_config resolve_tasks task_id
  resolve_config-task_id bytes e id h n = elim (Outcome-cases (device.parse_from_bytes bytes)) [
    | inl (config, p) ↦ of_tasks config p config.tasks refl
    | inr (inl (c, p)) ↦ ground arith
    | inr (inr p) ↦ ground arith
  ]
    where
      of_tasks :
          (config : UprobestatsConfig)
          → device.parse_from_bytes bytes ≡ ok config
          → (tasks : List Task) → config.tasks ≡ tasks
          → (config : UprobestatsConfig) × (task : Task) × (device.parse_from_bytes bytes
              ≡ ok config)
            × (config.tasks ≡ task ∷ [])
            × (id ≡ get_task_id device task)
      of_tasks config p [] q = ground arith
      of_tasks config p (task ∷ a ∷ rest) q = ground arith
      of_tasks config p (task ∷ []) q = (config, task, p, q, ground arith)
