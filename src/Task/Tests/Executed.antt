-- ===== src/Task/Tests/Executed.antt =====
-- A task with a filter, one probe that is attached and one map whose thread fails.
use android_packages_modules.Common.{
  ℕ, pos, to_signed, true, none, some, List, [], ◌∷◌, codes, list_eq, contains, subtract, ok, err,
  other, foreign, ◌≡◌, refl, arith, Bool-cases, inl, inr, if◌then◌else◌, reported_to_statsd,
}
use android_packages_modules.Effects.{for_each}
use android_packages_modules.Strings.{is_utf8}
use android_packages_modules.Config.Resolved.{ResolvedTask, ResolvedProbe, from_secs}
use android_packages_modules.BpfMap.{Kernel, put, to_c_key}
use android_packages_modules.BpfMap.Drain.{IsHealthy, first}
use android_packages_modules.Poll.{
  Report, internal_error, ring_buffer_poll_failed, task_execution_failed,
}
use android_packages_modules.Task.Filters.{
  setup_probe, setup_probes, setup_binder_transaction_filters, cleanup_filters,
  write_binder_transaction_filter_to_binder_bpf_map,
}
use android_packages_modules.Task.Filters.Drainable.{IsInserting, IsShort}
use android_packages_modules.Task.Filters.Written.{SetUp, setup_binder_transaction_filters-SetUp}
use android_packages_modules.Task.Attach.{
  Bpf, attach_probe, poll_maps, attach_probes_and_poll_maps, attached_report,
}
use android_packages_modules.Task.Attach.Reports.{Returns}
use android_packages_modules.Task.Execute.{
  execute, report_of_task, report_cleanup, report_execution, is_reported,
}
use android_packages_modules.Task.Execute.Emptied.{IsEmptied, execute-IsEmptied}
use android_packages_modules.Task.Execute.Reported.{EndsInError, execute-EndsInError}

abbrev pub Map : Type 0
Map = List (List ℕ)

-- A kernel that refuses to insert a key that is there.
abbrev pub kernel : Kernel Map
kernel = record {
  bpf_map_update_elem =
      λ c v flags m. if contains c m then (err (other (foreign 17)), m) else (ok tt, c ∷ m);
  bpf_map_lookup_elem = λ c m. (ok none, m);
  bpf_map_get_first_key = λ m. (ok (first m), m);
  bpf_map_delete_elem = λ c m. (ok (contains c m), subtract c m);
}

abbrev pub keys : Map → List (List ℕ)
keys m = m

pub kernel-IsHealthy : IsHealthy kernel keys
kernel-IsHealthy = record {
  first_key = λ m. refl;
  delete_answer = λ c m. refl;
  delete_effect = λ c m. refl;
}

pub kernel-IsInserting : IsInserting kernel keys
kernel-IsInserting = record {
  insert_ends = λ c v m. elim (Bool-cases (contains c m)) [
    | inl q ↦ rw q (λ e. cc e)
    | inr q ↦ rw q (λ e. cc e)
  ];
  insert_effect = λ c v m. elim (Bool-cases (contains c m)) [
    | inl q ↦ rw q (inl refl)
    | inr q ↦ rw q (inr (refl, ([], m, refl, refl)))
  ];
}

abbrev failure : Report
failure = internal_error ring_buffer_poll_failed (pos 1) none (some (codes "map")) (pos 0)

-- The thread reports its error and marks it as reported.
abbrev pub bpf : Bpf
bpf = record {
  bpf_ring_buffer_discard = λ path. ok true;
  bpf_perf_event_open = λ path offset pid program. ok tt;
  poll_registry = λ path task duration reports.
      (err (reported_to_statsd (other (foreign 5))), failure ∷ reports);
}

pub bpf-Returns : Returns bpf
bpf-Returns = record {
  discard_returns = λ path e. cc e;
  attach_returns = λ path offset pid program e. cc e;
}

abbrev probe : ResolvedProbe
probe = record {
  method_descriptor = record {
    fully_qualified_class_name = codes "a.B";
    method_name = codes "c";
    fully_qualified_parameters = [];
  };
  offsets = record { container_path = codes "/a.oat"; container_offset = 0; method_offset = 64 };
  bpf_program_path = codes "prog";
  binder_transaction_filters = (codes "IFoo", record { methods = [] }) ∷ [];
}

abbrev task : ResolvedTask
task = record {
  id = pos 1;
  duration = from_secs 1;
  resolved_process = record { pid = pos 9; uid = pos 1000; name = [] };
  bpf_map_paths = codes "map" ∷ [];
  statsd_logging_config = none;
  resolved_probes = probe ∷ [];
}

short : IsShort (codes "IFoo")
unfolding is_utf8
short = (omega arith, (omega arith, (omega arith, (omega arith, (omega arith, tt)))), refl)

task_run : IsEmptied kernel keys (execute kernel bpf (ok tt) 2 task [] [])
task_run =
    execute-IsEmptied kernel keys kernel-IsInserting bpf task 2 (ok tt) [] [] kernel-IsHealthy
      bpf-Returns (λ e. cc e) ((short, tt), tt) (omega arith) refl

filters_written :
    SetUp kernel keys kernel-IsInserting 1
      (setup_binder_transaction_filters kernel (ok tt) 2 (probe ∷ []) [])
filters_written =
    setup_binder_transaction_filters-SetUp kernel keys kernel-IsInserting (ok tt) 2 (probe ∷ []) []
      kernel-IsHealthy (λ e. cc e) ((short, tt), tt) (omega arith) refl

abbrev key : List ℕ
key = to_c_key (codes "IFoo")

set_up :
    setup_binder_transaction_filters kernel (ok tt) 2 (probe ∷ []) [] ≡ some (ok true, key ∷ [])
unfolding setup_binder_transaction_filters setup_probes setup_probe put for_each contains
    write_binder_transaction_filter_to_binder_bpf_map
set_up = refl

abbrev attached : List Report
attached = attached_report bpf task probe ∷ []

-- The failure of the thread and, on top of it, that of the execution.
reported_again :
    execute kernel bpf (ok tt) 2 task [] []
    ≡ report_cleanup task
        (report_of_task task_execution_failed task ∷ failure ∷ attached)
        (cleanup_filters kernel 2 true (key ∷ []))
unfolding execute setup_binder_transaction_filters setup_probes setup_probe put for_each contains
    write_binder_transaction_filter_to_binder_bpf_map attach_probe to_signed poll_maps
    attach_probes_and_poll_maps report_execution is_reported
reported_again = refl

error_reported :
    (last : List Report) × EndsInError task last
    × (execute kernel bpf (ok tt) 2 task [] []
        ≡ report_cleanup task last (cleanup_filters kernel 2 true (key ∷ [])))
unfolding for_each attach_probe to_signed poll_maps attach_probes_and_poll_maps
error_reported =
    execute-EndsInError kernel bpf task 2 (ok tt) true [] (key ∷ []) [] (failure ∷ attached) _
      (λ path. tt) set_up refl
