-- ===== src/Resolver/Offsets.antt =====
-- daemon/android/offsets.rs: code offsets from the instrumentation manager, asked again while the
-- target process is not ready. The durations of the sleeps are logged, the last one first.
pub mod Retry
pub mod Answers
use android_packages_modules.Common.{
  ℕ, zero, suc, ◌*◌, leb, ℤ, to_unsigned, int_beq, Bool, true, false, not, Option, none, some, List,
  [], ◌∷◌, Str, Outcome, ok, err, panicked, other, foreign, ok_or, int_conversion, manager_failed,
  retries_exhausted, unexpected_status, unexpected_service_error, if◌then◌else◌,
}
use android_packages_modules.Effects.{Eff, ◌>>=◌, lift, pure}
use android_packages_modules.Config.Resolved.{
  Duration, MethodDescriptor, ExecutableMethodFileOffsets, ResolvedProcess,
}
use android_packages_modules.Resolver.Manager.{
  TargetProcess, new_target_process, new_method_descriptor, Binder, BinderResult, answered, failed,
  Instance, get_container_path, get_container_offset, get_method_offset, Manager, get_offsets,
}

-- Milliseconds as a duration.
abbrev pub from_millis : ℕ → Duration
from_millis ms = ms * 1000000

abbrev pub max_retries : ℕ
max_retries = 5

abbrev pub Answer : Type 0
Answer = Outcome (Option Instance)

module _ (b : Binder) where
  -- The tests of the `Err` arm, in their order; `none` sleeps and tries again.
  unfoldable pub give_up : ℕ → b.Status → Option Answer
  give_up retries status =
      if leb max_retries retries
      then some (err (other retries_exhausted))
      else if not (int_beq (b.exception_code status) b.service_specific)
      then some (err (other unexpected_status))
      else if not (int_beq (b.service_specific_error status) b.illegal_state)
      then some (err (other unexpected_service_error))
      else none

  -- The body of the loop.
  unfoldable pub attempt : ℕ → BinderResult b (Option Instance) → Option Answer
  unfolding give_up
  attempt retries (answered offsets) = some (ok offsets)
  attempt retries (failed status) = give_up retries status

  module _ (get : ℕ → BinderResult b (Option Instance)) where
    -- The `loop`; `none` is fuel that ran out.
    unfoldable pub retry_loop : ℕ → ℕ → Duration → List Duration → Option (Answer × List Duration)
    unfolding attempt
    retry_loop zero retries backoff slept = none
    retry_loop (suc fuel) retries backoff slept = elim (attempt retries (get retries)) [
      | some answer ↦ some (answer, slept)
      | none ↦ retry_loop fuel (suc retries) (backoff * 2) (backoff ∷ slept)
    ]

  -- The answer without the process observer API: the error of the only call is wrapped.
  abbrev pub only_call : BinderResult b (Option Instance) → Answer
  only_call (answered offsets) = ok offsets
  only_call (failed status) = err (other manager_failed)

  unfoldable pub get_executable_method_file_offsets_with_retry :
      Bool → ℕ → (ℕ → BinderResult b (Option Instance)) → Option (Answer × List Duration)
  unfolding retry_loop
  get_executable_method_file_offsets_with_retry use_process_observer_api fuel get =
      if not use_process_observer_api
      then some (only_call (get 0), [])
      else retry_loop get fuel 0 (from_millis 10) []

-- The manager's descriptor of a configured method.
abbrev pub to_method_descriptor : MethodDescriptor → Outcome MethodDescriptor
to_method_descriptor method_descriptor = new_method_descriptor method_descriptor

-- `to_target_process`: the uid is an i32 in the task and a u32 in the request.
unfoldable pub to_target_process : ResolvedProcess → Outcome TargetProcess
unfolding to_unsigned new_target_process
to_target_process process = elim (to_unsigned 32 process.uid) [
  | none ↦ err (other int_conversion)
  | some uid ↦ new_target_process uid process.pid process.name
]

abbrev pub with_arguments :
    Outcome TargetProcess
    → Outcome MethodDescriptor
    → (TargetProcess → MethodDescriptor → Option (Answer × List Duration))
    → Option (Answer × List Duration)
with_arguments (err e) descriptor ask = some (err e, [])
with_arguments panicked descriptor ask = some (panicked, [])
with_arguments (ok target) (err e) ask = some (err e, [])
with_arguments (ok target) panicked ask = some (panicked, [])
with_arguments (ok target) (ok descriptor) ask = ask target descriptor

-- `to_config_resolver_offsets`
unfoldable pub to_config_resolver_offsets : (List ℕ → Str) → Instance → ExecutableMethodFileOffsets
unfolding get_container_path get_container_offset get_method_offset
to_config_resolver_offsets from_utf8_lossy offsets = record {
  container_path = get_container_path from_utf8_lossy offsets;
  container_offset = get_container_offset offsets;
  method_offset = get_method_offset offsets;
}

abbrev pub Resolution : Type 0
Resolution = Option (Outcome (Option ExecutableMethodFileOffsets) × List Duration)

-- `offsets.as_ref().map(to_config_resolver_offsets)`, after the `?`
abbrev pub converted : (List ℕ → Str) → Option (Answer × List Duration) → Resolution
converted from_utf8_lossy none = none
converted from_utf8_lossy (some (ok none, slept)) = some (ok none, slept)
converted from_utf8_lossy (some (ok (some offsets), slept)) =
    some (ok (some (to_config_resolver_offsets from_utf8_lossy offsets)), slept)
converted from_utf8_lossy (some (err e, slept)) = some (err e, slept)
converted from_utf8_lossy (some (panicked, slept)) = some (panicked, slept)

-- `OffsetResolverImpl::resolve_offsets`
unfoldable pub resolve_offsets :
    (b : Binder)
    → (List ℕ → Str)
    → Manager
    → Bool
    → ℕ
    → ResolvedProcess
    → MethodDescriptor
    → Resolution
unfolding to_target_process new_method_descriptor get_executable_method_file_offsets_with_retry
    to_config_resolver_offsets
resolve_offsets b from_utf8_lossy manager use_process_observer_api fuel process descriptor =
    converted from_utf8_lossy (
      with_arguments (to_target_process process) (new_method_descriptor descriptor)
        λ target checked.
          get_executable_method_file_offsets_with_retry b use_process_observer_api fuel
            λ n. get_offsets b (manager n target checked))
