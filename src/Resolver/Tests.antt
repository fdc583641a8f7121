-- ===== src/Resolver/Tests.antt =====
-- Offsets and processes resolved on small devices.
pub mod Starts
use android_packages_modules.Common.{
  ℕ, zero, suc, ℤ, pos, negsuc, to_unsigned, true, false, Option, none, some, List, [], ◌∷◌, Str,
  codes, contains, traverse, ok, err, other, retries_exhausted, ◌≡◌, ◌≢◌, refl, arith,
  unexpected_status,
}
use android_packages_modules.Config.Resolved.{
  ExecutableMethodFileOffsets, MethodDescriptor, ResolvedProcess,
}
use android_packages_modules.Resolver.Manager.{
  Binder, IsLawful, Manager, c_string, get_offsets, new_target_process, new_method_descriptor,
  TargetProcess, Instance, get_container_path, get_container_offset, get_method_offset,
}
use android_packages_modules.Resolver.Offsets.{
  give_up, attempt, retry_loop, get_executable_method_file_offsets_with_retry, to_target_process,
  resolve_offsets, from_millis, to_config_resolver_offsets,
}
use android_packages_modules.Resolver.Offsets.Retry.{
  IsBounded, with_retry-IsBounded, with_retry-answers, with_retry-exhausts, pauses,
}
use android_packages_modules.Resolver.Offsets.Answers.{
  IsTarget, IsRead, resolve_offsets-IsAnswer, with_retry_expected,
}

abbrev pub binder : Binder
binder = record {
  Status = ℤ × ℤ;
  new_service_specific_error = λ e. (negsuc 7, e);
  exception_code = λ s. s.0;
  service_specific_error = λ s. s.1;
  service_specific = negsuc 7;
  illegal_state = negsuc 4;
}

binder-IsLawful : IsLawful binder
binder-IsLawful = record { exception_code-new = λ e. refl; service_specific_error-new = λ e. refl }

abbrev instance_ptr : Instance
instance_ptr = record {
  container_path = codes "/a.oat";
  container_offset = 4096;
  method_offset = 64;
}

abbrev place : ExecutableMethodFileOffsets
place = record { container_path = codes "/a.oat"; container_offset = 4096; method_offset = 64 }

abbrev identity : List ℕ → Str
identity bytes = bytes

-- The process is ready at the third call.
abbrev answer : ℕ → ℤ × Option Instance
answer zero = (negsuc 4, none)
answer (suc zero) = (negsuc 4, none)
answer (suc (suc n)) = (pos 0, some instance_ptr)

abbrev pub manager : Manager
manager n target descriptor = answer n

abbrev process : ResolvedProcess
process = record { pid = pos 7; uid = pos 10001; name = codes "app" }

abbrev method : MethodDescriptor
method = record {
  fully_qualified_class_name = codes "a.B";
  method_name = codes "c";
  fully_qualified_parameters = codes "int" ∷ [];
}

resolved_run :
    resolve_offsets binder identity manager true 3 process method
    ≡ some (ok (some place), from_millis 20 ∷ from_millis 10 ∷ [])
unfolding resolve_offsets to_config_resolver_offsets get_container_path get_container_offset
    get_method_offset retry_loop attempt give_up get_offsets to_target_process to_unsigned
    new_target_process new_method_descriptor c_string contains traverse
    get_executable_method_file_offsets_with_retry
resolved_run = refl

resolved_answer :
    (target : TargetProcess) × (n : ℕ) × (raw : Option Instance) × IsTarget process target
    × (manager n target method ≡ (pos 0, raw))
    × IsRead identity raw (some place)
resolved_answer =
    resolve_offsets-IsAnswer binder identity manager true 3 process method (some place)
      (from_millis 20 ∷ from_millis 10 ∷ []) resolved_run

asks_six_times :
    IsBounded (
      get_executable_method_file_offsets_with_retry binder true 6
        λ n. get_offsets binder (answer n))
asks_six_times = with_retry-IsBounded binder true λ n. get_offsets binder (answer n)

third_answer :
    get_executable_method_file_offsets_with_retry binder true 6 (λ n. get_offsets binder (answer n))
    ≡ some (ok (some instance_ptr), pauses 2 (from_millis 10) [])
unfolding get_offsets
third_answer =
    with_retry-answers binder (λ n. get_offsets binder (answer n)) 2 6 (some instance_ptr)
      (omega arith) (omega arith) ((refl, refl), ((refl, refl), tt)) refl

never_ready :
    get_executable_method_file_offsets_with_retry binder true 6
      (λ n. get_offsets binder (negsuc 4, none))
    ≡ some (err (other retries_exhausted), pauses 5 (from_millis 10) [])
unfolding get_offsets
never_ready =
    with_retry-exhausts binder (λ n. get_offsets binder (negsuc 4, none))
      (
        (refl, refl),
        ((refl, refl), ((refl, refl), ((refl, refl), ((refl, refl), ((refl, refl), tt))))),
      )

other_error :
    get_executable_method_file_offsets_with_retry binder true 6
      (λ n. get_offsets binder (negsuc 0, none))
    ≢ some (err (other unexpected_status), [])
other_error = with_retry_expected binder true (λ n. (negsuc 0, none)) 6 [] binder-IsLawful
