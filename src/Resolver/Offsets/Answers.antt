-- ===== src/Resolver/Offsets/Answers.antt =====
-- What the answers of `resolve_offsets` come from.
use android_packages_modules.Common.{
  ℕ, zero, suc, ◌*◌, ℤ, pos, to_unsigned, int_beq_iff, Bool, true, false, Option, none, some, List,
  [], ◌∷◌, ◌≢◌, Str, contains, nat_eq, ok, err, panicked, other, traverse, unexpected_status, ◌≡◌,
  arith, Option-cases, >>=-eq-ok, Outcome-cases, inl, inr, subst,
}
use android_packages_modules.Config.Resolved.{
  Duration, ExecutableMethodFileOffsets, MethodDescriptor, ResolvedProcess,
}
use android_packages_modules.Resolver.Manager.{
  Binder, BinderResult, answered, failed, c_string, c_string_lem, IsLawful, Manager, Instance,
  get_container_path, get_container_offset, get_method_offset, get_offsets, TargetProcess,
  new_target_process, new_method_descriptor,
}
use android_packages_modules.Resolver.Offsets.{
  from_millis, give_up, attempt, retry_loop, get_executable_method_file_offsets_with_retry,
  to_target_process, resolve_offsets, only_call, with_arguments, Answer, converted,
  to_config_resolver_offsets,
}

traverse-c_string : (ss ts : List Str) → traverse c_string ss ≡ ok ts → ts ≡ ss
unfolding traverse
traverse-c_string [] ts e = ground (arith, e)
traverse-c_string (s ∷ ss) ts e =
    let (t, p, rest) = >>=-eq-ok (c_string s) _ e in
    let (ts', q, last) = >>=-eq-ok (traverse c_string ss) _ rest in
    ground (arith, last, (c_string_lem s t p).0, traverse-c_string ss ts' q)

new_method_descriptor_lem : (d d' : MethodDescriptor) → new_method_descriptor d ≡ ok d' → d' ≡ d
unfolding new_method_descriptor
new_method_descriptor_lem d d' e =
    let (class_name, p, rest) = >>=-eq-ok (c_string d.fully_qualified_class_name) _ e in
    let (method_name, q, rest') = >>=-eq-ok (c_string d.method_name) _ rest in
    let (parameters, r, last) =
      >>=-eq-ok (traverse c_string d.fully_qualified_parameters) _ rest' in
    ground (
      arith,
      last,
      (c_string_lem d.fully_qualified_class_name class_name p).0,
      (c_string_lem d.method_name method_name q).0,
      traverse-c_string d.fully_qualified_parameters parameters r,
    )

-- The target asked for is the process, whose name has no NUL byte.
abbrev pub IsTarget : ResolvedProcess → TargetProcess → Type 0
IsTarget process target =
    (pos target.uid ≡ process.uid)
    × (target.pid ≡ process.pid)
    × (target.process_name ≡ process.name)
    × (contains 0 process.name ≡ false)

to_target_process-IsTarget :
    (process : ResolvedProcess) (target : TargetProcess)
    → to_target_process process ≡ ok target
    → IsTarget process target
unfolding to_target_process to_unsigned new_target_process
to_target_process-IsTarget process target e = ground (arith, e, c_string_lem process.name)

attempt_ok :
    (b : Binder) (retries : ℕ) (r : BinderResult b (Option Instance)) (found : Option Instance)
    → attempt b retries r ≡ some (ok found)
    → r ≡ answered found
unfolding attempt give_up
attempt_ok b retries (answered o) found e = ground (arith, e)
attempt_ok b retries (failed status) found e = ground (arith, e)

retry_loop_ok :
    (b : Binder) (get : ℕ → BinderResult b (Option Instance)) (fuel retries : ℕ)
    (backoff : Duration) (slept slept' : List Duration) (found : Option Instance)
    → retry_loop b get fuel retries backoff slept ≡ some (ok found, slept')
    → (n : ℕ) × (get n ≡ answered found)
unfolding retry_loop
retry_loop_ok b get zero retries backoff slept slept' found e = absurd (cc e)
retry_loop_ok b get (suc fuel) retries backoff slept slept' found e =
    elim (Option-cases (attempt b retries (get retries))) [
      | inr (a, q) ↦ (
        retries,
        attempt_ok b retries (get retries) found (ground (arith, q, rw (q, retry_loop) at e)),
      )
      | inl q ↦
          retry_loop_ok b get fuel (suc retries) (backoff * 2) (backoff ∷ slept) slept' found
            (rw (q, retry_loop) at e)
    ]

with_retry_ok :
    (b : Binder) (api : Bool) (get : ℕ → BinderResult b (Option Instance)) (fuel : ℕ)
    (slept : List Duration) (found : Option Instance)
    → get_executable_method_file_offsets_with_retry b api fuel get ≡ some (ok found, slept)
    → (n : ℕ) × (get n ≡ answered found)
unfolding get_executable_method_file_offsets_with_retry
with_retry_ok b true get fuel slept found e =
    retry_loop_ok b get fuel 0 (from_millis 10) [] slept found e
with_retry_ok b false get fuel slept found e = (0, called (get 0) (cc e))
  where
    called : (r : BinderResult b (Option Instance)) → only_call b r ≡ ok found → r ≡ answered found
    called (answered o) h = ground (arith, h)
    called (failed status) h = absurd (cc h)

get_offsets_answered :
    (b : Binder) (r : ℤ × Option Instance) (found : Option Instance)
    → get_offsets b r ≡ answered found
    → r ≡ (pos 0, found)
unfolding get_offsets
get_offsets_answered b (status, o) found e = ground (arith, e, int_beq_iff status (pos 0))

asked-IsAnswer :
    (b : Binder) (manager : Manager) (api : Bool) (fuel : ℕ) (process : ResolvedProcess)
    (descriptor : MethodDescriptor) (raw : Option Instance) (slept : List Duration)
    → with_arguments
        (to_target_process process)
        (new_method_descriptor descriptor)
        (λ target checked.
          get_executable_method_file_offsets_with_retry b api fuel
            λ n. get_offsets b (manager n target checked))
      ≡ some (ok raw, slept)
    → (target : TargetProcess) × (n : ℕ) × IsTarget process target
      × (manager n target descriptor ≡ (pos 0, raw))
asked-IsAnswer b manager api fuel process descriptor raw slept e =
    elim (Outcome-cases (to_target_process process)) [
      | inr (inl (x, p)) ↦ absurd (cc (rw (p, with_arguments) at e))
      | inr (inr p) ↦ absurd (cc (rw (p, with_arguments) at e))
      | inl (target, p) ↦ elim (Outcome-cases (new_method_descriptor descriptor)) [
        | inr (inl (x, q)) ↦ absurd (cc (rw (p, q, with_arguments) at e))
        | inr (inr q) ↦ absurd (cc (rw (p, q, with_arguments) at e))
        | inl (checked, q) ↦
            let (n, r) =
              with_retry_ok b api (λ n. get_offsets b (manager n target checked)) fuel slept raw
                (rw (p, q, with_arguments) at e) in
            (
              target,
              n,
              to_target_process-IsTarget process target p,
              subst (λ d. manager n target d ≡ (pos 0, raw))
                  (new_method_descriptor_lem descriptor checked q)
                  (get_offsets_answered b (manager n target checked) raw r),
            )
      ]
    ]

-- What is resolved has the path of the instance as text, and its two offsets, each as its own.
abbrev pub IsRead : (List ℕ → Str) → Option Instance → Option ExecutableMethodFileOffsets → Type 0
IsRead from_utf8_lossy none none = Unit
IsRead from_utf8_lossy (some i) (some o) =
    (o.container_path ≡ from_utf8_lossy i.container_path)
    × (o.container_offset ≡ i.container_offset)
    × (o.method_offset ≡ i.method_offset)
IsRead from_utf8_lossy _ _ = ⊥

converted_ok :
    (from_utf8_lossy : List ℕ → Str) (r : Option (Answer × List Duration))
    (found : Option ExecutableMethodFileOffsets) (slept : List Duration)
    → converted from_utf8_lossy r ≡ some (ok found, slept)
    → (raw : Option Instance) × (r ≡ some (ok raw, slept)) × IsRead from_utf8_lossy raw found
unfolding to_config_resolver_offsets get_container_path get_container_offset get_method_offset
converted_ok from_utf8_lossy none found slept e = absurd (cc e)
converted_ok from_utf8_lossy (some (err x, s)) found slept e = absurd (cc e)
converted_ok from_utf8_lossy (some (panicked, s)) found slept e = absurd (cc e)
converted_ok from_utf8_lossy (some (ok none, s)) none slept e = (none, ground (arith, e), tt)
converted_ok from_utf8_lossy (some (ok none, s)) (some o) slept e = absurd (ground (arith, e))
converted_ok from_utf8_lossy (some (ok (some i), s)) none slept e = absurd (ground (arith, e))
converted_ok from_utf8_lossy (some (ok (some i), s)) (some o) slept e =
    (some i, ground (arith, e), ground (arith, e))

-- Offsets that are resolved are read from an answer of the manager, with status 0: their path is the
-- lossy text of the answer's, the container's and the method's offset are the answer's, and there are
-- none if the answer has none. The answer is to a request for the method as described, in the process as
-- resolved: its uid is not negative and its name has no NUL byte.
pub resolve_offsets-IsAnswer :
    (b : Binder) (from_utf8_lossy : List ℕ → Str) (manager : Manager) (api : Bool) (fuel : ℕ)
    (process : ResolvedProcess) (descriptor : MethodDescriptor)
    (found : Option ExecutableMethodFileOffsets) (slept : List Duration)
    → resolve_offsets b from_utf8_lossy manager api fuel process descriptor ≡ some (ok found, slept)
    → (target : TargetProcess) × (n : ℕ) × (raw : Option Instance) × IsTarget process target
      × (manager n target descriptor ≡ (pos 0, raw))
      × IsRead from_utf8_lossy raw found
unfolding resolve_offsets
resolve_offsets-IsAnswer b from_utf8_lossy manager api fuel process descriptor found slept e =
    let (raw, q, read) = converted_ok from_utf8_lossy _ found slept e in
    let (target, n, t, a) = asked-IsAnswer b manager api fuel process descriptor raw slept q in
    (target, n, raw, t, a, read)

attempt_expected :
    (b : Binder) (retries : ℕ) (r : ℤ × Option Instance)
    → IsLawful b
    → attempt b retries (get_offsets b r) ≢ some (err (other unexpected_status))
unfolding attempt give_up get_offsets
attempt_expected b retries (status, o) lawful e = ground (
  arith,
  e,
  lawful.exception_code-new status,
  int_beq_iff (b.exception_code (b.new_service_specific_error status)) b.service_specific,
)

retry_loop_expected :
    (b : Binder) (get : ℕ → ℤ × Option Instance) (fuel retries : ℕ) (backoff : Duration)
    (slept slept' : List Duration)
    → IsLawful b
    → retry_loop b (λ n. get_offsets b (get n)) fuel retries backoff slept
      ≢ some (err (other unexpected_status), slept')
unfolding retry_loop
retry_loop_expected b get zero retries backoff slept slept' lawful e = cc e
retry_loop_expected b get (suc fuel) retries backoff slept slept' lawful e =
    elim (Option-cases (attempt b retries (get_offsets b (get retries)))) [
      | inr (a, q) ↦
          attempt_expected b retries (get retries) lawful
            (ground (arith, q, rw (q, retry_loop) at e))
      | inl q ↦
          retry_loop_expected b get fuel (suc retries) (backoff * 2) (backoff ∷ slept) slept' lawful
            (rw (q, retry_loop) at e)
    ]

-- Where the binder keeps the error in a status, no answer is the error for a status of another kind:
-- the status of a failed call is always the manager's own error.
pub with_retry_expected :
    (b : Binder) (api : Bool) (get : ℕ → ℤ × Option Instance) (fuel : ℕ) (slept : List Duration)
    → IsLawful b
    → get_executable_method_file_offsets_with_retry b api fuel (λ n. get_offsets b (get n))
      ≢ some (err (other unexpected_status), slept)
unfolding get_executable_method_file_offsets_with_retry
with_retry_expected b true get fuel slept lawful e =
    retry_loop_expected b get fuel 0 (from_millis 10) [] slept lawful e
with_retry_expected b false get fuel slept lawful e = called (get_offsets b (get 0)) (cc e)
  where
    called : (r : BinderResult b (Option Instance)) → only_call b r ≢ err (other unexpected_status)
    called (answered o) h = ground (arith, h)
    called (failed status) h = ground (arith, h)
