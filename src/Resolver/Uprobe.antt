-- ===== src/Resolver/Uprobe.antt =====
-- Process starts by a probe on the system server: `wait_for_app_start_uprobe` of
-- daemon/android/process.rs.
pub mod Ends
pub mod Agrees
use android_packages_modules.Common.{
  ℕ, zero, suc, ℤ, pos, to_signed, ltb_ℤ, Bool, true, false, not, Option, none, some, List, [], ◌∷◌,
  Str, codes, list_eq, ◌==◌, Outcome, ok, err, panicked, other, ◌>>=◌, ok_or, int_conversion,
  start_timeout, system_server_not_found, offsets_not_found, manager_failed, if◌then◌else◌,
}
use android_packages_modules.Strings.{bytes_as_str}
use android_packages_modules.Config.Flags.{prefix_bpf}
use android_packages_modules.Config.Resolved.{Duration, ResolvedProcess, MethodDescriptor}
use android_packages_modules.Poll.{RingBuffer, remaining_millis}
use android_packages_modules.Resolver.Manager.{
  Binder, BinderResult, answered, failed, Instance, get_container_path, get_method_offset, Manager,
  get_offsets, new_method_descriptor, system_server,
}

pub record ProcessChange : Type 0 where
  pub pid : ℤ
  pub uid : ℤ
  pub process_name : List ℕ

abbrev make_active : MethodDescriptor
make_active = record {
  fully_qualified_class_name = codes "com.android.server.am.ProcessRecord";
  method_name = codes "makeActive";
  fully_qualified_parameters =
      codes "com.android.server.am.ApplicationThreadDeferred"
      ∷ codes "com.android.server.am.ProcessStatsService"
      ∷ [];
}

abbrev on_process_active : MethodDescriptor
on_process_active = record {
  fully_qualified_class_name = codes "com.android.server.am.ProcessProfileRecord";
  method_name = codes "onProcessActive";
  fully_qualified_parameters =
      codes "android.app.IApplicationThread"
      ∷ codes "com.android.server.am.ProcessStatsService"
      ∷ [];
}

abbrev found_or_fail : {b : Binder} → BinderResult b (Option Instance) → Outcome Instance
found_or_fail (failed status) = err (other manager_failed)
found_or_fail (answered offsets) = ok_or offsets offsets_not_found

module _ (b : Binder) (manager : Manager) where
  -- `get_ProcessRecord_makeActive_offsets` and `get_onProcessActive_offsets`, at the n-th call.
  unfoldable pub get_start_offsets : ℕ → MethodDescriptor → Outcome Instance
  unfolding new_method_descriptor
  get_start_offsets n method = do
    target ← system_server
    descriptor ← new_method_descriptor method
    found_or_fail (get_offsets b (manager n target descriptor))

  abbrev or_else_active : Outcome Instance → Outcome (Instance × Str)
  or_else_active (ok offsets) = ok (offsets, codes "prog_ProcessManagement_uprobe_make_active")
  or_else_active (err e) = do
    offsets ← get_start_offsets 1 on_process_active
    ok (offsets, codes "prog_ProcessManagement_uprobe_on_process_active")
  or_else_active panicked = panicked

  -- The method of the running Android version, and the program that reads its arguments.
  unfoldable pub start_probe : Outcome (Instance × Str)
  unfolding get_start_offsets
  start_probe = or_else_active (get_start_offsets 0 make_active)

-- `process_name.is_none() || process_name.unwrap() == result_process_name`
unfoldable pub is_wanted : Option Str → Str → Bool
is_wanted none name = true
is_wanted (some wanted) name = wanted == name

-- The `for` loop over the changes of one poll.
unfoldable pub first_start : Option Str → List ProcessChange → Outcome (Option ResolvedProcess)
unfolding is_wanted
first_start process_name [] = ok none
first_start process_name (change ∷ changes) =
    let rest = first_start process_name changes in
    (bytes_as_str change.process_name >>= λ name.
    if is_wanted process_name name
    then (if not (ltb_ℤ (pos 0) change.pid)
        then rest
        else ok (some (record { pid = change.pid; uid = change.uid; name = name })))
    else rest)

-- One round of the `while let` loop.
unfoldable pub wait_round :
    RingBuffer ProcessChange → Option Str → ℕ → ℕ → Outcome (Option ResolvedProcess)
unfolding first_start
wait_round ring_buffer process_name round remaining = do
  timeout ← ok_or (to_signed 31 remaining) int_conversion
  result ← ring_buffer.poll round timeout
  first_start process_name result

abbrev pub go_on :
    Option (Outcome ResolvedProcess)
    → Outcome (Option ResolvedProcess)
    → Option (Outcome ResolvedProcess)
go_on rest (ok none) = rest
go_on rest (ok (some resolved)) = some (ok resolved)
go_on rest (err e) = some (err e)
go_on rest panicked = some panicked

-- The loop and what follows it; `none` is fuel that ran out.
unfoldable pub wait_rounds :
    RingBuffer ProcessChange → Option Str → Duration → ℕ → ℕ → Option (Outcome ResolvedProcess)
unfolding remaining_millis wait_round
wait_rounds ring_buffer process_name duration zero round = none
wait_rounds ring_buffer process_name duration (suc fuel) round =
    let rest = wait_rounds ring_buffer process_name duration fuel (suc round) in
    elim (remaining_millis duration (ring_buffer.elapsed_millis round)) [
      | none ↦ some (err (other start_timeout))
      | some remaining ↦ go_on rest (wait_round ring_buffer process_name round remaining)
    ]

-- `bpf_perf_event_open`: a path, an offset, a pid and a program.
abbrev pub PerfEventOpen : Type 0
PerfEventOpen = Str → ℤ → ℤ → Str → Outcome (Unit {0})

abbrev after_setup :
    Option (Outcome ResolvedProcess) → Outcome (Unit {0}) → Option (Outcome ResolvedProcess)
after_setup rest (ok u) = rest
after_setup rest (err e) = some (err e)
after_setup rest panicked = some panicked

-- What comes before the loop: the probe is attached and the ring buffer is opened.
unfoldable pub attach_start_probe :
    (b : Binder)
    → (List ℕ → Str)
    → Manager
    → PerfEventOpen
    → RingBuffer ProcessChange
    → Option ℤ
    → Outcome (Unit {0})
unfolding start_probe prefix_bpf get_container_path get_method_offset
attach_start_probe b from_utf8_lossy manager perf_event_open ring_buffer system_server_pid = do
  pid ← ok_or system_server_pid system_server_not_found
  probe ← start_probe b manager
  offset ← ok_or (to_signed 31 (get_method_offset probe.0)) int_conversion
  opened ←
      perf_event_open (get_container_path from_utf8_lossy probe.0) offset pid (prefix_bpf probe.1)
  ring_buffer.new

unfoldable pub wait_for_app_start_uprobe :
    (b : Binder)
    → (List ℕ → Str)
    → Manager
    → PerfEventOpen
    → RingBuffer ProcessChange
    → Option ℤ
    → Option Str
    → Duration
    → ℕ
    → Option (Outcome ResolvedProcess)
unfolding attach_start_probe wait_rounds
wait_for_app_start_uprobe b from_utf8_lossy manager perf_event_open ring_buffer system_server_pid
      process_name duration fuel =
    after_setup (wait_rounds ring_buffer process_name duration fuel 0)
      (attach_start_probe b from_utf8_lossy manager perf_event_open ring_buffer system_server_pid)
