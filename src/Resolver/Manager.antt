-- ===== src/Resolver/Manager.antt =====
-- daemon/ffi/dynamic_instrumentation_manager/dynamic_instrumentation_manager.rs and
-- daemon/ffi/c_string.rs. The C objects hold copies of the fields that they are created from. The
-- manager and the statuses of the binder crate are parameters.
use android_packages_modules.Common.{
  ℕ, ℤ, pos, int_beq, false, Option, List, Str, codes, contains, nat_eq, Outcome, ok, err, other,
  ◌>>=◌, traverse, embedded_nul, if◌then◌else◌, ◌≡◌, arith,
}
use android_packages_modules.Config.Resolved.{MethodDescriptor}

-- `CString::new` refuses a string with a NUL byte.
unfoldable pub c_string : Str → Outcome Str
unfolding contains
c_string string = if contains 0 string then err (other embedded_nul) else ok string

pub c_string_lem : (s t : Str) → c_string s ≡ ok t → (t ≡ s) × (contains 0 s ≡ false)
unfolding c_string
c_string_lem s t e = ground (arith, e)

pub record TargetProcess : Type 0 where
  pub uid : ℕ
  pub pid : ℤ
  pub process_name : Str

-- `MethodDescriptor::new`
unfoldable pub new_method_descriptor : MethodDescriptor → Outcome MethodDescriptor
unfolding c_string
new_method_descriptor descriptor = do
  class_name ← c_string descriptor.fully_qualified_class_name
  method_name ← c_string descriptor.method_name
  parameters ← traverse c_string descriptor.fully_qualified_parameters
  ok (record {
    fully_qualified_class_name = class_name;
    method_name = method_name;
    fully_qualified_parameters = parameters;
  })

-- `TargetProcess::new`
unfoldable pub new_target_process : ℕ → ℤ → Str → Outcome TargetProcess
unfolding c_string
new_target_process uid pid process_name = do
  name ← c_string process_name
  ok (record { uid = uid; pid = pid; process_name = name })

abbrev pub system_server : Outcome TargetProcess
system_server = new_target_process 0 (pos 0) (codes "system_server")

-- `binder::Status` and the codes of `binder::ExceptionCode`.
pub record Binder : Type 1 where
  pub Status : Type 0
  pub new_service_specific_error : ℤ → Status
  pub exception_code : Status → ℤ
  pub service_specific_error : Status → ℤ
  pub service_specific : ℤ
  pub illegal_state : ℤ

-- What a status says of the error that it was made from.
pub record IsLawful (b : Binder) : Type 0 where
  pub exception_code-new :
      (e : ℤ) → b.exception_code (b.new_service_specific_error e) ≡ b.service_specific
  pub service_specific_error-new :
      (e : ℤ) → b.service_specific_error (b.new_service_specific_error e) ≡ e

-- `ADynamicInstrumentationManager_ExecutableMethodFileOffsets`, by what its getters in C return: the path
-- is the bytes before the NUL.
pub record Instance : Type 0 where
  pub container_path : List ℕ
  pub container_offset : ℕ
  pub method_offset : ℕ

-- `ExecutableMethodFileOffsets::get_container_path`
unfoldable pub get_container_path : (List ℕ → Str) → Instance → Str
get_container_path from_utf8_lossy offsets = from_utf8_lossy offsets.container_path

-- `ExecutableMethodFileOffsets::get_container_offset`
unfoldable pub get_container_offset : Instance → ℕ
get_container_offset offsets = offsets.container_offset

-- `ExecutableMethodFileOffsets::get_method_offset`
unfoldable pub get_method_offset : Instance → ℕ
get_method_offset offsets = offsets.method_offset

-- The n-th call of the C function: its status, and the pointer that it leaves, `none` for null.
abbrev pub Manager : Type 0
Manager = ℕ → TargetProcess → MethodDescriptor → ℤ × Option Instance

-- `binder::Result`
pub data BinderResult (b : Binder) (A : Type 0) : Type 0 where
  answered : A → BinderResult b A
  failed : b.Status → BinderResult b A

-- `ExecutableMethodFileOffsets::get`
unfoldable pub get_offsets : (b : Binder) → ℤ × Option Instance → BinderResult b (Option Instance)
get_offsets b (status, instance_ptr) =
    if int_beq status (pos 0)
    then answered instance_ptr
    else failed (b.new_service_specific_error status)
