-- ===== src/Config/Guardrail.antt =====
-- daemon/core/config_resolver/guardrail.rs: which code may be instrumented on user builds.
pub mod Prefixes
pub mod Decision
use android_packages_modules.Common.{
  Bool, true, false, ◌||◌, Option, none, some, List, [], ◌∷◌, ◌++◌, Str, codes, starts_with, ◌==◌,
  list_eq, Outcome, ok, ◌>>=◌, ok_or, bpf_name_required, class_name_missing, method_name_missing,
  method_signature_missing, method_signature_invalid, if◌then◌else◌, get_elem?, eqb,
}
use android_packages_modules.Config.Proto.{ProbeConfig, Task, UprobestatsConfig}

abbrev pub allowed_method_prefixes : List Str
allowed_method_prefixes =
    codes "com.android.server.am.ActivityManagerService$LocalService.updateDeviceIdleTempAllowlist"
    ∷ codes "com.android.server.am.CachedAppOptimizer"
    ∷ codes "com.android.server.am.OomAdjuster"
    ∷ codes "com.android.server.am.OomAdjusterModernImpl"
    ∷ codes
        "com.android.server.pm.PackageManagerService$IPackageManagerImpl.setComponentEnabledSetting"
    ∷ codes "com.android.server.am.ActiveServices.bindServiceLocked"
    ∷ codes "com.android.server.pm.permission.PermissionManagerService.grantRuntimePermission"
    ∷ []

abbrev pub prog_binder_a11y_service_connection : Str
prog_binder_a11y_service_connection = codes "prog_Accessibility_uprobe_dispatch_gesture"

-- `split(" ")`: the parts between the spaces, at least one.
split_space : Str → List Str
split_space [] = [] ∷ []
split_space (c ∷ s) = elim (split_space s) [
  | [] ↦ []
  | p ∷ ps ↦ if eqb c b' ' then [] ∷ p ∷ ps else (c ∷ p) ∷ ps
]

unfoldable pub get_full_method_name : ProbeConfig → Bool → Outcome Str
unfolding split_space
get_full_method_name probe true = do
  fqcn ← ok_or probe.fully_qualified_class_name class_name_missing
  name ← ok_or probe.method_name method_name_missing
  ok (fqcn ++ (codes "." ++ name))
get_full_method_name probe false = do
  signature ← ok_or probe.method_signature method_signature_missing
  ok_or (get_elem? (split_space signature) 1) method_signature_invalid

unfoldable pub matches_prefix : Str → Str → Bool
matches_prefix full prefix =
    full == prefix
    || starts_with full (prefix ++ codes "(")
    || starts_with full (prefix ++ codes ".")
    || starts_with full (prefix ++ codes "$")

-- The `for prefix in ALLOWED_METHOD_PREFIXES` loop, which breaks at the first match.
unfoldable pub is_method_allowed : Str → List Str → Bool
unfolding matches_prefix
is_method_allowed full [] = false
is_method_allowed full (prefix ∷ rest) = matches_prefix full prefix || is_method_allowed full rest

-- The body of the loop over the probes: `some r` is `return Ok(r)`, `none` goes on.
unfoldable pub check_probe : Bool → ProbeConfig → Outcome (Option Bool)
unfolding is_method_allowed get_full_method_name
check_probe offsets_api_enabled probe = do
  bpf_program_name ← ok_or probe.bpf_name bpf_name_required
  if bpf_program_name == prog_binder_a11y_service_connection then ok (some true) else do
    full_method_name ← get_full_method_name probe offsets_api_enabled
    ok (if is_method_allowed full_method_name allowed_method_prefixes then none else some false)

abbrev continue_with : Outcome (Option Bool) → Outcome (Option Bool) → Outcome (Option Bool)
continue_with r rest = r >>= λ o. elim o [ none ↦ rest | some b ↦ ok (some b) ]

unfoldable pub check_probes : Bool → List ProbeConfig → Outcome (Option Bool)
check_probes api [] = ok none
check_probes api (probe ∷ rest) =
    let later = check_probes api rest in continue_with (check_probe api probe) later

unfoldable pub check_tasks : Bool → List Task → Outcome (Option Bool)
check_tasks api [] = ok none
check_tasks api (task ∷ rest) =
    let later = check_tasks api rest in continue_with (check_probes api task.probe_configs) later

unfoldable pub is_allowed : UprobestatsConfig → Bool → Bool → Outcome Bool
unfolding check_tasks check_probes
is_allowed config false api = ok true
is_allowed config true api =
    check_tasks api config.tasks >>= λ o. ok (elim o [ none ↦ true | some b ↦ b ])
