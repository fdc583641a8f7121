-- ===== src/Config/Guardrail/Decision.antt =====
-- What `is_allowed` of guardrail.rs lets through on a user build.
use android_packages_modules.Common.{
  Bool, true, false, Option, none, some, List, [], ◌∷◌, ◌++◌, Str, codes, Outcome, ok, ◌≡◌, refl,
  ◌⊎◌, ◌↔◌, err, panicked, inl, inr, arith, list_eq, list_beq_iff, Option-cases,
}
use android_packages_modules.Config.Proto.{ProbeConfig, Task, UprobestatsConfig}
use android_packages_modules.Config.Guardrail.{
  prog_binder_a11y_service_connection, check_probe, continue_with, check_probes, check_tasks,
  is_allowed, allowed_method_prefixes,
}
use android_packages_modules.Config.Guardrail.Prefixes.{
  IsListed, is_method_allowed-IsListed, IsListed-is_method_allowed,
}

-- A probe of a method on the allowlist.
pub record IsPermitted (probe : ProbeConfig) : Type 0 where
  pub program : Str
  pub has_program : probe.bpf_name ≡ some program
  pub class_name : Str
  pub has_class : probe.fully_qualified_class_name ≡ some class_name
  pub method : Str
  pub has_method : probe.method_name ≡ some method
  pub listed : IsListed (class_name ++ (codes "." ++ method)) allowed_method_prefixes

-- A probe with the accessibility program, which ends the whole check.
abbrev pub IsA11y : ProbeConfig → Type 0
IsA11y probe = probe.bpf_name ≡ some prog_binder_a11y_service_connection

-- The probes of a list, as far as the check looks at them, are permitted.
pub data IsVetted : List ProbeConfig → Type 0 where
  all_seen : IsVetted []
  seen :
      {probe : ProbeConfig} {rest : List ProbeConfig}
      → IsPermitted probe
      → IsVetted rest
      → IsVetted (probe ∷ rest)
  ended : {probe : ProbeConfig} {rest : List ProbeConfig} → IsA11y probe → IsVetted (probe ∷ rest)

unfoldable pub all_probes : List Task → List ProbeConfig
all_probes [] = []
all_probes (task ∷ rest) = task.probe_configs ++ all_probes rest

-- The check goes on past the probe, or ends with a yes.
abbrev Passes : Outcome (Option Bool) → Type 0
Passes (ok none) = Unit
Passes (ok (some b)) = b ≡ true
Passes _ = ⊥

Passes-cases : (r : Outcome (Option Bool)) → (r ≡ ok none) ⊎ ((r ≡ ok (some true)) ⊎ (Passes r → ⊥))
Passes-cases (ok none) = inl refl
Passes-cases (ok (some true)) = inr (inl refl)
Passes-cases (ok (some false)) = inr (inr (λ h. cc))
Passes-cases (err e) = inr (inr (λ h. h))
Passes-cases panicked = inr (inr (λ h. h))

check_probe-IsPermitted :
    (probe : ProbeConfig) → check_probe true probe ≡ ok none → IsPermitted probe
unfolding check_probe
check_probe-IsPermitted probe h = elim (Option-cases probe.bpf_name) [
  | inl e ↦ ground arith
  | inr (name, e) ↦ elim (Option-cases probe.fully_qualified_class_name) [
    | inl e1 ↦ ground arith
    | inr (class_name, e1) ↦ elim (Option-cases probe.method_name) [
      | inl e2 ↦ ground arith
      | inr (method, e2) ↦ record {
        program = name;
        has_program = e;
        class_name = class_name;
        has_class = e1;
        method = method;
        has_method = e2;
        listed = is_method_allowed-IsListed _ _ (ground arith);
      }
    ]
  ]
]

check_probe-IsA11y : (probe : ProbeConfig) → check_probe true probe ≡ ok (some true) → IsA11y probe
unfolding check_probe
check_probe-IsA11y probe h = elim (Option-cases probe.bpf_name) [
  | inl e ↦ ground arith
  | inr (name, e) ↦ ground (arith, list_beq_iff name prog_binder_a11y_service_connection)
]

check_probe_of_permitted :
    (probe : ProbeConfig) → IsPermitted probe → Passes (check_probe true probe)
unfolding check_probe
check_probe_of_permitted probe p = ground (arith, IsListed-is_method_allowed _ p.listed)

check_probe_of_a11y : (probe : ProbeConfig) → IsA11y probe → check_probe true probe ≡ ok (some true)
unfolding check_probe
check_probe_of_a11y probe p =
    ground
      (arith, list_beq_iff prog_binder_a11y_service_connection prog_binder_a11y_service_connection)

check_probes-sound : (ps : List ProbeConfig) → Passes (check_probes true ps) → IsVetted ps
unfolding check_probes
check_probes-sound [] h = all_seen
check_probes-sound (p ∷ ps) h = elim (Passes-cases (check_probe true p)) [
  | inl e ↦ seen (check_probe-IsPermitted p e) (check_probes-sound ps (ground arith))
  | inr (inl e) ↦ ended (check_probe-IsA11y p e)
  | inr (inr no_pass) ↦ absurd (no_pass (ground arith))
]

check_probes_complete : {ps : List ProbeConfig} → IsVetted ps → Passes (check_probes true ps)
unfolding check_probes
check_probes_complete all_seen = tt
check_probes_complete (seen {probe} {rest} p v) =
    ground (arith, check_probe_of_permitted probe p, check_probes_complete v)
check_probes_complete (ended {probe} {rest} a) = ground (arith, check_probe_of_a11y probe a)

check_probes-append :
    (ps qs : List ProbeConfig)
    → check_probes true (ps ++ qs) ≡ continue_with (check_probes true ps) (check_probes true qs)
unfolding check_probes
check_probes-append [] qs = refl
check_probes-append (p ∷ ps) qs = ground (arith, check_probes-append ps qs)

check_tasks-check_probes :
    (tasks : List Task) → check_tasks true tasks ≡ check_probes true (all_probes tasks)
unfolding check_tasks all_probes check_probes
check_tasks-check_probes [] = refl
check_tasks-check_probes (task ∷ rest) =
    ground (
      arith,
      check_tasks-check_probes rest,
      check_probes-append task.probe_configs (all_probes rest),
    )

-- On a user build a configuration passes exactly if each of its probes, up to the first with the
-- accessibility program, is on the allowlist; what follows that one is not looked at.
pub is_allowed-IsVetted :
    (config : UprobestatsConfig)
    → (is_allowed config true true ≡ ok true) ↔ IsVetted (all_probes config.tasks)
unfolding is_allowed
is_allowed-IsVetted config = (
  λ h.
      check_probes-sound (all_probes config.tasks)
        (ground (arith, check_tasks-check_probes config.tasks)),
  λ v. ground (arith, check_tasks-check_probes config.tasks, check_probes_complete v),
)
