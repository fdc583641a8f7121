-- ===== src/Config/Filters.antt =====
-- The binder transaction filters of a probe: `AtomConfig::try_from`, `EventServiceConfig::from` and
-- `resolve_binder_transaction_filters` of daemon/core/config_resolver.rs.
pub mod Collect
pub mod Shape
use android_packages_modules.Common.{
  ℕ, ◌<◌, ℤ, pos, negsuc, ltb_ℤ, leb, to_unsigned, Bool, true, false, not, ◌||◌, Option, none, some,
  List, [], ◌∷◌, map, Str, codes, is_empty, ◌==◌, nat_eq, list_eq, lookup, insert, Outcome, ok, err,
  panicked, other, ◌>>=◌, ◌>>◌, ensure, ok_or, if◌then◌else◌, int_conversion, atom_id_required,
  atom_id_not_positive, filters_required, filters_unsupported, interface_name_required,
  interface_name_empty, method_configs_empty, method_id_required, method_config_empty,
  duplicate_interface,
}
use android_packages_modules.Config.Proto.{
  EventServiceConfigProto, AtomConfigProto, MethodConfigProto, BinderTransactionFilter, ProbeConfig,
}
use android_packages_modules.Config.Resolved.{
  EventServiceConfig, AtomFieldPosition, unknown, calling_uid, interface_name, code, ktime_ns,
  AtomConfig, MethodConfig, InterfaceConfig, default_interface, insert_method,
}
use android_packages_modules.Config.Resolved

-- `EventServiceConfig::from`
unfoldable pub event_service_config_from : EventServiceConfigProto → EventServiceConfig
event_service_config_from p = record {
  mode = elim p.flush [
    | none ↦ Resolved.buffer
    | some b ↦ if b then Resolved.flush else Resolved.buffer
  ];
}

-- `enum_value_or_default` at `AtomFieldPosition`
unfoldable pub field_position : ℤ → AtomFieldPosition
field_position (negsuc n) = unknown
field_position (pos n) =
    if n == 1
    then calling_uid
    else if n == 2
    then interface_name
    else if n == 3
    then code
    else if n == 4
    then ktime_ns
    else unknown

-- `AtomConfig::try_from`
unfoldable pub atom_config_try_from : AtomConfigProto → Outcome AtomConfig
atom_config_try_from p = do
  id ← ok_or p.atom_id atom_id_required
  ensure (ltb_ℤ (pos 0) id) atom_id_not_positive
  atom_id ← ok_or (to_unsigned 32 id) int_conversion
  ok (record {
    atom_id = atom_id;
    atom_field_positions = map field_position p.atom_field_positions;
  })

-- `method_id.filter(|&id| id > 0).map(|id| id.try_into()).transpose()?.ok_or_else(…)?`, where
-- `c_ulong` has 64 bits.
unfoldable pub resolve_method_id : Option ℤ → Outcome ℕ
resolve_method_id none = err (other method_id_required)
resolve_method_id (some id) =
    if ltb_ℤ (pos 0) id
    then ok_or (to_unsigned 64 id) int_conversion
    else err (other method_id_required)

abbrev pub is_some {ℓ} : {A : Type ℓ} → Option A → Bool
is_some none = false
is_some (some a) = true

-- `map(|config| config.try_into()).transpose()`
abbrev pub transpose {ℓ κ} :
    {A : Type ℓ} {B : Type κ} → (A → Outcome B) → Option A → Outcome (Option B)
transpose f none = ok none
transpose f (some a) = f a >>= λ b. ok (some b)

unfoldable pub resolve_method_config : MethodConfigProto → Outcome (ℕ × MethodConfig)
unfolding resolve_method_id atom_config_try_from event_service_config_from
resolve_method_config p = do
  method_id ← resolve_method_id p.method_id
  ensure (is_some p.event_service_config || is_some p.atom_config) method_config_empty
  event_service_config ← transpose (λ c. ok (event_service_config_from c)) p.event_service_config
  atom_config ← transpose atom_config_try_from p.atom_config
  ok (method_id, record { event_service_config = event_service_config; atom_config = atom_config })

-- `interface_config.insert_method(..)?`
abbrev insert_or_fail : InterfaceConfig → ℕ × MethodConfig → Outcome InterfaceConfig
insert_or_fail i m = let (r, i') = insert_method m.0 m.1 i in r >>= λ _. ok i'

-- The loop over the method configurations of a filter.
unfoldable pub resolve_method_configs :
    InterfaceConfig → List MethodConfigProto → Outcome InterfaceConfig
unfolding insert_method resolve_method_config
resolve_method_configs i [] = ok i
resolve_method_configs i (p ∷ ps) = do
  m ← resolve_method_config p
  i' ← insert_or_fail i m
  resolve_method_configs i' ps

abbrev pub no_elements {ℓ} : {A : Type ℓ} → List A → Bool
no_elements [] = true
no_elements (x ∷ xs) = false

unfoldable pub resolve_filter : BinderTransactionFilter → Outcome (Str × InterfaceConfig)
unfolding resolve_method_configs
resolve_filter f = do
  name ← ok_or f.interface_name interface_name_required
  ensure (not (is_empty name)) interface_name_empty
  ensure (not (no_elements f.method_configs)) method_configs_empty
  interface_config ← resolve_method_configs default_interface f.method_configs
  ok (name, interface_config)

-- `if filters.insert(..).is_some() { bail! }`
abbrev insert_interface :
    List (Str × InterfaceConfig) → Str × InterfaceConfig → Outcome (List (Str × InterfaceConfig))
insert_interface filters f =
    ensure (not (is_some (lookup f.0 filters))) duplicate_interface >> ok (insert f.0 f.1 filters)

-- The loop over the filters of a probe.
unfoldable pub resolve_filters :
    List (Str × InterfaceConfig)
    → List BinderTransactionFilter
    → Outcome (List (Str × InterfaceConfig))
unfolding resolve_filter
resolve_filters filters [] = ok filters
resolve_filters filters (f ∷ fs) = do
  resolved ← resolve_filter f
  filters' ← insert_interface filters resolved
  resolve_filters filters' fs

abbrev pub binder_bpf_program_name : Str
binder_bpf_program_name = codes "prog_Binder_uprobe_exec_transact_internal"

unfoldable pub resolve_binder_transaction_filters :
    ProbeConfig → Str → Outcome (List (Str × InterfaceConfig))
unfolding resolve_filters
resolve_binder_transaction_filters probe bpf_name =
    if bpf_name == binder_bpf_program_name
    then (do
      ensure (not (no_elements probe.binder_transaction_filters)) filters_required
      resolve_filters [] probe.binder_transaction_filters)
    else (do ensure (no_elements probe.binder_transaction_filters) filters_unsupported; ok [])
