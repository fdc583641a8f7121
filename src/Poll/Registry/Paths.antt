-- ===== src/Poll/Registry/Paths.antt =====
-- Which handlers have the same map path.
use android_packages_modules.Common.{some, [], ◌∷◌, list_eq, list_beq, lookup, ◌≡◌, refl}
use android_packages_modules.Config.Flags.{prefix_bpf}
use android_packages_modules.Poll.Registry.{
  HandlerType, bitmap_allocation_v0, bitmap_allocation_v1, call_timestamp, call_result,
  set_uid_temp_allowlist_state_record, update_device_idle_temp_allowlist_record, binder_transaction,
  accessibility, bind_service_locked, component_enabled_setting, jit, aot, map_path_of,
  HandlerRegistry,
}

-- One handler for each map: only the two bitmap handlers share theirs.
abbrev pub reader_of : HandlerType → HandlerType
reader_of bitmap_allocation_v1 = bitmap_allocation_v0
reader_of h = h

-- The readers of all maps.
abbrev readers : HandlerRegistry
readers =
    (map_path_of bitmap_allocation_v0, bitmap_allocation_v0)
    ∷ (map_path_of call_timestamp, call_timestamp)
    ∷ (map_path_of call_result, call_result)
    ∷ (map_path_of set_uid_temp_allowlist_state_record, set_uid_temp_allowlist_state_record)
    ∷ (
      map_path_of update_device_idle_temp_allowlist_record,
      update_device_idle_temp_allowlist_record,
    )
    ∷ (map_path_of binder_transaction, binder_transaction)
    ∷ (map_path_of accessibility, accessibility)
    ∷ (map_path_of bind_service_locked, bind_service_locked)
    ∷ (map_path_of component_enabled_setting, component_enabled_setting)
    ∷ (map_path_of jit, jit)
    ∷ (map_path_of aot, aot)
    ∷ []

lookup-readers : (h : HandlerType) → lookup (map_path_of h) readers ≡ some (reader_of h)
unfolding map_path_of lookup list_beq prefix_bpf
lookup-readers bitmap_allocation_v0 = refl
lookup-readers bitmap_allocation_v1 = refl
lookup-readers call_timestamp = refl
lookup-readers call_result = refl
lookup-readers set_uid_temp_allowlist_state_record = refl
lookup-readers update_device_idle_temp_allowlist_record = refl
lookup-readers binder_transaction = refl
lookup-readers accessibility = refl
lookup-readers bind_service_locked = refl
lookup-readers component_enabled_setting = refl
lookup-readers jit = refl
lookup-readers aot = refl

pub same_reader : (h h' : HandlerType) → map_path_of h ≡ map_path_of h' → reader_of h ≡ reader_of h'
same_reader h h' e = cc (lookup-readers h, lookup-readers h', e)
