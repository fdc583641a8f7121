-- ===== src/Config/Tests/Filters.antt =====
-- The filters of a binder probe.
use android_packages_modules.Common.{
  list_beq, false, none, some, List, [], ◌∷◌, Str, list_eq, nat_eq, keys, lookup, insert, Distinct,
  ok, traverse, to_unsigned, ◌≡◌, refl, ◌↔◌,
}
use android_packages_modules.Config.Resolved
use android_packages_modules.Config.Resolved.{InterfaceConfig, insert_method}
use android_packages_modules.Config.Filters.{
  resolve_binder_transaction_filters, resolve_filters, resolve_filter, resolve_method_configs,
  resolve_method_config, resolve_method_id, atom_config_try_from, field_position,
  binder_bpf_program_name, no_elements,
}
use android_packages_modules.Config.Filters.Shape.{
  WellFormed, resolve_binder_transaction_filters-exact,
  resolve_binder_transaction_filters-WellFormed,
}
use android_packages_modules.Config.Tests.Data.{binder_probe, interface}

abbrev filters : List (Str × InterfaceConfig)
filters =
    (
      interface,
      record {
        methods =
            (
              7,
              record {
                event_service_config = none;
                atom_config = some (record {
                  atom_id = 915;
                  atom_field_positions = Resolved.calling_uid ∷ Resolved.code ∷ [];
                });
              },
            )
            ∷ [];
      },
    )
    ∷ []

filters_resolve :
    resolve_binder_transaction_filters binder_probe binder_bpf_program_name ≡ ok filters
unfolding resolve_binder_transaction_filters resolve_filters resolve_filter resolve_method_configs
    resolve_method_config resolve_method_id atom_config_try_from field_position insert_method lookup
    insert to_unsigned list_beq
filters_resolve = refl

exact_example :
    (resolve_binder_transaction_filters binder_probe binder_bpf_program_name ≡ ok filters) ↔ (
      (no_elements binder_probe.binder_transaction_filters ≡ false)
      × (traverse resolve_filter binder_probe.binder_transaction_filters ≡ ok filters)
      × Distinct (keys filters))
exact_example = resolve_binder_transaction_filters-exact binder_probe filters

filters_example : WellFormed filters
filters_example =
    resolve_binder_transaction_filters-WellFormed binder_probe binder_bpf_program_name filters
      filters_resolve
