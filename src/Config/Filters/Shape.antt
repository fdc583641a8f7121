-- ===== src/Config/Filters/Shape.antt =====
-- What the filters of a resolved probe satisfy.
use android_packages_modules.Common.{
  ℕ, ◌<◌, ◌^◌, to_unsigned, true, false, Option, none, some, List, [], ◌∷◌, Str, is_empty, ◌==◌,
  nat_eq, list_eq, insert, keys, Distinct, All, ok, ◌>>=◌, traverse, ◌≡◌, refl, inl, inr, arith,
  duplicate_interface, duplicate_method, Bool-cases, Outcome-cases, >>=-eq-ok, ◌||◌, ◌↔◌, subst,
  sym, list_beq_refl, traverse-All,
}
use android_packages_modules.Config.Proto.{MethodConfigProto, BinderTransactionFilter, ProbeConfig}
use android_packages_modules.Config.Resolved.{
  AtomConfig, MethodConfig, InterfaceConfig, default_interface, insert_method,
}
use android_packages_modules.Config.Filters.{
  resolve_method_config, resolve_method_configs, resolve_filter, resolve_filters,
  resolve_binder_transaction_filters, binder_bpf_program_name, no_elements, is_some,
}
use android_packages_modules.Config.Filters.Collect.{collect_map, collect_map-exact}

resolve_filters-collect :
    (m : List (Str × InterfaceConfig)) (fs : List BinderTransactionFilter)
    → resolve_filters m fs ≡ collect_map resolve_filter duplicate_interface m fs
unfolding resolve_filters collect_map
resolve_filters-collect m [] = refl
resolve_filters-collect m (f ∷ fs) = elim (Outcome-cases (resolve_filter f)) [
  | inl ((name, i), e) ↦ ground (arith, e, resolve_filters-collect (insert name i m) fs)
  | inr (inl (c, e)) ↦ ground (arith, e)
  | inr (inr e) ↦ ground (arith, e)
]

resolve_method_configs-collect :
    (i : InterfaceConfig) (ps : List MethodConfigProto)
    → resolve_method_configs i ps ≡ (
        collect_map resolve_method_config duplicate_method i.methods ps >>= λ ms.
        ok (record { methods = ms }))
unfolding resolve_method_configs collect_map insert_method
resolve_method_configs-collect i [] = refl
resolve_method_configs-collect i (p ∷ ps) = elim (Outcome-cases (resolve_method_config p)) [
  | inl ((id, c), e) ↦
      ground
        (arith, e, resolve_method_configs-collect (record { methods = insert id c i.methods }) ps)
  | inr (inl (c, e)) ↦ ground (arith, e)
  | inr (inr e) ↦ ground (arith, e)
]

-- The atom id fits u32 and is not 0.
abbrev pub HasAtomId : Option AtomConfig → Type 0
HasAtomId none = Unit
HasAtomId (some c) = (0 < c.atom_id) × (c.atom_id < 2 ^ 32)

pub record IsMethodEntry (m : ℕ × MethodConfig) : Type 0 where
  pub id_positive : 0 < m.0
  pub id_fits : m.0 < 2 ^ 64
  pub reports : (is_some m.1.event_service_config || is_some m.1.atom_config) ≡ true
  pub atom_id_fits : HasAtomId m.1.atom_config

pub record IsInterfaceEntry (f : Str × InterfaceConfig) : Type 0 where
  pub named : is_empty f.0 ≡ false
  pub filters_methods : no_elements f.1.methods ≡ false
  pub distinct_ids : Distinct (keys f.1.methods)
  pub entries : All IsMethodEntry f.1.methods

resolve_method_config-IsMethodEntry :
    (p : MethodConfigProto) (m : ℕ × MethodConfig)
    → resolve_method_config p ≡ ok m
    → IsMethodEntry m
unfolding resolve_method_config to_unsigned
resolve_method_config-IsMethodEntry p m h = ground arith

resolve_methods-nonempty :
    (ps : List MethodConfigProto) (ms : List (ℕ × MethodConfig))
    → traverse resolve_method_config ps ≡ ok ms
    → no_elements ps ≡ false
    → no_elements ms ≡ false
unfolding traverse
resolve_methods-nonempty [] ms h n = cc
resolve_methods-nonempty (p ∷ ps) [] h n =
    let (a, fx, h1) = >>=-eq-ok (resolve_method_config p) _ h in
    let (as', fxs, h2) = >>=-eq-ok (traverse resolve_method_config ps) _ h1 in cc h2
resolve_methods-nonempty (p ∷ ps) (m ∷ ms) h n = refl

resolve_filter-IsInterfaceEntry :
    (f : BinderTransactionFilter) (r : Str × InterfaceConfig)
    → resolve_filter f ≡ ok r
    → IsInterfaceEntry r
unfolding resolve_filter
resolve_filter-IsInterfaceEntry f r h =
    elim (Outcome-cases (collect_map resolve_method_config duplicate_method [] f.method_configs)) [
      | inl (ms, e) ↦
          let (all_ok, distinct) =
            (collect_map-exact resolve_method_config duplicate_method f.method_configs ms).0 e in
          let i : InterfaceConfig = record { methods = ms } in
          let built : r.1 ≡ i =
            ground (arith, e, resolve_method_configs-collect default_interface f.method_configs) in
          record {
            named = ground arith;
            filters_methods =
                rw built (resolve_methods-nonempty f.method_configs ms all_ok (ground arith));
            distinct_ids = rw built distinct;
            entries = rw built (
                traverse-All IsMethodEntry resolve_method_config resolve_method_config-IsMethodEntry
                  f.method_configs ms all_ok);
          }
      | inr (inl (c, e)) ↦
          ground (arith, e, resolve_method_configs-collect default_interface f.method_configs)
      | inr (inr e) ↦
          ground (arith, e, resolve_method_configs-collect default_interface f.method_configs)
    ]

abbrev pub WellFormed : List (Str × InterfaceConfig) → Type 0
WellFormed m = Distinct (keys m) × All IsInterfaceEntry m

abbrev FilterResults : ProbeConfig → List (Str × InterfaceConfig) → Type 0
FilterResults probe m =
    (no_elements probe.binder_transaction_filters ≡ false)
    × (traverse resolve_filter probe.binder_transaction_filters ≡ ok m)
    × Distinct (keys m)

binder_results :
    (probe : ProbeConfig) (name : Str) (m : List (Str × InterfaceConfig))
    → (name == binder_bpf_program_name) ≡ true
    → (resolve_binder_transaction_filters probe name ≡ ok m) ↔ FilterResults probe m
unfolding resolve_binder_transaction_filters
binder_results probe name m b =
    let exact =
      collect_map-exact resolve_filter duplicate_interface probe.binder_transaction_filters m in
    let same = resolve_filters-collect [] probe.binder_transaction_filters in
    (
      λ h. let r = exact.0 (ground (arith, same)) in (ground (arith, same), r.0, r.1),
      λ h. ground (arith, same, exact.1 (h.1, h.2)),
    )

other_results :
    (probe : ProbeConfig) (name : Str) (m : List (Str × InterfaceConfig))
    → (name == binder_bpf_program_name) ≡ false
    → resolve_binder_transaction_filters probe name ≡ ok m
    → m ≡ []
unfolding resolve_binder_transaction_filters
other_results probe name m b h = ground arith

-- For the binder program the filters resolve to a map exactly if there is a filter, each resolves by
-- itself, and no two name one interface; the map then holds their results in order.
pub resolve_binder_transaction_filters-exact :
    (probe : ProbeConfig) (m : List (Str × InterfaceConfig))
    → (resolve_binder_transaction_filters probe binder_bpf_program_name ≡ ok m) ↔ (
        (no_elements probe.binder_transaction_filters ≡ false)
        × (traverse resolve_filter probe.binder_transaction_filters ≡ ok m)
        × Distinct (keys m))
resolve_binder_transaction_filters-exact probe m =
    binder_results probe binder_bpf_program_name m (list_beq_refl binder_bpf_program_name)

-- Whatever the program, filters that resolve are well formed: interface names are distinct and not
-- empty, each has a method, method ids are distinct, positive and fit u64, each method reports to
-- statsd or to the event service, and atom ids are positive and fit u32.
pub resolve_binder_transaction_filters-WellFormed :
    (probe : ProbeConfig) (name : Str) (m : List (Str × InterfaceConfig))
    → resolve_binder_transaction_filters probe name ≡ ok m
    → WellFormed m
resolve_binder_transaction_filters-WellFormed probe name m h =
    elim (Bool-cases (name == binder_bpf_program_name)) [
      | inl b ↦
          let r = (binder_results probe name m b).0 h in
          (
            r.2,
            traverse-All IsInterfaceEntry resolve_filter resolve_filter-IsInterfaceEntry
                probe.binder_transaction_filters m r.1,
          )
      | inr b ↦ subst WellFormed (sym (other_results probe name m b h)) (tt, tt)
    ]
