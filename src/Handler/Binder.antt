-- ===== src/Handler/Binder.antt =====
-- daemon/core/bpf_handler/binder_transaction.rs: binder calls, reported as the filters ask.
pub mod Reports
use android_packages_modules.Common
use android_packages_modules.Common.{
  ℕ, ℤ, to_signed, Bool, true, false, Option, none, some, List, [], ◌∷◌, Str, codes, list_eq,
  nat_eq, lookup, Outcome, ok, err, other, ok_or, traverse, int_conversion, no_binder_config,
  unknown_field_position,
}
use android_packages_modules.Effects.{◌>>=◌, ◌>>◌, pure, raise, lift}
use android_packages_modules.Strings.{bytes_as_nonempty_str}
use android_packages_modules.Atom.{Field, int32, int64, string, is_uid, new, new_with_annotation}
use android_packages_modules.Config.Resolved
use android_packages_modules.Config.Resolved.{
  AtomConfig, AtomFieldPosition, EventServiceConfig, EventMode, MethodConfig, ResolvedProbe,
  ResolvedTask, get_method,
}
use android_packages_modules.Handler.World.{
  World, Handling, write, get_service, enqueue, string_entry, int_entry,
  get_current_timestamp_millis, binder_transaction_id,
}

pub record BinderTransaction : Type 0 where
  pub interface_descriptor : List ℕ
  pub code : ℕ
  pub calling_uid : ℤ
  pub timestamp_ns : ℕ

-- `filter_map` and `find_map`: the first probe with the interface and the method.
unfoldable pub find_method_config : List ResolvedProbe → Str → ℕ → Option MethodConfig
find_method_config [] name code = none
find_method_config (probe ∷ probes) name code =
    let rest = find_method_config probes name code in
    elim (lookup name probe.binder_transaction_filters) [
      | none ↦ rest
      | some interface_config ↦ elim (get_method interface_config code) [
        | none ↦ rest
        | some c ↦ some c
      ]
    ]

unfoldable pub atom_field : ℤ → Str → ℤ → ℤ → AtomFieldPosition → Outcome Field
atom_field uid interface_name code timestamp_ns Resolved.unknown =
    err (other unknown_field_position)
atom_field uid interface_name code timestamp_ns Resolved.calling_uid =
    ok (new_with_annotation (int32 uid) (is_uid true))
atom_field uid interface_name code timestamp_ns Resolved.interface_name =
    ok (new (string interface_name))
atom_field uid interface_name code timestamp_ns Resolved.code = ok (new (int32 code))
atom_field uid interface_name code timestamp_ns Resolved.ktime_ns = ok (new (int64 timestamp_ns))

abbrev pub is_flush : EventMode → Bool
is_flush Resolved.flush = true
is_flush Resolved.buffer = false

module _ {H : Type 0} (w : World) where
  unfoldable pub write_to_statsd : AtomConfig → ℤ → Str → ℤ → ℤ → Handling H (Unit {0})
  unfolding atom_field
  write_to_statsd atom_config uid interface_name code timestamp_ns = do
    fields ← lift (
        traverse (atom_field uid interface_name code timestamp_ns) atom_config.atom_field_positions)
    write w (record { atom_id = atom_config.atom_id; fields = fields })

  unfoldable pub enqueue_event : ℤ → ℤ → Str → ℤ → Bool → Handling H (Unit {0})
  enqueue_event uid timestamp_ms interface_name code flush = do
    get_service w
    enqueue w
        (record {
          uid = uid;
          timestamp_ms = timestamp_ms;
          payload_id = binder_transaction_id;
          payload =
              string_entry (codes "INTERFACE_NAME") interface_name
              ∷ int_entry (codes "CODE") code
              ∷ [];
        })
        flush

  -- The two `if let`s of `on_item`.
  unfoldable pub report_atom :
      Option AtomConfig → BinderTransaction → Str → ℤ → Handling H (Unit {0})
  unfolding write_to_statsd
  report_atom none item name code = pure tt
  report_atom (some atom_config) item name code = do
    timestamp_ns ← lift (ok_or (to_signed 63 item.timestamp_ns) int_conversion)
    write_to_statsd atom_config item.calling_uid name code timestamp_ns

  unfoldable pub report_event :
      Option EventServiceConfig → BinderTransaction → Str → ℤ → Handling H (Unit {0})
  unfolding enqueue_event get_current_timestamp_millis
  report_event none item name code = pure tt
  report_event (some config) item name code = do
    timestamp_ms ← get_current_timestamp_millis w
    enqueue_event item.calling_uid timestamp_ms name code (is_flush config.mode)

  -- `BinderTransactionHandler::on_item`
  unfoldable pub on_item : ResolvedTask → BinderTransaction → Handling H (Unit {0})
  unfolding find_method_config report_atom report_event
  on_item task item = do
    name ← lift (bytes_as_nonempty_str item.interface_descriptor)
    method_config ←
        lift (ok_or (find_method_config task.resolved_probes name item.code) no_binder_config)
    code ← lift (ok_or (to_signed 31 item.code) int_conversion)
    report_atom method_config.atom_config item name code
    report_event method_config.event_service_config item name code
