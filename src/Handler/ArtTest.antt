-- ===== src/Handler/ArtTest.antt =====
-- The handlers of the ART tests: daemon/core/bpf_handler/art_test.rs. The hash of a text is the
-- standard library's `DefaultHasher`, a parameter, as a u64.
use android_packages_modules.Common.{
  ℕ, ℤ, pos, eqb, to_unsigned, as_signed, Bool, true, false, List, [], ◌∷◌, Str, Outcome, ok,
  panicked, ok_or, unwrap, int_conversion, if◌then◌else◌,
}
use android_packages_modules.Effects.{◌>>=◌, ◌>>◌, pure, lift}
use android_packages_modules.Strings.{bytes_as_str}
use android_packages_modules.Atom.{int64, new}
use android_packages_modules.Config.Resolved.{ResolvedTask, method_identifier}
use android_packages_modules.Handler.World.{World, Handling, write}
use android_packages_modules.Handler.Logging.{with_config, UpdateDeviceIdleTempAllowlistRecord}

pub record StartActivityAsUser : Type 0 where
  pub method_identifier : ℕ
  pub calling_package : List ℕ
  pub user_id : ℤ
  pub validate_incoming_user : ℤ

-- `i64::from` of a bool
abbrev bool_number : Bool → ℤ
bool_number true = pos 1
bool_number false = pos 0

-- The first probe's identifier: no probe panics.
unfoldable pub api_method_identifier : ResolvedTask → Outcome ℕ
api_method_identifier task = elim task.resolved_probes [
  | [] ↦ panicked
  | probe ∷ probes ↦ method_identifier probe.offsets
]

-- `assert_eq!`
abbrev pub assert_eq : ℕ → ℕ → Outcome (Unit {0})
assert_eq a b = if eqb a b then ok tt else panicked

module _ (hash : Str → ℕ) where
  unfoldable pub string_to_i64_hash : Str → ℤ
  string_to_i64_hash s = as_signed 63 (hash s)

  module _ {H : Type 0} (w : World) (task : ResolvedTask) where
    -- `JitHandler::on_item`, where an atom id that is no u32 panics
    unfoldable pub on_jit_item : StartActivityAsUser → Handling H (Unit {0})
    unfolding string_to_i64_hash api_method_identifier
    on_jit_item item = do
      calling_package ← lift (bytes_as_str item.calling_package)
      api ← lift (api_method_identifier task)
      lift (assert_eq api item.method_identifier)
      with_config task.statsd_logging_config (λ config atom_id.
          lift (unwrap (to_unsigned 32 atom_id)) >>= λ id. write w (record {
            atom_id = id;
            fields =
                new (int64 item.validate_incoming_user)
                ∷ new (int64 item.user_id)
                ∷ new (int64 (string_to_i64_hash calling_package))
                ∷ [];
          }))

    -- The argument of `debug!` that may fail is computed only where that level is logged.
    abbrev pub when_logged : Bool → List ℕ → Handling H (Unit {0})
    when_logged true reason = lift (bytes_as_str reason) >>= λ text. pure tt
    when_logged false reason = pure tt

    -- `AotHandler::on_item`
    unfoldable pub on_aot_item : Bool → UpdateDeviceIdleTempAllowlistRecord → Handling H (Unit {0})
    unfolding string_to_i64_hash api_method_identifier
    on_aot_item debug_enabled item = do
      api ← lift (api_method_identifier task)
      when_logged debug_enabled item.reason
      lift (assert_eq api item.method_identifier)
      with_config task.statsd_logging_config (λ config atom_id.
          lift (bytes_as_str item.reason) >>= λ reason.
          lift (ok_or (to_unsigned 32 atom_id) int_conversion) >>= λ id. write w (record {
            atom_id = id;
            fields =
                new (int64 (bool_number item.adding))
                ∷ new (int64 item.reason_code)
                ∷ new (int64 (string_to_i64_hash reason))
                ∷ [];
          }))
