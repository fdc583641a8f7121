-- ===== src/Handler/Logging.antt =====
-- The handlers that log to the atom of the task's own configuration:
-- daemon/core/bpf_handler/process_management.rs and generic_instrumentation.rs.
pub mod Registers
use android_packages_modules.Common
use android_packages_modules.Common.{
  ℕ, ℤ, pos, ◌+ℤ◌, to_unsigned, to_signed, as_signed, in_signed, get_elem?, Bool, Option, none,
  some, List, [], ◌∷◌, Outcome, ok, panicked, ok_or, unwrap, traverse, int_conversion,
  atom_id_required, if◌then◌else◌,
}
use android_packages_modules.Effects.{◌>>=◌, pure, lift}
use android_packages_modules.Strings.{bytes_as_str}
use android_packages_modules.Atom.{UnstructuredAtom, Field, bool, int32, int64, string, new}
use android_packages_modules.Config.Proto.{StatsdLoggingConfig}
use android_packages_modules.Config.Resolved.{ResolvedTask}
use android_packages_modules.Handler.World.{World, Handling, write}

pub record SetUidTempAllowlistStateRecord : Type 0 where
  pub uid : ℕ
  pub on_allowlist : Bool

pub record UpdateDeviceIdleTempAllowlistRecord : Type 0 where
  pub method_identifier : ℕ
  pub changing_uid : ℤ
  pub adding : Bool
  pub duration_ms : ℤ
  pub type_ : ℤ
  pub reason_code : ℤ
  pub reason : List ℕ
  pub calling_uid : ℤ

pub record CallTimestamp : Type 0 where
  pub event : ℕ
  pub timestamp_ns : ℕ

pub record CallResult : Type 0 where
  pub pc : ℕ
  pub regs : List ℕ

-- The opening of each `on_item`: no logging configuration, nothing to do; else it must have an atom id.
abbrev pub with_config :
    {H : Type 0}
    → Option StatsdLoggingConfig
    → (StatsdLoggingConfig → ℤ → Handling H (Unit {0}))
    → Handling H (Unit {0})
with_config none k = pure tt
with_config (some config) k = do
  atom_id ← lift (ok_or config.atom_id atom_id_required)
  k config atom_id

abbrev pub atom_of : ℤ → List Field → Outcome UnstructuredAtom
atom_of atom_id fields =
    Common.◌>>=◌ (ok_or (to_unsigned 32 atom_id) int_conversion)
      λ id. ok (record { atom_id = id; fields = fields })

-- The atoms of the four handlers.
unfoldable pub state_atom : SetUidTempAllowlistStateRecord → ℤ → Outcome UnstructuredAtom
state_atom data' atom_id = Common.◌>>=◌ (ok_or (to_unsigned 32 atom_id) int_conversion) λ id.
    Common.◌>>=◌ (ok_or (to_signed 31 data'.uid) int_conversion) λ uid.
      ok (record { atom_id = id; fields = new (int32 uid) ∷ new (bool data'.on_allowlist) ∷ [] })

unfoldable pub idle_atom : UpdateDeviceIdleTempAllowlistRecord → ℤ → Outcome UnstructuredAtom
idle_atom data' atom_id = Common.◌>>=◌ (ok_or (to_unsigned 32 atom_id) int_conversion) λ id.
    Common.◌>>=◌ (bytes_as_str data'.reason) λ reason. ok (record {
      atom_id = id;
      fields =
          new (int32 data'.changing_uid)
          ∷ new (bool data'.adding)
          ∷ new (int64 data'.duration_ms)
          ∷ new (int32 data'.type_)
          ∷ new (int32 data'.reason_code)
          ∷ new (string reason)
          ∷ new (int32 data'.calling_uid)
          ∷ [];
    })

unfoldable pub timestamp_atom : CallTimestamp → ℤ → Outcome UnstructuredAtom
timestamp_atom data' atom_id = Common.◌>>=◌ (ok_or (to_unsigned 32 atom_id) int_conversion) λ id.
    ok (record {
      atom_id = id;
      fields =
          new (int32 (as_signed 31 data'.event))
          ∷ new (int64 (as_signed 63 data'.timestamp_ns))
          ∷ [];
    })

abbrev pub java_argument_register_offset : ℤ
java_argument_register_offset = pos 2

-- One round of the loop over the argument positions: the sum is of two i32, the index a usize, and an
-- index past the registers panics.
unfoldable pub register_field : List ℕ → ℤ → Outcome Field
register_field regs position =
    let sum = java_argument_register_offset +ℤ position in
    if in_signed 31 sum
    then (Common.◌>>=◌ (ok_or (to_unsigned 64 sum) int_conversion) λ register_index.
        Common.◌>>=◌ (unwrap (get_elem? regs register_index))
          λ raw. ok (new (int64 (as_signed 63 raw))))
    else panicked

unfoldable pub result_atom : CallResult → StatsdLoggingConfig → ℤ → Outcome UnstructuredAtom
unfolding register_field
result_atom data' config atom_id =
    Common.◌>>=◌ (traverse (register_field data'.regs) config.primitive_argument_positions)
      λ fields.
        Common.◌>>=◌ (ok_or (to_unsigned 32 atom_id) int_conversion)
          λ id. ok (record { atom_id = id; fields = fields })

-- What is common to the ends of the four `on_item`s: the atom, if it can be made, is written.
abbrev pub log_atom :
    {H : Type 0}
    → World
    → ResolvedTask
    → (StatsdLoggingConfig → ℤ → Outcome UnstructuredAtom)
    → Handling H (Unit {0})
log_atom w task build =
    with_config task.statsd_logging_config
      (λ config atom_id. lift (build config atom_id) >>= λ atom. write w atom)

module _ {H : Type 0} (w : World) (task : ResolvedTask) where
  -- `SetUidTempAllowlistStateRecordHandler::on_item`
  unfoldable pub on_state_item : SetUidTempAllowlistStateRecord → Handling H (Unit {0})
  unfolding state_atom
  on_state_item data' = log_atom w task (λ config atom_id. state_atom data' atom_id)

  -- `UpdateDeviceIdleTempAllowlistRecordHandler::on_item`
  unfoldable pub on_idle_item : UpdateDeviceIdleTempAllowlistRecord → Handling H (Unit {0})
  unfolding idle_atom
  on_idle_item data' = log_atom w task (λ config atom_id. idle_atom data' atom_id)

  -- `CallTimestampHandler::on_item`
  unfoldable pub on_timestamp_item : CallTimestamp → Handling H (Unit {0})
  unfolding timestamp_atom
  on_timestamp_item data' = log_atom w task (λ config atom_id. timestamp_atom data' atom_id)

  -- `CallResultHandler::on_item`
  unfoldable pub on_result_item : CallResult → Handling H (Unit {0})
  unfolding result_atom
  on_result_item data' = log_atom w task (result_atom data')
