-- ===== src/Handler/World.antt =====
-- What a handler has around it: the two atom writers (daemon/core/atom.rs), the bridge service
-- (daemon/core/bridge_service.rs and its AIDL), the device's properties and the clock. What they
-- answer is a parameter, which may depend on all calls made before; the calls are kept.
use android_packages_modules.Common.{
  ℕ, ◌/◌, ℤ, pos, to_signed, Bool, Option, none, some, List, [], ◌∷◌, Str, Outcome, ok, err,
  panicked, unwrap,
}
use android_packages_modules.Common
use android_packages_modules.Effects.{Eff}
use android_packages_modules.Atom.{UnstructuredAtom, CodegenAtom}
use android_packages_modules.Config.Resolved.{as_millis}

pub data EntryValue : Type 0 where
  string_value : Str → EntryValue
  int_value : ℤ → EntryValue

pub record Entry : Type 0 where
  pub key : Str
  pub value : EntryValue

-- The event of `IUprobeStatsBridgeService`.
pub record BridgeEvent : Type 0 where
  pub uid : ℤ
  pub timestamp_ms : ℤ
  pub payload_id : ℤ
  pub payload : List Entry

pub data Call : Type 0 where
  wrote : UnstructuredAtom → Call
  wrote_codegen : CodegenAtom → Call
  got_service read_clock drew_random : Call
  asked_uid asked_a11y : Str → Call
  asked_launcher : Str → Str → Bool → Call
  enqueued : BridgeEvent → Bool → Call

abbrev pub Calls : Type 0
Calls = List Call

pub record World : Type 0 where
  pub write : Calls → UnstructuredAtom → Outcome (Unit {0})
  pub write_codegen : Calls → CodegenAtom → Outcome (Unit {0})
  pub get : Calls → Outcome (Unit {0})
  pub get_uid_for_package : Calls → Str → Outcome ℤ
  pub package_has_enabled_accessibility_service : Calls → Str → Outcome Bool
  pub is_launcher_activity : Calls → Str → Str → Bool → Outcome Bool
  pub enqueue_event : Calls → BridgeEvent → Bool → Outcome (Unit {0})
  pub is_user_build : Bool
  pub system_time : Calls → Option ℕ  -- nanoseconds since the epoch, `none` before it
  pub random : Calls → ℤ

-- A handler's own state and the calls made so far, the newest first.
pub record Local (H : Type 0) : Type 0 where
  pub own : H
  pub calls : Calls

abbrev pub Handling : Type 0 → Type 0 → Type 0
Handling H A = Eff (Local H) A

module _ {H A : Type 0} where
  abbrev pub perform : Call → (Calls → Outcome A) → Handling H A
  perform c answer s = (answer s.calls, record s { calls = c ∷ s.calls })

module _ {H : Type 0} (w : World) where
  abbrev pub write : UnstructuredAtom → Handling H (Unit {0})
  write atom = perform (wrote atom) (λ cs. w.write cs atom)

  abbrev pub write_codegen : CodegenAtom → Handling H (Unit {0})
  write_codegen atom = perform (wrote_codegen atom) (λ cs. w.write_codegen cs atom)

  abbrev pub get_service : Handling H (Unit {0})
  get_service = perform got_service (λ cs. w.get cs)

  abbrev pub get_uid : Str → Handling H ℤ
  get_uid name = perform (asked_uid name) (λ cs. w.get_uid_for_package cs name)

  abbrev pub has_a11y : Str → Handling H Bool
  has_a11y name =
      perform (asked_a11y name) (λ cs. w.package_has_enabled_accessibility_service cs name)

  abbrev pub ask_launcher : Str → Str → Bool → Handling H Bool
  ask_launcher pkg cls relaunch =
      perform (asked_launcher pkg cls relaunch) (λ cs. w.is_launcher_activity cs pkg cls relaunch)

  abbrev pub enqueue : BridgeEvent → Bool → Handling H (Unit {0})
  enqueue event flush = perform (enqueued event flush) (λ cs. w.enqueue_event cs event flush)

  -- `get_current_timestamp_millis` of daemon/core/bpf_handler.rs: both `expect` panic.
  unfoldable pub get_current_timestamp_millis : Handling H ℤ
  get_current_timestamp_millis =
      perform read_clock
        (λ cs. Common.◌>>=◌ (unwrap (w.system_time cs)) (λ t. unwrap (to_signed 63 (as_millis t))))

-- `DynamicInstrumentationPayloadIds`, as i32
abbrev pub binder_transaction_id : ℤ
binder_transaction_id = pos 1

abbrev pub disabled_launcher_activity_id : ℤ
disabled_launcher_activity_id = pos 2

abbrev pub bind_allow_background_activity_starts_id : ℤ
bind_allow_background_activity_starts_id = pos 3

abbrev pub runtime_permission_grant_id : ℤ
runtime_permission_grant_id = pos 4

abbrev pub string_entry : Str → Str → Entry
string_entry k v = record { key = k; value = string_value v }

abbrev pub int_entry : Str → ℤ → Entry
int_entry k v = record { key = k; value = int_value v }
