-- ===== src/Poll/Registry/Handlers.antt =====
-- The handlers of core/bpf_handler as `HANDLER_REGISTRY` of daemon/android/bpf_handler.rs has them: the
-- map path, the program path and the operations of each type, over a ring buffer for each map.
use android_packages_modules.Common.{ℕ, Bool, Option, none, some, [], Str, codes}
use android_packages_modules.Effects.{pure}
use android_packages_modules.Config.Flags.{prefix_bpf}
use android_packages_modules.Config.Resolved.{ResolvedTask}
use android_packages_modules.Poll.{RingBuffer}
use android_packages_modules.Poll.Registry.{
  HandlerType, bitmap_allocation_v0, bitmap_allocation_v1, call_timestamp, call_result,
  set_uid_temp_allowlist_state_record, update_device_idle_temp_allowlist_record, binder_transaction,
  accessibility, bind_service_locked, component_enabled_setting, jit, aot, map_path_of, AnyHandler,
}
use android_packages_modules.Handler.World.{World, Local, Handling}
use android_packages_modules.Handler.Accessibility
use android_packages_modules.Handler.Accessibility.{AccessibilityHandler, AccessibilityEvent}
use android_packages_modules.Handler.ArtTest.{StartActivityAsUser, on_jit_item, on_aot_item}
use android_packages_modules.Handler.Binder
use android_packages_modules.Handler.Binder.{BinderTransaction}
use android_packages_modules.Handler.Bitmap.{
  BitmapEvent, default_v1, on_item_v0, on_item_v1, on_finished_v1,
}
use android_packages_modules.Handler.Disruptive.{
  ComponentEnabledSetting, BindServiceLocked, on_component_item, on_bind_item,
}
use android_packages_modules.Handler.Logging.{
  SetUidTempAllowlistStateRecord, UpdateDeviceIdleTempAllowlistRecord, CallTimestamp, CallResult,
  on_state_item, on_idle_item, on_timestamp_item, on_result_item,
}

-- The ring buffer of each map, with the items that its program writes.
pub record Rings : Type 0 where
  pub bitmap_events : RingBuffer BitmapEvent
  pub call_timestamps : RingBuffer CallTimestamp
  pub call_results : RingBuffer CallResult
  pub allowlist_states : RingBuffer SetUidTempAllowlistStateRecord
  pub idle_records : RingBuffer UpdateDeviceIdleTempAllowlistRecord
  pub binder_transactions : RingBuffer BinderTransaction
  pub accessibility_events : RingBuffer AccessibilityEvent
  pub bindings : RingBuffer BindServiceLocked
  pub component_settings : RingBuffer ComponentEnabledSetting
  pub jit_calls : RingBuffer StartActivityAsUser
  pub aot_records : RingBuffer UpdateDeviceIdleTempAllowlistRecord

-- `H::PROG_PATH`
unfoldable pub prog_path_of : HandlerType → Option Str
unfolding prefix_bpf
prog_path_of call_timestamp =
    some (prefix_bpf (codes "prog_GenericInstrumentation_uprobe_call_timestamp"))
prog_path_of call_result =
    some (prefix_bpf (codes "prog_GenericInstrumentation_uprobe_call_detail"))
prog_path_of binder_transaction =
    some (prefix_bpf (codes "prog_Binder_uprobe_exec_transact_internal"))
prog_path_of bind_service_locked =
    some (prefix_bpf (codes "prog_DisruptiveApp_uprobe_bind_service_locked"))
prog_path_of component_enabled_setting =
    some (prefix_bpf (codes "prog_DisruptiveApp_uprobe_set_component_enabled_setting"))
prog_path_of _ = none

abbrev registered_as :
    {H T : Type 0}
    → HandlerType
    → H
    → (ResolvedTask → T → Handling H (Unit {0}))
    → Handling H (Unit {0})
    → RingBuffer T
    → AnyHandler
registered_as {H} {T} h default on_item on_finished ring_buffer = record {
  State = Local H;
  Item = T;
  handler = record {
    map_path = map_path_of h;
    prog_path = prog_path_of h;
    on_item = on_item;
    on_finished = on_finished;
  };
  ring_buffer = ring_buffer;
  default = record { own = default; calls = [] };
}

-- A handler without state, with the trait's `on_finished`.
abbrev stateless :
    {T : Type 0}
    → HandlerType
    → (ResolvedTask → T → Handling (Unit {0}) (Unit {0}))
    → RingBuffer T
    → AnyHandler
stateless h on_item = registered_as h tt on_item (pure tt)

abbrev pub handlers : World → (Str → ℕ) → Bool → Rings → HandlerType → AnyHandler
handlers w hash debug_enabled rings bitmap_allocation_v0 =
    stateless bitmap_allocation_v0 (on_item_v0 w) rings.bitmap_events
handlers w hash debug_enabled rings bitmap_allocation_v1 =
    registered_as bitmap_allocation_v1 default_v1 (on_item_v1 w) (on_finished_v1 w)
      rings.bitmap_events
handlers w hash debug_enabled rings call_timestamp =
    stateless call_timestamp (on_timestamp_item w) rings.call_timestamps
handlers w hash debug_enabled rings call_result =
    stateless call_result (on_result_item w) rings.call_results
handlers w hash debug_enabled rings set_uid_temp_allowlist_state_record =
    stateless set_uid_temp_allowlist_state_record (on_state_item w) rings.allowlist_states
handlers w hash debug_enabled rings update_device_idle_temp_allowlist_record =
    stateless update_device_idle_temp_allowlist_record (on_idle_item w) rings.idle_records
handlers w hash debug_enabled rings binder_transaction =
    stateless binder_transaction (Binder.on_item w) rings.binder_transactions
handlers w hash debug_enabled rings accessibility =
    registered_as accessibility (record { events = [] }) (λ task. Accessibility.on_item w)
      (Accessibility.on_finished w) rings.accessibility_events
handlers w hash debug_enabled rings bind_service_locked =
    stateless bind_service_locked (λ task. on_bind_item w) rings.bindings
handlers w hash debug_enabled rings component_enabled_setting =
    stateless component_enabled_setting (λ task. on_component_item w) rings.component_settings
handlers w hash debug_enabled rings jit = stateless jit (on_jit_item hash w) rings.jit_calls
handlers w hash debug_enabled rings aot =
    stateless aot (λ task. on_aot_item hash w task debug_enabled) rings.aot_records
