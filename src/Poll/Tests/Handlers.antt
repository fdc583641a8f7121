-- ===== src/Poll/Tests/Handlers.antt =====
-- The timestamps of two rounds, polled with the registered handlers.
use android_packages_modules.Common.{
  ◌*◌, pos, to_signed, to_unsigned, false, true, some, List, [], ◌∷◌, Str, codes, list_eq, list_beq,
  lookup, insert, ◌↔◌, ok, All, ◌≡◌, refl,
}
use android_packages_modules.Config.Flags.{prefix_bpf}
use android_packages_modules.Handler.Logging.{on_timestamp_item, timestamp_atom}
use android_packages_modules.Handler.Tests.Data.{world, task_logging}
use android_packages_modules.Handler.Tests.Apps.{setting, binding}
use android_packages_modules.Handler.Disruptive.Privacy.{IsAnonymous}
use android_packages_modules.Poll.{
  RingBuffer, Report, map_polled, remaining_millis, handle_items, poll_round, poll_rounds, finish,
  poll_loop,
}
use android_packages_modules.Poll.Registry.{
  HandlerType, HandlerRegistry, call_timestamp, bind_service_locked, component_enabled_setting,
  polled, map_path_of, register_handler, registered, handler_registry, AnyHandler,
  poll_loop_generic, poll_registry,
}
use android_packages_modules.Poll.Registry.Handlers.{Rings, prog_path_of, handlers}
use android_packages_modules.Poll.Registry.Completes.{Polled, poll_registry-Polled}
use android_packages_modules.Poll.Registry.Exact.{handler_registry-exact}
use android_packages_modules.Poll.Registry.Registered.{IsRegistered}
use android_packages_modules.Poll.Registry.Privacy.{polled-IsAnonymous}
use android_packages_modules.Poll.Invariant.{Keeps}
use android_packages_modules.Poll.Tests.Registry.{flags}

-- A second passes in each round.
abbrev ring : {T : Type 0} → List T → RingBuffer T
ring items = record {
  new = ok tt;
  poll = λ round timeout. ok items;
  elapsed_millis = λ round. round * 1000;
}

abbrev rings : Rings
rings = record {
  bitmap_events = ring [];
  call_timestamps = ring (record { event = 1; timestamp_ns = 5 } ∷ []);
  call_results = ring [];
  allowlist_states = ring [];
  idle_records = ring [];
  binder_transactions = ring [];
  accessibility_events = ring [];
  bindings = ring (binding (pos 1048576) ∷ []);
  component_settings = ring (setting (pos 2) ∷ []);
  jit_calls = ring [];
  aot_records = ring [];
}

abbrev timestamps : Str
timestamps = codes "/sys/fs/bpf/uprobestats/map_GenericInstrumentation_call_timestamp_buf"

abbrev registered_handlers : HandlerType → AnyHandler
registered_handlers = handlers world (λ s. 0) false rings

abbrev registry : HandlerRegistry
registry = handler_registry flags true false

abbrev two_polled : List Report
two_polled = map_polled timestamps (pos 1000) 2 (pos 1) ∷ []

timestamps_run :
    poll_registry registered_handlers registry 3 timestamps (task_logging []) 1000000000 []
    ≡ some (ok tt, two_polled)
unfolding poll_registry poll_loop_generic poll_loop poll_rounds poll_round handle_items
    remaining_millis finish to_signed to_unsigned list_beq handler_registry registered
    register_handler insert lookup map_path_of prog_path_of prefix_bpf on_timestamp_item
    timestamp_atom
timestamps_run = refl

timestamps-Polled :
    (h : HandlerType) × IsRegistered flags true false h
    × (map_path_of h ≡ timestamps)
    × Polled (registered_handlers h) 3 (task_logging []) 1000000000 [] two_polled
timestamps-Polled =
    poll_registry-Polled flags true false world (λ s. 0) false rings 3 timestamps (task_logging [])
      1000000000 [] two_polled timestamps_run

timestamps_registered :
    (lookup timestamps registry ≡ some call_timestamp)
    ↔ (IsRegistered flags true false call_timestamp × (map_path_of call_timestamp ≡ timestamps))
timestamps_registered = handler_registry-exact flags true false timestamps call_timestamp

disruptive_polled :
    Keeps
      (λ s. All IsAnonymous s.calls)
      (polled
        (registered_handlers bind_service_locked)
        3
        (map_path_of bind_service_locked)
        (task_logging [])
        1000000000
        [])
    × Keeps
        (λ s. All IsAnonymous s.calls)
        (polled
          (registered_handlers component_enabled_setting)
          3
          (map_path_of component_enabled_setting)
          (task_logging [])
          1000000000
          [])
disruptive_polled =
    polled-IsAnonymous world (λ s. 0) false rings 3 (task_logging []) 1000000000 [] refl
