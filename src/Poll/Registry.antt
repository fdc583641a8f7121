-- ===== src/Poll/Registry.antt =====
-- `HANDLER_REGISTRY`, `register_handler` and `poll_registry` of daemon/android/bpf_handler.rs. A handler
-- with its ring buffer is a parameter, at the map path that its type declares.
pub mod Ends
pub mod Handlers
pub mod Completes
pub mod Paths
pub mod Registered
pub mod Exact
pub mod Privacy
use android_packages_modules.Common.{
  ℕ, Bool, true, false, Option, none, some, List, [], ◌∷◌, ◌++◌, Str, codes, list_eq, lookup,
  insert, Outcome, err, other, unsupported_map_path, if◌then◌else◌, ◌≡◌,
}
use android_packages_modules.Config.Flags.{Flags, prefix_bpf}
use android_packages_modules.Config.Resolved.{ResolvedTask, Duration}
use android_packages_modules.Poll.{Handler, RingBuffer, Polling, Report, poll_loop}

-- The types that are registered.
pub data HandlerType : Type 0 where
  bitmap_allocation_v0 bitmap_allocation_v1 call_timestamp call_result : HandlerType
  set_uid_temp_allowlist_state_record update_device_idle_temp_allowlist_record : HandlerType
  binder_transaction accessibility bind_service_locked component_enabled_setting : HandlerType
  jit aot : HandlerType

-- `H::MAP_PATH`
unfoldable pub map_path_of : HandlerType → Str
unfolding prefix_bpf
map_path_of bitmap_allocation_v0 = prefix_bpf (codes "map_BitmapAllocation_output")
map_path_of bitmap_allocation_v1 = prefix_bpf (codes "map_BitmapAllocation_output")
map_path_of call_timestamp = prefix_bpf (codes "map_GenericInstrumentation_call_timestamp_buf")
map_path_of call_result = prefix_bpf (codes "map_GenericInstrumentation_call_detail_buf")
map_path_of set_uid_temp_allowlist_state_record =
    prefix_bpf (codes "map_ProcessManagement_output_buf")
map_path_of update_device_idle_temp_allowlist_record =
    prefix_bpf (codes "map_ProcessManagement_update_device_idle_temp_allowlist_records")
map_path_of binder_transaction = prefix_bpf (codes "map_Binder_output_buf")
map_path_of accessibility = prefix_bpf (codes "map_Accessibility_output_buf")
map_path_of bind_service_locked =
    prefix_bpf (codes "map_DisruptiveApp_BindServiceLocked_output_buf")
map_path_of component_enabled_setting =
    prefix_bpf (codes "map_DisruptiveApp_ComponentEnabledSetting_output_buf")
map_path_of jit = prefix_bpf (codes "map_ArtTest_output_buf_jit")
map_path_of aot = prefix_bpf (codes "map_ArtTest_output_buf_aot")

abbrev pub HandlerRegistry : Type 0
HandlerRegistry = List (Str × HandlerType)

unfoldable pub register_handler : HandlerType → HandlerRegistry → HandlerRegistry
unfolding insert
register_handler h map = insert (map_path_of h) h map

abbrev pub register_all : List HandlerType → HandlerRegistry → HandlerRegistry
register_all [] map = map
register_all (h ∷ hs) map = register_all hs (register_handler h map)

abbrev pub only_if : Bool → List HandlerType → List HandlerType
only_if true hs = hs
only_if false hs = []

-- The handlers in the order in which they are registered.
unfoldable pub registered : Flags → Bool → Bool → List HandlerType
registered flags is_at_least_cinnamon_bun art_test =
    ((if flags.enable_bitmap_snapshot then bitmap_allocation_v1 else bitmap_allocation_v0)
      ∷ call_timestamp
      ∷ call_result
      ∷ set_uid_temp_allowlist_state_record
      ∷ update_device_idle_temp_allowlist_record
      ∷ [])
    ++ only_if flags.enable_binder_transaction (binder_transaction ∷ [])
    ++ only_if is_at_least_cinnamon_bun (
        only_if flags.a11y_runtime_permission (accessibility ∷ [])
        ++ only_if flags.monitor_disruptive_app_activities
            (bind_service_locked ∷ component_enabled_setting ∷ []))
    ++ only_if art_test (jit ∷ aot ∷ [])

unfoldable pub handler_registry : Flags → Bool → Bool → HandlerRegistry
unfolding registered register_handler
handler_registry flags is_at_least_cinnamon_bun art_test =
    register_all (registered flags is_at_least_cinnamon_bun art_test) []

-- A handler of any type, with its default state and what it polls.
pub record AnyHandler : Type 1 where
  pub State : Type 0
  pub Item : Type 0
  pub handler : Handler State Item
  pub ring_buffer : RingBuffer Item
  pub default : State

abbrev pub keep_reports :
    {S : Type 0}
    → Option (Outcome (Unit {0}) × Polling S)
    → Option (Outcome (Unit {0}) × List Report)
keep_reports none = none
keep_reports (some (r, s)) = some (r, s.reports)

-- `poll_loop_generic::<H>`, from `H::default()` on, with the state of the handler at the end.
abbrev pub polled :
    (h : AnyHandler)
    → ℕ
    → Str
    → ResolvedTask
    → Duration
    → List Report
    → Option (Outcome (Unit {0}) × Polling h.State)
polled h fuel map_path task duration reports =
    poll_loop h.handler h.ring_buffer task fuel map_path duration
      (record { handler = h.default; reports = reports })

-- The same for any handler: its state is dropped.
unfoldable pub poll_loop_generic :
    AnyHandler
    → ℕ
    → Str
    → ResolvedTask
    → Duration
    → List Report
    → Option (Outcome (Unit {0}) × List Report)
poll_loop_generic h fuel map_path task duration reports =
    keep_reports (polled h fuel map_path task duration reports)

unfoldable pub poll_registry :
    (HandlerType → AnyHandler)
    → HandlerRegistry
    → ℕ
    → Str
    → ResolvedTask
    → Duration
    → List Report
    → Option (Outcome (Unit {0}) × List Report)
unfolding poll_loop_generic lookup
poll_registry handlers registry fuel map_path task duration reports =
    elim (lookup map_path registry) [
      | none ↦ some (err (other unsupported_map_path), reports)
      | some h ↦ poll_loop_generic (handlers h) fuel map_path task duration reports
    ]
