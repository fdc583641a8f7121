-- ===== src/Handler/Accessibility.antt =====
-- daemon/core/bpf_handler/accessibility.rs: permission grants, and the accessibility calls of the same
-- app shortly before them.
pub mod Associate
pub mod Order
pub mod Finish
pub mod Store
use android_packages_modules.Common
use android_packages_modules.Common.{
  ℕ, ◌-◌, ◌*◌, ℤ, pos, ltb_ℤ, ltb, leb, to_signed, Bool, true, false, not, Option, none, some, List,
  [], ◌∷◌, ◌++◌, map, Str, codes, starts_with, ◌==◌, int_eq, lookup, insert, values, Outcome, ok,
  err, other, unwrap, ok_or, traverse, accessibility_bpf, invalid_variant, int_conversion,
  if◌then◌else◌,
}
use android_packages_modules.Effects.{◌>>=◌, ◌>>◌, pure, raise, lift, for_each}
use android_packages_modules.Strings.{bytes_as_nonempty_str}
use android_packages_modules.Config.Resolved.{Duration, from_secs, as_millis}
use android_packages_modules.Atom.{
  UnstructuredAtom, int32, int64, string, int32_vec, int64_vec, is_uid, new, new_with_annotation,
}
use android_packages_modules.Handler.World.{
  World, Local, Handling, BridgeEvent, write, get_service, get_uid, has_a11y, enqueue, string_entry,
  int_entry, binder_transaction_id, runtime_permission_grant_id,
}

pub record AccessibilityEvent : Type 0 where
  pub error_code : ℤ
  pub timestamp_ns : ℕ
  pub variant : ℤ
  pub package_name : List ℕ
  pub permission_name : List ℕ
  pub uid : ℤ
  pub code : ℤ

pub data EventType : Type 0 where
  runtime_permission_grant : Str → EventType
  a11y : ℤ → EventType

pub record Event : Type 0 where
  pub uid : ℤ
  pub timestamp : Duration
  pub variant : EventType

pub record AccessibilityRuntimePermissionGrant : Type 0 where
  pub uid : ℤ
  pub timestamp : Duration
  pub permission_name : Str
  pub preceding_a11y_calls : List (ℤ × Duration)

-- The handler's map from uids to their events.
pub record AccessibilityHandler : Type 0 where
  pub events : List (ℤ × List Event)

abbrev pub a11y_event_window : Duration
a11y_event_window = from_secs 10

abbrev pub atom_id_accessibility_runtime_permission_grant : ℕ
atom_id_accessibility_runtime_permission_grant = 1217

-- `From<Event>` for the bridge's event; the conversion of the timestamp is unwrapped.
unfoldable pub to_bridge_event : Event → Outcome BridgeEvent
to_bridge_event e = Common.◌>>=◌ (unwrap (to_signed 63 (as_millis e.timestamp))) λ timestamp_ms.
    elim e.variant [
      | a11y code ↦ ok (record {
        uid = e.uid;
        timestamp_ms = timestamp_ms;
        payload_id = binder_transaction_id;
        payload =
            int_entry (codes "CODE") code
            ∷ string_entry (codes "INTERFACE_NAME")
                (codes "android.accessibilityservice.IAccessibilityServiceConnection")
            ∷ [];
      })
      | runtime_permission_grant permission_name ↦ ok (record {
        uid = e.uid;
        timestamp_ms = timestamp_ms;
        payload_id = runtime_permission_grant_id;
        payload = string_entry (codes "PERMISSION_NAME") permission_name ∷ [];
      })
    ]

module _ {H : Type 0} (w : World) where
  abbrev report_grant : AccessibilityEvent → Str → Str → Handling H (Option Event)
  report_grant data' package_name permission_name = do
    uid ← get_uid w package_name
    let event : Event = record {
      uid = uid;
      timestamp = data'.timestamp_ns;
      variant = runtime_permission_grant permission_name;
    }
    bridge_event ← lift (to_bridge_event event)
    enqueue w bridge_event false
    pure (some event)

  unfoldable pub handle_permission_grant_event : AccessibilityEvent → Handling H (Option Event)
  handle_permission_grant_event data' = do
    package_name ← lift (bytes_as_nonempty_str data'.package_name)
    permission_name ← lift (bytes_as_nonempty_str data'.permission_name)
    (if not (starts_with permission_name (codes "android.permission")) then pure none else (do
      get_service w
      has_enabled_a11y_service ← has_a11y w package_name
      if has_enabled_a11y_service
          then report_grant data' package_name permission_name
          else pure none))

  unfoldable pub handle_a11y_event : AccessibilityEvent → Handling H (Option Event)
  handle_a11y_event data' = do
    let event : Event = record {
      uid = data'.uid;
      timestamp = data'.timestamp_ns;
      variant = a11y data'.code;
    }
    get_service w
    bridge_event ← lift (to_bridge_event event)
    enqueue w bridge_event false
    pure (some event)

  unfoldable pub handle_event : AccessibilityEvent → Handling H (Option Event)
  unfolding handle_permission_grant_event handle_a11y_event
  handle_event data' =
      if data'.variant == pos 1
      then handle_permission_grant_event data'
      else if data'.variant == pos 2
      then handle_a11y_event data'
      else raise (other invalid_variant)

abbrev or_default : Option (List Event) → List Event
or_default none = []
or_default (some es) = es

-- `self.events.entry(event.uid).or_default().push(event)`
unfoldable pub push_event : Event → AccessibilityHandler → AccessibilityHandler
push_event e h = record {
  events = insert e.uid (or_default (lookup e.uid h.events) ++ e ∷ []) h.events;
}

abbrev store : Option Event → Handling AccessibilityHandler (Unit {0})
store none s = (ok tt, s)
store (some e) s = (ok tt, record s { own = push_event e s.own })

-- `AccessibilityHandler::on_item`
unfoldable pub on_item : World → AccessibilityEvent → Handling AccessibilityHandler (Unit {0})
unfolding push_event
on_item w data' =
    if ltb_ℤ data'.error_code (pos 0)
    then raise (other accessibility_bpf)
    else handle_event w data' >>= store

-- `sort_by(|a, b| b.timestamp.cmp(&a.timestamp))`, which is stable.
unfoldable pub insert_desc : Event → List Event → List Event
insert_desc e [] = e ∷ []
insert_desc e (x ∷ xs) = if leb x.timestamp e.timestamp then e ∷ x ∷ xs else x ∷ insert_desc e xs

unfoldable pub sort_desc : List Event → List Event
unfolding insert_desc
sort_desc [] = []
sort_desc (e ∷ es) = insert_desc e (sort_desc es)

abbrev push_grant :
    List AccessibilityRuntimePermissionGrant
    → Option AccessibilityRuntimePermissionGrant
    → List AccessibilityRuntimePermissionGrant
push_grant grants none = grants
push_grant grants (some g) = grants ++ g ∷ []

-- The `Some(grant)` and `A11y` arm of the loop.
abbrev add_call :
    Option AccessibilityRuntimePermissionGrant
    → ℤ
    → Duration
    → Option AccessibilityRuntimePermissionGrant
add_call none code timestamp = none
add_call (some g) code timestamp = some (
    if ltb (g.timestamp - timestamp) a11y_event_window
    then record g { preceding_a11y_calls = g.preceding_a11y_calls ++ (code, timestamp) ∷ [] }
    else g)

-- The loop of `associate_events` over its two variables, and the push after it.
unfoldable pub associate_from :
    List AccessibilityRuntimePermissionGrant
    → Option AccessibilityRuntimePermissionGrant
    → EventType
    → Event
    → List AccessibilityRuntimePermissionGrant × Option AccessibilityRuntimePermissionGrant
associate_from grants current (a11y code) e = (grants, add_call current code e.timestamp)
associate_from grants current (runtime_permission_grant permission_name) e = (
  push_grant grants current,
  some (record {
    uid = e.uid;
    timestamp = e.timestamp;
    permission_name = permission_name;
    preceding_a11y_calls = [];
  }),
)

unfoldable pub associate_loop :
    List AccessibilityRuntimePermissionGrant
    → Option AccessibilityRuntimePermissionGrant
    → List Event
    → List AccessibilityRuntimePermissionGrant
unfolding associate_from
associate_loop grants current [] = push_grant grants current
associate_loop grants current (e ∷ es) =
    let r = associate_from grants current e.variant e in associate_loop r.0 r.1 es

unfoldable pub associate_events : List Event → List AccessibilityRuntimePermissionGrant
unfolding associate_loop
associate_events es = associate_loop [] none es

-- A duration in milliseconds as i64
abbrev millis_i64 : Duration → Outcome ℤ
millis_i64 d = ok_or (to_signed 63 (as_millis d)) int_conversion

unfoldable pub grant_atom : AccessibilityRuntimePermissionGrant → Outcome UnstructuredAtom
grant_atom g = Common.◌>>=◌ (millis_i64 g.timestamp) λ timestamp.
    Common.◌>>=◌ (traverse (λ c. millis_i64 c.1) g.preceding_a11y_calls) λ times. ok (record {
      atom_id = atom_id_accessibility_runtime_permission_grant;
      fields =
          new_with_annotation (int32 g.uid) (is_uid true)
          ∷ new (string g.permission_name)
          ∷ new (int64 timestamp)
          ∷ new (int32_vec (map (λ c. c.0) g.preceding_a11y_calls))
          ∷ new (int64_vec times)
          ∷ [];
    })

abbrev pub sort_all : List (ℤ × List Event) → List (ℤ × List Event)
sort_all [] = []
sort_all ((uid, es) ∷ m) = (uid, sort_desc es) ∷ sort_all m

unfoldable pub all_grants : List (List Event) → List AccessibilityRuntimePermissionGrant
unfolding associate_events
all_grants [] = []
all_grants (es ∷ rest) = associate_events es ++ all_grants rest

-- `AccessibilityHandler::on_finished`
unfoldable pub on_finished : World → Handling AccessibilityHandler (Unit {0})
unfolding all_grants sort_desc grant_atom for_each
on_finished w s =
    let sorted = sort_all s.own.events in
    for_each (λ g. lift (grant_atom g) >>= λ atom. write w atom) (all_grants (values sorted))
      (record s { own = record { events = sorted } })
