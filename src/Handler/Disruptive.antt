-- ===== src/Handler/Disruptive.antt =====
-- daemon/core/bpf_handler/disruptive_app.rs: disabled launcher activities, and services bound with
-- the flag that allows background activity starts.
pub mod Privacy
use android_packages_modules.Common
use android_packages_modules.Common.{
  ℕ, ◌/◌, ◌%◌, ◌^◌, ℤ, pos, negsuc, ltb_ℤ, eqb, Bool, true, false, not, ◌&&◌, List, [], ◌∷◌, Str,
  codes, is_empty, ◌==◌, list_eq, Outcome, ok, err, bpf_program_error, bpf_data_invalid, map_err,
  if◌then◌else◌,
}
use android_packages_modules.Effects.{◌>>=◌, ◌>>◌, pure, raise, lift, when}
use android_packages_modules.Strings.{bytes_as_str, bytes_as_nonempty_str}
use android_packages_modules.Atom.{
  ComponentReport, BindReport, set_component_enabled_setting_reported,
  disabled_launcher_activity_uids_reported, bind_service_locked_with_bal_flags_reported,
  bind_service_locked_with_bal_flags_uids_reported,
}
use android_packages_modules.Handler.World.{
  World, Handling, write_codegen, get_service, get_uid, ask_launcher, enqueue, string_entry,
  get_current_timestamp_millis, disabled_launcher_activity_id,
  bind_allow_background_activity_starts_id,
}

pub record ComponentEnabledSetting : Type 0 where
  pub error_code : ℤ
  pub package_name : List ℕ
  pub class_name : List ℕ
  pub new_state : ℤ
  pub calling_package_name : List ℕ

pub record BindServiceLocked : Type 0 where
  pub error_code : ℤ
  pub intent_action : List ℕ
  pub intent_package : List ℕ
  pub intent_component_name_package : List ℕ
  pub intent_component_name_class : List ℕ
  pub bind_flags : ℤ
  pub calling_package : List ℕ

abbrev pub component_enabled_state_disabled : ℤ
component_enabled_state_disabled = pos 2

module _ {H : Type 0} (w : World) where
  -- The second half of `check_disabled_launcher_activity_and_log_to_statsd`.
  unfoldable pub log_launcher_uids : Str → Str → Handling H (Unit {0})
  log_launcher_uids package_name calling_package_name = do
    calling_uid ←
        (if calling_package_name == codes "shell"
          then get_uid w (codes "com.android.shell")
          else get_uid w calling_package_name)
    disabled_activity_uid ← get_uid w package_name
    write_codegen w (disabled_launcher_activity_uids_reported calling_uid disabled_activity_uid)

  unfoldable pub check_disabled_launcher_activity_and_log_to_statsd :
      Str → Str → ℤ → Str → Handling H Bool
  unfolding log_launcher_uids
  check_disabled_launcher_activity_and_log_to_statsd package_name class_name new_state caller =
      if ltb_ℤ new_state component_enabled_state_disabled then pure false else (do
        get_service w
        is_launcher_activity ← ask_launcher w package_name class_name true
        when (not w.is_user_build) (
            write_codegen w (
              set_component_enabled_setting_reported (record {
                package_name = package_name;
                class_name = class_name;
                new_state = new_state;
                calling_package_name = caller;
                is_launcher_activity = is_launcher_activity;
              })))
        when (is_launcher_activity && not (is_empty caller)) (log_launcher_uids package_name caller)
        pure is_launcher_activity)

  unfoldable pub enqueue_disabled_launcher_activity : Str → Str → Str → Handling H (Unit {0})
  unfolding get_current_timestamp_millis
  enqueue_disabled_launcher_activity package_name class_name caller = do
    get_service w
    uid ← get_uid w package_name
    timestamp_ms ← get_current_timestamp_millis w
    enqueue w
        (record {
          uid = uid;
          timestamp_ms = timestamp_ms;
          payload_id = disabled_launcher_activity_id;
          payload =
              string_entry (codes "PACKAGE_NAME") package_name
              ∷ string_entry (codes "CLASS_NAME") class_name
              ∷ string_entry (codes "CALLING_PACKAGE_NAME") caller
              ∷ [];
        })
        false

  -- `ComponentEnabledSettingHandler::on_item`
  unfoldable pub on_component_item : ComponentEnabledSetting → Handling H (Unit {0})
  on_component_item data' =
      if ltb_ℤ data'.error_code (pos 0) then raise (bpf_program_error data'.error_code) else (do
        package_name ←
            lift
              (map_err (λ _. bpf_data_invalid (pos 1)) (bytes_as_nonempty_str data'.package_name))
        class_name ←
            lift (map_err (λ _. bpf_data_invalid (pos 2)) (bytes_as_nonempty_str data'.class_name))
        caller ← lift (bytes_as_str data'.calling_package_name)
        is_disabled ←
            check_disabled_launcher_activity_and_log_to_statsd package_name class_name
              data'.new_state caller
        when is_disabled (enqueue_disabled_launcher_activity package_name class_name caller))

-- `flags & BIND_ALLOW_BACKGROUND_ACTIVITY_STARTS != 0`: bit 20 of the two's complement.
unfoldable pub has_bal_flag : ℤ → Bool
has_bal_flag (pos n) = eqb (n / 2 ^ 20 % 2) 1
has_bal_flag (negsuc n) = eqb (n / 2 ^ 20 % 2) 0

-- The five texts of a bind event, in the order of the log's arguments.
pub record Binding : Type 0 where
  pub intent_package : Str
  pub intent_action : Str
  pub intent_component_name_package : Str
  pub intent_component_name_class : Str
  pub calling_package : Str

unfoldable pub read_binding : BindServiceLocked → Outcome Binding
read_binding data' = Common.◌>>=◌ (bytes_as_str data'.calling_package) λ calling_package.
    Common.◌>>=◌ (bytes_as_str data'.intent_package) λ intent_package.
      Common.◌>>=◌ (bytes_as_str data'.intent_action) λ intent_action.
        Common.◌>>=◌ (bytes_as_str data'.intent_component_name_package) λ component_package.
          Common.◌>>=◌ (bytes_as_str data'.intent_component_name_class) λ component_class.
            ok (record {
              intent_package = intent_package;
              intent_action = intent_action;
              intent_component_name_package = component_package;
              intent_component_name_class = component_class;
              calling_package = calling_package;
            })

abbrev pub all_empty : Binding → Bool
all_empty b =
    is_empty b.calling_package
    && (is_empty b.intent_package
        && (is_empty b.intent_action
            && (is_empty b.intent_component_name_package
                && is_empty b.intent_component_name_class)))

abbrev pub bindee_package : Binding → Str
bindee_package b =
    if not (is_empty b.intent_package) then b.intent_package else b.intent_component_name_package

module _ {H : Type 0} (w : World) where
  unfoldable pub log_to_statsd : Binding → ℤ → Handling H (Unit {0})
  log_to_statsd b flags = do
    when (not w.is_user_build) (
        write_codegen w (
          bind_service_locked_with_bal_flags_reported (record {
            intent_package = b.intent_package;
            flags = flags;
            calling_package = b.calling_package;
            intent_action = b.intent_action;
            intent_component_name_package = b.intent_component_name_package;
            intent_component_name_class = b.intent_component_name_class;
          })))
    when (not (is_empty b.calling_package) && not (is_empty (bindee_package b))) (do
      get_service w
      binder_uid ← get_uid w b.calling_package
      bindee_uid ← get_uid w (bindee_package b)
      write_codegen w (bind_service_locked_with_bal_flags_uids_reported binder_uid bindee_uid))

  unfoldable pub enqueue_bind_event : Binding → Handling H (Unit {0})
  unfolding get_current_timestamp_millis
  enqueue_bind_event b = do
    get_service w
    timestamp_ms ← get_current_timestamp_millis w
    enqueue w
        (record {
          uid = pos 0;
          timestamp_ms = timestamp_ms;
          payload_id = bind_allow_background_activity_starts_id;
          payload =
              string_entry (codes "CALLING_PACKAGE") b.calling_package
              ∷ string_entry (codes "INTENT_PACKAGE") b.intent_package
              ∷ string_entry (codes "INTENT_ACTION") b.intent_action
              ∷ string_entry (codes "INTENT_COMPONENT_NAME_PACKAGE") b.intent_component_name_package
              ∷ string_entry (codes "INTENT_COMPONENT_NAME_CLASS") b.intent_component_name_class
              ∷ [];
        })
        false

  -- `BindServiceLockedHandler::on_item`
  unfoldable pub on_bind_item : BindServiceLocked → Handling H (Unit {0})
  on_bind_item data' =
      if ltb_ℤ data'.error_code (pos 0) then raise (bpf_program_error data'.error_code) else (do
        b ← lift (read_binding data')
        (if all_empty b
            then raise (bpf_data_invalid (pos 1))
            else if not (has_bal_flag data'.bind_flags)
            then pure tt
            else (do log_to_statsd b data'.bind_flags; enqueue_bind_event b)))
