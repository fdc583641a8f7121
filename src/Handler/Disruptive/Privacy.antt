-- ===== src/Handler/Disruptive/Privacy.antt =====
-- What the handlers of disruptive_app.rs send, and when they send nothing.
use android_packages_modules.Common.{
  ℤ, ltb_ℤ, true, false, Str, list_eq, All, Outcome, ok, ◌≡◌, refl, arith, Outcome-cases, inl, inr,
}
use android_packages_modules.Strings.{bytes_as_str, bytes_as_nonempty_str}
use android_packages_modules.Atom.{
  disabled_launcher_activity_uids_reported, bind_service_locked_with_bal_flags_uids_reported,
}
use android_packages_modules.Handler.World.{World, Local, Call, wrote, wrote_codegen}
use android_packages_modules.Handler.Disruptive.{
  ComponentEnabledSetting, BindServiceLocked, component_enabled_state_disabled,
  check_disabled_launcher_activity_and_log_to_statsd, enqueue_disabled_launcher_activity,
  on_component_item, log_to_statsd, enqueue_bind_event, on_bind_item, has_bal_flag, read_binding,
  Binding,
}

-- A call that puts no text into statsd.
abbrev pub IsAnonymous : Call → Type 0
IsAnonymous (wrote a) = ⊥
IsAnonymous (wrote_codegen (disabled_launcher_activity_uids_reported a b)) = Unit
IsAnonymous (wrote_codegen (bind_service_locked_with_bal_flags_uids_reported a b)) = Unit
IsAnonymous (wrote_codegen _) = ⊥
IsAnonymous _ = Unit

module _ {H : Type 0} (w : World) (user : w.is_user_build ≡ true) where
  check_disabled-IsAnonymous :
      (pkg cls caller : Str) (state : ℤ) (s : Local H)
      → All IsAnonymous s.calls
      → All IsAnonymous
          (check_disabled_launcher_activity_and_log_to_statsd w pkg cls state caller s).1.calls
  unfolding check_disabled_launcher_activity_and_log_to_statsd
  check_disabled-IsAnonymous pkg cls caller state s h = ground arith

  enqueue_component-IsAnonymous :
      (pkg cls caller : Str) (s : Local H)
      → All IsAnonymous s.calls
      → All IsAnonymous (enqueue_disabled_launcher_activity w pkg cls caller s).1.calls
  unfolding enqueue_disabled_launcher_activity
  enqueue_component-IsAnonymous pkg cls caller s h = ground arith

  log_to_statsd-IsAnonymous :
      (b : Binding) (flags : ℤ) (s : Local H)
      → All IsAnonymous s.calls
      → All IsAnonymous (log_to_statsd w b flags s).1.calls
  unfolding log_to_statsd
  log_to_statsd-IsAnonymous b flags s h = ground arith

  enqueue_bind-IsAnonymous :
      (b : Binding) (s : Local H)
      → All IsAnonymous s.calls
      → All IsAnonymous (enqueue_bind_event w b s).1.calls
  unfolding enqueue_bind_event
  enqueue_bind-IsAnonymous b s h = ground arith

-- On a user build the handler of component settings writes no text to statsd: every call that it adds
-- is a question to the bridge, an event for it, a reading of the clock or an atom of two uids.
pub on_component_item-IsAnonymous :
    {H : Type 0} (w : World) (d : ComponentEnabledSetting) (s : Local H)
    → w.is_user_build ≡ true
    → All IsAnonymous s.calls
    → All IsAnonymous (on_component_item w d s).1.calls
unfolding on_component_item
on_component_item-IsAnonymous w d s user h =
    parts (bytes_as_nonempty_str d.package_name) refl (bytes_as_nonempty_str d.class_name) refl
      (bytes_as_str d.calling_package_name) refl
  where
    parts :
        (pkg : Outcome Str)
        → bytes_as_nonempty_str d.package_name ≡ pkg
        → (cls : Outcome Str) → bytes_as_nonempty_str d.class_name ≡ cls
        → (caller : Outcome Str) → bytes_as_str d.calling_package_name ≡ caller
        → All IsAnonymous (on_component_item w d s).1.calls
    parts (ok pkg) e1 (ok cls) e2 (ok caller) e3 =
        let s' =
          (check_disabled_launcher_activity_and_log_to_statsd w pkg cls d.new_state caller s).1 in
        let h' = check_disabled-IsAnonymous w user pkg cls caller d.new_state s h in
        ground (arith, h', enqueue_component-IsAnonymous w user pkg cls caller s' h')
    parts (ok pkg) e1 (ok cls) e2 _ e3 = ground arith
    parts (ok pkg) e1 _ e2 caller e3 = ground arith
    parts _ e1 cls e2 caller e3 = ground arith

-- On a user build the handler of bound services writes no text to statsd either.
pub on_bind_item-IsAnonymous :
    {H : Type 0} (w : World) (d : BindServiceLocked) (s : Local H)
    → w.is_user_build ≡ true
    → All IsAnonymous s.calls
    → All IsAnonymous (on_bind_item w d s).1.calls
unfolding on_bind_item
on_bind_item-IsAnonymous w d s user h = elim (Outcome-cases (read_binding d)) [
  | inl (b, e) ↦
      let s' = (log_to_statsd w b d.bind_flags s).1 in
      let h' = log_to_statsd-IsAnonymous w user b d.bind_flags s h in
      ground (arith, e, h', enqueue_bind-IsAnonymous w user b s' h')
  | inr (inl (c, e)) ↦ ground (arith, e)
  | inr (inr e) ↦ ground (arith, e)
]

-- A setting below the disabled states makes no call, and neither does a binding without the flag for
-- background activity starts.
pub disruptive_silent :
    {H : Type 0} (w : World) (d : ComponentEnabledSetting) (b : BindServiceLocked) (s : Local H)
    → ltb_ℤ d.new_state component_enabled_state_disabled ≡ true
    → has_bal_flag b.bind_flags ≡ false
    → ((on_component_item w d s).1 ≡ s) × ((on_bind_item w b s).1 ≡ s)
unfolding on_component_item on_bind_item check_disabled_launcher_activity_and_log_to_statsd
disruptive_silent w d b s quiet no_flag = (ground arith, ground arith)
