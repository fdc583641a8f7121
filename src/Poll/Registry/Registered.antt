-- ===== src/Poll/Registry/Registered.antt =====
-- Which handlers are in the list of those that are registered, by the flags.
use android_packages_modules.Common.{
  Bool, true, false, List, [], ◌∷◌, ◌++◌, list_eq, All, All-append, Any, ◌≡◌, refl, Bool-cases, inl,
  inr, if◌then◌else◌,
}
use android_packages_modules.Config.Flags.{Flags}
use android_packages_modules.Poll.Registry.{
  HandlerType, bitmap_allocation_v0, bitmap_allocation_v1, call_timestamp, call_result,
  set_uid_temp_allowlist_state_record, update_device_idle_temp_allowlist_record, binder_transaction,
  accessibility, bind_service_locked, component_enabled_setting, jit, aot, only_if, registered,
}

-- What each handler needs of the flags, the platform and the build.
abbrev pub IsRegistered : Flags → Bool → Bool → HandlerType → Type 0
IsRegistered flags cinnamon art bitmap_allocation_v0 = flags.enable_bitmap_snapshot ≡ false
IsRegistered flags cinnamon art bitmap_allocation_v1 = flags.enable_bitmap_snapshot ≡ true
IsRegistered flags cinnamon art binder_transaction = flags.enable_binder_transaction ≡ true
IsRegistered flags cinnamon art accessibility =
    (cinnamon ≡ true) × (flags.a11y_runtime_permission ≡ true)
IsRegistered flags cinnamon art bind_service_locked =
    (cinnamon ≡ true) × (flags.monitor_disruptive_app_activities ≡ true)
IsRegistered flags cinnamon art component_enabled_setting =
    (cinnamon ≡ true) × (flags.monitor_disruptive_app_activities ≡ true)
IsRegistered flags cinnamon art jit = art ≡ true
IsRegistered flags cinnamon art aot = art ≡ true
IsRegistered flags cinnamon art _ = Unit

only_if-All :
    (P : HandlerType → Type 0) (b : Bool) (hs : List HandlerType)
    → (b ≡ true → All P hs)
    → All P (only_if b hs)
only_if-All P true hs h = h refl
only_if-All P false hs h = tt

-- Being in a list, on either side of an append and under a test.
abbrev pub In : HandlerType → List HandlerType → Type 0
In h hs = Any (λ h'. h' ≡ h) hs

In-left : (h : HandlerType) (xs ys : List HandlerType) → In h xs → In h (xs ++ ys)
In-left h [] ys i = absurd i
In-left h (x ∷ xs) ys (inl e) = inl e
In-left h (x ∷ xs) ys (inr i) = inr (In-left h xs ys i)

In-right : (h : HandlerType) (xs ys : List HandlerType) → In h ys → In h (xs ++ ys)
In-right h [] ys i = i
In-right h (x ∷ xs) ys i = inr (In-right h xs ys i)

In-only_if :
    (h : HandlerType) (b : Bool) (hs : List HandlerType) → b ≡ true → In h hs → In h (only_if b hs)
In-only_if h true hs e i = i
In-only_if h false hs e i = absurd (cc e)

module _ (flags : Flags) (cinnamon art : Bool) where
  abbrev pub Wanted : HandlerType → Type 0
  Wanted = IsRegistered flags cinnamon art

  bitmap-IsRegistered :
      Wanted (if flags.enable_bitmap_snapshot then bitmap_allocation_v1 else bitmap_allocation_v0)
  bitmap-IsRegistered = elim (Bool-cases flags.enable_bitmap_snapshot) [
    | inl q ↦ rw (q, IsRegistered) q
    | inr q ↦ rw (q, IsRegistered) q
  ]

  -- The handlers that depend on a test, as `registered` has them.
  abbrev binders : List HandlerType
  binders = only_if flags.enable_binder_transaction (binder_transaction ∷ [])

  abbrev a11y : List HandlerType
  a11y = only_if flags.a11y_runtime_permission (accessibility ∷ [])

  abbrev disruptive : List HandlerType
  disruptive =
      only_if flags.monitor_disruptive_app_activities
        (bind_service_locked ∷ component_enabled_setting ∷ [])

  abbrev platform : List HandlerType
  platform = only_if cinnamon (a11y ++ disruptive)

  abbrev tests : List HandlerType
  tests = only_if art (jit ∷ aot ∷ [])

  platform-IsRegistered : All Wanted platform
  platform-IsRegistered = only_if-All Wanted cinnamon (a11y ++ disruptive) (λ c.
      All-append Wanted a11y disruptive
        (only_if-All Wanted flags.a11y_runtime_permission (accessibility ∷ []) (λ e. ((c, e), tt)))
        (only_if-All Wanted flags.monitor_disruptive_app_activities
          (bind_service_locked ∷ component_enabled_setting ∷ []) (λ e. ((c, e), ((c, e), tt)))))

  conditional-IsRegistered : All Wanted ((binders ++ platform) ++ tests)
  conditional-IsRegistered =
      All-append Wanted (binders ++ platform) tests
        (All-append Wanted binders platform
          (only_if-All Wanted flags.enable_binder_transaction (binder_transaction ∷ [])
            (λ e. (e, tt)))
          platform-IsRegistered)
        (only_if-All Wanted art (jit ∷ aot ∷ []) (λ e. (e, (e, tt))))

  pub registered-IsRegistered : All Wanted (registered flags cinnamon art)
  unfolding registered
  registered-IsRegistered = (bitmap-IsRegistered, (tt, (tt, (tt, (tt, conditional-IsRegistered)))))

  binder-In : (h : HandlerType) → In h binders → In h (registered flags cinnamon art)
  unfolding registered
  binder-In h i =
      inr (
        inr
          (inr (inr (inr (In-left h (binders ++ platform) tests (In-left h binders platform i))))))

  platform-In : (h : HandlerType) → In h platform → In h (registered flags cinnamon art)
  unfolding registered
  platform-In h i = inr (
      inr (inr (inr (inr (In-left h (binders ++ platform) tests (In-right h binders platform i))))))

  tests-In : (h : HandlerType) → In h tests → In h (registered flags cinnamon art)
  unfolding registered
  tests-In h i = inr (inr (inr (inr (inr (In-right h (binders ++ platform) tests i)))))

  disruptive-In :
      (h : HandlerType) → cinnamon ≡ true → In h disruptive → In h (registered flags cinnamon art)
  disruptive-In h c i =
      platform-In h (In-only_if h cinnamon (a11y ++ disruptive) c (In-right h a11y disruptive i))

  -- All that is needed is registered.
  pub IsRegistered-In : (h : HandlerType) → Wanted h → In h (registered flags cinnamon art)
  unfolding registered
  IsRegistered-In bitmap_allocation_v0 e = inl (rw e refl)
  IsRegistered-In bitmap_allocation_v1 e = inl (rw e refl)
  IsRegistered-In call_timestamp e = inr (inl refl)
  IsRegistered-In call_result e = inr (inr (inl refl))
  IsRegistered-In set_uid_temp_allowlist_state_record e = inr (inr (inr (inl refl)))
  IsRegistered-In update_device_idle_temp_allowlist_record e = inr (inr (inr (inr (inl refl))))
  IsRegistered-In binder_transaction e =
      binder-In binder_transaction
        (In-only_if binder_transaction flags.enable_binder_transaction _ e (inl refl))
  IsRegistered-In accessibility (c, e) = platform-In accessibility (
      In-only_if accessibility cinnamon (a11y ++ disruptive) c (
        In-left accessibility a11y disruptive
          (In-only_if accessibility flags.a11y_runtime_permission _ e (inl refl))))
  IsRegistered-In bind_service_locked (c, e) =
      disruptive-In bind_service_locked c
        (In-only_if bind_service_locked flags.monitor_disruptive_app_activities _ e (inl refl))
  IsRegistered-In component_enabled_setting (c, e) = disruptive-In component_enabled_setting c (
      In-only_if component_enabled_setting flags.monitor_disruptive_app_activities _ e
        (inr (inl refl)))
  IsRegistered-In jit e = tests-In jit (In-only_if jit art _ e (inl refl))
  IsRegistered-In aot e = tests-In aot (In-only_if aot art _ e (inr (inl refl)))
