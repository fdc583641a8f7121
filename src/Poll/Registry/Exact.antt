-- ===== src/Poll/Registry/Exact.antt =====
-- Which handler is found for a path: one that is registered, and each under its own path.
use android_packages_modules.Common.{
  Bool, false, some, List, [], ◌∷◌, Str, list_eq, list_beq_iff, ◌==◌, lookup, lookup-insert, All,
  ◌≡◌, ◌⊎◌, ◌↔◌, refl, ap, sym, subst, ◌∙◌, arith, Bool-cases, inl, inr, if◌then◌else◌,
}
use android_packages_modules.Config.Flags.{Flags}
use android_packages_modules.Poll.Registry.{
  HandlerType, bitmap_allocation_v0, bitmap_allocation_v1, call_timestamp, call_result,
  set_uid_temp_allowlist_state_record, update_device_idle_temp_allowlist_record, binder_transaction,
  accessibility, bind_service_locked, component_enabled_setting, jit, aot, map_path_of,
  HandlerRegistry, register_handler, register_all, registered, handler_registry,
}
use android_packages_modules.Poll.Registry.Paths.{same_reader, reader_of}
use android_packages_modules.Poll.Registry.Registered.{
  IsRegistered, In, Wanted, registered-IsRegistered, IsRegistered-In,
}

module _ (flags : Flags) (cinnamon art : Bool) where
  -- Of the two bitmap handlers, only one is registered.
  abbrev of_reader : HandlerType → HandlerType
  of_reader bitmap_allocation_v0 =
      if flags.enable_bitmap_snapshot then bitmap_allocation_v1 else bitmap_allocation_v0
  of_reader h = h

  of_reader-reader_of :
      (h : HandlerType) → Wanted flags cinnamon art h → of_reader (reader_of h) ≡ h
  of_reader-reader_of bitmap_allocation_v0 e = rw e refl
  of_reader-reader_of bitmap_allocation_v1 e = rw e refl
  of_reader-reader_of call_timestamp e = refl
  of_reader-reader_of call_result e = refl
  of_reader-reader_of set_uid_temp_allowlist_state_record e = refl
  of_reader-reader_of update_device_idle_temp_allowlist_record e = refl
  of_reader-reader_of binder_transaction e = refl
  of_reader-reader_of accessibility e = refl
  of_reader-reader_of bind_service_locked e = refl
  of_reader-reader_of component_enabled_setting e = refl
  of_reader-reader_of jit e = refl
  of_reader-reader_of aot e = refl

  -- No two registered handlers share a path.
  same_path :
      (h h' : HandlerType)
      → Wanted flags cinnamon art h
      → Wanted flags cinnamon art h'
      → map_path_of h ≡ map_path_of h'
      → h ≡ h'
  same_path h h' w w' e =
      sym (of_reader-reader_of h w) ∙ ap of_reader (same_reader h h' e) ∙ of_reader-reader_of h' w'

  -- What is found was there before or is registered, under its own path.
  register_all-found :
      (hs : List HandlerType) (registry : HandlerRegistry) (path : Str) (h : HandlerType)
      → All (Wanted flags cinnamon art) hs
      → (lookup path registry ≡ some h → Wanted flags cinnamon art h × (map_path_of h ≡ path))
      → lookup path (register_all hs registry) ≡ some h
      → Wanted flags cinnamon art h × (map_path_of h ≡ path)
  unfolding register_handler
  register_all-found [] registry path h w before e = before e
  register_all-found (x ∷ hs) registry path h w before e =
      register_all-found hs (register_handler x registry) path h w.1
        (λ found. elim (Bool-cases (map_path_of x == path)) [
          | inl q ↦
              let same : x ≡ h =
                ground (arith, lookup-insert (map_path_of x) path x registry, found, q) in
              rw (← same) (w.0, (list_beq_iff (map_path_of x) path).0 q)
          | inr q ↦ before (ground (arith, lookup-insert (map_path_of x) path x registry, found, q))
        ])
        e

  -- A handler that is registered is found, since no later one takes its path.
  register_all-finds :
      (hs : List HandlerType) (registry : HandlerRegistry) (h : HandlerType)
      → Wanted flags cinnamon art h
      → All (Wanted flags cinnamon art) hs
      → In h hs ⊎ (lookup (map_path_of h) registry ≡ some h)
      → lookup (map_path_of h) (register_all hs registry) ≡ some h
  unfolding register_handler
  register_all-finds [] registry h wanted w (inl i) = absurd i
  register_all-finds [] registry h wanted w (inr e) = e
  register_all-finds (x ∷ hs) registry h wanted w i =
      register_all-finds hs (register_handler x registry) h wanted w.1
        (elim (Bool-cases (map_path_of x == map_path_of h)) [
          | inl q ↦
              let same : x ≡ h =
                same_path x h w.0 wanted ((list_beq_iff (map_path_of x) (map_path_of h)).0 q) in
              inr
                (ground (arith, lookup-insert (map_path_of x) (map_path_of h) x registry, q, same))
          | inr q ↦ later q i
        ])
    where
      later :
          (map_path_of x == map_path_of h) ≡ false
          → In h (x ∷ hs) ⊎ (lookup (map_path_of h) registry ≡ some h)
          → In h hs ⊎ (lookup (map_path_of h) (register_handler x registry) ≡ some h)
      later q (inl (inl same)) = absurd (
          ground (arith, q, (list_beq_iff (map_path_of x) (map_path_of h)).1 (ap map_path_of same)))
      later q (inl (inr i)) = inl i
      later q (inr e) =
          inr (ground (arith, lookup-insert (map_path_of x) (map_path_of h) x registry, q, e))

-- The registry has exactly the handlers whose flags are on, each under its own map path: a handler is
-- found for a path just when it is registered by the flags, the platform and the build, and the path is
-- its own. Of the handlers that are registered none hides another.
pub handler_registry-exact :
    (flags : Flags) (is_at_least_cinnamon_bun art_test : Bool) (path : Str) (h : HandlerType)
    → (lookup path (handler_registry flags is_at_least_cinnamon_bun art_test) ≡ some h)
      ↔ (IsRegistered flags is_at_least_cinnamon_bun art_test h × (map_path_of h ≡ path))
unfolding handler_registry lookup
handler_registry-exact flags is_at_least_cinnamon_bun art_test path h = (
  λ e.
      register_all-found flags is_at_least_cinnamon_bun art_test
        (registered flags is_at_least_cinnamon_bun art_test) [] path h
        (registered-IsRegistered flags is_at_least_cinnamon_bun art_test)
        (λ found. absurd (cc found)) e,
  λ (wanted, own).
      subst (λ p. lookup p (handler_registry flags is_at_least_cinnamon_bun art_test) ≡ some h) own
        (register_all-finds flags is_at_least_cinnamon_bun art_test
          (registered flags is_at_least_cinnamon_bun art_test) [] h wanted
          (registered-IsRegistered flags is_at_least_cinnamon_bun art_test)
          (inl (IsRegistered-In flags is_at_least_cinnamon_bun art_test h wanted))),
)
