-- ===== src/Poll/Registry/Completes.antt =====
-- What a map that was polled with success has been through, with the handlers that are registered.
use android_packages_modules.Common.{
  ℕ, Bool, Option, none, some, List, Str, list_eq, Outcome, ok, ◌≡◌, Option-cases, lookup, inl, inr,
}
use android_packages_modules.Config.Flags.{Flags}
use android_packages_modules.Config.Resolved.{ResolvedTask, Duration}
use android_packages_modules.Handler.World.{World}
use android_packages_modules.Poll.{Polling, Report}
use android_packages_modules.Poll.Handled.{Completes, poll_loop-Completes}
use android_packages_modules.Poll.Registry.{
  HandlerType, map_path_of, HandlerRegistry, handler_registry, AnyHandler, keep_reports,
  poll_loop_generic, poll_registry,
}
use android_packages_modules.Poll.Registry.Handlers.{Rings, handlers}
use android_packages_modules.Poll.Registry.Exact.{handler_registry-exact}
use android_packages_modules.Poll.Registry.Registered.{IsRegistered}

-- From its default state, a handler has handled every item of its map and has finished.
abbrev pub Polled : AnyHandler → ℕ → ResolvedTask → Duration → List Report → List Report → Type 0
Polled h fuel task duration reports reports' =
    (s' : Polling h.State) × Completes h.handler h.ring_buffer task fuel duration
      (record { handler = h.default; reports = reports }) s'
    × (s'.reports ≡ reports')

keep_reports_ok :
    {S : Type 0} (r : Option (Outcome (Unit {0}) × Polling S)) (reports : List Report)
    → keep_reports r ≡ some (ok tt, reports)
    → (s' : Polling S) × (r ≡ some (ok tt, s')) × (s'.reports ≡ reports)
keep_reports_ok none reports e = absurd (cc e)
keep_reports_ok (some (r, s)) reports e = (s, cc e, cc e)

poll_loop_generic-Polled :
    (h : AnyHandler) (fuel : ℕ) (path : Str) (task : ResolvedTask) (duration : Duration)
    (reports reports' : List Report)
    → poll_loop_generic h fuel path task duration reports ≡ some (ok tt, reports')
    → Polled h fuel task duration reports reports'
unfolding poll_loop_generic
poll_loop_generic-Polled h fuel path task duration reports reports' e =
    let (s', q, p) = keep_reports_ok _ reports' e in
    (s', (poll_loop-Completes h.handler h.ring_buffer task fuel path duration _ s' q).1, p)

poll_found-Polled :
    (some_handler : HandlerType → AnyHandler) (registry : HandlerRegistry) (fuel : ℕ) (path : Str)
    (task : ResolvedTask) (duration : Duration) (reports reports' : List Report)
    → poll_registry some_handler registry fuel path task duration reports ≡ some (ok tt, reports')
    → (h : HandlerType) × (lookup path registry ≡ some h)
      × Polled (some_handler h) fuel task duration reports reports'
unfolding poll_registry
poll_found-Polled some_handler registry fuel path task duration reports reports' e =
    elim (Option-cases (lookup path registry)) [
      | inl q ↦ absurd (cc (rw (q, poll_registry) at e))
      | inr (h, q) ↦ (
        h,
        q,
        poll_loop_generic-Polled (some_handler h) fuel path task duration reports reports'
            (rw (q, poll_registry) at e),
      )
    ]

-- If polling a map succeeds, then a handler that the flags, the platform and the build register has the
-- map's path, and it has handled every item of every round of that map's ring buffer, once and in order,
-- from its default state; then it has finished, and one report was written, with the number of those
-- items.
pub poll_registry-Polled :
    (flags : Flags) (is_at_least_cinnamon_bun art_test : Bool) (w : World) (hash : Str → ℕ)
    (debug_enabled : Bool) (rings : Rings) (fuel : ℕ) (path : Str) (task : ResolvedTask)
    (duration : Duration) (reports reports' : List Report)
    → poll_registry
        (handlers w hash debug_enabled rings)
        (handler_registry flags is_at_least_cinnamon_bun art_test)
        fuel
        path
        task
        duration
        reports
      ≡ some (ok tt, reports')
    → (h : HandlerType) × IsRegistered flags is_at_least_cinnamon_bun art_test h
      × (map_path_of h ≡ path)
      × Polled (handlers w hash debug_enabled rings h) fuel task duration reports reports'
poll_registry-Polled flags is_at_least_cinnamon_bun art_test w hash debug_enabled rings fuel path
      task duration reports reports' e =
    let (h, found, polled_by) =
      poll_found-Polled (handlers w hash debug_enabled rings)
        (handler_registry flags is_at_least_cinnamon_bun art_test) fuel path task duration reports
        reports' e in
    let (wanted, own) =
      (handler_registry-exact flags is_at_least_cinnamon_bun art_test path h).0 found in
    (h, wanted, own, polled_by)
