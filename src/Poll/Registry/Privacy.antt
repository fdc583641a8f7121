-- ===== src/Poll/Registry/Privacy.antt =====
-- What the maps of the disruptive app programs bring to statsd.
use android_packages_modules.Common.{ℕ, Bool, true, Str, List, All, ◌≡◌}
use android_packages_modules.Config.Resolved.{ResolvedTask, Duration}
use android_packages_modules.Handler.World.{World}
use android_packages_modules.Handler.Disruptive.Privacy.{
  IsAnonymous, on_bind_item-IsAnonymous, on_component_item-IsAnonymous,
}
use android_packages_modules.Poll.{Report}
use android_packages_modules.Poll.Invariant.{Keeps, poll_loop-Keeps}
use android_packages_modules.Poll.Registry.{
  bind_service_locked, component_enabled_setting, map_path_of, polled,
}
use android_packages_modules.Poll.Registry.Handlers.{Rings, handlers}

-- On a user build, polling a map of the disruptive app programs writes no text to statsd, whatever the
-- programs emit, whatever the bridge, the clock and statsd answer, and however the polling ends: every
-- call is a question to the bridge, an event for it, a reading of the clock or an atom of uids.
pub polled-IsAnonymous :
    (w : World) (hash : Str → ℕ) (debug_enabled : Bool) (rings : Rings) (fuel : ℕ)
    (task : ResolvedTask) (duration : Duration) (reports : List Report)
    → w.is_user_build ≡ true
    → Keeps
        (λ s. All IsAnonymous s.calls)
        (polled
          (handlers w hash debug_enabled rings bind_service_locked)
          fuel
          (map_path_of bind_service_locked)
          task
          duration
          reports)
      × Keeps
          (λ s. All IsAnonymous s.calls)
          (polled
            (handlers w hash debug_enabled rings component_enabled_setting)
            fuel
            (map_path_of component_enabled_setting)
            task
            duration
            reports)
polled-IsAnonymous w hash debug_enabled rings fuel task duration reports user =
    let b = handlers w hash debug_enabled rings bind_service_locked in
    let c = handlers w hash debug_enabled rings component_enabled_setting in
    (
      poll_loop-Keeps b.handler b.ring_buffer task (λ s. All IsAnonymous s.calls)
          (λ x s. on_bind_item-IsAnonymous w x s user) (λ s p. p) fuel _ duration _ tt,
      poll_loop-Keeps c.handler c.ring_buffer task (λ s. All IsAnonymous s.calls)
          (λ x s. on_component_item-IsAnonymous w x s user) (λ s p. p) fuel _ duration _ tt,
    )
