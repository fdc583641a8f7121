-- ===== src/Poll/Registry/Ends.antt =====
-- Polling a map ends.
use android_packages_modules.Common.{
  ℕ, ◌<◌, Option, none, some, List, Str, list_eq, lookup, Outcome, Option-cases, inl, inr,
}
use android_packages_modules.Config.Resolved.{ResolvedTask, Duration, as_millis}
use android_packages_modules.Poll.{Polling, Report}
use android_packages_modules.Poll.Ends.{Ended, poll_loop-Ended}
use android_packages_modules.Poll.Registry.{
  HandlerType, HandlerRegistry, AnyHandler, keep_reports, poll_loop_generic, poll_registry,
}

keep_reports-Ended :
    {S : Type 0} (r : Option (Outcome (Unit {0}) × Polling S)) → Ended r → Ended (keep_reports r)
keep_reports-Ended none e = e
keep_reports-Ended (some r) e = tt

-- Polling a map ends, also one that no handler is registered for: if the timers of all handlers have run
-- out by some round, fuel for one more round is enough.
pub poll_registry-Ended :
    (handlers : HandlerType → AnyHandler) (registry : HandlerRegistry) (n fuel : ℕ) (map_path : Str)
    (task : ResolvedTask) (duration : Duration) (reports : List Report)
    → n < fuel
    → ((h : HandlerType) → as_millis duration < (handlers h).ring_buffer.elapsed_millis n)
    → Ended (poll_registry handlers registry fuel map_path task duration reports)
unfolding poll_registry poll_loop_generic
poll_registry-Ended handlers registry n fuel map_path task duration reports f late =
    elim (Option-cases (lookup map_path registry)) [
      | inl q ↦ rw (q, Ended) tt
      | inr (h, q) ↦
          rw (q, Ended)
            (keep_reports-Ended _ (
              poll_loop-Ended (handlers h).handler (handlers h).ring_buffer task n fuel map_path
                duration (record { handler = (handlers h).default; reports = reports }) f (late h)))
    ]
