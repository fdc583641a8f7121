-- ===== src/Task/Schedule/Poison.antt =====
-- Tasks without maps: the source's assumption that a running task polls a map, dropped.
use android_packages_modules.Common.{true, List, [], ◌∷◌, list_eq, none}
use android_packages_modules.Config.Resolved.{ResolvedTask}
use android_packages_modules.Task.Schedule.{System, Event, claims, releases}

abbrev overlap : ResolvedTask → ResolvedTask → List Event
overlap a b = claims a ∷ claims b ∷ releases 1 ∷ releases 0 ∷ []

abbrev dead : System
dead = record { state = none; poisoned = true; running = [] }
