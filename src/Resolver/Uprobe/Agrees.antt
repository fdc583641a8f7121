-- ===== src/Resolver/Uprobe/Agrees.antt =====
-- The two ways to wait for a start find the same process.
use android_packages_modules.Common.{
  ℕ, ◌^◌, ◌<◌, pos, as_signed, ltb_ℤ, true, Option, none, some, List, [], ◌∷◌, ◌++◌, Str, list_eq,
  ok, All, map, ◌≡◌, refl, arith,
}
use android_packages_modules.Strings.{bytes_as_str, is_utf8}
use android_packages_modules.Strings.Laws.{NoNul, until_nul_stops}
use android_packages_modules.Resolver.Observer.{
  Start, to_str_or_default, ObserverApi, ObserverCall, wait_for_app_start_observer,
}
use android_packages_modules.Resolver.Observer.First.{
  first_wanted, or_timeout, wait_for_app_start_observer-first,
}
use android_packages_modules.Config.Resolved.{ResolvedProcess}
use android_packages_modules.Resolver.Uprobe.{ProcessChange, is_wanted, first_start}

-- The change that the program writes for a start: the name is followed by a NUL and what else is in
-- the array.
abbrev pub change_of : List ℕ → Start → ProcessChange
change_of padding start = record {
  pid = start.pid;
  uid = pos start.process_uid;
  process_name = start.process_name ++ 0 ∷ padding;
}

-- A start with a pid above 0, a uid that an i32 holds, and a name in UTF-8.
abbrev pub IsPlain : Start → Type 0
IsPlain start =
    (ltb_ℤ (pos 0) start.pid ≡ true)
    × (start.process_uid < 2 ^ 31)
    × NoNul start.process_name
    × (is_utf8 start.process_name ≡ true)

name_of_change :
    (padding : List ℕ) (start : Start)
    → IsPlain start
    → bytes_as_str (start.process_name ++ 0 ∷ padding) ≡ ok start.process_name
unfolding bytes_as_str
name_of_change padding start (_, _, n, u) =
    rw (until_nul_stops start.process_name padding n, u) refl

changes-first_wanted :
    (process_name : Option Str) (padding : List ℕ) (starts : List Start)
    → All IsPlain starts
    → first_start process_name (map (change_of padding) starts)
      ≡ ok (first_wanted process_name starts)
unfolding first_start is_wanted to_str_or_default as_signed
changes-first_wanted process_name padding [] h = refl
changes-first_wanted none padding (start ∷ starts) h =
    rw (name_of_change padding start h.0)
      (ground (arith, h.0, changes-first_wanted none padding starts h.1))
changes-first_wanted (some target) padding (start ∷ starts) h =
    rw (name_of_change padding start h.0)
      (ground (arith, h.0, changes-first_wanted (some target) padding starts h.1))

-- On the same starts, each with a pid above 0, a uid below 2 ^ 31 and a name in UTF-8, in the order of the
-- events, the two ways to wait find the same process: what the loop over the changes of one poll finds is
-- what the observer returns, once it is created and registered, and the observer fails with its timeout's
-- error where the loop finds none.
pub first_start-wait_for_app_start_observer :
    (api : ObserverApi) (process_name : Option Str) (padding : List ℕ) (log : List ObserverCall)
    → api.created ≡ true
    → api.registration ≡ pos 0
    → All IsPlain api.starts
    → (found : Option ResolvedProcess) × (first_start process_name
          (map (change_of padding) api.starts)
        ≡ ok found)
      × ((wait_for_app_start_observer api process_name log).0 ≡ or_timeout found)
first_start-wait_for_app_start_observer api process_name padding log created registered plain = (
  first_wanted process_name api.starts,
  changes-first_wanted process_name padding api.starts plain,
  wait_for_app_start_observer-first api process_name log created registered,
)
