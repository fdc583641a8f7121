-- ===== src/Handler/Tests/Grants.antt =====
-- A permission grant three seconds after an accessibility call.
use android_packages_modules.Common.{pos, [], ◌∷◌, map, All, codes, values, ok, ◌≡◌, arith}
use mathlib.Core.List.{Perm}
use android_packages_modules.Effects.{for_each}
use android_packages_modules.Config.Resolved.{from_secs}
use android_packages_modules.Handler.World.{Local, wrote}
use android_packages_modules.Handler.Writes.{after_calls}
use android_packages_modules.Handler.Accessibility.{
  Event, AccessibilityEvent, AccessibilityHandler, a11y, runtime_permission_grant, sort_desc,
  sort_all, all_grants, associate_events, on_item, on_finished,
}
use android_packages_modules.Handler.Accessibility.Associate.{reports, associate_events-reports}
use android_packages_modules.Handler.Accessibility.Order.{
  IsDescending, IsTimely, sort_desc-sorts, associate_events-IsTimely,
}
use android_packages_modules.Handler.Accessibility.Finish.{
  report_atom, on_finished-writes, AreTimed,
}
use android_packages_modules.Handler.Accessibility.Store.{run-AreTimed}
use android_packages_modules.Handler.Tests.Data.{world, world-TakesUnstructured, fresh}

abbrev call : Event
call = record { uid = pos 10001; timestamp = from_secs 2; variant = a11y (pos 4) }

abbrev grant : Event
grant = record {
  uid = pos 10001;
  timestamp = from_secs 5;
  variant = runtime_permission_grant (codes "android.permission.CAMERA");
}

reports_example : associate_events (grant ∷ call ∷ []) ≡ reports (grant ∷ call ∷ [])
reports_example = associate_events-reports (grant ∷ call ∷ [])

sorts_example :
    Perm (sort_desc (call ∷ grant ∷ [])) (call ∷ grant ∷ [])
    × IsDescending (sort_desc (call ∷ grant ∷ []))
sorts_example = sort_desc-sorts (call ∷ grant ∷ [])

window_example : All IsTimely (associate_events (sort_desc (call ∷ grant ∷ [])))
window_example = associate_events-IsTimely (call ∷ grant ∷ [])

abbrev seen : Local AccessibilityHandler
seen = fresh (record { events = (pos 10001, call ∷ grant ∷ []) ∷ [] })

writes_example : on_finished world seen ≡ (
  ok tt,
  record {
    own = record { events = sort_all seen.own.events };
    calls =
        after_calls []
          (map (λ g. wrote (report_atom g)) (all_grants (values (sort_all seen.own.events))));
  },
)
writes_example =
    on_finished-writes world world-TakesUnstructured seen (((omega arith, (omega arith, tt)), tt))

abbrev item : AccessibilityEvent
item = record {
  error_code = pos 0;
  timestamp_ns = 2000000000;
  variant = pos 2;
  package_name = [];
  permission_name = [];
  uid = pos 10001;
  code = pos 4;
}

timed_example :
    AreTimed
      (for_each (on_item world) (item ∷ item ∷ []) (fresh (record { events = [] }))).1.own.events
timed_example =
    run-AreTimed world (item ∷ item ∷ []) (fresh (record { events = [] }))
      (omega arith, (omega arith, tt)) tt
