-- ===== src/Handler/Accessibility/Associate.antt =====
-- The association of accessibility calls with permission grants against a direct description.
use mathlib.Core.List.{append-nil, append_assoc}
use android_packages_modules.Common.{
  ◌-◌, ℤ, Option, none, some, List, [], ◌∷◌, ◌++◌, Str, ltb, if◌then◌else◌, ◌≡◌, refl, arith,
  Bool-cases, inl, inr, ◌⊎◌,
}
use android_packages_modules.Config.Resolved.{Duration}
use android_packages_modules.Handler.Accessibility.{
  Event, EventType, AccessibilityRuntimePermissionGrant, runtime_permission_grant, a11y,
  a11y_event_window, associate_loop, associate_events,
}

abbrev Grant : Type 0
Grant = AccessibilityRuntimePermissionGrant

abbrev calls_in : Duration → EventType → Duration → List (ℤ × Duration) → List (ℤ × Duration)
calls_in granted (a11y code) t later =
    if ltb (granted - t) a11y_event_window then (code, t) ∷ later else later
calls_in granted (runtime_permission_grant name) t later = []

-- The calls that precede a grant: those up to the next grant that lie in the window.
unfoldable pub calls_before : Duration → List Event → List (ℤ × Duration)
calls_before granted [] = []
calls_before granted (e ∷ es) = calls_in granted e.variant e.timestamp (calls_before granted es)

abbrev grant_at : Event → Str → List Event → Grant
grant_at e name es = record {
  uid = e.uid;
  timestamp = e.timestamp;
  permission_name = name;
  preceding_a11y_calls = calls_before e.timestamp es;
}

abbrev with_grant : EventType → Event → List Event → List Grant → List Grant
with_grant (a11y code) e es later = later
with_grant (runtime_permission_grant name) e es later = grant_at e name es ∷ later

-- One report for each grant, with the calls behind it.
unfoldable pub reports : List Event → List Grant
unfolding calls_before
reports [] = []
reports (e ∷ es) = with_grant e.variant e es (reports es)

-- The report in progress with the calls that are still to come.
abbrev finished : Option Grant → List Event → List Grant
finished none es = []
finished (some g) es =
    record g { preceding_a11y_calls = g.preceding_a11y_calls ++ calls_before g.timestamp es } ∷ []

pub EventType-cases :
    (v : EventType)
    → ((name : Str) × (v ≡ runtime_permission_grant name)) ⊎ ((code : ℤ) × (v ≡ a11y code))
EventType-cases (runtime_permission_grant name) = inl (name, refl)
EventType-cases (a11y code) = inr (code, refl)

associate_loop-reports :
    (grants : List Grant) (current : Option Grant) (es : List Event)
    → associate_loop grants current es ≡ grants ++ (finished current es ++ reports es)
unfolding associate_loop reports calls_before
associate_loop-reports grants none [] = ground (arith, append-nil grants)
associate_loop-reports grants (some g) [] = ground (arith, append-nil g.preceding_a11y_calls)
associate_loop-reports grants none (e ∷ es) = elim (EventType-cases e.variant) [
  | inl (name, q) ↦
      let g : Grant = record (grant_at e name es) { preceding_a11y_calls = [] } in
      ground (arith, q, associate_loop-reports grants (some g) es)
  | inr (code, q) ↦ ground (arith, q, associate_loop-reports grants none es)
]
associate_loop-reports grants (some g) (e ∷ es) = elim (EventType-cases e.variant) [
  | inl (name, q) ↦
      let g' : Grant = record (grant_at e name es) { preceding_a11y_calls = [] } in
      ground (
        arith,
        q,
        associate_loop-reports (grants ++ g ∷ []) (some g') es,
        append_assoc grants (g ∷ []) (grant_at e name es ∷ reports es),
        append-nil g.preceding_a11y_calls,
      )
  | inr (code, q) ↦ elim (Bool-cases (ltb (g.timestamp - e.timestamp) a11y_event_window)) [
    | inl b ↦
        let g' : Grant = record g {
          preceding_a11y_calls = g.preceding_a11y_calls ++ (code, e.timestamp) ∷ [];
        } in
        ground (
          arith,
          q,
          b,
          associate_loop-reports grants (some g') es,
          append_assoc g.preceding_a11y_calls ((code, e.timestamp) ∷ [])
              (calls_before g.timestamp es),
        )
    | inr b ↦ ground (arith, q, b, associate_loop-reports grants (some g) es)
  ]
]

-- The association is one report for each permission grant, in order, and each report has exactly the
-- accessibility calls between its grant and the next in the list that are less than the window older.
pub associate_events-reports : (es : List Event) → associate_events es ≡ reports es
unfolding associate_events
associate_events-reports es = associate_loop-reports [] none es
