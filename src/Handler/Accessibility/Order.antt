-- ===== src/Handler/Accessibility/Order.antt =====
-- The sort before the association, and what it gives for the calls of a report.
use mathlib.Core.List.{Perm}
use mathlib.Core.List.Perm
use android_packages_modules.Common.{
  ℕ, ◌-◌, ◌+◌, ◌≤◌, ◌<◌, ℤ, List, [], ◌∷◌, All, ltb, leb, arith, Bool-cases, inl, inr,
}
use android_packages_modules.Config.Resolved.{Duration}
use android_packages_modules.Handler.Accessibility.{
  Event, AccessibilityRuntimePermissionGrant, a11y_event_window, insert_desc, sort_desc,
  associate_events,
}
use android_packages_modules.Handler.Accessibility.Associate.{
  reports, calls_before, associate_events-reports, EventType-cases,
}

abbrev pub IsDescending : List Event → Type 0
IsDescending [] = Unit
IsDescending (e ∷ es) = All (λ x. x.timestamp ≤ e.timestamp) es × IsDescending es

All-insert_desc :
    (n : ℕ) (e : Event) (xs : List Event)
    → e.timestamp ≤ n
    → All (λ x. x.timestamp ≤ n) xs
    → All (λ x. x.timestamp ≤ n) (insert_desc e xs)
unfolding insert_desc
All-insert_desc n e [] h a = (h, tt)
All-insert_desc n e (x ∷ xs) h a = elim (Bool-cases (leb x.timestamp e.timestamp)) [
  | inl b ↦ rw b (h, a)
  | inr b ↦ rw b (a.0, All-insert_desc n e xs h a.1)
]

All-weaken :
    (m n : ℕ) (xs : List Event)
    → m ≤ n
    → All (λ x. x.timestamp ≤ m) xs
    → All (λ x. x.timestamp ≤ n) xs
All-weaken m n [] h a = tt
All-weaken m n (x ∷ xs) h a = (omega arith, All-weaken m n xs h a.1)

insert_desc-IsDescending :
    (e : Event) (xs : List Event) → IsDescending xs → IsDescending (insert_desc e xs)
unfolding insert_desc
insert_desc-IsDescending e [] d = (tt, tt)
insert_desc-IsDescending e (x ∷ xs) d = elim (Bool-cases (leb x.timestamp e.timestamp)) [
  | inl b ↦
      let le : x.timestamp ≤ e.timestamp = ground arith in
      rw b ((le, All-weaken x.timestamp e.timestamp xs le d.0), d)
  | inr b ↦
      rw b (All-insert_desc x.timestamp e xs (ground arith) d.0, insert_desc-IsDescending e xs d.1)
]

sort_desc-IsDescending : (es : List Event) → IsDescending (sort_desc es)
unfolding sort_desc
sort_desc-IsDescending [] = tt
sort_desc-IsDescending (e ∷ es) =
    insert_desc-IsDescending e (sort_desc es) (sort_desc-IsDescending es)

insert_desc-perm : (e : Event) (xs : List Event) → Perm (insert_desc e xs) (e ∷ xs)
unfolding insert_desc
insert_desc-perm e [] = Perm.refl (e ∷ [])
insert_desc-perm e (x ∷ xs) = elim (Bool-cases (leb x.timestamp e.timestamp)) [
  | inl b ↦ rw b (Perm.refl (e ∷ x ∷ xs))
  | inr b ↦ rw b (Perm.trans (Perm.cons x (insert_desc-perm e xs)) (Perm.swap e x xs))
]

-- The sort keeps the events and puts the newest first.
pub sort_desc-sorts : (es : List Event) → Perm (sort_desc es) es × IsDescending (sort_desc es)
unfolding sort_desc
sort_desc-sorts [] = (Perm.refl [], tt)
sort_desc-sorts (e ∷ es) = (
  Perm.trans (insert_desc-perm e (sort_desc es)) (Perm.cons e (sort_desc-sorts es).0),
  sort_desc-IsDescending (e ∷ es),
)

abbrev InWindow : Duration → ℤ × Duration → Type 0
InWindow granted c = (c.1 ≤ granted) × (granted < c.1 + a11y_event_window)

calls_before-InWindow :
    (granted : Duration) (es : List Event)
    → All (λ x. x.timestamp ≤ granted) es
    → All (InWindow granted) (calls_before granted es)
unfolding calls_before
calls_before-InWindow granted [] a = tt
calls_before-InWindow granted (e ∷ es) a =
    let rest = calls_before-InWindow granted es a.1 in
    elim (EventType-cases e.variant) [
      | inl (name, q) ↦ rw q tt
      | inr (code, q) ↦ elim (Bool-cases (ltb (granted - e.timestamp) a11y_event_window)) [
        | inl b ↦ rw (q, b) ((omega arith, ground (arith, a.0)), rest)
        | inr b ↦ rw (q, b) rest
      ]
    ]

abbrev pub IsTimely : AccessibilityRuntimePermissionGrant → Type 0
IsTimely g = All (InWindow g.timestamp) g.preceding_a11y_calls

reports-IsTimely : (es : List Event) → IsDescending es → All IsTimely (reports es)
unfolding reports
reports-IsTimely [] d = tt
reports-IsTimely (e ∷ es) d = elim (EventType-cases e.variant) [
  | inl (name, q) ↦ rw q (calls_before-InWindow e.timestamp es d.0, reports-IsTimely es d.1)
  | inr (code, q) ↦ rw q (reports-IsTimely es d.1)
]

-- Whatever the order in which the events came, a call is associated with a grant only if it came no
-- later than the grant and less than ten seconds before it.
pub associate_events-IsTimely : (es : List Event) → All IsTimely (associate_events (sort_desc es))
associate_events-IsTimely es =
    rw associate_events-reports (reports-IsTimely (sort_desc es) (sort_desc-IsDescending es))
