-- ===== src/Handler/Accessibility/Store.antt =====
-- What the accessibility handler keeps between events.
use android_packages_modules.Common.{
  ℕ, ◌<◌, ◌^◌, ℤ, Option, none, some, List, [], ◌∷◌, ◌++◌, All, All-append, lookup, insert, int_eq,
  Outcome, ok, err, panicked, ◌≡◌, sym, subst, arith, Outcome-cases, inl, inr,
}
use android_packages_modules.Effects.{for_each, continue}
use android_packages_modules.Handler.World.{World, Local}
use android_packages_modules.Handler.Accessibility.{
  Event, AccessibilityEvent, AccessibilityHandler, or_default, store, push_event, handle_event,
  handle_a11y_event, handle_permission_grant_event, on_item,
}
use android_packages_modules.Handler.Accessibility.Finish.{IsTimed, AreTimed}

lookup-AreTimed :
    (uid : ℤ) (m : List (ℤ × List Event)) → AreTimed m → All IsTimed (or_default (lookup uid m))
unfolding lookup
lookup-AreTimed uid [] h = tt
lookup-AreTimed uid ((u, es) ∷ m) h = ground (arith, lookup-AreTimed uid m h.1)

insert-AreTimed :
    (uid : ℤ) (es : List Event) (m : List (ℤ × List Event))
    → AreTimed m
    → All IsTimed es
    → AreTimed (insert uid es m)
unfolding insert
insert-AreTimed uid es [] h hs = (hs, tt)
insert-AreTimed uid es ((u, fs) ∷ m) h hs = ground (arith, insert-AreTimed uid es m h.1 hs)

-- An event that comes out of `handle_event` has the time of its data.
abbrev TimeOf : ℕ → Outcome (Option Event) → Type 0
TimeOf t (ok (some e)) = e.timestamp ≡ t
TimeOf t _ = Unit

handle_event-time :
    {H : Type 0} (w : World) (d : AccessibilityEvent) (s : Local H)
    → TimeOf d.timestamp_ns (handle_event w d s).0
unfolding handle_event handle_a11y_event handle_permission_grant_event
handle_event-time w d s = ground arith

handle_event-own :
    {H : Type 0} (w : World) (d : AccessibilityEvent) (s : Local H)
    → (handle_event w d s).1.own ≡ s.own
unfolding handle_event handle_a11y_event handle_permission_grant_event
handle_event-own w d s = ground arith

push_event-AreTimed :
    (e : Event) (h : AccessibilityHandler)
    → IsTimed e
    → AreTimed h.events
    → AreTimed (push_event e h).events
unfolding push_event
push_event-AreTimed e h t ts =
    insert-AreTimed e.uid (or_default (lookup e.uid h.events) ++ e ∷ []) h.events ts (
      All-append IsTimed (or_default (lookup e.uid h.events)) (e ∷ [])
        (lookup-AreTimed e.uid h.events ts) (t, tt))

store-AreTimed :
    (o : Outcome (Option Event)) (t : ℕ) (s : Local AccessibilityHandler)
    → t < 2 ^ 64
    → TimeOf t o
    → AreTimed s.own.events
    → AreTimed (continue o store s).1.own.events
store-AreTimed (ok none) t s ht h ts = ts
store-AreTimed (ok (some e)) t s ht h ts = push_event-AreTimed e s.own (rw h ht) ts
store-AreTimed (err x) t s ht h ts = ts
store-AreTimed panicked t s ht h ts = ts

on_item-AreTimed :
    (w : World) (d : AccessibilityEvent) (s : Local AccessibilityHandler)
    → d.timestamp_ns < 2 ^ 64
    → AreTimed s.own.events
    → AreTimed (on_item w d s).1.own.events
unfolding on_item
on_item-AreTimed w d s ht ts =
    let r = handle_event w d s in
    let h =
      store-AreTimed r.0 d.timestamp_ns r.1 ht (handle_event-time w d s)
        (subst (λ h. AreTimed h.events) (sym (handle_event-own w d s)) ts) in
    ground (arith, h, ts)

-- However the events turn out, a handler with u64 timestamps only that takes events of u64 timestamps,
-- up to the first that fails, ends with u64 timestamps only.
pub run-AreTimed :
    (w : World) (ds : List AccessibilityEvent) (s : Local AccessibilityHandler)
    → All (λ d. d.timestamp_ns < 2 ^ 64) ds
    → AreTimed s.own.events
    → AreTimed (for_each (on_item w) ds s).1.own.events
unfolding for_each
run-AreTimed w [] s hs ts = ts
run-AreTimed w (d ∷ ds) s hs ts =
    let r = on_item w d s in
    let h = on_item-AreTimed w d s hs.0 ts in
    elim (Outcome-cases r.0) [
      | inl (u, q) ↦ rw q (run-AreTimed w ds r.1 hs.1 h)
      | inr (inl (x, q)) ↦ rw q h
      | inr (inr q) ↦ rw q h
    ]
