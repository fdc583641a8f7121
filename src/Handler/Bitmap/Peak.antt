-- ===== src/Handler/Bitmap/Peak.antt =====
-- The largest total that version 1 of the bitmap handler has seen, and the snapshot taken there.
use android_packages_modules.Common.{
  ℤ, pos, ◌≤ℤ◌, to_signed, -ℤ_parts, List, [], ◌∷◌, All, Any, values, Outcome, ok, err, panicked,
  Outcome-cases, ◌≡◌, refl, sym, subst, arith, ◌⊎◌, inl, inr,
}
use android_packages_modules.Effects.{for_each}
use android_packages_modules.Config.Resolved.{ResolvedTask}
use android_packages_modules.Handler.World.{World, Local}
use android_packages_modules.Handler.Bitmap.{
  BitmapEvent, BitmapAllocationHandlerV1, default_v1, take_peak, checked, on_allocation,
  on_deallocation, on_activity_start, on_scaled, on_item_v1,
}

abbrev V1 : Type 0
V1 = BitmapAllocationHandlerV1

abbrev Within : V1 → Type 0
Within h = h.current_total_bitmap_size ≤ℤ h.max_total_bitmap_size

-- The maximum and its snapshot are those of `v`.
abbrev pub TakenAt : V1 → V1 → Type 0
TakenAt h v =
    (h.max_total_bitmap_size ≡ v.current_total_bitmap_size)
    × (h.bitmap_snapshot_at_max_size ≡ values v.bitmaps)

abbrev pub SamePeak : V1 → V1 → Type 0
SamePeak h v =
    (h.max_total_bitmap_size ≡ v.max_total_bitmap_size)
    × (h.bitmap_snapshot_at_max_size ≡ v.bitmap_snapshot_at_max_size)

-- What one event may do to the maximum.
abbrev Advances : V1 → V1 → Type 0
Advances h h' =
    Within h'
    × (h.max_total_bitmap_size ≤ℤ h'.max_total_bitmap_size)
    × (SamePeak h' h ⊎ TakenAt h' h')

take_peak-Advances : (total : ℤ) (h h' : V1) → SamePeak h' h → Advances h (take_peak total h')
unfolding take_peak
take_peak-Advances total h h' same = ground arith

abbrev Peak : V1 → V1 → List V1 → Type 0
Peak h f vs =
    (h.max_total_bitmap_size ≤ℤ f.max_total_bitmap_size)
    × All (λ v. v.current_total_bitmap_size ≤ℤ f.max_total_bitmap_size) vs
    × (SamePeak f h ⊎ Any (TakenAt f) vs)

Peak-step : (h h' f : V1) (vs : List V1) → Advances h h' → Peak h' f vs → Peak h f (h' ∷ vs)
Peak-step h h' f vs a p = ground (arith, a, p)

Peak-last : (h h' : V1) → Advances h h' → Peak h h' (h' ∷ [])
Peak-last h h' a = ground (arith, a)

module _ (w : World) (task : ResolvedTask) where
  on_allocation-Advances :
      (e : BitmapEvent) (s : Local V1)
      → Within s.own
      → Advances s.own (on_allocation w task e s).1.own
  unfolding on_allocation take_peak
  on_allocation-Advances e s h = ground arith

  on_deallocation-Advances :
      (e : BitmapEvent) (s : Local V1) → Within s.own → Advances s.own (on_deallocation e s).1.own
  unfolding on_deallocation checked to_signed
  on_deallocation-Advances e s h =
      ground (arith, -ℤ_parts s.own.current_total_bitmap_size (pos e.bitmap_size))

  on_item-Advances :
      (e : BitmapEvent) (s : Local V1) → Within s.own → Advances s.own (on_item_v1 w task e s).1.own
  unfolding on_item_v1 on_activity_start on_scaled
  on_item-Advances e s h =
      ground (arith, on_allocation-Advances e s h, on_deallocation-Advances e s h)

  unfoldable pub finally : List BitmapEvent → Local V1 → V1
  unfolding for_each
  finally es s = (for_each (on_item_v1 w task) es s).1.own

  abbrev went_on : Outcome (Unit {0}) → List V1 → List V1
  went_on (ok u) later = later
  went_on (err e) later = []
  went_on panicked later = []

  -- The states after each event that the handler takes; it takes none after one that fails.
  unfoldable pub after : List BitmapEvent → Local V1 → List V1
  after [] s = []
  after (e ∷ es) s = let r = on_item_v1 w task e s in r.1.own ∷ went_on r.0 (after es r.1)

  finally-nil : (s : Local V1) → finally [] s ≡ s.own
  unfolding finally for_each
  finally-nil s = refl

  finally-cons :
      (e : BitmapEvent) (es : List BitmapEvent) (s : Local V1)
      → finally (e ∷ es) s ≡ (
          let r = on_item_v1 w task e s in
          elim r.0 [ ok u ↦ finally es r.1 | err x ↦ r.1.own | panicked ↦ r.1.own ])
  unfolding finally for_each
  finally-cons e es s = ground (arith)

  after-Peak :
      (es : List BitmapEvent) (s : Local V1) → Within s.own → Peak s.own (finally es s) (after es s)
  unfolding after
  after-Peak [] s h = rw (finally-nil s) (ground arith)
  after-Peak (e ∷ es) s h =
      let r = on_item_v1 w task e s in
      let a = on_item-Advances e s h in
      let goal : V1 → Type 0 = λ f. Peak s.own f (after (e ∷ es) s) in
      let cons = finally-cons e es s in
      elim (Outcome-cases r.0) [
        | inl (u, q) ↦ subst goal {x = finally es r.1} (rw q at (sym cons)) (
            rw q
              (Peak-step s.own r.1.own (finally es r.1) (after es r.1) a (after-Peak es r.1 a.0)))
        | inr (inl (x, q)) ↦
            subst goal {x = r.1.own} (rw q at (sym cons)) (rw q (Peak-last s.own r.1.own a))
        | inr (inr q) ↦
            subst goal {x = r.1.own} (rw q at (sym cons)) (rw q (Peak-last s.own r.1.own a))
      ]

-- A new handler takes events up to the first that fails. The maximum it ends with is at least the total
-- after each of them, and is either the initial 0 with an empty snapshot or the total after one of them,
-- whose live bitmaps are then the snapshot.
pub finally-peak :
    (w : World) (task : ResolvedTask) (es : List BitmapEvent) (s : Local V1)
    → s.own ≡ default_v1
    → All
        (λ v. v.current_total_bitmap_size ≤ℤ (finally w task es s).max_total_bitmap_size)
        (after w task es s)
      × (SamePeak (finally w task es s) default_v1
          ⊎ Any (TakenAt (finally w task es s)) (after w task es s))
finally-peak w task es s h =
    let p = after-Peak w task es s (rw h (ground arith)) in
    (
      p.1,
      subst
          (λ v.
            SamePeak (finally w task es s) v
            ⊎ Any (TakenAt (finally w task es s)) (after w task es s))
          h p.2,
    )
