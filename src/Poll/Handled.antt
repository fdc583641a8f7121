-- ===== src/Poll/Handled.antt =====
-- What a poll loop that succeeds has done.
use android_packages_modules.Common.{
  ℕ, zero, suc, ◌+◌, pos, to_signed, Option, none, some, List, [], ◌∷◌, ◌++◌, length, length-append,
  Str, list_eq, list_beq_iff, Outcome, ok, err, panicked, ◌≡◌, refl, ap, ◌∙◌, arith, inl, inr,
  Outcome-cases, Option-cases,
}
use android_packages_modules.Effects.{Eff, for_each}
use android_packages_modules.Config.Resolved.{ResolvedTask, Duration, as_millis}
use android_packages_modules.Poll.{
  Handler, RingBuffer, Polling, map_polled, remaining_millis, handle_items, poll_round, poll_rounds,
  finish, poll_loop, reporting, go_on, finished,
}

abbrev pub answer : {T : Type 0} → Outcome (List T) → List T
answer (ok xs) = xs
answer (err e) = []
answer panicked = []

for_each-append :
    {S A : Type 0} (f : A → Eff S (Unit {0})) (xs ys : List A) (s t : S)
    → for_each f xs s ≡ (ok tt, t)
    → for_each f (xs ++ ys) s ≡ for_each f ys t
unfolding for_each
for_each-append f [] ys s t e = ap (for_each f ys) (ap (λ r. r.1) e)
for_each-append f (x ∷ xs) ys s t e = elim (Outcome-cases (f x s).0) [
  | inl (u, o) ↦ rw o (for_each-append f xs ys (f x s).1 t (rw o at e))
  | inr (inl (x', o)) ↦ absurd (cc (rw o at e))
  | inr (inr o) ↦ absurd (cc (rw o at e))
]

module _ {S T : Type 0} (h : Handler S T) (rb : RingBuffer T) (task : ResolvedTask) where
  -- The items of all rounds until the timer has run out, in order.
  unfoldable pub received : ℕ → Duration → ℕ → List T
  received zero duration round = []
  received (suc fuel) duration round =
      let later = received fuel duration (suc round) in
      elim (remaining_millis duration (rb.elapsed_millis round)) [
        | none ↦ []
        | some remaining ↦ answer (rb.poll round (pos remaining)) ++ later
      ]

  handle_items-for_each :
      (xs : List T) (s s' : Polling S)
      → handle_items h rb task xs s ≡ (ok tt, s')
      → (for_each (h.on_item task) xs s.handler ≡ (ok tt, s'.handler)) × (s'.reports ≡ s.reports)
  unfolding handle_items for_each
  handle_items-for_each [] s s' e = ground arith
  handle_items-for_each (x ∷ xs) s s' e =
      let r = h.on_item task x s.handler in
      elim (Outcome-cases r.0) [
        | inl (u, o) ↦
            rw o (handle_items-for_each xs (record s { handler = r.1 }) s' (rw (o, reporting) at e))
        | inr (inl (x', o)) ↦ cc (rw (o, reporting) at e)
        | inr (inr o) ↦ cc (rw (o, reporting) at e)
      ]

  poll_round-for_each :
      (round remaining n : ℕ) (s s' : Polling S)
      → poll_round h rb task round remaining s ≡ (ok n, s')
      → let xs = answer (rb.poll round (pos remaining)) in
        (for_each (h.on_item task) xs s.handler ≡ (ok tt, s'.handler))
        × (s'.reports ≡ s.reports)
        × (n ≡ length xs)
  unfolding poll_round to_signed
  poll_round-for_each round remaining n s s' e =
      ground (arith, e, handle_items-for_each (answer (rb.poll round (pos remaining))) s s')

  received_last :
      (fuel round : ℕ) (duration : Duration)
      → remaining_millis duration (rb.elapsed_millis round) ≡ none
      → received (suc fuel) duration round ≡ []
  unfolding received
  received_last fuel round duration q = rw (q, received) refl

  received_more :
      (fuel round remaining : ℕ) (duration : Duration)
      → remaining_millis duration (rb.elapsed_millis round) ≡ some remaining
      → received (suc fuel) duration round
        ≡ answer (rb.poll round (pos remaining)) ++ received fuel duration (suc round)
  unfolding received
  received_more fuel round remaining duration q = rw (q, received) refl

  poll_rounds-for_each :
      (fuel : ℕ) (duration : Duration) (round total n : ℕ) (s s' : Polling S)
      → poll_rounds h rb task fuel duration round total s ≡ some (ok n, s')
      → let xs = received fuel duration round in
        (for_each (h.on_item task) xs s.handler ≡ (ok tt, s'.handler))
        × (s'.reports ≡ s.reports)
        × (n ≡ total + length xs)
  unfolding poll_rounds for_each
  poll_rounds-for_each zero duration round total n s s' e = ground (arith, e)
  poll_rounds-for_each (suc fuel) duration round total n s s' e =
      elim (Option-cases (remaining_millis duration (rb.elapsed_millis round))) [
        | inl q ↦
            rw (received_last fuel round duration q) (ground (arith, rw (q, poll_rounds) at e))
        | inr (remaining, q) ↦ rw (received_more fuel round remaining duration q) (
            let r = poll_round h rb task round remaining s in
            elim (Outcome-cases r.0) [
              | inl (k, o) ↦
                  (let (e1, p1, l1) =
                      poll_round-for_each round remaining k s r.1 (ap (λ x. (x, r.1)) o) in
                    let (e2, p2, l2) =
                      poll_rounds-for_each fuel duration (suc round) (total + k) n r.1 s'
                        (rw (o, go_on) at (rw (q, poll_rounds) at e)) in
                    (
                      for_each-append (h.on_item task) (answer (rb.poll round (pos remaining)))
                            (received fuel duration (suc round)) s.handler r.1.handler e1
                          ∙ e2,
                      p2 ∙ p1,
                      omega (
                        arith,
                        l1,
                        l2,
                        length-append (answer (rb.poll round (pos remaining)))
                            (received fuel duration (suc round)),
                      ),
                    ))
              | inr (inl (x, o)) ↦ absurd (cc (rw (o, go_on) at (rw (q, poll_rounds) at e)))
              | inr (inr o) ↦ absurd (cc (rw (o, go_on) at (rw (q, poll_rounds) at e)))
            ])
      ]

  finish_lem :
      (duration : Duration) (total : ℕ) (s s' : Polling S)
      → finish h rb task duration total s ≡ (ok tt, s')
      → (h.on_finished s.handler ≡ (ok tt, s'.handler))
        × (s'.reports ≡ map_polled h.map_path (pos (as_millis duration)) total task.id ∷ s.reports)
  unfolding finish to_signed
  finish_lem duration total s s' e = ground (arith, e)

  abbrev pub Completes : ℕ → Duration → Polling S → Polling S → Type 0
  Completes fuel duration s s' =
      (t : S) × (for_each (h.on_item task) (received fuel duration 0) s.handler ≡ (ok tt, t))
      × (h.on_finished t ≡ (ok tt, s'.handler))
      × (s'.reports
          ≡ map_polled h.map_path (pos (as_millis duration)) (length (received fuel duration 0))
              task.id
            ∷ s.reports)

  finished_lem :
      (duration : Duration) (o : Option (Outcome ℕ × Polling S)) (s' : Polling S)
      → finished h rb task duration o ≡ some (ok tt, s')
      → (n : ℕ) × (t : Polling S) × (o ≡ some (ok n, t))
        × (finish h rb task duration n t ≡ (ok tt, s'))
  finished_lem duration none s' e = cc
  finished_lem duration (some (ok n, t)) s' e = (n, t, refl, cc e)
  finished_lem duration (some (err x, t)) s' e = cc
  finished_lem duration (some (panicked, t)) s' e = cc

  finished-Completes :
      (fuel : ℕ) (duration : Duration) (s s' : Polling S)
      → finished h rb task duration (poll_rounds h rb task fuel duration 0 0 s) ≡ some (ok tt, s')
      → Completes fuel duration s s'
  finished-Completes fuel duration s s' e =
      let (n, t, q, f) = finished_lem duration (poll_rounds h rb task fuel duration 0 0 s) s' e in
      let (e1, p1, l1) = poll_rounds-for_each fuel duration 0 0 n s t q in
      let (e2, p2) = finish_lem duration n t s' f in (t.handler, e1, e2, ground (arith, p1, l1, p2))

-- A poll loop that succeeds was given the handler's own map; it has handled every item of every round,
-- in order and once, up to the round in which the timer ran out, then finished the handler, and it has
-- written one report, with the number of those items.
pub poll_loop-Completes :
    {S T : Type 0} (h : Handler S T) (rb : RingBuffer T) (task : ResolvedTask)
    → (fuel : ℕ) (path : Str) (duration : Duration) (s s' : Polling S)
    → poll_loop h rb task fuel path duration s ≡ some (ok tt, s')
    → (path ≡ h.map_path) × Completes h rb task fuel duration s s'
unfolding poll_loop
poll_loop-Completes h rb task fuel path duration s s' e =
    let c = finished-Completes h rb task fuel duration s s' in
    (ground (arith, e, list_beq_iff path h.map_path), c (ground (arith, e)))
