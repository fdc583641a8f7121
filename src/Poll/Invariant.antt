-- ===== src/Poll/Invariant.antt =====
-- What a handler keeps through its operations, it keeps through the loop.
use android_packages_modules.Common.{
  ℕ, zero, suc, ◌+◌, ℤ, pos, to_signed, Option, none, some, List, [], ◌∷◌, Str, list_eq, ◌==◌,
  Outcome, ok, err, panicked, Error, ok_or, int_conversion, inl, inr, Outcome-cases, Option-cases,
  Bool-cases,
}
use android_packages_modules.Effects.{Eff, ◌>>=◌, lift, continue}
use android_packages_modules.Config.Resolved.{ResolvedTask, Duration, as_millis}
use android_packages_modules.Poll.{
  Handler, RingBuffer, Polling, ErrorType, ring_buffer_create_failed, remaining_millis, classify,
  run_handler, reporting, handle_items, poll_round, go_on, poll_rounds, finish, finished, opened,
  poll_loop,
}

-- A property of the handler's state, at whatever outcome.
abbrev pub Keeps : {S A : Type 0} → (S → Type 0) → Option (A × Polling S) → Type 0
Keeps I none = Unit
Keeps I (some (r, s)) = I s.handler

abbrev Preserves : {S A : Type 0} → (S → Type 0) → Eff (Polling S) A → Type 0
Preserves {S} I m = (s : Polling S) → I s.handler → I (m s).1.handler

module _ {S : Type 0} (I : S → Type 0) where
  continue-Keeps :
      {A B : Type 0} (r : Outcome A) (k : A → Eff (Polling S) B) (s : Polling S)
      → ((a : A) → Preserves I (k a))
      → I s.handler
      → I (continue r k s).1.handler
  continue-Keeps (ok a) k s rest p = rest a s p
  continue-Keeps (err e) k s rest p = p
  continue-Keeps panicked k s rest p = p

  -- A sequence preserves what its parts do.
  bind-Preserves :
      {A B : Type 0} (m : Eff (Polling S) A) (k : A → Eff (Polling S) B)
      → Preserves I m
      → ((a : A) → Preserves I (k a))
      → Preserves I (m >>= k)
  bind-Preserves m k first rest s p = continue-Keeps (m s).0 k (m s).1 rest (first s p)

module _ {S T : Type 0} (h : Handler S T) (rb : RingBuffer T) (task : ResolvedTask) (I : S → Type 0)
    (item : (x : T) (s : S) → I s → I (h.on_item task x s).1)
    (last : (s : S) → I s → I (h.on_finished s).1) where
  reporting-Preserves :
      {A : Type 0} (kind : Error → ErrorType × ℤ) (m : Eff (Polling S) A)
      → Preserves I m
      → Preserves I (reporting h rb task kind m)
  reporting-Preserves kind m first s p = elim (Outcome-cases (m s).0) [
    | inl (a, o) ↦ rw (o, reporting) (first s p)
    | inr (inl (e, o)) ↦ rw (o, reporting) (first s p)
    | inr (inr o) ↦ rw (o, reporting) (first s p)
  ]

  handle_items-Preserves : (xs : List T) → Preserves I (handle_items h rb task xs)
  unfolding handle_items
  handle_items-Preserves [] s p = p
  handle_items-Preserves (x ∷ xs) s p =
      bind-Preserves I (reporting h rb task classify (run_handler h rb task (h.on_item task x)))
        (λ _. handle_items h rb task xs)
        (reporting-Preserves classify (run_handler h rb task (h.on_item task x))
          (λ s p. item x s.handler p))
        (λ _. handle_items-Preserves xs) s p

  poll_round-Preserves : (round remaining : ℕ) → Preserves I (poll_round h rb task round remaining)
  unfolding poll_round
  poll_round-Preserves round remaining =
      bind-Preserves I (lift (ok_or (to_signed 31 remaining) int_conversion)) _ (λ s p. p)
        (λ timeout.
          bind-Preserves I _ _ (reporting-Preserves _ (lift (rb.poll round timeout)) (λ s p. p))
            (λ result.
              bind-Preserves I (handle_items h rb task result) _ (handle_items-Preserves result)
                (λ _ s p. p)))

  poll_rounds-Keeps :
      (fuel : ℕ) (duration : Duration) (round total : ℕ) (s : Polling S)
      → I s.handler
      → Keeps I (poll_rounds h rb task fuel duration round total s)
  unfolding poll_rounds
  poll_rounds-Keeps zero duration round total s p = tt
  poll_rounds-Keeps (suc fuel) duration round total s p =
      elim (Option-cases (remaining_millis duration (rb.elapsed_millis round))) [
        | inl q ↦ rw (q, poll_rounds) p
        | inr (remaining, q) ↦
            let r = poll_round h rb task round remaining s in
            let p' = poll_round-Preserves round remaining s p in
            rw (q, poll_rounds)
              (elim (Outcome-cases r.0) [
                | inl (k, o) ↦
                    rw (o, Keeps, go_on)
                      (poll_rounds-Keeps fuel duration (suc round) (total + k) r.1 p')
                | inr (inl (e, o)) ↦ rw (o, Keeps, go_on) p'
                | inr (inr o) ↦ rw (o, Keeps, go_on) p'
              ])
      ]

  finish-Preserves :
      (duration : Duration) (total : ℕ) → Preserves I (finish h rb task duration total)
  unfolding finish
  finish-Preserves duration total =
      bind-Preserves I (run_handler h rb task h.on_finished) _ (λ s p. last s.handler p)
        (λ _.
          bind-Preserves I (lift (ok_or (to_signed 63 (as_millis duration)) int_conversion)) _
            (λ s p. p) (λ millis s p. p))

  finished-Keeps :
      (duration : Duration) (o : Option (Outcome ℕ × Polling S))
      → Keeps I o
      → Keeps I (finished h rb task duration o)
  finished-Keeps duration none p = tt
  finished-Keeps duration (some (r, s)) p =
      continue-Keeps I r (finish h rb task duration) s (finish-Preserves duration) p

  -- Whatever the ring buffer answers and however the loop ends, it keeps what the handler keeps.
  pub poll_loop-Keeps :
      (fuel : ℕ) (path : Str) (duration : Duration) (s : Polling S)
      → I s.handler
      → Keeps I (poll_loop h rb task fuel path duration s)
  unfolding poll_loop
  poll_loop-Keeps fuel path duration s p =
      let created = reporting h rb task (λ e. (ring_buffer_create_failed, pos 0)) (lift rb.new) s in
      let p' =
        reporting-Preserves (λ e. (ring_buffer_create_failed, pos 0)) (lift rb.new) (λ s p. p) s
          p in
      let rounds = poll_rounds h rb task fuel duration 0 0 created.1 in
      elim (Bool-cases (path == h.map_path)) [
        | inl q ↦
            rw (q, poll_loop)
              (elim (Outcome-cases created.0) [
                | inl (u, o) ↦
                    rw (o, Keeps, opened)
                      (finished-Keeps duration rounds
                        (poll_rounds-Keeps fuel duration 0 0 created.1 p'))
                | inr (inl (e, o)) ↦ rw (o, Keeps, opened) p'
                | inr (inr o) ↦ rw (o, Keeps, opened) p'
              ])
        | inr q ↦ rw (q, poll_loop) p
      ]
