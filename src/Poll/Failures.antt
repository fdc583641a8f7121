-- ===== src/Poll/Failures.antt =====
-- What a poll loop that fails reports.
use android_packages_modules.Common.{
  ℕ, zero, suc, ◌+◌, ℤ, pos, to_signed, Option, none, some, List, [], ◌∷◌, Str, list_eq, ◌==◌,
  Outcome, ok, ok_or, err, panicked, Error, reported_to_statsd, int_conversion, ◌≡◌, refl, ap,
  subst, ◌∙◌, arith, ◌⊎◌, inl, inr, Outcome-cases, Option-cases, Bool-cases,
}
use android_packages_modules.Effects.{Eff, ◌>>=◌, lift}
use android_packages_modules.Config.Resolved.{ResolvedTask, Duration}
use android_packages_modules.Poll.{
  Handler, RingBuffer, Polling, Report, ErrorType, internal_error, classify, remaining_millis,
  handle_items, poll_round, poll_rounds, finish, poll_loop, reporting, run_handler, go_on, finished,
  opened, ring_buffer_poll_failed, ring_buffer_create_failed,
}

module _ {S T : Type 0} (h : Handler S T) (rb : RingBuffer T) (task : ResolvedTask) where
  -- One more report, of this task and map.
  abbrev pub OneMore : List Report → List Report → Type 0
  OneMore before after =
      (kind : ErrorType) × (point : ℤ) × (after
        ≡ internal_error kind task.id h.prog_path (some h.map_path) point ∷ before)

  abbrev pub Logs : {A : Type 0} → List Report → Outcome A → List Report → Type 0
  Logs before (ok a) after = after ≡ before
  Logs before (err e) after =
      ((e' : Error) × (e ≡ reported_to_statsd e') × OneMore before after) ⊎ (after ≡ before)
  Logs before panicked after = after ≡ before

  reporting-Logs :
      {A : Type 0} (kind : Error → ErrorType × ℤ) (m : Eff (Polling S) A) (s : Polling S)
      → (m s).1.reports ≡ s.reports
      → Logs s.reports (reporting h rb task kind m s).0 (reporting h rb task kind m s).1.reports
  reporting-Logs kind m s e = elim (Outcome-cases (m s).0) [
    | inl (a, o) ↦ rw (o, Logs, reporting) e
    | inr (inl (x, o)) ↦
        rw (o, Logs, reporting)
          (inl (
            x,
            refl,
            (
              (kind x).0,
              (kind x).1,
              ap (◌∷◌ (internal_error (kind x).0 task.id h.prog_path (some h.map_path) (kind x).1))
                  e,
            ),
          ))
    | inr (inr o) ↦ rw (o, Logs, reporting) e
  ]

  then-Logs :
      {A B : Type 0} (m : Eff (Polling S) A) (f : A → Eff (Polling S) B) (s : Polling S)
      → Logs s.reports (m s).0 (m s).1.reports
      → ((a : A) (t : Polling S) → Logs t.reports (f a t).0 (f a t).1.reports)
      → Logs s.reports ((m >>= f) s).0 ((m >>= f) s).1.reports
  then-Logs m f s hm hf = elim (Outcome-cases (m s).0) [
    | inl (a, o) ↦ rw o (
        subst (λ l. Logs l (f a (m s).1).0 (f a (m s).1).1.reports) (rw (o, Logs) at hm)
          (hf a (m s).1))
    | inr (inl (x, o)) ↦ rw o (rw (o, Logs) at hm)
    | inr (inr o) ↦ rw o (rw (o, Logs) at hm)
  ]

  handle_items-Logs :
      (xs : List T) (s : Polling S)
      → Logs s.reports (handle_items h rb task xs s).0 (handle_items h rb task xs s).1.reports
  unfolding handle_items
  handle_items-Logs [] s = refl
  handle_items-Logs (x ∷ xs) s =
      then-Logs (reporting h rb task classify (run_handler h rb task (h.on_item task x)))
        (λ u. handle_items h rb task xs) s
        (reporting-Logs classify (run_handler h rb task (h.on_item task x)) s refl)
        (λ u t. handle_items-Logs xs t)

  timeout-Logs :
      (remaining : ℕ) (s : Polling S)
      → Logs s.reports (ok_or (to_signed 31 remaining) int_conversion) s.reports
  timeout-Logs remaining s = elim (Option-cases (to_signed 31 remaining)) [
    | inl q ↦ rw q (inr refl)
    | inr (t, q) ↦ rw q refl
  ]

  poll_round-Logs :
      (round remaining : ℕ) (s : Polling S)
      → Logs s.reports
          (poll_round h rb task round remaining s).0
          (poll_round h rb task round remaining s).1.reports
  unfolding poll_round
  poll_round-Logs round remaining s =
      then-Logs (lift (ok_or (to_signed 31 remaining) int_conversion)) _ s
        (timeout-Logs remaining s)
        (λ timeout t.
          then-Logs
            (reporting h rb task (λ e. (ring_buffer_poll_failed, pos 0))
              (lift (rb.poll round timeout)))
            _ t
            (reporting-Logs (λ e. (ring_buffer_poll_failed, pos 0)) (lift (rb.poll round timeout)) t
              refl)
            (λ result t'.
              then-Logs (handle_items h rb task result) _ t' (handle_items-Logs result t')
                (λ u t''. refl)))

  abbrev LogsIn : {A : Type 0} → List Report → Option (Outcome A × Polling S) → Type 0
  LogsIn before none = Unit
  LogsIn before (some (r, t)) = Logs before r t.reports

  go_on-Logs :
      (rest : ℕ → Polling S → Option (Outcome ℕ × Polling S)) (r : Outcome ℕ × Polling S)
      (before : List Report)
      → Logs before r.0 r.1.reports
      → ((n : ℕ) (t : Polling S) → LogsIn t.reports (rest n t))
      → LogsIn before (go_on h rb task rest r)
  go_on-Logs rest (ok n, t) before hm hf = subst (λ l. LogsIn l (rest n t)) hm (hf n t)
  go_on-Logs rest (err e, t) before hm hf = hm
  go_on-Logs rest (panicked, t) before hm hf = hm

  poll_rounds-Logs :
      (fuel : ℕ) (duration : Duration) (round total : ℕ) (s : Polling S)
      → LogsIn s.reports (poll_rounds h rb task fuel duration round total s)
  unfolding poll_rounds
  poll_rounds-Logs zero duration round total s = tt
  poll_rounds-Logs (suc fuel) duration round total s =
      elim (Option-cases (remaining_millis duration (rb.elapsed_millis round))) [
        | inl q ↦ rw (q, LogsIn) refl
        | inr (remaining, q) ↦
            rw (q, LogsIn)
              (go_on-Logs (λ n. poll_rounds h rb task fuel duration (suc round) (total + n))
                (poll_round h rb task round remaining s) s.reports
                (poll_round-Logs round remaining s)
                (λ n t. poll_rounds-Logs fuel duration (suc round) (total + n) t))
      ]

  finish_err :
      (duration : Duration) (total : ℕ) (s s' : Polling S) (e : Error)
      → finish h rb task duration total s ≡ (err e, s')
      → s'.reports ≡ s.reports
  unfolding finish
  finish_err duration total s s' e q = ground (arith, q)

  finished_err :
      (duration : Duration) (o : Option (Outcome ℕ × Polling S)) (before : List Report)
      (s' : Polling S) (e : Error)
      → LogsIn before o
      → finished h rb task duration o ≡ some (err e, s')
      → Logs {A = Unit {0}} before (err e) s'.reports
  finished_err duration none before s' e l q = absurd (cc q)
  finished_err duration (some (ok n, t)) before s' e l q =
      inr (finish_err duration n t s' e (cc q) ∙ l)
  finished_err duration (some (err x, t)) before s' e l q = ground (arith, l, q)
  finished_err duration (some (panicked, t)) before s' e l q = absurd (cc q)

  opened_err :
      (r : Outcome (Unit {0}) × Polling S) (rest : Option (Outcome (Unit {0}) × Polling S))
      → (before : List Report) (s' : Polling S) (e : Error) → Logs before r.0 r.1.reports
      → (rest ≡ some (err e, s') → Logs {A = Unit {0}} r.1.reports (err e) s'.reports)
      → opened h rb task r rest ≡ some (err e, s')
      → Logs {A = Unit {0}} before (err e) s'.reports
  opened_err (ok u, t) rest before s' e hm hf q =
      subst (λ l. Logs {A = Unit {0}} l (err e) s'.reports) hm (hf q)
  opened_err (err x, t) rest before s' e hm hf q = ground (arith, hm, q)
  opened_err (panicked, t) rest before s' e hm hf q = absurd (cc q)

-- A poll loop that fails either ends in an error marked as reported, with exactly one new report, of
-- its task, program and map; or it has written no report.
pub poll_loop-Logs :
    {S T : Type 0} (h : Handler S T) (rb : RingBuffer T) (task : ResolvedTask)
    → (fuel : ℕ) (path : Str) (duration : Duration) (s s' : Polling S) (e : Error)
    → poll_loop h rb task fuel path duration s ≡ some (err e, s')
    → Logs h rb task {A = Unit {0}} s.reports (err e) s'.reports
unfolding poll_loop
poll_loop-Logs h rb task fuel path duration s s' e q =
    let created = reporting h rb task (λ e. (ring_buffer_create_failed, pos 0)) (lift rb.new) s in
    let rounds = poll_rounds h rb task fuel duration 0 0 created.1 in
    elim (Bool-cases (path == h.map_path)) [
      | inl b ↦
          opened_err h rb task created (finished h rb task duration rounds) s.reports s' e
            (reporting-Logs h rb task (λ e. (ring_buffer_create_failed, pos 0)) (lift rb.new) s
              refl)
            (finished_err h rb task duration rounds created.1.reports s' e
              (poll_rounds-Logs h rb task fuel duration 0 0 created.1))
            (rw b at q)
      | inr b ↦ inr (ground (arith, rw b at q))
    ]
