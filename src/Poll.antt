-- ===== src/Poll.antt =====
-- The loop that polls one map with its handler: `poll_loop_generic` of daemon/android/bpf_handler.rs
-- and `remaining_millis` of daemon/core/timer.rs. The ring buffer and the clock are parameters, read
-- once in each round.
pub mod Ends
pub mod Handled
pub mod Failures
pub mod Invariant
pub mod Registry
mod Tests
use android_packages_modules.Common.{
  ℕ, zero, suc, ◌+◌, ◌-◌, ltb, leb, ℤ, pos, to_signed, Bool, true, false, not, Option, none, some,
  List, [], ◌∷◌, length, Str, list_eq, ◌==◌, Outcome, ok, err, panicked, Error, bpf_program_error,
  bpf_data_invalid, reported_to_statsd, other, ok_or, int_conversion, map_path_mismatch,
  if◌then◌else◌,
}
use android_packages_modules.Effects.{Eff, ◌>>=◌, ◌>>◌, pure, lift, raise, continue}
use android_packages_modules.Config.Resolved.{ResolvedTask, Duration, as_millis}

-- `Handler`, at a state `S` that has the handler and what it calls.
pub record Handler (S T : Type 0) : Type 0 where
  pub map_path : Str
  pub prog_path : Option Str
  pub on_item : ResolvedTask → T → Eff S (Unit {0})
  pub on_finished : Eff S (Unit {0})

-- `BpfRingBuffer`, and the timer's milliseconds since its start, by the number of the round.
pub record RingBuffer (T : Type 0) : Type 0 where
  pub new : Outcome (Unit {0})
  pub poll : ℕ → ℤ → Outcome (List T)
  pub elapsed_millis : ℕ → ℕ

pub data ErrorType : Type 0 where
  ring_buffer_create_failed ring_buffer_poll_failed bpf_program_failed : ErrorType
  ring_buffer_data_invalid task_execution_failed bpf_program_attach_failed : ErrorType
  binder_filter_setup_failed binder_filter_cleanup_failed : ErrorType
  config_parse_failed task_conflict : ErrorType

-- What the loop and the execution of a task write to statsd. The paths are written as enums.
pub data Report : Type 0 where
  internal_error : ErrorType → ℤ → Option Str → Option Str → ℤ → Report
  map_polled : Str → ℤ → ℕ → ℤ → Report
  bpf_attached : Str → Str → Str → Str → ℤ → Report

pub record Polling (S : Type 0) : Type 0 where
  pub handler : S
  pub reports : List Report

-- `Timer::remaining_millis`
unfoldable pub remaining_millis : Duration → ℕ → Option ℕ
remaining_millis duration elapsed =
    if leb elapsed (as_millis duration) then some (as_millis duration - elapsed) else none

-- The error type and the failure point of an error of `on_item`.
unfoldable pub classify : Error → ErrorType × ℤ
classify (bpf_program_error point) = (bpf_program_failed, point)
classify (bpf_data_invalid point) = (ring_buffer_data_invalid, point)
classify _ = (task_execution_failed, pos 0)

module _ {S T : Type 0} (h : Handler S T) (rb : RingBuffer T) (task : ResolvedTask) where
  abbrev pub run_handler : Eff S (Unit {0}) → Eff (Polling S) (Unit {0})
  run_handler m s = let r = m s.handler in (r.0, record s { handler = r.1 })

  -- `map_err` with a report: the error is marked as reported.
  abbrev pub reporting :
      {A : Type 0} → (Error → ErrorType × ℤ) → Eff (Polling S) A → Eff (Polling S) A
  reporting kind m s =
      let r = m s in
      elim r.0 [
        | ok a ↦ (ok a, r.1)
        | err e ↦ (
          err (reported_to_statsd e),
          record r.1 {
            reports =
                internal_error (kind e).0 task.id h.prog_path (some h.map_path) (kind e).1
                ∷ r.1.reports;
          },
        )
        | panicked ↦ (panicked, r.1)
      ]

  -- `for i in &result`
  unfoldable pub handle_items : List T → Eff (Polling S) (Unit {0})
  unfolding classify
  handle_items [] = pure tt
  handle_items (i ∷ is) = reporting classify (run_handler (h.on_item task i)) >> handle_items is

  -- The body of the loop, from the remaining time on; the result is the number of items.
  unfoldable pub poll_round : ℕ → ℕ → Eff (Polling S) ℕ
  unfolding handle_items
  poll_round round remaining = do
    timeout ← lift (ok_or (to_signed 31 remaining) int_conversion)
    result ← reporting (λ e. (ring_buffer_poll_failed, pos 0)) (lift (rb.poll round timeout))
    handle_items result
    pure (length result)

  abbrev go_on :
      (ℕ → Polling S → Option (Outcome ℕ × Polling S))
      → Outcome ℕ × Polling S
      → Option (Outcome ℕ × Polling S)
  go_on rest (ok n, s) = rest n s
  go_on rest (err e, s) = some (err e, s)
  go_on rest (panicked, s) = some (panicked, s)

  -- The `while let` loop with the events counted so far; `none` is fuel that ran out.
  unfoldable pub poll_rounds : ℕ → Duration → ℕ → ℕ → Polling S → Option (Outcome ℕ × Polling S)
  unfolding remaining_millis poll_round
  poll_rounds zero duration round total s = none
  poll_rounds (suc fuel) duration round total s =
      elim (remaining_millis duration (rb.elapsed_millis round)) [
        | none ↦ some (ok total, s)
        | some remaining ↦
            go_on (λ n. poll_rounds fuel duration (suc round) (total + n))
              (poll_round round remaining s)
      ]

  -- What follows the loop.
  unfoldable pub finish : Duration → ℕ → Eff (Polling S) (Unit {0})
  finish duration total = do
    run_handler h.on_finished
    millis ← lift (ok_or (to_signed 63 (as_millis duration)) int_conversion)
    λ s. (ok tt, record s { reports = map_polled h.map_path millis total task.id ∷ s.reports })

  abbrev finished :
      Duration → Option (Outcome ℕ × Polling S) → Option (Outcome (Unit {0}) × Polling S)
  finished duration none = none
  finished duration (some (r, s)) = some (continue r (finish duration) s)

  abbrev opened :
      Outcome (Unit {0}) × Polling S
      → Option (Outcome (Unit {0}) × Polling S)
      → Option (Outcome (Unit {0}) × Polling S)
  opened (ok u, s) rest = rest
  opened (err e, s) rest = some (err e, s)
  opened (panicked, s) rest = some (panicked, s)

  -- `poll_loop_generic`, from the handler's default state on.
  unfoldable pub poll_loop :
      ℕ → Str → Duration → Polling S → Option (Outcome (Unit {0}) × Polling S)
  unfolding poll_rounds finish
  poll_loop fuel map_path duration s =
      if not (map_path == h.map_path)
      then some (err (other map_path_mismatch), s)
      else (let created = reporting (λ e. (ring_buffer_create_failed, pos 0)) (lift rb.new) s in
          opened created (finished duration (poll_rounds fuel duration 0 0 created.1)))
