-- ===== src/Resolver/Offsets/Retry.antt =====
-- How often the manager is asked, how long the thread sleeps, and which answer is taken.
use android_packages_modules.Common.{
  ℕ, zero, suc, ◌+◌, ◌*◌, ◌≤◌, ◌<◌, int_beq_iff, Bool, true, false, Option, none, some, List, [],
  ◌∷◌, ◌≢◌, length, ok, err, other, retries_exhausted, ◌≡◌, refl, arith, Option-cases, inl, inr,
}
use android_packages_modules.Config.Resolved.{Duration}
use android_packages_modules.Resolver.Manager.{Binder, BinderResult, answered, failed, Instance}
use android_packages_modules.Resolver.Offsets.{
  Answer, from_millis, give_up, attempt, retry_loop, get_executable_method_file_offsets_with_retry,
}

abbrev pub total : List Duration → ℕ
total [] = 0
total (d ∷ ds) = d + total ds

-- What the sleeps of a loop with this fuel can add up to.
abbrev budget : ℕ → Duration → ℕ
budget zero backoff = 0
budget (suc zero) backoff = 0
budget (suc (suc n)) backoff = backoff + budget (suc n) (backoff * 2)

abbrev Within : ℕ → ℕ → Option (Answer × List Duration) → Type 0
Within count time none = ⊥
Within count time (some (answer, slept)) = (length slept ≤ count) × (total slept ≤ time)

-- The loop has ended, with at most five sleeps of at most 310 ms in all.
abbrev pub IsBounded : Option (Answer × List Duration) → Type 0
IsBounded r = Within 5 (from_millis 310) r

-- The sleeps before attempt `n`, with the first one given, on top of earlier ones.
abbrev pub pauses : ℕ → Duration → List Duration → List Duration
pauses zero backoff slept = slept
pauses (suc n) backoff slept = pauses n (backoff * 2) (backoff ∷ slept)

module _ (b : Binder) where
  -- The status of a process that is not ready: the manager's own error, of an illegal state.
  abbrev pub IsTransient : BinderResult b (Option Instance) → Type 0
  IsTransient (answered o) = ⊥
  IsTransient (failed status) =
      (b.exception_code status ≡ b.service_specific)
      × (b.service_specific_error status ≡ b.illegal_state)

  last_attempt :
      (retries : ℕ) (r : BinderResult b (Option Instance))
      → 5 ≤ retries
      → attempt b retries r ≢ none
  unfolding attempt give_up
  last_attempt retries (answered o) h e = ground (arith, h, e)
  last_attempt retries (failed status) h e = ground (arith, h, e)

  transient_goes_on :
      (retries : ℕ) (r : BinderResult b (Option Instance))
      → retries < 5
      → IsTransient r
      → attempt b retries r ≡ none
  unfolding attempt give_up
  transient_goes_on retries (answered o) h t = absurd t
  transient_goes_on retries (failed status) h t = ground (
    arith,
    h,
    t,
    int_beq_iff (b.exception_code status) b.service_specific,
    int_beq_iff (b.service_specific_error status) b.illegal_state,
  )

  transient_exhausts :
      (r : BinderResult b (Option Instance))
      → IsTransient r
      → attempt b 5 r ≡ some (err (other retries_exhausted))
  unfolding attempt give_up
  transient_exhausts (answered o) t = absurd t
  transient_exhausts (failed status) t = refl

  module _ (get : ℕ → BinderResult b (Option Instance)) where
    -- The `n` attempts from a number on find the process not ready.
    abbrev pub AllTransient : ℕ → ℕ → Type 0
    AllTransient zero retries = Unit
    AllTransient (suc n) retries = IsTransient (get retries) × AllTransient n (suc retries)

    retry_loop-Within :
        (fuel retries count time : ℕ) (backoff : Duration) (slept : List Duration)
        → suc fuel + retries ≡ 6
        → length slept + fuel ≡ count
        → total slept + budget (suc fuel) backoff ≡ time
        → Within count time (retry_loop b get (suc fuel) retries backoff slept)
    unfolding retry_loop
    retry_loop-Within zero retries count time backoff slept e c t =
        elim (Option-cases (attempt b retries (get retries))) [
          | inr (a, q) ↦ rw (q, retry_loop, Within) (omega arith, omega arith)
          | inl q ↦ absurd (last_attempt retries (get retries) (omega arith) q)
        ]
    retry_loop-Within (suc f) retries count time backoff slept e c t =
        elim (Option-cases (attempt b retries (get retries))) [
          | inr (a, q) ↦ rw (q, retry_loop, Within) (omega arith, omega arith)
          | inl q ↦
              rw (q, retry_loop, Within)
                (retry_loop-Within f (suc retries) count time (backoff * 2) (backoff ∷ slept)
                  (omega arith) (omega arith) (omega arith))
        ]

    -- The attempt that settles the answer, after `n` that did not.
    retry_loop-settles :
        (n fuel retries last : ℕ) (backoff : Duration) (slept : List Duration) (answer : Answer)
        → n + retries ≡ last
        → last ≤ 5
        → n < fuel
        → AllTransient n retries
        → attempt b last (get last) ≡ some answer
        → retry_loop b get fuel retries backoff slept ≡ some (answer, pauses n backoff slept)
    unfolding retry_loop
    retry_loop-settles n zero retries last backoff slept answer l h f t e = absurd (omega arith)
    retry_loop-settles zero (suc fuel) retries last backoff slept answer l h f t e =
        let here : last ≡ retries = omega arith in rw (rw here at e, retry_loop) refl
    retry_loop-settles (suc n) (suc fuel) retries last backoff slept answer l h f t e =
        rw (transient_goes_on retries (get retries) (omega arith) t.0, retry_loop)
          (retry_loop-settles n fuel (suc retries) last (backoff * 2) (backoff ∷ slept) answer
            (omega arith) h (omega arith) t.1 e)

-- With the process observer API or without it, the offsets are asked for at most six times: the loop
-- ends, after at most five sleeps that take at most 310 ms together, whatever the manager answers.
pub with_retry-IsBounded :
    (b : Binder) (use_process_observer_api : Bool) (get : ℕ → BinderResult b (Option Instance))
    → IsBounded (get_executable_method_file_offsets_with_retry b use_process_observer_api 6 get)
unfolding get_executable_method_file_offsets_with_retry
with_retry-IsBounded b true get =
    retry_loop-Within b get 5 0 5 (from_millis 310) (from_millis 10) [] refl refl refl
with_retry-IsBounded b false get = omega arith

-- With the process observer API, an answer that comes after at most five attempts that found the
-- process not ready is the result, and the sleeps before it are those of 10 ms, doubled each time.
pub with_retry-answers :
    (b : Binder) (get : ℕ → BinderResult b (Option Instance)) (n fuel : ℕ) (found : Option Instance)
    → n ≤ 5
    → n < fuel
    → AllTransient b get n 0
    → get n ≡ answered found
    → get_executable_method_file_offsets_with_retry b true fuel get
      ≡ some (ok found, pauses n (from_millis 10) [])
unfolding get_executable_method_file_offsets_with_retry attempt
with_retry-answers b get n fuel found h f t e =
    retry_loop-settles b get n fuel 0 n (from_millis 10) [] (ok found) (omega arith) h f t
      (rw e refl)

-- With the process observer API, six attempts that find the process not ready end in an error, after
-- five sleeps.
pub with_retry-exhausts :
    (b : Binder) (get : ℕ → BinderResult b (Option Instance))
    → AllTransient b get 6 0
    → get_executable_method_file_offsets_with_retry b true 6 get
      ≡ some (err (other retries_exhausted), pauses 5 (from_millis 10) [])
unfolding get_executable_method_file_offsets_with_retry
with_retry-exhausts b get t =
    retry_loop-settles b get 5 6 0 5 (from_millis 10) [] (err (other retries_exhausted)) refl
      (omega arith) (omega arith) (t.0, (t.1.0, (t.1.1.0, (t.1.1.1.0, (t.1.1.1.1.0, tt)))))
      (transient_exhausts b (get 5) t.1.1.1.1.1.0)
