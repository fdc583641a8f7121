-- ===== src/Poll/Ends.antt =====
-- The loop ends once the timer has run out.
use android_packages_modules.Common.{
  ℕ, zero, suc, ◌+◌, ◌<◌, Option, none, some, Str, ◌≡◌, refl, arith, inl, inr, Outcome-cases,
  Option-cases, subst, pos,
}
use android_packages_modules.Effects.{lift}
use android_packages_modules.Config.Resolved.{ResolvedTask, Duration, as_millis}
use android_packages_modules.Poll.{
  Handler, RingBuffer, Polling, remaining_millis, poll_round, poll_rounds, poll_loop, reporting,
  ring_buffer_create_failed,
}

abbrev pub Ended : {A : Type 0} → Option A → Type 0
Ended none = ⊥
Ended (some a) = Unit

pub from_zero : (a : ℕ) → a ≡ 0 + a
from_zero a = omega arith

plain : (a : ℕ) → a + 0 ≡ a
plain a = omega arith

shift : (a b : ℕ) → a + suc b ≡ suc a + b
shift a b = omega arith

module _ {T : Type 0} (rb : RingBuffer T) where
  -- A round that polls is not the one by which the timer has run out.
  pub not_last :
      (n remaining round : ℕ) (duration : Duration)
      → remaining_millis duration (rb.elapsed_millis round) ≡ some remaining
      → as_millis duration < rb.elapsed_millis (round + n)
      → (m : ℕ) × (n ≡ suc m) × (as_millis duration < rb.elapsed_millis (suc round + m))
  unfolding remaining_millis
  not_last zero remaining round duration q he =
      absurd (ended (subst (λ i. as_millis duration < rb.elapsed_millis i) (plain round) he))
    where
      ended : as_millis duration < rb.elapsed_millis round → ⊥
      ended he' = ground (arith, q, he')
  not_last (suc m) remaining round duration q he =
      (m, refl, subst (λ i. as_millis duration < rb.elapsed_millis i) (shift round m) he)

module _ {S T : Type 0} (h : Handler S T) (rb : RingBuffer T) (task : ResolvedTask) where
  poll_rounds-Ended :
      (n fuel : ℕ) (duration : Duration) (round total : ℕ) (s : Polling S)
      → n < fuel
      → as_millis duration < rb.elapsed_millis (round + n)
      → Ended (poll_rounds h rb task fuel duration round total s)
  unfolding poll_rounds
  poll_rounds-Ended n zero duration round total s hf he = absurd (omega arith)
  poll_rounds-Ended n (suc fuel) duration round total s hf he =
      elim (Option-cases (remaining_millis duration (rb.elapsed_millis round))) [
        | inl q ↦ rw (q, Ended) tt
        | inr (remaining, q) ↦
            rw (q, Ended)
              (elim (Outcome-cases (poll_round h rb task round remaining s).0) [
                | inl (k, o) ↦
                    rw (o, Ended)
                      (let (m, e, hm) = not_last rb n remaining round duration q he in
                        poll_rounds-Ended m fuel duration (suc round) (total + k)
                          (poll_round h rb task round remaining s).1 (omega arith) hm)
                | inr (inl (e, o)) ↦ rw (o, Ended) tt
                | inr (inr o) ↦ rw (o, Ended) tt
              ])
      ]

-- If the timer has run out by some round, the loop ends, with a result or a panic, given fuel for one
-- more round than that: it does not poll for ever.
pub poll_loop-Ended :
    {S T : Type 0} (h : Handler S T) (rb : RingBuffer T) (task : ResolvedTask)
    → (n fuel : ℕ) (path : Str) (duration : Duration) (s : Polling S) → n < fuel
    → as_millis duration < rb.elapsed_millis n
    → Ended (poll_loop h rb task fuel path duration s)
unfolding poll_loop
poll_loop-Ended {S} h rb task n fuel path duration s hf he =
    let s' : Polling S =
      (reporting h rb task (λ e. (ring_buffer_create_failed, pos 0)) (lift rb.new) s).1 in
    ground (
      arith,
      poll_rounds-Ended h rb task n fuel duration 0 0 s' hf
          (subst (λ i. as_millis duration < rb.elapsed_millis i) (from_zero n) he),
    )
