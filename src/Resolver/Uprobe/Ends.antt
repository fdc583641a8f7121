-- ===== src/Resolver/Uprobe/Ends.antt =====
-- The wait for a start through the probe ends, and what it returns is a start.
use android_packages_modules.Common.{
  ℕ, zero, suc, ◌+◌, ◌<◌, ℤ, pos, to_signed, ltb_ℤ, true, not, Option, none, some, List, [], ◌∷◌,
  Str, list_eq, Outcome, ok, err, panicked, ok_or, int_conversion, ◌≡◌, refl, arith, Option-cases,
  Bool-cases, inl, inr, subst, >>=-eq-ok, ◌⊎◌, if◌then◌else◌,
}
use android_packages_modules.Strings.{bytes_as_str}
use android_packages_modules.Config.Resolved.{Duration, as_millis, ResolvedProcess}
use android_packages_modules.Poll.{RingBuffer, remaining_millis}
use android_packages_modules.Poll.Ends.{Ended, not_last, from_zero}
use android_packages_modules.Resolver.Manager.{Binder, Manager}
use android_packages_modules.Resolver.Uprobe.{
  ProcessChange, is_wanted, first_start, wait_round, go_on, wait_rounds, PerfEventOpen,
  wait_for_app_start_uprobe,
}

abbrev pub In : {A : Type 0} → A → List A → Type 0
In x [] = ⊥
In x (y ∷ ys) = (x ≡ y) ⊎ In x ys

-- The process of a change that has its name, a pid above 0 and the name that is waited for.
abbrev pub IsStarted : Option Str → ResolvedProcess → ProcessChange → Type 0
IsStarted process_name resolved change =
    (bytes_as_str change.process_name ≡ ok resolved.name)
    × (resolved.pid ≡ change.pid)
    × (resolved.uid ≡ change.uid)
    × (ltb_ℤ (pos 0) resolved.pid ≡ true)
    × (is_wanted process_name resolved.name ≡ true)

-- One change whose name is read: it is the result, or the result comes from later ones.
change-IsStarted :
    (process_name : Option Str) (change : ProcessChange) (name : Str) (resolved : ResolvedProcess)
    (rest : Outcome (Option ResolvedProcess))
    → bytes_as_str change.process_name ≡ ok name
    → (if is_wanted process_name name
        then (if not (ltb_ℤ (pos 0) change.pid)
            then rest
            else ok (some (record { pid = change.pid; uid = change.uid; name = name })))
        else rest)
      ≡ ok (some resolved)
    → IsStarted process_name resolved change ⊎ (rest ≡ ok (some resolved))
change-IsStarted process_name change name resolved rest read e =
    elim (Bool-cases (is_wanted process_name name)) [
      | inr w ↦ inr (rw w at e)
      | inl w ↦ elim (Bool-cases (ltb_ℤ (pos 0) change.pid)) [
        | inr p ↦ inr (rw (w, p) at e)
        | inl p ↦
            let same : record { pid = change.pid; uid = change.uid; name = name } ≡ resolved =
              ground (arith, rw (w, p) at e) in
            inl (subst (λ r. IsStarted process_name r change) same (read, refl, refl, p, w))
      ]
    ]

first_start-IsStarted :
    (process_name : Option Str) (changes : List ProcessChange) (resolved : ResolvedProcess)
    → first_start process_name changes ≡ ok (some resolved)
    → (change : ProcessChange) × In change changes × IsStarted process_name resolved change
unfolding first_start
first_start-IsStarted process_name [] resolved e = absurd (cc e)
first_start-IsStarted process_name (change ∷ changes) resolved e =
    let (name, read, rest) = >>=-eq-ok (bytes_as_str change.process_name) _ e in
    elim (change-IsStarted process_name change name resolved (first_start process_name changes) read
      rest) [
        | inl s ↦ (change, inl refl, s)
        | inr later ↦
            let (c, i, s) = first_start-IsStarted process_name changes resolved later in
            (c, inr i, s)
      ]

module _ (ring_buffer : RingBuffer ProcessChange) (process_name : Option Str) where
  wait_rounds-Ended :
      (n fuel : ℕ) (duration : Duration) (round : ℕ)
      → n < fuel
      → as_millis duration < ring_buffer.elapsed_millis (round + n)
      → Ended (wait_rounds ring_buffer process_name duration fuel round)
  unfolding wait_rounds
  wait_rounds-Ended n zero duration round f h = absurd (omega arith)
  wait_rounds-Ended n (suc fuel) duration round f h =
      elim (Option-cases (remaining_millis duration (ring_buffer.elapsed_millis round))) [
        | inl q ↦ rw (q, Ended) tt
        | inr (remaining, q) ↦
            let (m, e, hm) = not_last ring_buffer n remaining round duration q h in
            let later = wait_rounds-Ended m fuel duration (suc round) (omega arith) hm in
            rw (q, Ended) (continues _ (wait_round ring_buffer process_name round remaining) later)
      ]
    where
      continues :
          (rest : Option (Outcome ResolvedProcess)) (r : Outcome (Option ResolvedProcess))
          → Ended rest
          → Ended (go_on rest r)
      continues rest (ok none) l = l
      continues rest (ok (some resolved)) l = tt
      continues rest (err e) l = tt
      continues rest panicked l = tt

  -- A change that some poll gave.
  abbrev pub Polled : ResolvedProcess → Type 0
  Polled resolved =
      (round : ℕ) × (timeout : ℤ) × (changes : List ProcessChange) × (change : ProcessChange)
      × (ring_buffer.poll round timeout ≡ ok changes)
      × In change changes
      × IsStarted process_name resolved change

  wait_round-Polled :
      (round remaining : ℕ) (resolved : ResolvedProcess)
      → wait_round ring_buffer process_name round remaining ≡ ok (some resolved)
      → Polled resolved
  unfolding wait_round
  wait_round-Polled round remaining resolved e =
      let (timeout, t, rest) = >>=-eq-ok (ok_or (to_signed 31 remaining) int_conversion) _ e in
      let (changes, p, rest') = >>=-eq-ok (ring_buffer.poll round timeout) _ rest in
      let (change, i, s) = first_start-IsStarted process_name changes resolved rest' in
      (round, timeout, changes, change, p, i, s)

  wait_rounds-Polled :
      (fuel : ℕ) (duration : Duration) (round : ℕ) (resolved : ResolvedProcess)
      → wait_rounds ring_buffer process_name duration fuel round ≡ some (ok resolved)
      → Polled resolved
  unfolding wait_rounds
  wait_rounds-Polled zero duration round resolved e = absurd (cc e)
  wait_rounds-Polled (suc fuel) duration round resolved e =
      elim (Option-cases (remaining_millis duration (ring_buffer.elapsed_millis round))) [
        | inl q ↦ absurd (cc (rw (q, wait_rounds) at e))
        | inr (remaining, q) ↦
            let rest = wait_rounds ring_buffer process_name duration fuel (suc round) in
            came rest (wait_round ring_buffer process_name round remaining)
              (wait_round-Polled round remaining resolved)
              (wait_rounds-Polled fuel duration (suc round) resolved) (rw (q, wait_rounds) at e)
      ]
    where
      came :
          (rest : Option (Outcome ResolvedProcess)) (r : Outcome (Option ResolvedProcess))
          → (r ≡ ok (some resolved) → Polled resolved)
          → (rest ≡ some (ok resolved) → Polled resolved)
          → go_on rest r ≡ some (ok resolved)
          → Polled resolved
      came rest (ok none) here later h = later h
      came rest (ok (some r)) here later h = here (ground (arith, h))
      came rest (err x) here later h = absurd (cc h)
      came rest panicked here later h = absurd (cc h)

-- If the timer has run out by some round, the wait ends, given fuel for one more round than that.
pub wait_for_app_start_uprobe-Ended :
    (b : Binder) (from_utf8_lossy : List ℕ → Str) (manager : Manager)
    (perf_event_open : PerfEventOpen) (ring_buffer : RingBuffer ProcessChange)
    (system_server_pid : Option ℤ) (process_name : Option Str) (duration : Duration) (n fuel : ℕ)
    → n < fuel
    → as_millis duration < ring_buffer.elapsed_millis n
    → Ended (
        wait_for_app_start_uprobe b from_utf8_lossy manager perf_event_open ring_buffer
          system_server_pid process_name duration fuel)
unfolding wait_for_app_start_uprobe
wait_for_app_start_uprobe-Ended b from_utf8_lossy manager perf_event_open ring_buffer
      system_server_pid process_name duration n fuel f h =
    ground (
      arith,
      wait_rounds-Ended ring_buffer process_name n fuel duration 0 f
          (subst (λ i. as_millis duration < ring_buffer.elapsed_millis i) (from_zero n) h),
    )

-- A process that is returned is one that a poll of the map gave, with its pid above 0 and the name that
-- is waited for.
pub wait_for_app_start_uprobe-Polled :
    (b : Binder) (from_utf8_lossy : List ℕ → Str) (manager : Manager)
    (perf_event_open : PerfEventOpen) (ring_buffer : RingBuffer ProcessChange)
    (system_server_pid : Option ℤ) (process_name : Option Str) (duration : Duration) (fuel : ℕ)
    (resolved : ResolvedProcess)
    → wait_for_app_start_uprobe b from_utf8_lossy manager perf_event_open ring_buffer
        system_server_pid process_name duration fuel
      ≡ some (ok resolved)
    → Polled ring_buffer process_name resolved
unfolding wait_for_app_start_uprobe
wait_for_app_start_uprobe-Polled b from_utf8_lossy manager perf_event_open ring_buffer
      system_server_pid process_name duration fuel resolved e =
    wait_rounds-Polled ring_buffer process_name fuel duration 0 resolved (ground (arith, e))
