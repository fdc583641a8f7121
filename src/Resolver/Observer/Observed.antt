-- ===== src/Resolver/Observer/Observed.antt =====
-- The start that an observer reports, and the entry of the running processes that is taken.
use android_packages_modules.Common.{
  ℕ, ℤ, pos, int_eq, int_beq_iff, true, Option, none, some, List, [], ◌∷◌, ◌++◌, Str, list_eq, ◌==◌,
  list_beq_iff, ok, All, ◌≡◌, refl, ap, sym, ◌∙◌, arith, Bool-cases, Option-cases, inl, inr,
}
use android_packages_modules.Config.Resolved.{ResolvedProcess}
use android_packages_modules.Resolver.Observer.{
  Start, to_str_or_default, ObserverApi, ObserverCall, observe, receive,
  wait_for_app_start_observer, RunningApp, RunningApps, find_running, get_running_process_pid_uid,
}
use android_packages_modules.Resolver.Observer.First.{
  wants, process_of, first_wanted, or_timeout, observe-first,
}

-- Any name will do, or the name is the one asked for.
abbrev pub IsWanted : Option Str → Str → Type 0
IsWanted none name = Unit
IsWanted (some target) name = name ≡ target

abbrev WantsStart : Option Str → Start → Type 0
WantsStart target start = IsWanted target (to_str_or_default start.process_name)

-- The process is that of the first start that is wanted.
abbrev pub Observed : Option Str → List Start → ResolvedProcess → Type 0
Observed target starts resolved =
    (before after : List Start) × (start : Start) × (starts ≡ before ++ (start ∷ after))
    × All (λ earlier. WantsStart target earlier → ⊥) before
    × WantsStart target start
    × (resolved ≡ process_of start)

wants-IsWanted :
    (target : Option Str) (name : Str) → wants target name ≡ true → IsWanted target name
wants-IsWanted none name e = tt
wants-IsWanted (some target) name e = sym ((list_beq_iff target name).0 e)

IsWanted-wants :
    (target : Option Str) (name : Str) → IsWanted target name → wants target name ≡ true
IsWanted-wants none name e = refl
IsWanted-wants (some target) name e = (list_beq_iff target name).1 (sym e)

first_wanted-Observed :
    (target : Option Str) (starts : List Start) (resolved : ResolvedProcess)
    → first_wanted target starts ≡ some resolved
    → Observed target starts resolved
first_wanted-Observed target [] resolved e = absurd (cc e)
first_wanted-Observed target (start ∷ starts) resolved e =
    let name = to_str_or_default start.process_name in
    elim (Bool-cases (wants target name)) [
      | inl q ↦ (
        [],
        starts,
        start,
        refl,
        tt,
        wants-IsWanted target name q,
        sym (ground (arith, rw q at e)),
      )
      | inr q ↦
          let (before, after, s, split, passed, wanted, is) =
            first_wanted-Observed target starts resolved (rw q at e) in
          (
            start ∷ before,
            after,
            s,
            ap (◌∷◌ start) split,
            ((λ w. absurd (ground (arith, q, IsWanted-wants target name w))), passed),
            wanted,
            is,
          )
    ]

or_timeout_lem :
    (o : Option ResolvedProcess) (resolved : ResolvedProcess)
    → or_timeout o ≡ ok resolved
    → o ≡ some resolved
or_timeout_lem none resolved e = absurd (cc e)
or_timeout_lem (some r) resolved e = ground (arith, e)

-- What the wait returns is the first start that is wanted.
pub wait_for_app_start_observer-Observed :
    (api : ObserverApi) (target : Option Str) (log log' : List ObserverCall)
    (resolved : ResolvedProcess)
    → wait_for_app_start_observer api target log ≡ (ok resolved, log')
    → Observed target api.starts resolved
unfolding wait_for_app_start_observer
wait_for_app_start_observer-Observed api target log log' resolved e =
    let received : receive (observe target api.starts []) ≡ ok resolved = ground (arith, e) in
    first_wanted-Observed target api.starts resolved (
      or_timeout_lem (first_wanted target api.starts) resolved
        (sym (observe-first target api.starts) ∙ received))

module _ (to_string_lossy : List ℕ → Str) (target : Str) where
  -- An entry that is not null and has the name.
  abbrev HasName : Option RunningApp → Type 0
  HasName none = ⊥
  HasName (some app) =
      (bytes : List ℕ) × (app.process_name ≡ some bytes) × (to_string_lossy bytes ≡ target)

  -- The pid and the uid of the first entry with the name.
  abbrev pub Runs : List (Option RunningApp) → ℤ → ℕ → Type 0
  Runs apps pid uid =
      (before after : List (Option RunningApp)) × (app : RunningApp) × (apps
        ≡ before ++ (some app ∷ after))
      × All (λ earlier. HasName earlier → ⊥) before
      × HasName (some app)
      × (app.pid ≡ pid)
      × (app.uid ≡ uid)

  passed_over :
      (entry : Option RunningApp) (apps : List (Option RunningApp)) (pid : ℤ) (uid : ℕ)
      → (HasName entry → ⊥)
      → Runs apps pid uid
      → Runs (entry ∷ apps) pid uid
  passed_over entry apps pid uid not_named
        (before, after, app, split, passed, found, is_pid, is_uid) =
      (entry ∷ before, after, app, ap (◌∷◌ entry) split, (not_named, passed), found, is_pid, is_uid)

  find_running-Runs :
      (apps : List (Option RunningApp)) (pid : ℤ) (uid : ℕ)
      → find_running to_string_lossy target apps ≡ ok (pid, uid)
      → Runs apps pid uid
  unfolding find_running
  find_running-Runs [] pid uid e = absurd (cc e)
  find_running-Runs (none ∷ apps) pid uid e =
      passed_over none apps pid uid (λ named. named) (find_running-Runs apps pid uid e)
  find_running-Runs (some app ∷ apps) pid uid e = elim (Option-cases app.process_name) [
    | inl q ↦
        passed_over (some app) apps pid uid (λ named. absurd (ground (arith, q, named.1)))
          (find_running-Runs apps pid uid (rw (q, find_running) at e))
    | inr (name, q) ↦ elim (Bool-cases (to_string_lossy name == target)) [
      | inl same ↦
          let found : ok (app.pid, app.uid) ≡ ok (pid, uid) =
            rw same at (rw (q, find_running) at e) in
          (
            [],
            apps,
            app,
            refl,
            tt,
            (name, q, (list_beq_iff (to_string_lossy name) target).0 same),
            ground (arith, found),
            ground (arith, found),
          )
      | inr other_name ↦
          passed_over (some app) apps pid uid
            (λ (bytes, has, is).
              let same : name ≡ bytes = ground (arith, q, has) in
              absurd (
                ground (
                  arith,
                  other_name,
                  (list_beq_iff (to_string_lossy name) target).1 (ap to_string_lossy same ∙ is),
                )))
            (find_running-Runs apps pid uid (rw other_name at (rw (q, find_running) at e)))
    ]
  ]

  -- The list is there, and the first entry with the name is taken.
  pub get_running-Runs :
      (running : RunningApps) (pid : ℤ) (uid : ℕ)
      → get_running_process_pid_uid to_string_lossy running target ≡ ok (pid, uid)
      → (apps : List (Option RunningApp)) × (running ≡ (pos 0, some apps)) × Runs apps pid uid
  unfolding get_running_process_pid_uid
  get_running-Runs (status, none) pid uid e = absurd (ground (arith, e))
  get_running-Runs (status, some apps) pid uid e = (
    apps,
    ground (arith, e, int_beq_iff status (pos 0)),
    find_running-Runs apps pid uid (ground (arith, e)),
  )
