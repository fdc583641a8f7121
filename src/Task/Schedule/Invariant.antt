-- ===== src/Task/Schedule/Invariant.antt =====
-- The invariant of the polled maps over every schedule of tasks that poll a map.
use android_packages_modules.Common.{
  ℕ, zero, suc, Bool, true, false, ◌||◌, none, some, List, [], ◌∷◌, ◌++◌, Str, list_eq, contains,
  extend, contains-append, contains-extend, contains-head, nil_of_contains, Distinct,
  Distinct-append, Distinct-split, Disjoint, All, get_elem?, ◌≡◌, refl, sym, ◌∙◌, arith, select,
  Bool-cases, Option-cases, inl, inr,
}
use android_packages_modules.Config.Resolved.{ResolvedTask}
use android_packages_modules.Task.State.{GlobalState, none_left, remove_all, active_unless_empty}
use android_packages_modules.Task.State.Sets.{polled, contains-remove_all, select-Disjoint}
use android_packages_modules.Task.Schedule.{
  System, Event, claims, releases, init, drop_at, step, run,
}

-- The paths of the running tasks, one task after the other.
unfoldable pub all_maps : List ResolvedTask → List Str
all_maps [] = []
all_maps (t ∷ ts) = t.bpf_map_paths ++ all_maps ts

-- A resolved task has a set of paths; that the set is not empty is what the daemon relies on.
pub record PollsMaps (t : ResolvedTask) : Type 0 where
  pub is_set : Distinct t.bpf_map_paths
  pub nonempty : none_left t.bpf_map_paths ≡ false

abbrev pub is_idle : GlobalState → Bool
is_idle none = true
is_idle (some a) = false

abbrev pub none_running : List ResolvedTask → Bool
none_running [] = true
none_running (t ∷ ts) = false

-- The lock is usable; a path is polled exactly if a running task has it; no two running tasks share
-- a path; and the state is dropped exactly when nothing runs.
pub record IsConsistent (s : System) : Type 0 where
  pub usable : s.poisoned ≡ false
  pub exact : (p : Str) → polled p s.state ≡ contains p (all_maps s.running)
  pub apart : Distinct (all_maps s.running)
  pub idle : is_idle s.state ≡ none_running s.running
  pub busy : All PollsMaps s.running

pub init-IsConsistent : IsConsistent init
unfolding all_maps contains
init-IsConsistent = record { usable = refl; exact = λ p. refl; apart = tt; idle = refl; busy = tt }

-- A claim that meets no conflict.
claim-IsConsistent :
    (s : System) (t : ResolvedTask) (g : GlobalState)
    → IsConsistent s
    → PollsMaps t
    → ((p : Str) → polled p g ≡ (polled p s.state || contains p t.bpf_map_paths))
    → is_idle g ≡ false
    → ((p : Str) → contains p t.bpf_map_paths ≡ true → polled p s.state ≡ false)
    → IsConsistent (record s { state = g; running = t ∷ s.running })
unfolding all_maps
claim-IsConsistent s t g c m grown active free = record {
  usable = c.usable;
  exact = λ p.
      ground (arith, grown p, c.exact p, contains-append p t.bpf_map_paths (all_maps s.running));
  apart =
      Distinct-append t.bpf_map_paths (all_maps s.running) m.is_set c.apart
        (λ p h. sym (c.exact p) ∙ free p h);
  idle = active;
  busy = (m, c.busy);
}

claims-IsConsistent :
    (s : System) (t : ResolvedTask) (g : GlobalState)
    → s.state ≡ g
    → IsConsistent s
    → PollsMaps t
    → IsConsistent (step s (claims t))
unfolding step
claims-IsConsistent s t none e c m =
    let g : GlobalState = some (record { polled_bpf_maps = t.bpf_map_paths }) in
    let after : step s (claims t) ≡ record s { state = g; running = t ∷ s.running } =
      ground arith in
    rw after (claim-IsConsistent s t g c m (λ p. rw e refl) refl (λ p h. rw e refl))
claims-IsConsistent s t (some a) e c m =
    let g : GlobalState =
      some (record { polled_bpf_maps = extend a.polled_bpf_maps t.bpf_map_paths }) in
    elim (Bool-cases (none_left (select (λ p. contains p a.polled_bpf_maps) t.bpf_map_paths))) [
      | inl free ↦
          let after : step s (claims t) ≡ record s { state = g; running = t ∷ s.running } =
            ground arith in
          rw after (
            claim-IsConsistent s t g c m
              (λ p. rw e (contains-extend p a.polled_bpf_maps t.bpf_map_paths)) refl
              (λ p h. rw e (select-Disjoint t.bpf_map_paths a.polled_bpf_maps free p h)))
      | inr conflict ↦ let after : step s (claims t) ≡ s = ground arith in rw after c
    ]

-- The task at a position and the others.
contains-drop_at :
    (p : Str) (i : ℕ) (ts : List ResolvedTask) {t : ResolvedTask}
    → get_elem? ts i ≡ some t
    → contains p (all_maps ts)
      ≡ (contains p t.bpf_map_paths || contains p (all_maps (drop_at i ts)))
unfolding all_maps drop_at
contains-drop_at p i [] h = cc
contains-drop_at p zero (u ∷ ts) h = ground (arith, contains-append p u.bpf_map_paths (all_maps ts))
contains-drop_at p (suc i) (u ∷ ts) h = ground (
  arith,
  contains-append p u.bpf_map_paths (all_maps ts),
  contains-append p u.bpf_map_paths (all_maps (drop_at i ts)),
  contains-drop_at p i ts h,
)

Distinct-drop_at :
    (i : ℕ) (ts : List ResolvedTask) (t : ResolvedTask)
    → get_elem? ts i ≡ some t
    → Distinct (all_maps ts)
    → Distinct (all_maps (drop_at i ts)) × Disjoint t.bpf_map_paths (all_maps (drop_at i ts))
unfolding all_maps drop_at
Distinct-drop_at i [] t h d = cc
Distinct-drop_at zero (u ∷ ts) t h d =
    let (du, dts, free) = Distinct-split u.bpf_map_paths (all_maps ts) d in
    let e : u ≡ t = ground arith in (dts, λ p c. free p (rw e c))
Distinct-drop_at (suc i) (u ∷ ts) t h d =
    let (du, dts, free) = Distinct-split u.bpf_map_paths (all_maps ts) d in
    let (rest, free_t) = Distinct-drop_at i ts t h dts in
    (
      Distinct-append u.bpf_map_paths (all_maps (drop_at i ts)) du rest
          (λ p c. ground (arith, free p c, contains-drop_at p i ts h)),
      λ p c. ground (
        arith,
        free_t p c,
        contains-append p u.bpf_map_paths (all_maps (drop_at i ts)),
        contains-drop_at p i ts h,
        free p,
      ),
    )

busy-drop_at : (i : ℕ) (ts : List ResolvedTask) → All PollsMaps ts → All PollsMaps (drop_at i ts)
unfolding drop_at
busy-drop_at i [] b = tt
busy-drop_at zero (t ∷ ts) b = b.1
busy-drop_at (suc i) (t ∷ ts) b = (b.0, busy-drop_at i ts b.1)

nothing_runs :
    (ts : List ResolvedTask)
    → All PollsMaps ts
    → ((p : Str) → contains p (all_maps ts) ≡ false)
    → none_running ts ≡ true
unfolding all_maps
nothing_runs [] b h = refl
nothing_runs (t ∷ ts) b h =
    let none_here : t.bpf_map_paths ≡ [] =
      nil_of_contains t.bpf_map_paths
        (λ p. ground (arith, h p, contains-append p t.bpf_map_paths (all_maps ts))) in
    ground (arith, b.0.nonempty)

-- What is left of the polled maps, against the tasks that are left.
left_over :
    (left : List Str) (ts : List ResolvedTask)
    → All PollsMaps ts
    → ((p : Str) → contains p left ≡ contains p (all_maps ts))
    → is_idle (active_unless_empty left) ≡ none_running ts
unfolding all_maps contains
left_over [] ts b h = sym (nothing_runs ts b (λ p. sym (h p)))
left_over (p ∷ left) [] b h = cc (h p, contains-head p left)
left_over (p ∷ left) (t ∷ ts) b h = refl

polled-left : (p : Str) (left : List Str) → polled p (active_unless_empty left) ≡ contains p left
unfolding contains
polled-left p [] = refl
polled-left p (q ∷ left) = refl

releases-IsConsistent :
    (s : System) (i : ℕ) (t : ResolvedTask) (g : GlobalState)
    → s.state ≡ g
    → get_elem? s.running i ≡ some t
    → IsConsistent s
    → IsConsistent (step s (releases i))
unfolding step contains all_maps
releases-IsConsistent s i t none e h c = ground (arith, c.idle)
releases-IsConsistent s i t (some a) e h c =
    let left : List Str = remove_all a.polled_bpf_maps t.bpf_map_paths in
    let ts : List ResolvedTask = drop_at i s.running in
    let after : step s (releases i) ≡ record s { state = active_unless_empty left; running = ts } =
      ground (arith, c.usable) in
    let (apart, free) = Distinct-drop_at i s.running t h c.apart in
    let same : (p : Str) → contains p left ≡ contains p (all_maps ts) = λ p. ground (
      arith,
      contains-remove_all p a.polled_bpf_maps t.bpf_map_paths,
      c.exact p,
      contains-drop_at p i s.running h,
      free p,
    ) in
    rw after (record {
      usable = c.usable;
      exact = λ p. polled-left p left ∙ same p;
      apart = apart;
      idle = left_over left ts (busy-drop_at i s.running c.busy) same;
      busy = busy-drop_at i s.running c.busy;
    })

abbrev pub Admissible : Event → Type 0
Admissible (claims t) = PollsMaps t
Admissible (releases i) = Unit

step-IsConsistent :
    (s : System) (e : Event) → IsConsistent s → Admissible e → IsConsistent (step s e)
step-IsConsistent s (claims t) c m = claims-IsConsistent s t s.state refl c m
step-IsConsistent s (releases i) c m = elim (Option-cases (get_elem? s.running i)) [
  | inl e ↦ no_thread e
  | inr (t, e) ↦ releases-IsConsistent s i t s.state refl e c
]
  where
    no_thread : get_elem? s.running i ≡ none → IsConsistent (step s (releases i))
    no_thread e = let after : step s (releases i) ≡ s = unfold step in ground arith in rw after c

-- The step that keeps the invariant, along a schedule.
run_from-IsConsistent :
    (s : System) (es : List Event) → IsConsistent s → All Admissible es → IsConsistent (run s es)
unfolding run
run_from-IsConsistent s [] c a = c
run_from-IsConsistent s (e ∷ es) c a =
    run_from-IsConsistent (step s e) es (step-IsConsistent s e c a.0) a.1

-- After any schedule of tasks that each poll a map: the lock is usable, a path is polled exactly if a
-- running task has it, no two running tasks share a path, and the state is dropped exactly when no
-- task runs.
pub run-IsConsistent : (es : List Event) → All Admissible es → IsConsistent (run init es)
run-IsConsistent es a = run_from-IsConsistent init es init-IsConsistent a
