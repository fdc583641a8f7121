-- ===== src/Task/State/Sets.antt =====
-- The two operations on the polled maps, as sets of paths.
use android_packages_modules.Common.{
  Bool, true, false, not, ◌&&◌, ◌||◌, none, some, List, [], ◌∷◌, Str, list_eq, contains, subtract,
  extend, contains-subtract, contains-extend, select, ok, err, ◌≡◌, refl, arith, Disjoint,
  list_beq_iff, list_beq_refl, Bool-cases, inl, inr, ◌⊎◌, other, maps_in_use,
}
use android_packages_modules.Config.Resolved.{ResolvedTask}
use android_packages_modules.Task.State.{
  GlobalState, update_polled_bpf_maps, cleanup_polled_bpf_maps, none_left, remove_all,
  active_unless_empty,
}

abbrev pub polled : Str → GlobalState → Bool
polled p none = false
polled p (some active) = contains p active.polled_bpf_maps

pub contains-remove_all :
    (p : Str) (s ps : List Str)
    → contains p (remove_all s ps) ≡ (contains p s && not (contains p ps))
unfolding remove_all contains
contains-remove_all p s [] = ground arith
contains-remove_all p s (q ∷ ps) =
    ground (arith, contains-remove_all p (subtract q s) ps, contains-subtract q p s)

-- No conflict is found exactly if no path of the task is polled.
pub select-Disjoint :
    (ps s : List Str) → none_left (select (λ p. contains p s) ps) ≡ true → Disjoint ps s
unfolding contains
select-Disjoint [] s h = λ k c. cc
select-Disjoint (p ∷ ps) s h =
    λ k c. ground (arith, list_beq_iff p k, select-Disjoint ps s (ground arith) k)

pub select-overlap :
    (ps s : List Str)
    → none_left (select (λ p. contains p s) ps) ≡ false
    → (p : Str) × (contains p ps ≡ true) × (contains p s ≡ true)
unfolding contains
select-overlap [] s h = cc
select-overlap (p ∷ ps) s h = elim (Bool-cases (contains p s)) [
  | inl e ↦ (p, ground (arith, list_beq_refl p), e)
  | inr e ↦ let (q, in_ps, in_s) = select-overlap ps s (ground arith) in (q, ground arith, in_s)
]

abbrev pub Claimed : GlobalState → ResolvedTask → GlobalState → Type 0
Claimed g t g' =
    ((p : Str) → contains p t.bpf_map_paths ≡ true → polled p g ≡ false)
    × ((p : Str) → polled p g' ≡ (polled p g || contains p t.bpf_map_paths))

abbrev pub Conflicting : GlobalState → ResolvedTask → Type 0
Conflicting g t = (p : Str) × (contains p t.bpf_map_paths ≡ true) × (polled p g ≡ true)

-- A claim either succeeds, when no path of the task is polled, and the task's paths are polled beside
-- the old ones; or it fails, when some path of the task is polled, and leaves the state as it was.
pub update_polled_bpf_maps-cases :
    (g : GlobalState) (t : ResolvedTask)
    → (((update_polled_bpf_maps g t).0 ≡ ok tt) × Claimed g t (update_polled_bpf_maps g t).1)
      ⊎ ((update_polled_bpf_maps g t ≡ (err (other maps_in_use), g)) × Conflicting g t)
unfolding update_polled_bpf_maps
update_polled_bpf_maps-cases none t = inl (refl, (λ p h. refl, λ p. refl))
update_polled_bpf_maps-cases (some a) t =
    elim (Bool-cases (none_left (select (λ p. contains p a.polled_bpf_maps) t.bpf_map_paths))) [
      | inl e ↦ inl (
        ground arith,
        (
          select-Disjoint t.bpf_map_paths a.polled_bpf_maps e,
          λ p. ground (arith, contains-extend p a.polled_bpf_maps t.bpf_map_paths),
        ),
      )
      | inr e ↦ inr (ground arith, select-overlap t.bpf_map_paths a.polled_bpf_maps e)
    ]

polled-active : (p : Str) (left : List Str) → polled p (active_unless_empty left) ≡ contains p left
unfolding contains
polled-active p [] = refl
polled-active p (q ∷ left) = refl

-- A claim that succeeds and is then released polls the paths that were polled before, no matter what
-- they were.
pub cleanup-update :
    (g : GlobalState) (t : ResolvedTask) (p : Str)
    → (update_polled_bpf_maps g t).0 ≡ ok tt
    → polled p (cleanup_polled_bpf_maps (update_polled_bpf_maps g t).1 t).1 ≡ polled p g
unfolding update_polled_bpf_maps cleanup_polled_bpf_maps
cleanup-update none t p h = ground (
  arith,
  polled-active p (remove_all t.bpf_map_paths t.bpf_map_paths),
  contains-remove_all p t.bpf_map_paths t.bpf_map_paths,
)
cleanup-update (some a) t p h =
    let all_paths : List Str = extend a.polled_bpf_maps t.bpf_map_paths in
    ground (
      arith,
      polled-active p (remove_all all_paths t.bpf_map_paths),
      contains-remove_all p all_paths t.bpf_map_paths,
      contains-extend p a.polled_bpf_maps t.bpf_map_paths,
      select-Disjoint t.bpf_map_paths a.polled_bpf_maps (ground arith) p,
    )
