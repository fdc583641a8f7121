-- ===== src/Task/Filters/Written.antt =====
-- What writing the filters leaves in the map.
use android_packages_modules.Common.{
  ℕ, suc, ◌+◌, ◌≤◌, ◌<◌, Bool, true, false, Option, none, some, List, [], ◌∷◌, Str, list_eq, length,
  All, Outcome, ok, err, panicked, Error, ◌≡◌, ◌≢◌, inl, inr, refl, arith, subst, sym,
  Outcome-cases, if◌then◌else◌,
}
use android_packages_modules.Effects.{for_each}
use android_packages_modules.Config.Resolved.{InterfaceConfig, method_ids, ResolvedProbe}
use android_packages_modules.BpfMap.{Kernel, put, drain, to_c_key, to_c_value}
use android_packages_modules.BpfMap.Drain.{IsHealthy, drain-empties}
use android_packages_modules.Task.Filters.{
  Filters, write_filter, write_binder_transaction_filter_to_binder_bpf_map, when_open, after_write,
  setup_probe, setup_probes, setup_binder_transaction_filters,
}
use android_packages_modules.Task.Filters.Drainable.{
  IsInserting, IsShort, to_c_key-IsCanonical, IsDrainable, Inserted-IsDrainable, weaken,
}

-- The names of the filters of all probes, counted with their repetitions.
abbrev pub count_filters : List ResolvedProbe → ℕ
count_filters [] = 0
count_filters (probe ∷ probes) = length probe.binder_transaction_filters + count_filters probes

abbrev pub AreShort : Filters → Type 0
AreShort filters = All (λ f. IsShort f.0) filters

module _ {M : Type 0} (k : Kernel M) (keys : M → List (List ℕ))
    (inserting : IsInserting k keys) where
  put-IsDrainable :
      (f : Str × InterfaceConfig) (n : ℕ) (m : M)
      → IsShort f.0
      → IsDrainable n (keys m)
      → IsDrainable (suc n) (keys (write_filter k f m).1)
  unfolding put
  put-IsDrainable (name, config) n m short d =
      elim (inserting.insert_effect (to_c_key name) (to_c_value (method_ids config)) m) [
        | inl same ↦ subst (IsDrainable (suc n)) (sym same) (weaken n (keys m) d)
        | inr (absent, inserted) ↦
            Inserted-IsDrainable n (to_c_key name) (keys m) _ (to_c_key-IsCanonical name short)
              absent inserted d
      ]

  put-ends : (f : Str × InterfaceConfig) (m : M) → (write_filter k f m).0 ≢ panicked
  unfolding put
  put-ends (name, config) m =
      inserting.insert_ends (to_c_key name) (to_c_value (method_ids config)) m

  abbrev Written : ℕ → Outcome (Unit {0}) × M → Type 0
  Written n (ok u, m) = IsDrainable n (keys m)
  Written n (err e, m) = IsDrainable n (keys m)
  Written n (panicked, m) = ⊥

  write_filters-Written :
      (fs : Filters) (n total : ℕ) (m : M)
      → AreShort fs
      → length fs + n ≤ total
      → IsDrainable n (keys m)
      → Written total (write_binder_transaction_filter_to_binder_bpf_map k fs m)
  unfolding write_binder_transaction_filter_to_binder_bpf_map for_each
  write_filters-Written [] n total m short h d = (d.0, d.1, omega (arith, d.2))
  write_filters-Written (f ∷ fs) n total m short h d =
      let d' = put-IsDrainable f n m short.0 d in
      let later =
        write_filters-Written fs (suc n) total (write_filter k f m).1 short.1 (omega arith) d' in
      elim (Outcome-cases (write_filter k f m).0) [
        | inl (u, o) ↦ rw o later
        | inr (inl (e, o)) ↦ rw o (d'.0, d'.1, omega (arith, d'.2))
        | inr (inr o) ↦ absurd (put-ends f m o)
      ]

  -- The filters are in the map if it was opened, and nothing is otherwise.
  abbrev pub SetUp : ℕ → Option (Outcome Bool × M) → Type 0
  SetUp total none = ⊥
  SetUp total (some (ok true, m)) = IsDrainable total (keys m)
  SetUp total (some (ok false, m)) = keys m ≡ []
  SetUp total (some (err e, m)) = keys m ≡ []
  SetUp total (some (panicked, m)) = ⊥

  module _ (healthy : IsHealthy k keys) (new_accessor : Outcome (Unit {0}))
      (opens : new_accessor ≢ panicked) (total fuel : ℕ) (enough : total < fuel) where
    drained :
        (m : M)
        → IsDrainable total (keys m)
        → (m' : M) × (drain k fuel m ≡ some (ok tt, m')) × (keys m' ≡ [])
    drained m d = drain-empties k keys fuel m healthy d.0 d.1 (omega (arith, d.2))

    after_write-SetUp :
        (rest : M → Option (Outcome Bool × M)) (r : Outcome (Unit {0}) × M) (n : ℕ)
        → n ≤ total
        → Written n r
        → ((m : M) → IsDrainable n (keys m) → SetUp total (rest m))
        → SetUp total (after_write k (drain k fuel) rest r)
    after_write-SetUp rest (ok u, m) n h w later = later m w
    after_write-SetUp rest (err e, m) n h w later =
        let (m', q, z) = drained m (w.0, w.1, omega (arith, w.2)) in rw q z
    after_write-SetUp rest (panicked, m) n h w later = absurd w

    when_open-SetUp :
        (opened : Outcome (Unit {0})) (m : M) (next : Option (Outcome Bool × M))
        → opened ≢ panicked
        → ((e : Error) → opened ≡ err e → keys m ≡ [])
        → SetUp total next
        → SetUp total (when_open k opened m next)
    when_open-SetUp (ok u) m next o z h = h
    when_open-SetUp (err e) m next o z h = z e refl
    when_open-SetUp panicked m next o z h = absurd (o refl)

    -- What the map holds before a probe.
    abbrev Before : Bool → ℕ → M → Type 0
    Before true n m = IsDrainable n (keys m)
    Before false n m = (keys m ≡ []) × (n ≡ 0)

    open-ends : (opened : Bool) → (if opened then ok tt else new_accessor) ≢ panicked
    open-ends true e = cc e
    open-ends false e = opens e

    Before-IsDrainable :
        (opened : Bool) (n : ℕ) (m : M) → Before opened n m → IsDrainable n (keys m)
    Before-IsDrainable true n m b = b
    Before-IsDrainable false n m (z, e) = rw z (tt, tt, omega arith)

    not_opened :
        (opened : Bool) (n : ℕ) (m : M) (e : Error)
        → Before opened n m
        → (if opened then ok tt else new_accessor) ≡ err e
        → keys m ≡ []
    not_opened true n m e b q = absurd (cc q)
    not_opened false n m e b q = b.0

    setup_probe-SetUp :
        (fs : Filters) (rest : Bool → M → Option (Outcome Bool × M)) (opened : Bool) (n : ℕ) (m : M)
        → AreShort fs
        → length fs + n ≤ total
        → Before opened n m
        → ((opened' : Bool) (m' : M)
            → Before opened' (length fs + n) m'
            → SetUp total (rest opened' m'))
        → SetUp total (setup_probe k new_accessor fuel fs rest opened m)
    unfolding setup_probe
    setup_probe-SetUp [] rest opened n m s h b later =
        let same : 0 + n ≡ n = omega arith in later opened m (rw same b)
    setup_probe-SetUp (f ∷ fs) rest opened n m s h b later =
        when_open-SetUp (if opened then ok tt else new_accessor) m _ (open-ends opened)
          (λ e q. not_opened opened n m e b q)
          (after_write-SetUp (rest true)
            (write_binder_transaction_filter_to_binder_bpf_map k (f ∷ fs) m) (length (f ∷ fs) + n) h
            (write_filters-Written (f ∷ fs) n (length (f ∷ fs) + n) m s (omega arith)
              (Before-IsDrainable opened n m b))
            (later true))

    setup_probes-SetUp :
        (probes : List ResolvedProbe) (opened : Bool) (n : ℕ) (m : M)
        → All (λ p. AreShort p.binder_transaction_filters) probes
        → count_filters probes + n ≤ total
        → Before opened n m
        → SetUp total (setup_probes k new_accessor fuel probes opened m)
    unfolding setup_probes
    setup_probes-SetUp [] true n m s h b = (b.0, b.1, omega (arith, b.2))
    setup_probes-SetUp [] false n m s h b = b.0
    setup_probes-SetUp (probe ∷ probes) opened n m s h b =
        setup_probe-SetUp probe.binder_transaction_filters _ opened n m s.0 (omega arith) b
          λ opened' m'.
            setup_probes-SetUp probes opened' (length probe.binder_transaction_filters + n) m' s.1
              (omega arith)

-- On a kernel that inserts and drains as described, from an empty map and with names that fit in the
-- keys, the set-up ends: either the filters it wrote can all be drained, or the map is empty, as it is
-- after every failure.
pub setup_binder_transaction_filters-SetUp :
    {M : Type 0} (k : Kernel M) (keys : M → List (List ℕ)) (inserting : IsInserting k keys)
    (new_accessor : Outcome (Unit {0})) (fuel : ℕ) (probes : List ResolvedProbe) (m : M)
    → IsHealthy k keys
    → new_accessor ≢ panicked
    → All (λ p. AreShort p.binder_transaction_filters) probes
    → count_filters probes < fuel
    → keys m ≡ []
    → SetUp k keys inserting
        (count_filters probes)
        (setup_binder_transaction_filters k new_accessor fuel probes m)
unfolding setup_binder_transaction_filters
setup_binder_transaction_filters-SetUp k keys inserting new_accessor fuel probes m healthy opens s h
      z =
    setup_probes-SetUp k keys inserting healthy new_accessor opens (count_filters probes) fuel h
      probes false 0 m s (omega arith) (z, refl)
