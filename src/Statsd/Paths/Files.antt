-- ===== src/Statsd/Paths/Files.antt =====
-- The file at the end of a path: what `rsplit('/').next()` gives in daemon/android/atom.rs.
use android_packages_modules.Common.{
  ℕ, eqb, eqb_iff, Bool, true, false, sym, subst, if◌then◌else◌, List, [], ◌∷◌, ◌++◌, Str, All, ◌≡◌,
  ◌≢◌, ◌⊎◌, refl, ap, arith, inl, inr,
}
use android_packages_modules.Statsd.Paths.{segments, last_of}

-- No slash, and the whole path or what follows a slash of it.
abbrev pub IsFileOf : Str → Str → Type 0
IsFileOf path file =
    All (λ c. c ≢ 47) file × ((path ≡ file) ⊎ ((dir : Str) × (path ≡ dir ++ (47 ∷ file))))

-- The file of segments: without others, the path is the first one; else it is after a slash.
abbrev IsLast : Str → Str → List Str → Type 0
IsLast path first [] = All (λ c. c ≢ 47) first × (path ≡ first)
IsLast path first (t ∷ ts) =
    All (λ c. c ≢ 47) (last_of t ts) × ((dir : Str) × (path ≡ dir ++ (47 ∷ last_of t ts)))

after_slash :
    (path first : Str) (others : List Str)
    → IsLast path first others
    → IsLast (47 ∷ path) [] (first ∷ others)
after_slash path first [] (clean, e) = (clean, ([], ap (◌∷◌ 47) e))
after_slash path first (t ∷ ts) (clean, (dir, e)) = (clean, (47 ∷ dir, ap (◌∷◌ 47) e))

one_more :
    (c : ℕ) (path first : Str) (others : List Str)
    → c ≢ 47
    → IsLast path first others
    → IsLast (c ∷ path) (c ∷ first) others
one_more c path first [] h (clean, e) = ((h, clean), ap (◌∷◌ c) e)
one_more c path first (t ∷ ts) h (clean, (dir, e)) = (clean, (c ∷ dir, ap (◌∷◌ c) e))

segments-IsLast : (path : Str) → IsLast path (segments path).0 (segments path).1
segments-IsLast [] = (tt, refl)
segments-IsLast (c ∷ path) = at_slash (segments-IsLast path) (eqb c 47) refl
  where
    rest : Str × List Str
    rest = segments path

    at_slash :
        IsLast path rest.0 rest.1
        → (b : Bool) → eqb c 47 ≡ b
        → let parts : Str × List Str = if b then ([], rest.0 ∷ rest.1) else (c ∷ rest.0, rest.1) in
          IsLast (c ∷ path) parts.0 parts.1
    at_slash later true q =
        let slash : 47 ≡ c = sym ((eqb_iff c 47).0 q) in
        subst (λ d. IsLast (d ∷ path) [] (rest.0 ∷ rest.1)) slash
          (after_slash path rest.0 rest.1 later)
    at_slash later false q =
        one_more c path rest.0 rest.1 (λ e. ground (arith, q, (eqb_iff c 47).1 e)) later

last-IsFileOf :
    (path first : Str) (others : List Str)
    → IsLast path first others
    → IsFileOf path (last_of first others)
last-IsFileOf path first [] (clean, e) = (clean, inl e)
last-IsFileOf path first (t ∷ ts) (clean, found) = (clean, inr found)

abbrev pub last_segment : Str → Str
last_segment path = let parts = segments path in last_of parts.0 parts.1

pub last_segment-IsFileOf : (path : Str) → IsFileOf path (last_segment path)
last_segment-IsFileOf path =
    let parts = segments path in last-IsFileOf path parts.0 parts.1 (segments-IsLast path)
