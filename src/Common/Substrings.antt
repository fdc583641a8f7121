-- ===== src/Common/Substrings.antt =====
-- What the searches in a text decide.
use mathlib.Core.Path.{◌≡◌, refl, ap}
use mathlib.Core.Bool.{true}
use mathlib.Core.Logic.{inl, inr}
use mathlib.Core.List.{[], ◌∷◌, ◌++◌, append_assoc}
use native.Mathlib.Omega.{arith}
use android_packages_modules.Common.Tests.{Bool-cases}
use android_packages_modules.Common.Text.{Str, starts_with, contains_str}

pub starts_with_sound : (s p : Str) → starts_with s p ≡ true → (r : Str) × (s ≡ p ++ r)
unfolding starts_with
starts_with_sound s [] h = (s, refl)
starts_with_sound [] (p ∷ ps) h = cc
starts_with_sound (c ∷ s) (p ∷ ps) h =
    let (r, e) = starts_with_sound s ps (ground arith) in (r, ground arith)

pub starts_with-append : (p r : Str) → starts_with (p ++ r) p ≡ true
unfolding starts_with
starts_with-append [] r = refl
starts_with-append (c ∷ p) r = ground (arith, starts_with-append p r)

pub contains_str_sound :
    (s p : Str) → contains_str s p ≡ true → (u : Str) × (v : Str) × (s ≡ u ++ (p ++ v))
unfolding contains_str
contains_str_sound [] p h = let (r, e) = starts_with_sound [] p h in ([], r, e)
contains_str_sound (c ∷ s) p h = elim (Bool-cases (starts_with (c ∷ s) p)) [
  | inl e ↦ let (r, q) = starts_with_sound (c ∷ s) p e in ([], r, q)
  | inr e ↦ let (u, v, q) = contains_str_sound s p (ground arith) in (c ∷ u, v, ap (◌∷◌ c) q)
]

contains_str_here : (p v : Str) → contains_str (p ++ v) p ≡ true
unfolding contains_str
contains_str_here [] [] = refl
contains_str_here [] (c ∷ v) = refl
contains_str_here (c ∷ p) v = ground (arith, starts_with-append (c ∷ p) v)

pub contains_str-append : (u p v : Str) → contains_str (u ++ (p ++ v)) p ≡ true
unfolding contains_str
contains_str-append [] p v = contains_str_here p v
contains_str-append (c ∷ u) p v = ground (arith, contains_str-append u p v)

-- A text that contains another contains each part of that.
pub contains_str_part :
    (s a p b : Str) → contains_str s (a ++ (p ++ b)) ≡ true → contains_str s p ≡ true
contains_str_part s a p b h =
    let (u, v, e) = contains_str_sound s (a ++ (p ++ b)) h in
    rw (e, append_assoc a (p ++ b) v, append_assoc p b v, ← append_assoc u a (p ++ (b ++ v)))
      (contains_str-append (u ++ a) p (b ++ v))
