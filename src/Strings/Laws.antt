-- ===== src/Strings/Laws.antt =====
-- What comes back from a byte array that holds a text.
use android_packages_modules.Common.{ℕ, none, some, List, [], ◌∷◌, ◌++◌, All, ◌≡◌, refl, ◌≢◌, arith}
use android_packages_modules.Strings.{until_nul}

abbrev pub NoNul : List ℕ → Type 0
NoNul = All (λ b. b ≢ 0)

pub until_nul_stops : (s rest : List ℕ) → NoNul s → until_nul (s ++ 0 ∷ rest) ≡ some s
unfolding until_nul
until_nul_stops [] rest h = refl
until_nul_stops (b ∷ s) rest h = ground (arith, h.0, until_nul_stops s rest h.1)

pub until_nul-none : (s : List ℕ) → NoNul s → until_nul s ≡ none
unfolding until_nul
until_nul-none [] h = refl
until_nul-none (b ∷ s) h = ground (arith, h.0, until_nul-none s h.1)
