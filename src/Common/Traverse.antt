-- ===== src/Common/Traverse.antt =====
-- What a successful `collect::<Result<Vec<_>>>()` says of each element.
use mathlib.Core.Path.{◌≡◌}
use mathlib.Core.List.{List, [], ◌∷◌}
use android_packages_modules.Common.Lists.{All}
use android_packages_modules.Common.Results.{Outcome, ok, traverse, >>=-eq-ok}

-- Two lists of one length whose elements are related in order.
abbrev pub Aligned : {A B : Type 0} → (A → B → Type 0) → List A → List B → Type 0
Aligned R [] [] = Unit
Aligned R (x ∷ xs) (y ∷ ys) = R x y × Aligned R xs ys
Aligned R _ _ = ⊥

pub traverse-All :
    {A B : Type 0} (P : B → Type 0) (f : A → Outcome B)
    → ((x : A) (y : B) → f x ≡ ok y → P y)
    → (xs : List A) (ys : List B) → traverse f xs ≡ ok ys
    → All P ys
unfolding traverse
traverse-All P f each xs [] h = tt
traverse-All P f each [] (y ∷ ys) h = cc
traverse-All P f each (x ∷ xs) (y ∷ ys) h =
    let (a, fx, h1) = >>=-eq-ok (f x) _ h in
    let (as', fxs, h2) = >>=-eq-ok (traverse f xs) _ h1 in
    (each x y (cc (fx, h2)), traverse-All P f each xs ys (cc (fxs, h2)))

pub traverse-Aligned :
    {A B : Type 0} (R : A → B → Type 0) (f : A → Outcome B)
    → ((x : A) (y : B) → f x ≡ ok y → R x y)
    → (xs : List A) (ys : List B) → traverse f xs ≡ ok ys
    → Aligned R xs ys
unfolding traverse
traverse-Aligned R f each [] [] h = tt
traverse-Aligned R f each [] (y ∷ ys) h = cc
traverse-Aligned R f each (x ∷ xs) [] h =
    let (a, fx, h1) = >>=-eq-ok (f x) _ h in
    let (as', fxs, h2) = >>=-eq-ok (traverse f xs) _ h1 in cc h2
traverse-Aligned R f each (x ∷ xs) (y ∷ ys) h =
    let (a, fx, h1) = >>=-eq-ok (f x) _ h in
    let (as', fxs, h2) = >>=-eq-ok (traverse f xs) _ h1 in
    (each x y (cc (fx, h2)), traverse-Aligned R f each xs ys (cc (fxs, h2)))
