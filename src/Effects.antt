-- ===== src/Effects.antt =====
-- Stateful code that may fail or panic: what was done before an error stays done, so the state comes
-- back beside the outcome.
use android_packages_modules.Common.{
  List, [], ◌∷◌, Outcome, ok, err, panicked, Error, Bool, true, false,
}

abbrev pub Eff {ℓ} : Type ℓ → Type ℓ → Type ℓ
Eff S A = S → Outcome A × S

module _ {ℓ} {S A : Type ℓ} where
  abbrev pub pure : A → Eff S A
  pure a s = (ok a, s)

  abbrev pub lift : Outcome A → Eff S A
  lift r s = (r, s)

  abbrev pub raise : Error → Eff S A
  raise e s = (err e, s)

module _ {ℓ} {S A B : Type ℓ} where
  abbrev pub continue : Outcome A → (A → Eff S B) → Eff S B
  continue (ok a) f s = f a s
  continue (err e) f s = (err e, s)
  continue panicked f s = (panicked, s)

  infixl 5 ◌>>=◌ ◌>>◌
  abbrev pub ◌>>=◌ : Eff S A → (A → Eff S B) → Eff S B
  ◌>>=◌ m f s = let r = m s in continue r.0 f r.1

  abbrev pub ◌>>◌ : Eff S A → Eff S B → Eff S B
  m >> n = m >>= λ _. n

-- `if c { m }` in a block that goes on
abbrev pub when : {S : Type 0} → Bool → Eff S (Unit {0}) → Eff S (Unit {0})
when true m = m
when false m = λ s. (ok tt, s)

-- `for x in xs { body }` with `?` in the body.
unfoldable pub for_each : {S A : Type 0} → (A → Eff S (Unit {0})) → List A → Eff S (Unit {0})
for_each body [] = λ s. (ok tt, s)
for_each body (x ∷ xs) = body x >> for_each body xs
