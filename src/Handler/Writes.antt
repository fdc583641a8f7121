-- ===== src/Handler/Writes.antt =====
-- Loops that write one atom for each element, in a world that takes every atom.
use android_packages_modules.Config.Resolved.{Duration, as_millis}
use android_packages_modules.Common.{
  ◌<◌, ◌^◌, pos, to_signed, some, List, [], ◌∷◌, map, Outcome, ok, ◌≡◌, refl, arith, All,
}
use android_packages_modules.Effects.{for_each, ◌>>=◌, lift}
use android_packages_modules.Atom.{CodegenAtom, UnstructuredAtom}
use android_packages_modules.Handler.World.{
  World, Local, Call, Calls, wrote, wrote_codegen, write, write_codegen,
}

-- The milliseconds of a u64 of nanoseconds are an i64.
pub to_signed-as_millis :
    (d : Duration) → d < 2 ^ 64 → to_signed 63 (as_millis d) ≡ some (pos (as_millis d))
unfolding to_signed
to_signed-as_millis d h = ground arith

-- Every write succeeds.
abbrev pub Takes : World → Type 0
Takes w = (cs : Calls) (a : CodegenAtom) → w.write_codegen cs a ≡ ok tt

abbrev pub TakesUnstructured : World → Type 0
TakesUnstructured w = (cs : Calls) (a : UnstructuredAtom) → w.write cs a ≡ ok tt

-- `ys` in front of `zs`, reversed: the newest call comes first.
abbrev pub after_calls : Calls → List Call → Calls
after_calls cs [] = cs
after_calls cs (c ∷ new) = after_calls (c ∷ cs) new

module _ {H A : Type 0} (w : World) where
  pub for_each-write_codegen :
      Takes w
      → (f : A → CodegenAtom) (xs : List A) (s : Local H)
      → for_each (λ x. write_codegen w (f x)) xs s
        ≡ (ok tt, record s { calls = after_calls s.calls (map (λ x. wrote_codegen (f x)) xs) })
  unfolding for_each
  for_each-write_codegen takes f [] s = refl
  for_each-write_codegen takes f (x ∷ xs) s =
      rw (takes s.calls (f x))
        (for_each-write_codegen takes f xs (record s { calls = wrote_codegen (f x) ∷ s.calls }))

  pub for_each-write :
      TakesUnstructured w
      → (f : A → Outcome UnstructuredAtom) (g : A → UnstructuredAtom) (xs : List A) (s : Local H)
      → All (λ x. f x ≡ ok (g x)) xs
      → for_each (λ x. lift (f x) >>= λ atom. write w atom) xs s
        ≡ (ok tt, record s { calls = after_calls s.calls (map (λ x. wrote (g x)) xs) })
  unfolding for_each
  for_each-write takes f g [] s h = refl
  for_each-write takes f g (x ∷ xs) s h =
      rw (h.0, takes s.calls (g x))
        (for_each-write takes f g xs (record s { calls = wrote (g x) ∷ s.calls }) h.1)
