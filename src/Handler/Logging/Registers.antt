-- ===== src/Handler/Logging/Registers.antt =====
-- Which argument positions the call result handler can read.
use android_packages_modules.Common.{
  ℕ, zero, suc, ◌+◌, ◌<◌, ◌^◌, ltb, pos, ◌+ℤ◌, to_unsigned, as_signed, length, get_elem?, Bool,
  true, false, ◌&&◌, none, some, List, [], ◌∷◌, map, All, ok, panicked, traverse, if◌then◌else◌,
  ◌≡◌, refl, arith, Bool-cases, inl, inr,
}
use android_packages_modules.Atom.{Field, int64, new}
use android_packages_modules.Config.Resolved.{ResolvedTask}
use android_packages_modules.Handler.World.{World, Local, write}
use android_packages_modules.Handler.Logging.{
  CallResult, register_field, result_atom, on_result_item,
}

abbrev at : List ℕ → ℕ → ℕ
at [] i = 0
at (x ∷ xs) zero = x
at (x ∷ xs) (suc i) = at xs i

get_elem?-at : (xs : List ℕ) (i : ℕ) → i < length xs → get_elem? xs i ≡ some (at xs i)
get_elem?-at [] i h = ground arith
get_elem?-at (x ∷ xs) zero h = refl
get_elem?-at (x ∷ xs) (suc i) h = get_elem?-at xs i (omega arith)

get_elem?-past : (xs : List ℕ) (i : ℕ) → ltb i (length xs) ≡ false → get_elem? xs i ≡ none
get_elem?-past [] i h = refl
get_elem?-past (x ∷ xs) zero h = ground arith
get_elem?-past (x ∷ xs) (suc i) h = get_elem?-past xs i (ground arith)

-- The value of the argument at a position: the registers start two later.
abbrev pub argument : List ℕ → ℕ → Field
argument regs p = new (int64 (as_signed 63 (at regs (2 + p))))

-- Each position is that of a register.
abbrev pub readable : ℕ → List ℕ → Bool
readable n [] = true
readable n (p ∷ ps) = ltb (2 + p) n && readable n ps

sum_pos : (p : ℕ) → pos 2 +ℤ pos p ≡ pos (2 + p)
unfolding ◌+ℤ◌
sum_pos p = ground arith

register_field-argument :
    (regs : List ℕ) (p : ℕ)
    → 2 + p < 2 ^ 31
    → register_field regs (pos p)
      ≡ (if ltb (2 + p) (length regs) then ok (argument regs p) else panicked)
unfolding register_field to_unsigned
register_field-argument regs p h = rw (sum_pos p) (elim (Bool-cases (ltb (2 + p) (length regs))) [
  | inl e ↦ ground (arith, e, h, get_elem?-at regs (2 + p) (ground arith))
  | inr e ↦ ground (arith, e, h, get_elem?-past regs (2 + p) e)
])

traverse-register_field :
    (regs : List ℕ) (ps : List ℕ)
    → All (λ p. 2 + p < 2 ^ 31) ps
    → traverse (register_field regs) (map pos ps)
      ≡ (if readable (length regs) ps then ok (map (argument regs) ps) else panicked)
unfolding traverse
traverse-register_field regs [] h = refl
traverse-register_field regs (p ∷ ps) h =
    ground (arith, register_field-argument regs p h.0, traverse-register_field regs ps h.1)

-- For a task whose configuration has an atom id that is a u32, and positions that are not negative: if
-- each position is that of a register, the handler makes one write, of an atom with the configured id
-- whose fields are the registers two past the positions, in order, read as i64. Otherwise it panics,
-- and nothing is written.
pub on_result_item-registers :
    {H : Type 0} (w : World) (task : ResolvedTask) (data' : CallResult) (s : Local H)
    → (id : ℕ) (ps : List ℕ) → id < 2 ^ 32
    → task.statsd_logging_config
      ≡ some (record { atom_id = some (pos id); primitive_argument_positions = map pos ps })
    → All (λ p. 2 + p < 2 ^ 31) ps
    → on_result_item w task data' s ≡ (
        if readable (length data'.regs) ps
        then write w (record { atom_id = id; fields = map (argument data'.regs) ps }) s
        else (panicked, s))
unfolding on_result_item result_atom to_unsigned
on_result_item-registers w task data' s id ps hid hc hp =
    rw (hc, traverse-register_field data'.regs ps hp)
      (elim (Bool-cases (readable (length data'.regs) ps)) [
        | inl e ↦ rw e (ground (arith, hid))
        | inr e ↦ rw e refl
      ])
