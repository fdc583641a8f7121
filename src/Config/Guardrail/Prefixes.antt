-- ===== src/Config/Guardrail/Prefixes.antt =====
-- What the prefix tests of guardrail.rs decide.
use mathlib.Core.List.{append-nil, append_assoc}
use android_packages_modules.Common.{
  true, List, [], ◌∷◌, ◌++◌, Str, codes, starts_with, starts_with_sound, starts_with-append,
  list_beq_iff, ◌==◌, list_eq, ◌≡◌, sym, ◌∙◌, inl, inr, arith, Bool-cases,
}
use android_packages_modules.Config.Guardrail.{matches_prefix, is_method_allowed}

-- What follows an allowed prefix: nothing, or a parameter list, a member or an inner class.
pub data IsBoundary : Str → Type 0 where
  at_end : IsBoundary []
  at_parameters : (r : Str) → IsBoundary (b'(' ∷ r)
  at_member : (r : Str) → IsBoundary (b'.' ∷ r)
  at_inner_class : (r : Str) → IsBoundary (b'$' ∷ r)

-- A method of the allowlist: a prefix of the list and then a boundary.
pub data IsListed (full : Str) : List Str → Type 0 where
  here :
      {prefix rest : Str} {ps : List Str}
      → IsBoundary rest
      → full ≡ prefix ++ rest
      → IsListed full (prefix ∷ ps)
  there : {prefix : Str} {ps : List Str} → IsListed full ps → IsListed full (prefix ∷ ps)

matches_after :
    (full prefix mark : Str)
    → starts_with full (prefix ++ mark) ≡ true
    → (r : Str) × (full ≡ prefix ++ (mark ++ r))
matches_after full prefix mark h =
    let (r, e) = starts_with_sound full (prefix ++ mark) h in (r, e ∙ append_assoc prefix mark r)

IsListed-of_match :
    (full prefix : Str) (ps : List Str)
    → matches_prefix full prefix ≡ true
    → IsListed full (prefix ∷ ps)
unfolding matches_prefix
IsListed-of_match full prefix ps h = elim (Bool-cases (full == prefix)) [
  | inl e ↦ here at_end ((list_beq_iff full prefix).0 e ∙ sym (append-nil prefix))
  | inr e ↦ elim (Bool-cases (starts_with full (prefix ++ codes "("))) [
    | inl e1 ↦ let (r, q) = matches_after full prefix (codes "(") e1 in here (at_parameters r) q
    | inr e1 ↦ elim (Bool-cases (starts_with full (prefix ++ codes "."))) [
      | inl e2 ↦ let (r, q) = matches_after full prefix (codes ".") e2 in here (at_member r) q
      | inr e2 ↦
          let (r, q) = matches_after full prefix (codes "$") (ground arith) in
          here (at_inner_class r) q
    ]
  ]
]

pub is_method_allowed-IsListed :
    (full : Str) (ps : List Str) → is_method_allowed full ps ≡ true → IsListed full ps
unfolding is_method_allowed
is_method_allowed-IsListed full [] h = cc
is_method_allowed-IsListed full (p ∷ ps) h = elim (Bool-cases (matches_prefix full p)) [
  | inl e ↦ IsListed-of_match full p ps e
  | inr e ↦ there (is_method_allowed-IsListed full ps (ground arith))
]

starts_with-mark :
    (full prefix mark r : Str)
    → full ≡ prefix ++ (mark ++ r)
    → starts_with full (prefix ++ mark) ≡ true
starts_with-mark full prefix mark r e =
    rw (e, ← append_assoc prefix mark r) (starts_with-append (prefix ++ mark) r)

matches_at_boundary :
    (full prefix : Str) {rest : Str}
    → IsBoundary rest
    → full ≡ prefix ++ rest
    → matches_prefix full prefix ≡ true
unfolding matches_prefix
matches_at_boundary full prefix at_end e =
    ground (arith, (list_beq_iff full prefix).1 (e ∙ append-nil prefix))
matches_at_boundary full prefix (at_parameters r) e =
    ground (arith, starts_with-mark full prefix (codes "(") r e)
matches_at_boundary full prefix (at_member r) e =
    ground (arith, starts_with-mark full prefix (codes ".") r e)
matches_at_boundary full prefix (at_inner_class r) e =
    ground (arith, starts_with-mark full prefix (codes "$") r e)

pub IsListed-is_method_allowed :
    (full : Str) {ps : List Str} → IsListed full ps → is_method_allowed full ps ≡ true
unfolding is_method_allowed
IsListed-is_method_allowed full (here {prefix} b e) =
    ground (arith, matches_at_boundary full prefix b e)
IsListed-is_method_allowed full (there l) = ground (arith, IsListed-is_method_allowed full l)
