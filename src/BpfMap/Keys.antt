-- ===== src/BpfMap/Keys.antt =====
-- Which keys and values survive the way through the map's C layout.
use android_packages_modules.Common.{
  ℕ, zero, suc, ◌-◌, ◌≤◌, ◌<◌, true, List, [], ◌∷◌, ◌++◌, Str, take, replicate, length, ◌≡◌, refl,
  ap, arith,
}
use android_packages_modules.Strings.{is_utf8, bytes_as_str}
use android_packages_modules.Strings.Laws.{NoNul, until_nul_stops, until_nul-none}
use android_packages_modules.BpfMap.{copy_into, to_c_key, from_c_key, to_c_value, from_c_value}

zeros : (n : ℕ) → copy_into n [] ≡ replicate n 0
unfolding copy_into
zeros zero = refl
zeros (suc n) = ap (◌∷◌ 0) (zeros n)

copy_into_lem : (n : ℕ) (xs : List ℕ) → copy_into n xs ≡ take n xs ++ replicate (n - length xs) 0
unfolding copy_into
copy_into_lem zero xs = let e : 0 - length xs ≡ 0 = omega arith in rw e refl
copy_into_lem (suc n) [] =
    let e : n - 0 ≡ n = omega arith in
    let e' : suc n - 0 ≡ suc n = omega arith in rw e' (ap (◌∷◌ 0) (zeros n))
copy_into_lem (suc n) (x ∷ xs) =
    let e : suc n - suc (length xs) ≡ n - length xs = omega arith in
    rw e (ap (◌∷◌ x) (copy_into_lem n xs))

length-copy_into : (n : ℕ) (xs : List ℕ) → length (copy_into n xs) ≡ n
unfolding copy_into
length-copy_into zero xs = refl
length-copy_into (suc n) [] = omega (arith, length-copy_into n [])
length-copy_into (suc n) (x ∷ xs) = omega (arith, length-copy_into n xs)

take_short : (n : ℕ) (xs : List ℕ) → length xs ≤ n → take n xs ≡ xs
take_short zero [] h = refl
take_short zero (x ∷ xs) h = absurd (omega arith)
take_short (suc n) [] h = refl
take_short (suc n) (x ∷ xs) h = ap (◌∷◌ x) (take_short n xs (omega arith))

length-take : (n : ℕ) (xs : List ℕ) → n ≤ length xs → length (take n xs) ≡ n
length-take zero xs h = refl
length-take (suc n) [] h = absurd (omega arith)
length-take (suc n) (x ∷ xs) h = omega (arith, length-take n xs (omega arith))

NoNul-take : (n : ℕ) (xs : List ℕ) → NoNul xs → NoNul (take n xs)
NoNul-take zero xs h = tt
NoNul-take (suc n) [] h = tt
NoNul-take (suc n) (x ∷ xs) h = (h.0, NoNul-take n xs h.1)

ends_in_nul : (s : Str) (n : ℕ) → length s < n → (rest : List ℕ) × (copy_into n s ≡ s ++ 0 ∷ rest)
unfolding copy_into
ends_in_nul s zero h = absurd (omega arith)
ends_in_nul [] (suc n) h = (copy_into n [], refl)
ends_in_nul (x ∷ s) (suc n) h =
    let (rest, e) = ends_in_nul s n (omega arith) in (rest, ap (◌∷◌ x) e)

fills : (s : Str) (n : ℕ) → n ≤ length s → copy_into n s ≡ take n s
unfolding copy_into
fills s zero h = refl
fills [] (suc n) h = absurd (omega arith)
fills (x ∷ s) (suc n) h = ap (◌∷◌ x) (fills s n (omega arith))

-- A key has the size of the C array, whatever the name.
pub length-to_c_key : (s : Str) → length (to_c_key s) ≡ 128
unfolding to_c_key
length-to_c_key s = length-copy_into 128 s

-- An interface name of fewer than 128 bytes, UTF-8 and with no NUL, is read back as it was written.
pub from_c_key-to_c_key :
    (s : Str) → length s < 128 → NoNul s → is_utf8 s ≡ true → from_c_key (to_c_key s) ≡ s
unfolding from_c_key to_c_key bytes_as_str
from_c_key-to_c_key s short clean valid =
    let (rest, e) = ends_in_nul s 128 short in rw e (ground (arith, until_nul_stops s rest clean))

-- A name of 128 bytes or more and with no NUL is read back as the empty name.
pub from_c_key-to_c_key_long : (s : Str) → 128 ≤ length s → NoNul s → from_c_key (to_c_key s) ≡ []
unfolding from_c_key to_c_key bytes_as_str
from_c_key-to_c_key_long s long clean =
    rw (fills s 128 long) (ground (arith, until_nul-none (take 128 s) (NoNul-take 128 s clean)))

-- The method ids of an interface are read back padded with zeros to ten; past ten they are lost.
pub from_c_value-to_c_value :
    (ids : List ℕ) → from_c_value (to_c_value ids) ≡ take 10 ids ++ replicate (10 - length ids) 0
unfolding from_c_value to_c_value
from_c_value-to_c_value ids = copy_into_lem 10 ids
