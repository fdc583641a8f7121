-- ===== src/Strings.antt =====
-- daemon/core/string.rs: text from the byte arrays that BPF programs fill. `c_char` is its byte.
-- `is_utf8` is what `CStr::to_str` checks: the well-formed byte sequences of UTF-8.
pub mod Laws
use android_packages_modules.Common.{
  ℕ, zero, suc, Bool, true, false, ◌&&◌, Option, none, some, List, [], ◌∷◌, Str, is_empty, leb, ltb,
  eqb, if◌then◌else◌, Outcome, ok, err, ◌>>=◌, ◌>>◌, ensure, ok_or, not, no_nul, bad_utf8,
  empty_string,
}

-- What the next byte must be: how many continuation bytes are due, and the range of the first.
abbrev Due : Type 0
Due = ℕ × ℕ × ℕ

abbrev lead : ℕ → Option Due
lead b =
    if ltb b 0x80
    then some (0, 0, 0)
    else if ltb b 0xC2
    then none
    else if ltb b 0xE0
    then some (1, 0x80, 0xBF)
    else if eqb b 0xE0
    then some (2, 0xA0, 0xBF)
    else if eqb b 0xED
    then some (2, 0x80, 0x9F)
    else if ltb b 0xF0
    then some (2, 0x80, 0xBF)
    else if eqb b 0xF0
    then some (3, 0x90, 0xBF)
    else if ltb b 0xF4
    then some (3, 0x80, 0xBF)
    else if eqb b 0xF4
    then some (3, 0x80, 0x8F)
    else none

abbrev next_due : Due → ℕ → Option Due
next_due (zero, lo, hi) b = lead b
next_due (suc n, lo, hi) b = if leb lo b && leb b hi then some (n, 0x80, 0xBF) else none

scan : Option Due → List ℕ → Bool
scan none bs = false
scan (some (zero, lo, hi)) [] = true
scan (some (suc n, lo, hi)) [] = false
scan (some due) (b ∷ bs) = scan (next_due due b) bs

unfoldable pub is_utf8 : List ℕ → Bool
unfolding scan
is_utf8 bs = scan (some (0, 0, 0)) bs

-- `CStr::from_bytes_until_nul`
unfoldable pub until_nul : List ℕ → Option (List ℕ)
until_nul [] = none
until_nul (b ∷ bs) =
    if eqb b 0 then some [] else elim (until_nul bs) [ none ↦ none | some s ↦ some (b ∷ s) ]

unfoldable pub bytes_as_str : List ℕ → Outcome Str
unfolding until_nul
bytes_as_str bytes = do
  string ← ok_or (until_nul bytes) no_nul
  ensure (is_utf8 string) bad_utf8
  ok string

unfoldable pub bytes_as_nonempty_str : List ℕ → Outcome Str
unfolding bytes_as_str
bytes_as_nonempty_str bytes = do
  string ← bytes_as_str bytes
  ensure (not (is_empty string)) empty_string
  ok string
