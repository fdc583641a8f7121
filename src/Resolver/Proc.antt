-- ===== src/Resolver/Proc.antt =====
-- `get_pid` of daemon/android/process.rs. The entries of /proc and the lossy conversion of bytes to
-- text are parameters; an entry that cannot be read is `none`.
pub mod First
use android_packages_modules.Common.{
  ℕ, ◌+◌, ◌-◌, ◌*◌, ◌^◌, ltb, leb, eqb, ℤ, pos, negsuc, Bool, true, false, ◌||◌, ◌&&◌, Option, none,
  some, List, [], ◌∷◌, Str, list_eq, ◌==◌, starts_with, if◌then◌else◌,
}
use android_packages_modules.Strings.{is_utf8}

-- The decimal digits of `str::parse`, after those read so far.
unfoldable pub digits : ℕ → Str → Option ℕ
digits n [] = some n
digits n (c ∷ cs) = if leb 48 c && leb c 57 then digits (n * 10 + (c - 48)) cs else none

abbrev digits_of : Str → Option ℕ
digits_of [] = none
digits_of (c ∷ cs) = digits 0 (c ∷ cs)

abbrev positive : Option ℕ → Option ℤ
positive none = none
positive (some n) = if ltb n (2 ^ 31) then some (pos n) else none

abbrev negative : Option ℕ → Option ℤ
negative none = none
negative (some n) =
    if eqb n 0 then some (pos 0) else if leb n (2 ^ 31) then some (negsuc (n - 1)) else none

-- `parse::<i32>`
unfoldable pub parse_i32 : Str → Option ℤ
unfolding digits
parse_i32 [] = none
parse_i32 (c ∷ cs) =
    if eqb c 45
    then negative (digits_of cs)
    else if eqb c 43
    then positive (digits_of cs)
    else positive (digits_of (c ∷ cs))

pub record ProcEntry : Type 0 where
  pub is_dir : Bool
  pub file_name : List ℕ
  pub cmdline : Option (List ℕ)  -- what reading the file `cmdline` in it gives

module _ (from_utf8_lossy : List ℕ → Str) (process_name : Str) where
  -- The body of the loop.
  unfoldable pub pid_of : ProcEntry → Option ℤ
  unfolding parse_i32 starts_with
  pid_of entry =
      if entry.is_dir
      then elim entry.cmdline [
        | none ↦ none
        | some cmdline_bytes ↦
            let cmdline = from_utf8_lossy cmdline_bytes in
            if cmdline == process_name || starts_with cmdline process_name
            then (if is_utf8 entry.file_name then parse_i32 entry.file_name else none)
            else none
      ]
      else none

  -- The loop over the entries, which an unreadable entry ends.
  unfoldable pub scan_proc : List (Option ProcEntry) → Option ℤ
  unfolding pid_of
  scan_proc [] = none
  scan_proc (none ∷ entries) = none
  scan_proc (some entry ∷ entries) = elim (pid_of entry) [
    | some pid ↦ some pid
    | none ↦ scan_proc entries
  ]

  unfoldable pub get_pid : Option (List (Option ProcEntry)) → Option ℤ
  unfolding scan_proc
  get_pid none = none
  get_pid (some entries) = scan_proc entries
