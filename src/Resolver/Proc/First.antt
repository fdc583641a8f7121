-- ===== src/Resolver/Proc/First.antt =====
-- Which process `get_pid` finds.
use android_packages_modules.Common.{
  ℕ, ℤ, true, Option, none, some, List, [], ◌∷◌, ◌++◌, Str, list_eq, ◌==◌, list_beq_iff,
  starts_with, starts_with_sound, All, ◌≡◌, refl, arith, Option-cases, Bool-cases, inl, inr, ap,
  ◌||◌,
}
use android_packages_modules.Resolver.Proc.{ProcEntry, parse_i32, pid_of, scan_proc, get_pid}

module _ (from_utf8_lossy : List ℕ → Str) (process_name : Str) where
  -- A directory whose name is the pid and whose command line begins with the process's name.
  abbrev pub Names : ProcEntry → ℤ → Type 0
  Names entry pid =
      (cmdline : List ℕ) × (rest : Str) × (entry.is_dir ≡ true)
      × (entry.cmdline ≡ some cmdline)
      × (from_utf8_lossy cmdline ≡ process_name ++ rest)
      × (parse_i32 entry.file_name ≡ some pid)

  -- An entry that was read and is passed over.
  abbrev pub IsPassed : Option ProcEntry → Type 0
  IsPassed entry =
      (e : ProcEntry) × (entry ≡ some e) × (pid_of from_utf8_lossy process_name e ≡ none)

  append_nil : (s : Str) → s ≡ s ++ []
  append_nil [] = refl
  append_nil (c ∷ s) = ap (◌∷◌ c) (append_nil s)

  begins :
      (cmdline : Str)
      → (cmdline == process_name || starts_with cmdline process_name) ≡ true
      → (rest : Str) × (cmdline ≡ process_name ++ rest)
  begins cmdline h = elim (Bool-cases (cmdline == process_name)) [
    | inl q ↦
        let e : cmdline ≡ process_name = (list_beq_iff cmdline process_name).0 q in
        ([], rw e (append_nil process_name))
    | inr q ↦ starts_with_sound cmdline process_name (ground (arith, q, h))
  ]

  pid_of-Names :
      (entry : ProcEntry) (pid : ℤ)
      → pid_of from_utf8_lossy process_name entry ≡ some pid
      → Names entry pid
  unfolding pid_of
  pid_of-Names entry pid e = elim (Option-cases entry.cmdline) [
    | inl q ↦ absurd (ground (arith, q, e))
    | inr (cmdline, q) ↦
        let test : (from_utf8_lossy cmdline == process_name
              || starts_with (from_utf8_lossy cmdline) process_name)
            ≡ true =
          ground (arith, q, e) in
        let (rest, r) = begins (from_utf8_lossy cmdline) test in
        (cmdline, rest, ground (arith, e), q, r, ground (arith, q, e))
  ]

  abbrev pub Found : List (Option ProcEntry) → ℤ → Type 0
  Found entries pid =
      (before after : List (Option ProcEntry)) × (entry : ProcEntry) × (entries
        ≡ before ++ (some entry ∷ after))
      × All IsPassed before
      × Names entry pid

  scan_proc-Found :
      (entries : List (Option ProcEntry)) (pid : ℤ)
      → scan_proc from_utf8_lossy process_name entries ≡ some pid
      → Found entries pid
  unfolding scan_proc
  scan_proc-Found [] pid h = absurd (cc h)
  scan_proc-Found (none ∷ entries) pid h = absurd (cc h)
  scan_proc-Found (some entry ∷ entries) pid h =
      elim (Option-cases (pid_of from_utf8_lossy process_name entry)) [
        | inr (p, q) ↦ (
          [],
          entries,
          entry,
          refl,
          tt,
          pid_of-Names entry pid (ground (arith, q, rw (q, scan_proc) at h)),
        )
        | inl q ↦
            let (before, after, e, split, passed, names) =
              scan_proc-Found entries pid (rw (q, scan_proc) at h) in
            (
              some entry ∷ before,
              after,
              e,
              ap (◌∷◌ (some entry)) split,
              ((entry, refl, q), passed),
              names,
            )
      ]

-- The pid that is found is that of the first entry of /proc that qualifies: all before it are readable
-- and do not, and it is a directory named by the pid, of a process whose command line begins with the
-- name asked for.
pub get_pid-Found :
    (from_utf8_lossy : List ℕ → Str) (process_name : Str) (entries : List (Option ProcEntry))
    (pid : ℤ)
    → get_pid from_utf8_lossy process_name (some entries) ≡ some pid
    → Found from_utf8_lossy process_name entries pid
unfolding get_pid
get_pid-Found from_utf8_lossy process_name entries pid h =
    scan_proc-Found from_utf8_lossy process_name entries pid h
