-- ===== src/BpfMap/Raw.antt =====
-- daemon/ffi/bpf/bpf.rs: the checks on what the C functions of the BPF library return. The functions
-- are parameters; `enoent` is `-libc::ENOENT`.
pub mod Refines
use android_packages_modules.Common.{
  ℕ, ℤ, pos, int_eq, ◌==◌, ltb_ℤ, Bool, true, false, not, Option, none, some, List, Str, Outcome,
  ok, err, other, foreign, ◌>>=◌, ensure, bpf_failed, if◌then◌else◌,
}
use android_packages_modules.BpfMap.{Kernel, UpdateMapElemFlags, upsert, insert, update}
use android_packages_modules.Resolver.Manager.{c_string}

-- Calls on the map behind a handle: a status, and the value or key that is written on success.
pub record RawKernel (M : Type 0) : Type 0 where
  pub map_update_elem : List ℕ → List ℕ → ℕ → M → ℤ × M
  pub map_lookup_elem : List ℕ → M → (ℤ × List ℕ) × M
  pub map_get_first_key : M → (ℤ × List ℕ) × M
  pub map_delete_elem : List ℕ → M → ℤ × M

-- `flags as u64`
abbrev pub flag_bits : UpdateMapElemFlags → ℕ
flag_bits upsert = 0
flag_bits insert = 1
flag_bits update = 2

module _ (enoent : ℤ) where
  abbrev pub checked : ℤ → Outcome (Unit {0})
  checked res = ensure (res == pos 0) bpf_failed

  abbrev pub checked_value : ℤ × List ℕ → Outcome (Option (List ℕ))
  checked_value (res, value) =
      if res == enoent
      then ok none
      else if res == pos 0
      then ok (some value)
      else err (other bpf_failed)

  abbrev pub checked_delete : ℤ → Outcome Bool
  checked_delete res =
      if res == enoent then ok false else if res == pos 0 then ok true else err (other bpf_failed)

  -- `bpf_map_update_elem`, `bpf_map_lookup_elem`, `bpf_map_get_first_key` and `bpf_map_delete_elem`
  unfoldable pub kernel_of : {M : Type 0} → RawKernel M → Kernel M
  kernel_of raw = record {
    bpf_map_update_elem = λ key value flags m.
        let r = raw.map_update_elem key value (flag_bits flags) m in (checked r.0, r.1);
    bpf_map_lookup_elem = λ key m. let r = raw.map_lookup_elem key m in (checked_value r.0, r.1);
    bpf_map_get_first_key = λ m. let r = raw.map_get_first_key m in (checked_value r.0, r.1);
    bpf_map_delete_elem = λ key m. let r = raw.map_delete_elem key m in (checked_delete r.0, r.1);
  }

-- `bpf_ring_buffer_discard`, from the C function's result for a path
unfoldable pub bpf_ring_buffer_discard : (Str → ℤ) → Str → Outcome Bool
unfolding c_string
bpf_ring_buffer_discard discard path = c_string path >>= λ c_path.
    let result = discard c_path in
    if ltb_ℤ result (pos 0) then err (other bpf_failed) else ok (result == pos 1)

-- `bpf_perf_event_open`, up to the ownership of the file descriptor
unfoldable pub bpf_perf_event_open : (Str → ℤ → ℤ → Str → ℤ) → Str → ℤ → ℤ → Str → Outcome ℤ
unfolding c_string
bpf_perf_event_open perf_event_open filename offset pid bpf_program_path =
    c_string filename >>= λ c_filename. c_string bpf_program_path >>= λ c_program.
    let fd = perf_event_open c_filename offset pid c_program in
    if ltb_ℤ fd (pos 0) then err (other bpf_failed) else ok fd

-- `bpf_map_open_exclusive_rw`: the status and the handle
unfoldable pub bpf_map_open_exclusive_rw :
    {Handle : Type 0} → (Str → ℤ × Handle) → Str → Outcome Handle
unfolding c_string
bpf_map_open_exclusive_rw open_map path = c_string path >>= λ c_path.
    let opened = open_map c_path in ensure (opened.0 == pos 0) bpf_failed >>= λ u. ok opened.1

-- `BpfRingBuffer::poll`: the status, and the items that the callback has pushed
unfoldable pub poll : {T : Type 0} → ℤ × List T → Outcome (List T)
poll (result, items) = if ltb_ℤ result (pos 0) then err (other bpf_failed) else ok items
