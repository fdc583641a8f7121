-- ===== src/Config/Flags/Gates.antt =====
-- Which flags decide on a BPF program or map.
use android_packages_modules.Common.{
  Bool, true, Str, codes, contains_str, contains_str_part, ◌≡◌, refl, arith, Bool-cases, inl, inr,
}
use android_packages_modules.Config.Flags.{Flags, is_bpf_file_enabled}

scaled_is_bitmap :
    (name : Str)
    → contains_str name (codes "prog_BitmapAllocation_uprobe_create_scaled_bitmap") ≡ true
    → contains_str name (codes "BitmapAllocation") ≡ true
scaled_is_bitmap name h =
    contains_str_part name (codes "prog_") (codes "BitmapAllocation")
      (codes "_uprobe_create_scaled_bitmap") h

-- No name is gated by the flag for scaled bitmaps: its value never changes the answer.
pub scaled_flag_unused :
    (f : Flags) (b : Bool) (name : Str)
    → is_bpf_file_enabled (record f { enable_bitmap_scaled_instrumentation = b }) name
      ≡ is_bpf_file_enabled f name
unfolding is_bpf_file_enabled
scaled_flag_unused f b name = elim (Bool-cases (contains_str name (codes "BitmapAllocation"))) [
  | inl e ↦ rw e refl
  | inr e ↦
      elim (Bool-cases
        (contains_str name (codes "prog_BitmapAllocation_uprobe_create_scaled_bitmap"))) [
          | inl s ↦ ground (arith, scaled_is_bitmap name s)
          | inr s ↦ rw s refl
        ]
]
