-- ===== src/Statsd/Codegen/ReadBack.antt =====
-- The arguments tell the atom.
use android_packages_modules.Common.{
  ℕ, ◌<◌, ℤ, pos, negsuc, Option, none, some, List, [], ◌∷◌, ◌≡◌, ◌⊎◌, refl, arith,
}
use android_packages_modules.Atom
use android_packages_modules.Atom.{
  CodegenAtom, ComponentReport, BindReport, ScaledReport, SnapshotReport,
}
use android_packages_modules.Statsd.Codegen
use android_packages_modules.Statsd.Codegen.{
  PixelStorageType, SnapshotType, convert_to_pixel_storage_type_enum, convert_to_snapshot_type_enum,
  convert_to_bitmap_scaled_pixel_storage_type_enum, wrapped_pixel_ref, heap, ashmem, hardware,
  max_allocation_size, random_sample, Argument, number, text, flag, pixel_storage, snapshot,
  AtomName, stats_call,
}

-- The number of a type, -1 for an unspecified one.
abbrev pub pixel_number : PixelStorageType → ℤ
pixel_number wrapped_pixel_ref = pos 0
pixel_number heap = pos 1
pixel_number ashmem = pos 2
pixel_number hardware = pos 3
pixel_number PixelStorageType.unspecified = negsuc 0

abbrev pub snapshot_number : SnapshotType → ℤ
snapshot_number max_allocation_size = pos 1
snapshot_number random_sample = pos 2
snapshot_number SnapshotType.unspecified = negsuc 0

abbrev pub read_back : AtomName × List Argument → Option CodegenAtom
read_back
      (
        Codegen.set_component_enabled_setting_reported,
        text p ∷ text c ∷ number s ∷ text q ∷ flag l ∷ [],
      ) =
    some (
      Atom.set_component_enabled_setting_reported (record {
        package_name = p;
        class_name = c;
        new_state = s;
        calling_package_name = q;
        is_launcher_activity = l;
      }))
read_back (Codegen.disabled_launcher_activity_uids_reported, number a ∷ number b ∷ []) =
    some (Atom.disabled_launcher_activity_uids_reported a b)
read_back
      (
        Codegen.bind_service_locked_with_bal_flags_reported,
        text i ∷ number f ∷ text c ∷ text a ∷ text p ∷ text k ∷ [],
      ) =
    some (
      Atom.bind_service_locked_with_bal_flags_reported (record {
        intent_package = i;
        flags = f;
        calling_package = c;
        intent_action = a;
        intent_component_name_package = p;
        intent_component_name_class = k;
      }))
read_back (Codegen.bind_service_locked_with_bal_flags_uids_reported, number a ∷ number b ∷ []) =
    some (Atom.bind_service_locked_with_bal_flags_uids_reported a b)
read_back (Codegen.android_graphics_bitmap_allocated, number u ∷ number w ∷ number h ∷ []) =
    some (Atom.android_graphics_bitmap_allocated u w h)
read_back
      (
        Codegen.android_graphics_bitmap_scaled,
        number u ∷ number w ∷ number h ∷ number v ∷ number g ∷ pixel_storage t ∷ text a ∷ [],
      ) =
    some (
      Atom.android_graphics_bitmap_scaled (record {
        uid = u;
        width = w;
        height = h;
        scaled_width = v;
        scaled_height = g;
        pixel_storage_type = pixel_number t;
        activity_name = a;
      }))
read_back
      (
        Codegen.android_graphics_bitmap_allocation_snapshot,
        number u ∷ number w ∷ number h ∷ pixel_storage t ∷ number i ∷ snapshot s ∷ text a ∷ [],
      ) =
    some (
      Atom.android_graphics_bitmap_allocation_snapshot (record {
        uid = u;
        width = w;
        height = h;
        pixel_storage_type = pixel_number t;
        snapshot_id = i;
        snapshot_type = snapshot_number s;
        activity_name = a;
      }))
read_back _ = none

-- A pixel storage type of the atoms' definition, 0 to 3, and a snapshot type, 1 or 2.
abbrev pub IsPixelType : ℤ → Type 0
IsPixelType t = (n : ℕ) × (t ≡ pos n) × (n < 4)

abbrev pub IsSnapshotType : ℤ → Type 0
IsSnapshotType t = (t ≡ pos 1) ⊎ (t ≡ pos 2)

abbrev pub IsSpecified : CodegenAtom → Type 0
IsSpecified (Atom.android_graphics_bitmap_scaled r) = IsPixelType r.pixel_storage_type
IsSpecified (Atom.android_graphics_bitmap_allocation_snapshot r) =
    IsPixelType r.pixel_storage_type × IsSnapshotType r.snapshot_type
IsSpecified _ = Unit

pixel_number-convert :
    (t : ℤ) → IsPixelType t → pixel_number (convert_to_pixel_storage_type_enum t) ≡ t
unfolding convert_to_pixel_storage_type_enum
pixel_number-convert t h = ground (arith, h)

scaled_pixel_number-convert :
    (t : ℤ) → IsPixelType t → pixel_number (convert_to_bitmap_scaled_pixel_storage_type_enum t) ≡ t
unfolding convert_to_bitmap_scaled_pixel_storage_type_enum
scaled_pixel_number-convert t h = ground (arith, h)

snapshot_number-convert :
    (t : ℤ) → IsSnapshotType t → snapshot_number (convert_to_snapshot_type_enum t) ≡ t
unfolding convert_to_snapshot_type_enum
snapshot_number-convert t h = ground (arith, h)

-- The call made for an atom has all that the atom says, each argument in its place: with pixel storage
-- types from 0 to 3 and the snapshot types 1 and 2, the atom is read back from it.
pub read_back-stats_call :
    (atom : CodegenAtom) → IsSpecified atom → read_back (stats_call atom) ≡ some atom
unfolding stats_call
read_back-stats_call (Atom.set_component_enabled_setting_reported r) h = refl
read_back-stats_call (Atom.disabled_launcher_activity_uids_reported a b) h = refl
read_back-stats_call (Atom.bind_service_locked_with_bal_flags_reported r) h = refl
read_back-stats_call (Atom.bind_service_locked_with_bal_flags_uids_reported a b) h = refl
read_back-stats_call (Atom.android_graphics_bitmap_allocated u w g) h = refl
read_back-stats_call (Atom.android_graphics_bitmap_scaled r) h =
    rw (scaled_pixel_number-convert r.pixel_storage_type h) refl
read_back-stats_call (Atom.android_graphics_bitmap_allocation_snapshot r) h =
    rw (pixel_number-convert r.pixel_storage_type h.0, snapshot_number-convert r.snapshot_type h.1)
      refl
