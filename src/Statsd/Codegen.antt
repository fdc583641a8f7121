-- ===== src/Statsd/Codegen.antt =====
-- `CodegenAtomWriter` and the enums of its atoms, of daemon/android/atom.rs. The generated functions
-- `stats_write` are a parameter of the atom's name and the arguments in their order.
pub mod ReadBack
use android_packages_modules.Common.{
  ℕ, ℤ, pos, negsuc, eqb, Bool, List, [], ◌∷◌, Str, Outcome, if◌then◌else◌,
}
use android_packages_modules.Atom
use android_packages_modules.Atom.{
  CodegenAtom, ComponentReport, BindReport, ScaledReport, SnapshotReport,
}

pub data PixelStorageType : Type 0 where
  wrapped_pixel_ref heap ashmem hardware unspecified : PixelStorageType

pub data SnapshotType : Type 0 where
  max_allocation_size random_sample unspecified : SnapshotType

-- The enums of the two bitmap atoms have the same variants.
unfoldable pub convert_to_pixel_storage_type_enum : ℤ → PixelStorageType
convert_to_pixel_storage_type_enum (pos n) =
    if eqb n 0
    then wrapped_pixel_ref
    else if eqb n 1
    then heap
    else if eqb n 2
    then ashmem
    else if eqb n 3
    then hardware
    else PixelStorageType.unspecified
convert_to_pixel_storage_type_enum (negsuc n) = PixelStorageType.unspecified

unfoldable pub convert_to_bitmap_scaled_pixel_storage_type_enum : ℤ → PixelStorageType
convert_to_bitmap_scaled_pixel_storage_type_enum (pos n) =
    if eqb n 0
    then wrapped_pixel_ref
    else if eqb n 1
    then heap
    else if eqb n 2
    then ashmem
    else if eqb n 3
    then hardware
    else PixelStorageType.unspecified
convert_to_bitmap_scaled_pixel_storage_type_enum (negsuc n) = PixelStorageType.unspecified

unfoldable pub convert_to_snapshot_type_enum : ℤ → SnapshotType
convert_to_snapshot_type_enum (pos n) =
    if eqb n 1
    then max_allocation_size
    else if eqb n 2
    then random_sample
    else SnapshotType.unspecified
convert_to_snapshot_type_enum (negsuc n) = SnapshotType.unspecified

pub data Argument : Type 0 where
  number : ℤ → Argument
  text : Str → Argument
  flag : Bool → Argument
  pixel_storage : PixelStorageType → Argument
  snapshot : SnapshotType → Argument

-- The generated modules.
pub data AtomName : Type 0 where
  set_component_enabled_setting_reported disabled_launcher_activity_uids_reported : AtomName
  bind_service_locked_with_bal_flags_reported : AtomName
  bind_service_locked_with_bal_flags_uids_reported android_graphics_bitmap_allocated : AtomName
  android_graphics_bitmap_scaled android_graphics_bitmap_allocation_snapshot : AtomName

-- The call that the `match` makes for an atom.
unfoldable pub stats_call : CodegenAtom → AtomName × List Argument
unfolding convert_to_pixel_storage_type_enum convert_to_snapshot_type_enum
    convert_to_bitmap_scaled_pixel_storage_type_enum
stats_call (Atom.set_component_enabled_setting_reported r) = (
  set_component_enabled_setting_reported,
  text r.package_name
      ∷ text r.class_name
      ∷ number r.new_state
      ∷ text r.calling_package_name
      ∷ flag r.is_launcher_activity
      ∷ [],
)
stats_call (Atom.disabled_launcher_activity_uids_reported calling_uid disabled_activity_uid) = (
  disabled_launcher_activity_uids_reported,
  number calling_uid ∷ number disabled_activity_uid ∷ [],
)
stats_call (Atom.bind_service_locked_with_bal_flags_reported r) = (
  bind_service_locked_with_bal_flags_reported,
  text r.intent_package
      ∷ number r.flags
      ∷ text r.calling_package
      ∷ text r.intent_action
      ∷ text r.intent_component_name_package
      ∷ text r.intent_component_name_class
      ∷ [],
)
stats_call (Atom.bind_service_locked_with_bal_flags_uids_reported binder_uid bindee_uid) =
    (bind_service_locked_with_bal_flags_uids_reported, number binder_uid ∷ number bindee_uid ∷ [])
stats_call (Atom.android_graphics_bitmap_allocated uid width height) =
    (android_graphics_bitmap_allocated, number uid ∷ number width ∷ number height ∷ [])
stats_call (Atom.android_graphics_bitmap_scaled r) = (
  android_graphics_bitmap_scaled,
  number r.uid
      ∷ number r.width
      ∷ number r.height
      ∷ number r.scaled_width
      ∷ number r.scaled_height
      ∷ pixel_storage (convert_to_bitmap_scaled_pixel_storage_type_enum r.pixel_storage_type)
      ∷ text r.activity_name
      ∷ [],
)
stats_call (Atom.android_graphics_bitmap_allocation_snapshot r) = (
  android_graphics_bitmap_allocation_snapshot,
  number r.uid
      ∷ number r.width
      ∷ number r.height
      ∷ pixel_storage (convert_to_pixel_storage_type_enum r.pixel_storage_type)
      ∷ number r.snapshot_id
      ∷ snapshot (convert_to_snapshot_type_enum r.snapshot_type)
      ∷ text r.activity_name
      ∷ [],
)

-- `CodegenAtomWriter::write`
unfoldable pub write_codegen_atom :
    (AtomName × List Argument → Outcome (Unit {0})) → CodegenAtom → Outcome (Unit {0})
unfolding stats_call
write_codegen_atom stats_write atom = stats_write (stats_call atom)
