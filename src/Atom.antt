-- ===== src/Atom.antt =====
-- daemon/core/atom.rs: what is written to statsd.
use android_packages_modules.Common.{ℕ, ℤ, Bool, List, [], ◌∷◌, Str}

pub data FieldAnnotation : Type 0 where
  is_uid : Bool → FieldAnnotation

pub data Value : Type 0 where
  bool : Bool → Value
  int32 int64 : ℤ → Value
  string : Str → Value
  int32_vec int64_vec : List ℤ → Value

pub record Field : Type 0 where
  pub value : Value
  pub annotations : List FieldAnnotation

-- `Field::new`
abbrev pub new : Value → Field
new v = record { value = v; annotations = [] }

abbrev pub new_with_annotation : Value → FieldAnnotation → Field
new_with_annotation v a = record { value = v; annotations = a ∷ [] }

pub record UnstructuredAtom : Type 0 where
  pub atom_id : ℕ
  pub fields : List Field

pub record ComponentReport : Type 0 where
  pub package_name : Str
  pub class_name : Str
  pub new_state : ℤ
  pub calling_package_name : Str
  pub is_launcher_activity : Bool

pub record BindReport : Type 0 where
  pub intent_package : Str
  pub flags : ℤ
  pub calling_package : Str
  pub intent_action : Str
  pub intent_component_name_package : Str
  pub intent_component_name_class : Str

pub record ScaledReport : Type 0 where
  pub uid : ℤ
  pub width : ℤ
  pub height : ℤ
  pub scaled_width : ℤ
  pub scaled_height : ℤ
  pub pixel_storage_type : ℤ
  pub activity_name : Str

pub record SnapshotReport : Type 0 where
  pub uid : ℤ
  pub width : ℤ
  pub height : ℤ
  pub pixel_storage_type : ℤ
  pub snapshot_id : ℤ
  pub snapshot_type : ℤ
  pub activity_name : Str

-- `CodegenAtom`; a variant with many fields has them in a record.
pub data CodegenAtom : Type 0 where
  set_component_enabled_setting_reported : ComponentReport → CodegenAtom
  disabled_launcher_activity_uids_reported : ℤ → ℤ → CodegenAtom
  bind_service_locked_with_bal_flags_reported : BindReport → CodegenAtom
  bind_service_locked_with_bal_flags_uids_reported : ℤ → ℤ → CodegenAtom
  android_graphics_bitmap_allocated : ℤ → ℤ → ℤ → CodegenAtom
  android_graphics_bitmap_scaled : ScaledReport → CodegenAtom
  android_graphics_bitmap_allocation_snapshot : SnapshotReport → CodegenAtom
