-- ===== src/Statsd/Paths/Names.antt =====
-- What an enum says of the path that it was made from.
use android_packages_modules.Common.{
  ℤ, Option, none, some, List, [], ◌∷◌, Str, codes, list_eq, list_beq, subst, ◌==◌, list_beq_iff,
  lookup, ok, All, ◌≡◌, ◌⊎◌, inl, inr, refl, arith, Bool-cases, Option-cases, sym,
}
use android_packages_modules.Poll.{ErrorType}
use android_packages_modules.Statsd.Paths.Files.{IsFileOf, last_segment, last_segment-IsFileOf}
use android_packages_modules.Statsd.Enums
use android_packages_modules.Statsd.Enums.{BpfProgram, MapPath}
use android_packages_modules.Statsd.Enums.Internal
use android_packages_modules.Statsd.Paths.{
  rsplit_next, program_names, map_names, bpf_program_path_to_enum, bpf_map_path_to_enum,
  to_internal_error_bpf_attached_program, to_internal_error_bpf_map_polled_path, InternalError,
  write_internal_error, or_default, program_field, map_field,
}

-- The file that a variant stands for; some stand for none.
abbrev pub program_file : Internal.BpfProgram → Option Str
program_file Internal.uprobe_stats_bpf_program_unspecified = none
program_file Internal.prog_accessibility_uprobe_accessibility_service_connection =
    some (codes "prog_Accessibility_uprobe_dispatch_gesture")
program_file Internal.prog_accessibility_uprobe_grant_runtime_permission =
    some (codes "prog_Accessibility_uprobe_grant_runtime_permission")
program_file Internal.prog_binder_uprobe_exec_transact_internal =
    some (codes "prog_Binder_uprobe_exec_transact_internal")
program_file Internal.prog_bitmap_allocation_output = none
program_file Internal.prog_bitmap_allocation_uprobe_activity_perform_start =
    some (codes "prog_BitmapAllocation_uprobe_activity_perform_start")
program_file Internal.prog_bitmap_allocation_uprobe_apply_free_function =
    some (codes "prog_BitmapAllocation_uprobe_apply_free_function")
program_file Internal.prog_bitmap_allocation_uprobe_bitmap_creation_for_snapshot =
    some (codes "prog_BitmapAllocation_uprobe_bitmap_creation_for_snapshot")
program_file Internal.prog_bitmap_allocation_uprobe_create_scaled_bitmap =
    some (codes "prog_BitmapAllocation_uprobe_create_scaled_bitmap")
program_file Internal.prog_disruptive_app_uprobe_bind_service_locked =
    some (codes "prog_DisruptiveApp_uprobe_bind_service_locked")
program_file Internal.prog_disruptive_app_uprobe_set_component_enabled_setting =
    some (codes "prog_DisruptiveApp_uprobe_set_component_enabled_setting")
program_file Internal.prog_generic_instrumentation_uprobe_call_detail =
    some (codes "prog_GenericInstrumentation_uprobe_call_detail")
program_file Internal.prog_generic_instrumentation_uprobe_call_timestamp =
    some (codes "prog_GenericInstrumentation_uprobe_call_timestamp")
program_file Internal.prog_keepalive_uprobe_acquire_wake_lock_internal = none
program_file Internal.prog_keepalive_uprobe_release_wake_lock_internal = none

abbrev pub map_file : Internal.MapPath → Option Str
map_file Internal.uprobe_stats_bpf_map_path_unspecified = none
map_file Internal.bpf_map_path_accessibility_output_buf =
    some (codes "map_Accessibility_output_buf")
map_file Internal.bpf_map_path_binder_output_buf = some (codes "map_Binder_output_buf")
map_file Internal.bpf_map_path_bitmap_allocation_output = some (codes "map_BitmapAllocation_output")
map_file Internal.bpf_map_path_disruptive_app_bind_service_locked_output_buf =
    some (codes "map_DisruptiveApp_BindServiceLocked_output_buf")
map_file Internal.bpf_map_path_disruptive_app_component_enabled_setting_output_buf =
    some (codes "map_DisruptiveApp_ComponentEnabledSetting_output_buf")
map_file Internal.bpf_map_path_generic_instrumentation_call_detail_buf =
    some (codes "map_GenericInstrumentation_call_detail_buf")
map_file Internal.bpf_map_path_generic_instrumentation_call_timestamp_buf =
    some (codes "map_GenericInstrumentation_call_timestamp_buf")
map_file Internal.bpf_map_path_keepalive_output_buf = none

-- What holds of every row holds of the one that is found.
lookup-All :
    {V : Type 0} (P : Str → V → Type 0) (name : Str) (rows : List (Str × V)) (v : V)
    → All (λ row. P row.0 row.1) rows
    → lookup name rows ≡ some v
    → P name v
unfolding lookup
lookup-All P name [] v h e = absurd (cc e)
lookup-All P name ((key, w) ∷ rows) v h e = elim (Bool-cases (key == name)) [
  | inl q ↦
      let key_is : key ≡ name = (list_beq_iff key name).0 q in
      let value_is : w ≡ v = ground (arith, rw q at e) in rw (← key_is, ← value_is) h.0
  | inr q ↦ lookup-All P name rows v h.1 (rw q at e)
]

-- The enum tells the path: the unspecified variant where there is no path; else the variant of the
-- path's file, or the unspecified one if no variant stands for that file.
abbrev pub NamesProgram : Option Str → Internal.BpfProgram → Type 0
NamesProgram none program = program ≡ Internal.uprobe_stats_bpf_program_unspecified
NamesProgram (some path) program =
    (file : Str) × IsFileOf path file
    × ((program ≡ Internal.uprobe_stats_bpf_program_unspecified)
        ⊎ (program_file program ≡ some file))
    × ((named : Internal.BpfProgram) → program_file named ≡ some file → program ≡ named)

abbrev pub NamesMap : Option Str → Internal.MapPath → Type 0
NamesMap none map_path = map_path ≡ Internal.uprobe_stats_bpf_map_path_unspecified
NamesMap (some path) map_path =
    (file : Str) × IsFileOf path file
    × ((map_path ≡ Internal.uprobe_stats_bpf_map_path_unspecified)
        ⊎ (map_file map_path ≡ some file))
    × ((named : Internal.MapPath) → map_file named ≡ some file → map_path ≡ named)

program_rows :
    All
      (λ row. program_file (to_internal_error_bpf_attached_program row.1) ≡ some row.0)
      program_names
unfolding to_internal_error_bpf_attached_program
program_rows =
    (refl, (refl, (refl, (refl, (refl, (refl, (refl, (refl, (refl, (refl, (refl, tt)))))))))))

map_rows :
    All (λ row. map_file (to_internal_error_bpf_map_polled_path row.1) ≡ some row.0) map_names
unfolding to_internal_error_bpf_map_polled_path
map_rows = (refl, (refl, (refl, (refl, (refl, (refl, (refl, tt)))))))

-- The value of a table, converted: the default, or it tells the name that was looked up.
value-named :
    {E I : Type 0} (rows : List (Str × E)) (convert : E → I) (file : I → Option Str) (default : E)
    (name : Str)
    → All (λ row. file (convert row.1) ≡ some row.0) rows
    → (convert (or_default default (lookup name rows)) ≡ convert default)
      ⊎ (some name ≡ file (convert (or_default default (lookup name rows))))
value-named rows convert file default name h = elim (Option-cases (lookup name rows)) [
  | inl q ↦ rw q (inl refl)
  | inr (v, q) ↦
      rw q (inr (sym (lookup-All (λ key w. file (convert w) ≡ some key) name rows v h q)))
]

program_of : Str → Internal.BpfProgram
program_of name =
    to_internal_error_bpf_attached_program
      (or_default Enums.uprobe_stats_bpf_program_unspecified (lookup name program_names))

map_of : Str → Internal.MapPath
map_of name =
    to_internal_error_bpf_map_polled_path
      (or_default Enums.uprobe_stats_bpf_map_path_unspecified (lookup name map_names))

-- The file of a variant is in the table, for that variant.
abbrev IsInTable : {E : Type 0} → (Str → E) → E → Option Str → Type 0
IsInTable value_of named none = Unit
IsInTable value_of named (some file) = value_of file ≡ named

program-IsInTable : (named : Internal.BpfProgram) → IsInTable program_of named (program_file named)
unfolding program_of to_internal_error_bpf_attached_program lookup list_beq
program-IsInTable Internal.uprobe_stats_bpf_program_unspecified = tt
program-IsInTable Internal.prog_accessibility_uprobe_accessibility_service_connection = refl
program-IsInTable Internal.prog_accessibility_uprobe_grant_runtime_permission = refl
program-IsInTable Internal.prog_binder_uprobe_exec_transact_internal = refl
program-IsInTable Internal.prog_bitmap_allocation_output = tt
program-IsInTable Internal.prog_bitmap_allocation_uprobe_activity_perform_start = refl
program-IsInTable Internal.prog_bitmap_allocation_uprobe_apply_free_function = refl
program-IsInTable Internal.prog_bitmap_allocation_uprobe_bitmap_creation_for_snapshot = refl
program-IsInTable Internal.prog_bitmap_allocation_uprobe_create_scaled_bitmap = refl
program-IsInTable Internal.prog_disruptive_app_uprobe_bind_service_locked = refl
program-IsInTable Internal.prog_disruptive_app_uprobe_set_component_enabled_setting = refl
program-IsInTable Internal.prog_generic_instrumentation_uprobe_call_detail = refl
program-IsInTable Internal.prog_generic_instrumentation_uprobe_call_timestamp = refl
program-IsInTable Internal.prog_keepalive_uprobe_acquire_wake_lock_internal = tt
program-IsInTable Internal.prog_keepalive_uprobe_release_wake_lock_internal = tt

map-IsInTable : (named : Internal.MapPath) → IsInTable map_of named (map_file named)
unfolding map_of to_internal_error_bpf_map_polled_path lookup list_beq
map-IsInTable Internal.uprobe_stats_bpf_map_path_unspecified = tt
map-IsInTable Internal.bpf_map_path_accessibility_output_buf = refl
map-IsInTable Internal.bpf_map_path_binder_output_buf = refl
map-IsInTable Internal.bpf_map_path_bitmap_allocation_output = refl
map-IsInTable Internal.bpf_map_path_disruptive_app_bind_service_locked_output_buf = refl
map-IsInTable Internal.bpf_map_path_disruptive_app_component_enabled_setting_output_buf = refl
map-IsInTable Internal.bpf_map_path_generic_instrumentation_call_detail_buf = refl
map-IsInTable Internal.bpf_map_path_generic_instrumentation_call_timestamp_buf = refl
map-IsInTable Internal.bpf_map_path_keepalive_output_buf = tt

program_of-NamesProgram :
    (path name : Str) → IsFileOf path name → NamesProgram (some path) (program_of name)
unfolding program_of to_internal_error_bpf_attached_program
program_of-NamesProgram path name is_file = (
  name,
  is_file,
  elim (value-named program_names to_internal_error_bpf_attached_program program_file
      Enums.uprobe_stats_bpf_program_unspecified name program_rows) [
        | inl q ↦ inl q
        | inr q ↦ inr (sym q)
      ],
  λ named e. subst (IsInTable program_of named) e (program-IsInTable named),
)

map_of-NamesMap : (path name : Str) → IsFileOf path name → NamesMap (some path) (map_of name)
unfolding map_of to_internal_error_bpf_map_polled_path
map_of-NamesMap path name is_file = (
  name,
  is_file,
  elim (value-named map_names to_internal_error_bpf_map_polled_path map_file
      Enums.uprobe_stats_bpf_map_path_unspecified name map_rows) [
        | inl q ↦ inl q
        | inr q ↦ inr (sym q)
      ],
  λ named e. subst (IsInTable map_of named) e (map-IsInTable named),
)

program_field-NamesProgram :
    (path : Option Str)
    → (program : Internal.BpfProgram) × (program_field path ≡ ok program)
      × NamesProgram path program
unfolding bpf_program_path_to_enum rsplit_next program_of
program_field-NamesProgram none = (Internal.uprobe_stats_bpf_program_unspecified, refl, refl)
program_field-NamesProgram (some path) =
    let name = last_segment path in
    (program_of name, refl, program_of-NamesProgram path name (last_segment-IsFileOf path))

map_field-NamesMap :
    (path : Option Str)
    → (map_path : Internal.MapPath) × (map_field path ≡ ok map_path) × NamesMap path map_path
unfolding bpf_map_path_to_enum rsplit_next map_of
map_field-NamesMap none = (Internal.uprobe_stats_bpf_map_path_unspecified, refl, refl)
map_field-NamesMap (some path) =
    let name = last_segment path in
    (map_of name, refl, map_of-NamesMap path name (last_segment-IsFileOf path))

-- The atom of an internal error is always made, with the error's type, task and failure point. Its two
-- enums tell the paths: the variant of the file at the end of the path if there is one, and the
-- unspecified variant only if none stands for that file or no path is given.
pub write_internal_error-names :
    (kind : ErrorType) (id : ℤ) (program_path map_path : Option Str) (point : ℤ)
    → (atom : InternalError) × (write_internal_error kind id program_path map_path point ≡ ok atom)
      × (atom.error_type ≡ kind)
      × (atom.task_id ≡ id)
      × (atom.failure_point ≡ point)
      × NamesProgram program_path atom.bpf_program
      × NamesMap map_path atom.map_path
unfolding write_internal_error
write_internal_error-names kind id program_path map_path point =
    let (program, p, np) = program_field-NamesProgram program_path in
    let (path, m, nm) = map_field-NamesMap map_path in
    (
      record {
        error_type = kind;
        task_id = id;
        bpf_program = program;
        map_path = path;
        failure_point = point;
      },
      rw (p, m) refl,
      refl,
      refl,
      refl,
      np,
      nm,
    )
