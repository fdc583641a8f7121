-- ===== src/Statsd/Tests.antt =====
-- Two atoms on their way to statsd, and an internal error.
use android_packages_modules.Common.{
  ℕ, pos, true, some, none, List, [], ◌∷◌, codes, ok, ◌≡◌, refl, arith, inr,
}
use android_packages_modules.Atom
use android_packages_modules.Atom.{
  UnstructuredAtom, CodegenAtom, string, int32, new, new_with_annotation, is_uid,
}
use android_packages_modules.Poll.{task_execution_failed}
use android_packages_modules.Statsd.Paths.{InternalError, write_internal_error}
use android_packages_modules.Statsd.Paths.Names.{NamesProgram, NamesMap, write_internal_error-names}
use android_packages_modules.Statsd.Socket.{StatsSocket, write_event}
use android_packages_modules.Statsd.Socket.Decoded.{IsSent, write_event-IsSent}
use android_packages_modules.Statsd.Codegen.{stats_call}
use android_packages_modules.Statsd.Codegen.ReadBack.{read_back, read_back-stats_call}

abbrev socket : StatsSocket
socket = record { obtains = true; sent = pos 1; annotation_id_is_uid = 1 }

abbrev atom : UnstructuredAtom
atom = record {
  atom_id = 900;
  fields = new_with_annotation (int32 (pos 10001)) (is_uid true) ∷ new (string (codes "a.b")) ∷ [];
}

atom_event : IsSent socket atom (write_event socket atom)
atom_event = write_event-IsSent socket atom

abbrev program : List ℕ
program = codes "/sys/fs/bpf/uprobestats/prog_GenericInstrumentation_uprobe_call_detail"

error_named :
    (e : InternalError) × (write_internal_error task_execution_failed
        (pos 3)
        (some program)
        none
        (pos 0)
      ≡ ok e)
    × (e.error_type ≡ task_execution_failed)
    × (e.task_id ≡ pos 3)
    × (e.failure_point ≡ pos 0)
    × NamesProgram (some program) e.bpf_program
    × NamesMap none e.map_path
error_named = write_internal_error-names task_execution_failed (pos 3) (some program) none (pos 0)

abbrev snapshot_atom : CodegenAtom
snapshot_atom = Atom.android_graphics_bitmap_allocation_snapshot (record {
  uid = pos 10001;
  width = pos 640;
  height = pos 480;
  pixel_storage_type = pos 3;
  snapshot_id = pos 8;
  snapshot_type = pos 2;
  activity_name = codes "Main";
})

snapshot_read : read_back (stats_call snapshot_atom) ≡ some snapshot_atom
snapshot_read = read_back-stats_call snapshot_atom ((3, refl, omega arith), inr refl)
