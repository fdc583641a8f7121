-- ===== src/Handler/Tests/Bitmaps.antt =====
-- Two allocations, the first freed before the second.
use android_packages_modules.Common.{ℕ, pos, ◌≤ℤ◌, List, [], ◌∷◌, All, Any, ok, ◌≡◌, refl, ◌⊎◌}
use android_packages_modules.Handler.World.{Local, wrote_codegen, drew_random}
use android_packages_modules.Handler.Bitmap.{
  BitmapEvent, BitmapMetadata, BitmapAllocationHandlerV1, default_v1, snapshot_atom, on_finished_v1,
}
use android_packages_modules.Handler.Bitmap.Peak.{finally, after, SamePeak, TakenAt, finally-peak}
use android_packages_modules.Handler.Bitmap.Snapshots.{on_finished_v1-writes}
use android_packages_modules.Handler.Tests.Data.{world, world-Takes, task_logging, fresh}

abbrev event : ℕ → ℕ → ℕ → BitmapEvent
event kind size ptr = record {
  type_ = kind;
  width = 4;
  height = 5;
  scaled_width = 0;
  scaled_height = 0;
  pixel_storage_type = 1;
  bitmap_size = size;
  native_ptr = ptr;
  activity_name = [];
}

abbrev events : List BitmapEvent
events = event 0 800 1 ∷ event 1 800 1 ∷ event 0 300 2 ∷ []

peak_example :
    All
      (λ v.
        v.current_total_bitmap_size
        ≤ℤ (finally world (task_logging []) events (fresh default_v1)).max_total_bitmap_size)
      (after world (task_logging []) events (fresh default_v1))
    × (SamePeak (finally world (task_logging []) events (fresh default_v1)) default_v1
        ⊎ Any
            (TakenAt (finally world (task_logging []) events (fresh default_v1)))
            (after world (task_logging []) events (fresh default_v1)))
peak_example = finally-peak world (task_logging []) events (fresh default_v1) refl

abbrev metadata : BitmapMetadata
metadata = record {
  uid = pos 1000;
  width = pos 4;
  height = pos 5;
  pixel_storage_type = pos 1;
  activity_name = [];
}

abbrev ending : Local BitmapAllocationHandlerV1
ending = fresh (record default_v1 {
  bitmaps = (2, metadata) ∷ [];
  bitmap_snapshot_at_max_size = metadata ∷ metadata ∷ [];
})

snapshots_example : on_finished_v1 world ending ≡ (
  ok tt,
  record ending {
    calls =
        wrote_codegen (snapshot_atom (pos 5) (pos 2) metadata)
        ∷ drew_random
        ∷ wrote_codegen (snapshot_atom (pos 5) (pos 1) metadata)
        ∷ wrote_codegen (snapshot_atom (pos 5) (pos 1) metadata)
        ∷ drew_random
        ∷ [];
  },
)
snapshots_example = on_finished_v1-writes world world-Takes ending
