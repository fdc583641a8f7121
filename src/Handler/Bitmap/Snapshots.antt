-- ===== src/Handler/Bitmap/Snapshots.antt =====
-- The end of version 1 of the bitmap handler.
use android_packages_modules.Common.{ℤ, pos, List, ◌∷◌, map, values, ok, ◌≡◌}
use android_packages_modules.Handler.World.{World, Local, Call, drew_random, wrote_codegen}
use android_packages_modules.Handler.Writes.{Takes, after_calls, for_each-write_codegen}
use android_packages_modules.Handler.Bitmap.{
  BitmapMetadata, BitmapAllocationHandlerV1, snapshot_atom, write_snapshot, on_finished_v1,
}

abbrev snapshot_calls : ℤ → ℤ → List BitmapMetadata → List Call
snapshot_calls id kind ms = map (λ m. wrote_codegen (snapshot_atom id kind m)) ms

write_snapshot-calls :
    (w : World)
    → Takes w
    → (id kind : ℤ) (ms : List BitmapMetadata) (s : Local BitmapAllocationHandlerV1)
    → write_snapshot w id kind ms s
      ≡ (ok tt, record s { calls = after_calls s.calls (snapshot_calls id kind ms) })
unfolding write_snapshot
write_snapshot-calls w takes id kind ms s =
    for_each-write_codegen w takes (snapshot_atom id kind) ms s

-- When every write succeeds, the end of the handler draws an identifier and writes one atom of type 1
-- for each bitmap of the snapshot at the maximum, in order, then draws another and writes one atom of
-- type 2 for each bitmap that is still live; the handler's state stays as it is.
pub on_finished_v1-writes :
    (w : World)
    → Takes w
    → (s : Local BitmapAllocationHandlerV1)
    → on_finished_v1 w s ≡ (
        let at_max =
          after_calls
            (drew_random ∷ s.calls)
            (snapshot_calls (w.random s.calls) (pos 1) s.own.bitmap_snapshot_at_max_size) in
        let at_end =
          after_calls
            (drew_random ∷ at_max)
            (snapshot_calls (w.random at_max) (pos 2) (values s.own.bitmaps)) in
        (ok tt, record s { calls = at_end }))
unfolding on_finished_v1
on_finished_v1-writes w takes s =
    let first = record s { calls = drew_random ∷ s.calls } in
    let at_max =
      after_calls first.calls
        (snapshot_calls (w.random s.calls) (pos 1) s.own.bitmap_snapshot_at_max_size) in
    rw
      (write_snapshot-calls w takes (w.random s.calls) (pos 1) s.own.bitmap_snapshot_at_max_size
        first)
      (write_snapshot-calls w takes (w.random at_max) (pos 2) (values s.own.bitmaps)
        (record s { calls = drew_random ∷ at_max }))
