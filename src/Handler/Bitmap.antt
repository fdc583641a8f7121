-- ===== src/Handler/Bitmap.antt =====
-- daemon/core/bpf_handler/bitmap_allocation.rs: reports of bitmap allocations, and the snapshots that
-- version 1 of the handler takes. The map of live bitmaps lists its values in insertion order.
pub mod Peak
pub mod Snapshots
use android_packages_modules.Common
use android_packages_modules.Common.{
  ℕ, ℤ, pos, ◌+ℤ◌, ◌-ℤ◌, ltb_ℤ, in_signed, to_signed, List, [], ◌∷◌, Str, ◌==◌, nat_eq, insert,
  remove, values, Outcome, ok, panicked, ok_or, int_conversion, if◌then◌else◌,
}
use android_packages_modules.Effects.{◌>>=◌, ◌>>◌, pure, lift, for_each}
use android_packages_modules.Strings.{bytes_as_str}
use android_packages_modules.Atom.{
  CodegenAtom, android_graphics_bitmap_allocated, android_graphics_bitmap_scaled,
  android_graphics_bitmap_allocation_snapshot,
}
use android_packages_modules.Config.Resolved.{ResolvedTask}
use android_packages_modules.Handler.World.{
  World, Local, Handling, write_codegen, perform, drew_random,
}

pub record BitmapEvent : Type 0 where
  pub type_ : ℕ
  pub width : ℕ
  pub height : ℕ
  pub scaled_width : ℕ
  pub scaled_height : ℕ
  pub pixel_storage_type : ℕ
  pub bitmap_size : ℕ
  pub native_ptr : ℕ
  pub activity_name : List ℕ

pub record BitmapMetadata : Type 0 where
  pub uid : ℤ
  pub width : ℤ
  pub height : ℤ
  pub pixel_storage_type : ℤ
  pub activity_name : Str

pub record BitmapAllocationHandlerV1 : Type 0 where
  pub bitmaps : List (ℕ × BitmapMetadata)
  pub max_total_bitmap_size : ℤ
  pub current_total_bitmap_size : ℤ
  pub bitmap_snapshot_at_max_size : List BitmapMetadata
  pub activity_name : Str

-- `BitmapAllocationHandlerV1::default`
abbrev pub default_v1 : BitmapAllocationHandlerV1
default_v1 = record {
  bitmaps = [];
  max_total_bitmap_size = pos 0;
  current_total_bitmap_size = pos 0;
  bitmap_snapshot_at_max_size = [];
  activity_name = [];
}

abbrev pub to_i32 : ℕ → Outcome ℤ
to_i32 n = ok_or (to_signed 31 n) int_conversion

-- `BitmapAllocationHandlerV0::on_item`
unfoldable pub on_item_v0 :
    {H : Type 0} → World → ResolvedTask → BitmapEvent → Handling H (Unit {0})
on_item_v0 w task data' = do
  width ← lift (to_i32 data'.width)
  height ← lift (to_i32 data'.height)
  write_codegen w (android_graphics_bitmap_allocated task.resolved_process.uid width height)

abbrev pub Handling1 : Type 0 → Type 0
Handling1 A = Handling BitmapAllocationHandlerV1 A

unfoldable pub metadata_of : ResolvedTask → BitmapEvent → Str → Outcome BitmapMetadata
metadata_of task data' activity_name = Common.◌>>=◌ (to_i32 data'.width) λ width.
    Common.◌>>=◌ (to_i32 data'.height) λ height.
      Common.◌>>=◌ (to_i32 data'.pixel_storage_type) λ pixel_storage_type. ok (record {
        uid = task.resolved_process.uid;
        width = width;
        height = height;
        pixel_storage_type = pixel_storage_type;
        activity_name = activity_name;
      })

-- Sums of i64 panic past the width.
unfoldable pub checked : ℤ → Outcome ℤ
checked z = if in_signed 63 z then ok z else panicked

abbrev pub modify : (BitmapAllocationHandlerV1 → BitmapAllocationHandlerV1) → Handling1 (Unit {0})
modify f s = (ok tt, record s { own = f s.own })

abbrev pub own_of : Handling1 BitmapAllocationHandlerV1
own_of s = (ok s.own, s)

-- The test of the new total against the maximum, and the snapshot.
unfoldable pub take_peak : ℤ → BitmapAllocationHandlerV1 → BitmapAllocationHandlerV1
take_peak total h =
    if ltb_ℤ h.max_total_bitmap_size total
    then record h {
      current_total_bitmap_size = total;
      max_total_bitmap_size = total;
      bitmap_snapshot_at_max_size = values h.bitmaps;
    }
    else record h { current_total_bitmap_size = total }

unfoldable pub on_allocation : World → ResolvedTask → BitmapEvent → Handling1 (Unit {0})
unfolding metadata_of checked take_peak
on_allocation w task data' = do
  self ← own_of
  metadata ← lift (metadata_of task data' self.activity_name)
  write_codegen w (android_graphics_bitmap_allocated metadata.uid metadata.width metadata.height)
  modify (λ h. record h { bitmaps = insert data'.native_ptr metadata h.bitmaps })
  bitmap_size ← lift (ok_or (to_signed 63 data'.bitmap_size) int_conversion)
  total ← lift (checked (self.current_total_bitmap_size +ℤ bitmap_size))
  modify (take_peak total)

unfoldable pub on_deallocation : BitmapEvent → Handling1 (Unit {0})
unfolding checked
on_deallocation data' = do
  self ← own_of
  modify (λ h. record h { bitmaps = remove data'.native_ptr h.bitmaps })
  bitmap_size ← lift (ok_or (to_signed 63 data'.bitmap_size) int_conversion)
  total ← lift (checked (self.current_total_bitmap_size -ℤ bitmap_size))
  modify (λ h. record h { current_total_bitmap_size = total })

unfoldable pub on_activity_start : BitmapEvent → Handling1 (Unit {0})
on_activity_start data' = do
  name ← lift (bytes_as_str data'.activity_name)
  modify (λ h. record h { activity_name = name })

unfoldable pub on_scaled : World → ResolvedTask → BitmapEvent → Handling1 (Unit {0})
on_scaled w task data' = do
  width ← lift (to_i32 data'.width)
  height ← lift (to_i32 data'.height)
  scaled_width ← lift (to_i32 data'.scaled_width)
  scaled_height ← lift (to_i32 data'.scaled_height)
  pixel_storage_type ← lift (to_i32 data'.pixel_storage_type)
  self ← own_of
  write_codegen w (
      android_graphics_bitmap_scaled (record {
        uid = task.resolved_process.uid;
        width = width;
        height = height;
        scaled_width = scaled_width;
        scaled_height = scaled_height;
        pixel_storage_type = pixel_storage_type;
        activity_name = self.activity_name;
      }))

-- `BitmapAllocationHandlerV1::on_item`; the event types are 0 to 3.
unfoldable pub on_item_v1 : World → ResolvedTask → BitmapEvent → Handling1 (Unit {0})
unfolding on_allocation on_deallocation on_activity_start on_scaled
on_item_v1 w task data' =
    if data'.type_ == 0
    then on_allocation w task data'
    else if data'.type_ == 1
    then on_deallocation data'
    else if data'.type_ == 2
    then on_activity_start data'
    else if data'.type_ == 3
    then on_scaled w task data'
    else pure tt

unfoldable pub snapshot_atom : ℤ → ℤ → BitmapMetadata → CodegenAtom
snapshot_atom snapshot_id snapshot_type m = android_graphics_bitmap_allocation_snapshot (record {
  uid = m.uid;
  width = m.width;
  height = m.height;
  pixel_storage_type = m.pixel_storage_type;
  snapshot_id = snapshot_id;
  snapshot_type = snapshot_type;
  activity_name = m.activity_name;
})

-- `rng.gen()`
abbrev pub gen : World → Handling1 ℤ
gen w = perform drew_random (λ cs. ok (w.random cs))

unfoldable pub write_snapshot : World → ℤ → ℤ → List BitmapMetadata → Handling1 (Unit {0})
unfolding snapshot_atom for_each
write_snapshot w id kind = for_each (λ m. write_codegen w (snapshot_atom id kind m))

-- `BitmapAllocationHandlerV1::on_finished`
unfoldable pub on_finished_v1 : World → Handling1 (Unit {0})
unfolding write_snapshot
on_finished_v1 w = do
  self ← own_of
  id ← gen w
  write_snapshot w id (pos 1) self.bitmap_snapshot_at_max_size
  id' ← gen w
  write_snapshot w id' (pos 2) (values self.bitmaps)
