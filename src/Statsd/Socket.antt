-- ===== src/Statsd/Socket.antt =====
-- `AStatsEvent` and `AStatsEventWriter` of daemon/ffi/statsd/statssocket.rs. The calls of the C library
-- are kept, the last one first; whether an event is obtained and what sending it returns are parameters.
pub mod Fields
pub mod Decoded
use android_packages_modules.Common.{
  ℕ, ℤ, pos, ltb_ℤ, Bool, true, false, List, [], ◌∷◌, Str, Outcome, ok, err, panicked, other,
  statsd_rejected, if◌then◌else◌,
}
use android_packages_modules.Effects.{Eff, ◌>>=◌, ◌>>◌, pure, lift, raise, for_each}
use android_packages_modules.Atom.{
  Value, bool, int32, int64, string, int32_vec, int64_vec, FieldAnnotation, is_uid, Field,
  UnstructuredAtom,
}
use android_packages_modules.Resolver.Manager.{c_string}

pub data EventCall : Type 0 where
  obtain send release : EventCall
  set_atom_id : ℕ → EventCall
  write_bool : Bool → EventCall
  write_int32 write_int64 : ℤ → EventCall
  write_string : Str → EventCall
  write_int32_array write_int64_array : List ℤ → EventCall
  add_bool_annotation : ℕ → Bool → EventCall

abbrev pub Event : Type 0
Event = List EventCall

-- The C library: whether `AStatsEvent_obtain` is not null, the result of `AStatsEvent_write`, and the
-- annotation id that its header defines.
pub record StatsSocket : Type 0 where
  pub obtains : Bool
  pub sent : ℤ
  pub annotation_id_is_uid : ℕ

abbrev pub call : EventCall → Eff Event (Unit {0})
call c event = (ok tt, c ∷ event)

-- The arms of the `match` on a value.
unfoldable pub write_value : Value → Eff Event (Unit {0})
unfolding c_string
write_value (bool value) = call (write_bool value)
write_value (int32 value) = call (write_int32 value)
write_value (int64 value) = call (write_int64 value)
write_value (string value) = lift (c_string value) >>= λ c. call (write_string c)
write_value (int32_vec value) = call (write_int32_array value)
write_value (int64_vec value) = call (write_int64_array value)

module _ (socket : StatsSocket) where
  abbrev pub annotate : FieldAnnotation → Eff Event (Unit {0})
  annotate (is_uid value) = call (add_bool_annotation socket.annotation_id_is_uid value)

  -- The body of the loop over the fields.
  abbrev pub write_field : Field → Eff Event (Unit {0})
  write_field field = write_value field.value >> for_each annotate field.annotations

  -- `AStatsEvent::write`
  unfoldable pub send_event : Eff Event (Unit {0})
  send_event =
      call send >> lift (if ltb_ℤ socket.sent (pos 0) then err (other statsd_rejected) else ok tt)

  -- The end of the event's scope, with its `Drop`.
  abbrev pub released : Outcome (Unit {0}) × Event → Outcome (Unit {0}) × Event
  released (r, event) = (r, release ∷ event)

  -- `AStatsEventWriter::write`
  unfoldable pub write_event : UnstructuredAtom → Outcome (Unit {0}) × Event
  unfolding for_each send_event write_value
  write_event atom =
      if socket.obtains
      then released (
          (for_each write_field atom.fields >> send_event) (set_atom_id atom.atom_id ∷ obtain ∷ []))
      else (panicked, set_atom_id atom.atom_id ∷ obtain ∷ [])
