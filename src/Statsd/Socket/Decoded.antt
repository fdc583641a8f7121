-- ===== src/Statsd/Socket/Decoded.antt =====
-- The calls for an atom, read back.
use android_packages_modules.Common.{
  pos, ltb_ℤ, Bool, true, false, some, [], ◌∷◌, nat_eq, All, Any, Outcome, ok, err, panicked, other,
  statsd_rejected, embedded_nul, ◌≡◌, refl, ap, ◌∙◌, Bool-cases, inl, inr, ◌⊎◌, if◌then◌else◌,
}
use android_packages_modules.Effects.{◌>>◌, for_each, continue}
use android_packages_modules.Atom.{UnstructuredAtom}
use android_packages_modules.Statsd.Socket.{
  obtain, set_atom_id, Event, StatsSocket, write_field, send_event, released, write_event,
}
use android_packages_modules.Statsd.Socket.Fields.{
  decode, was_sent, HasNul, append_nil, FieldsWritten, fields-FieldsWritten,
}

module _ (socket : StatsSocket) where
  -- An event that was sent is the atom; one that was not has a string with a NUL byte.
  abbrev pub IsSent : UnstructuredAtom → Outcome (Unit {0}) × Event → Type 0
  IsSent atom (ok u, event) =
      (decode socket.annotation_id_is_uid event [] [] ≡ some atom)
      × (was_sent event ≡ true)
      × All (λ field. HasNul field.value → ⊥) atom.fields
      × (ltb_ℤ socket.sent (pos 0) ≡ false)
  IsSent atom (err e, event) =
      ((e ≡ other embedded_nul)
        × (was_sent event ≡ false)
        × Any (λ field. HasNul field.value) atom.fields)
      ⊎ ((e ≡ other statsd_rejected)
          × (decode socket.annotation_id_is_uid event [] [] ≡ some atom)
          × (was_sent event ≡ true)
          × (ltb_ℤ socket.sent (pos 0) ≡ true))
  IsSent atom (panicked, event) = socket.obtains ≡ false

  send_event-IsSent :
      (atom : UnstructuredAtom) (event : Event)
      → decode socket.annotation_id_is_uid event [] [] ≡ some atom
      → All (λ field. HasNul field.value → ⊥) atom.fields
      → IsSent atom (released socket (send_event socket event))
  unfolding send_event
  send_event-IsSent atom event d clean = elim (Bool-cases (ltb_ℤ socket.sent (pos 0))) [
    | inl q ↦ rw q (inr (refl, d, refl, q))
    | inr q ↦ rw q (d, refl, clean, q)
  ]

  after_fields-IsSent :
      (atom : UnstructuredAtom) (r : Outcome (Unit {0}) × Event)
      → FieldsWritten socket atom.fields (set_atom_id atom.atom_id ∷ obtain ∷ []) r
      → IsSent atom (released socket (continue r.0 (λ u. send_event socket) r.1))
  after_fields-IsSent atom (ok u, event) (d, w, clean) =
      send_event-IsSent atom event
        (d []
          ∙ ap (λ fs. some (record { atom_id = atom.atom_id; fields = fs }))
              (append_nil atom.fields))
        clean
  after_fields-IsSent atom (err e, event) (q, w, nul) = inl (q, w, nul)
  after_fields-IsSent atom (panicked, event) h = absurd h

-- Writing an atom succeeds only if no string of it has a NUL byte and statsd accepts the event, and what is
-- sent then is the atom: read back from the calls, the event has the atom's id and all its fields in
-- order, each with its annotations. It fails in one of two ways: with a string of the atom that has a NUL
-- byte, and nothing sent, or with the whole atom sent and refused by statsd. The only panic is that of an
-- event that is not obtained.
pub write_event-IsSent :
    (socket : StatsSocket) (atom : UnstructuredAtom) → IsSent socket atom (write_event socket atom)
unfolding write_event
write_event-IsSent socket atom = by_obtained socket.obtains refl
  where
    fresh : Event
    fresh = set_atom_id atom.atom_id ∷ obtain ∷ []

    by_obtained :
        (b : Bool)
        → socket.obtains ≡ b
        → IsSent socket atom (
            if b
            then released socket
                ((for_each (write_field socket) atom.fields >> send_event socket) fresh)
            else (panicked, fresh))
    by_obtained true q =
        after_fields-IsSent socket atom _ (fields-FieldsWritten socket atom.fields fresh)
    by_obtained false q = q
