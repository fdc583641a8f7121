-- ===== src/Statsd/Socket/Fields.antt =====
-- The fields of an atom, read back from the calls that write them.
use android_packages_modules.Common.{
  ℕ, eqb, eqb_iff, Bool, true, false, Option, none, some, List, [], ◌∷◌, ◌++◌, Str, nat_eq,
  contains, All, Any, Outcome, ok, err, panicked, other, Error, embedded_nul, ◌≡◌, ◌≢◌, refl, arith,
  ap, ◌∙◌, Bool-cases, Outcome-cases, inl, inr, if◌then◌else◌,
}
use android_packages_modules.Effects.{for_each, continue}
use android_packages_modules.Atom.{
  Value, bool, int32, int64, string, int32_vec, int64_vec, FieldAnnotation, is_uid, Field,
  UnstructuredAtom,
}
use android_packages_modules.Resolver.Manager.{c_string, c_string_lem}
use android_packages_modules.Statsd.Socket.{
  obtain, send, release, set_atom_id, write_bool, write_int32, write_int64, write_string,
  write_int32_array, write_int64_array, add_bool_annotation, Event, StatsSocket, write_value,
  annotate, write_field,
}

abbrev field_of : Value → List FieldAnnotation → Field
field_of value annotations = record { value = value; annotations = annotations }

-- The atom that the calls build, read from the last call back: annotations belong to the value before
-- them.
abbrev pub decode : ℕ → Event → List FieldAnnotation → List Field → Option UnstructuredAtom
decode uid [] pending fields = none
decode uid (obtain ∷ event) pending fields = none
decode uid (send ∷ event) pending fields = decode uid event pending fields
decode uid (release ∷ event) pending fields = decode uid event pending fields
decode uid (set_atom_id id ∷ event) pending fields = some (record { atom_id = id; fields = fields })
decode uid (write_bool v ∷ event) pending fields =
    decode uid event [] (field_of (bool v) pending ∷ fields)
decode uid (write_int32 v ∷ event) pending fields =
    decode uid event [] (field_of (int32 v) pending ∷ fields)
decode uid (write_int64 v ∷ event) pending fields =
    decode uid event [] (field_of (int64 v) pending ∷ fields)
decode uid (write_string v ∷ event) pending fields =
    decode uid event [] (field_of (string v) pending ∷ fields)
decode uid (write_int32_array v ∷ event) pending fields =
    decode uid event [] (field_of (int32_vec v) pending ∷ fields)
decode uid (write_int64_array v ∷ event) pending fields =
    decode uid event [] (field_of (int64_vec v) pending ∷ fields)
decode uid (add_bool_annotation id v ∷ event) pending fields =
    if eqb id uid then decode uid event (is_uid v ∷ pending) fields else none

-- How often an event was sent.
abbrev pub was_sent : Event → Bool
was_sent [] = false
was_sent (send ∷ event) = true
was_sent (c ∷ event) = was_sent event

-- A string with a NUL byte.
abbrev pub HasNul : Value → Type 0
HasNul (string s) = Any (λ b. b ≡ 0) s
HasNul _ = ⊥

contains-Any : (s : Str) → contains 0 s ≡ true → Any (λ b. b ≡ 0) s
unfolding contains
contains-Any [] e = absurd (cc e)
contains-Any (b ∷ s) e = elim (Bool-cases (eqb b 0)) [
  | inl q ↦ inl ((eqb_iff b 0).0 q)
  | inr q ↦ inr (contains-Any s (rw q at e))
]

Any-contains : (s : Str) → Any (λ b. b ≡ 0) s → contains 0 s ≡ true
unfolding contains
Any-contains [] h = absurd h
Any-contains (b ∷ s) (inl h) = ground (arith, h)
Any-contains (b ∷ s) (inr h) = ground (arith, Any-contains s h)

pub append_nil {ℓ} : {A : Type ℓ} (xs : List A) → xs ++ [] ≡ xs
append_nil [] = refl
append_nil (x ∷ xs) = ap (◌∷◌ x) (append_nil xs)

c_string_err :
    (s : Str) (e : Error) → c_string s ≡ err e → (e ≡ other embedded_nul) × (contains 0 s ≡ true)
unfolding c_string
c_string_err s e q = ground (arith, q)

c_string_ends : (s : Str) → c_string s ≢ panicked
unfolding c_string
c_string_ends s q = ground (arith, q)

module _ (socket : StatsSocket) where
  annotations-decode :
      (notes pending : List FieldAnnotation) (event : Event) (fields : List Field)
      → ((for_each (annotate socket) notes event).0 ≡ ok tt)
        × (decode socket.annotation_id_is_uid
              (for_each (annotate socket) notes event).1
              pending
              fields
            ≡ decode socket.annotation_id_is_uid event (notes ++ pending) fields)
        × (was_sent (for_each (annotate socket) notes event).1 ≡ was_sent event)
  unfolding for_each
  annotations-decode [] pending event fields = (refl, refl, refl)
  annotations-decode (is_uid v ∷ notes) pending event fields =
      let (r, d, w) =
        annotations-decode notes pending (add_bool_annotation socket.annotation_id_is_uid v ∷ event)
          fields in
      (r, ground (arith, d, eqb_iff socket.annotation_id_is_uid socket.annotation_id_is_uid), w)

  -- The value of a field is read back, unless it is a string with a NUL byte.
  abbrev ValueWritten : Value → Event → Outcome (Unit {0}) × Event → Type 0
  ValueWritten value event (ok u, event') =
      ((pending : List FieldAnnotation) (fields : List Field)
        → decode socket.annotation_id_is_uid event' pending fields
          ≡ decode socket.annotation_id_is_uid event [] (field_of value pending ∷ fields))
      × (was_sent event' ≡ was_sent event)
      × (HasNul value → ⊥)
  ValueWritten value event (err e, event') =
      (e ≡ other embedded_nul) × (event' ≡ event) × HasNul value
  ValueWritten value event (panicked, event') = ⊥

  write_value-ValueWritten :
      (value : Value) (event : Event) → ValueWritten value event (write_value value event)
  unfolding write_value
  write_value-ValueWritten (bool v) event = (λ pending fields. refl, refl, λ nul. nul)
  write_value-ValueWritten (int32 v) event = (λ pending fields. refl, refl, λ nul. nul)
  write_value-ValueWritten (int64 v) event = (λ pending fields. refl, refl, λ nul. nul)
  write_value-ValueWritten (int32_vec v) event = (λ pending fields. refl, refl, λ nul. nul)
  write_value-ValueWritten (int64_vec v) event = (λ pending fields. refl, refl, λ nul. nul)
  write_value-ValueWritten (string v) event = elim (Outcome-cases (c_string v)) [
    | inl (t, q) ↦
        let (same, clean) = c_string_lem v t q in
        rw q
          (λ pending fields. rw same refl, refl, λ nul. ground (arith, clean, Any-contains v nul))
    | inr (inl (e, q)) ↦ let (is, nul) = c_string_err v e q in rw q (is, refl, contains-Any v nul)
    | inr (inr q) ↦ absurd (c_string_ends v q)
  ]

  abbrev pub FieldsWritten : List Field → Event → Outcome (Unit {0}) × Event → Type 0
  FieldsWritten fields event (ok u, event') =
      ((rest : List Field)
        → decode socket.annotation_id_is_uid event' [] rest
          ≡ decode socket.annotation_id_is_uid event [] (fields ++ rest))
      × (was_sent event' ≡ was_sent event)
      × All (λ field. HasNul field.value → ⊥) fields
  FieldsWritten fields event (err e, event') =
      (e ≡ other embedded_nul)
      × (was_sent event' ≡ was_sent event)
      × Any (λ field. HasNul field.value) fields
  FieldsWritten fields event (panicked, event') = ⊥

  abbrev OneWritten : Field → Event → Outcome (Unit {0}) × Event → Type 0
  OneWritten field event r = FieldsWritten (field ∷ []) event r

  annotated :
      (field : Field) (event : Event) (r : Outcome (Unit {0}) × Event)
      → ValueWritten field.value event r
      → OneWritten field event
          (continue r.0 (λ u. for_each (annotate socket) field.annotations) r.1)
  annotated field event (ok u, event') (d, w, clean) =
      rw ((annotations-decode field.annotations [] event' []).0) (
        λ rest.
            (annotations-decode field.annotations [] event' rest).1
            ∙ ap (λ notes. decode socket.annotation_id_is_uid event' notes rest)
                (append_nil field.annotations)
            ∙ d field.annotations rest,
        (annotations-decode field.annotations [] event' []).2 ∙ w,
        (clean, tt),
      )
  annotated field event (err e, event') (q, same, nul) = (q, ap was_sent same, inl nul)
  annotated field event (panicked, event') h = absurd h

  joined :
      (field : Field) (fields : List Field) (event event' : Event) (r : Outcome (Unit {0}) × Event)
      → ((rest : List Field)
          → decode socket.annotation_id_is_uid event' [] rest
            ≡ decode socket.annotation_id_is_uid event [] (field ∷ rest))
      → was_sent event' ≡ was_sent event
      → (HasNul field.value → ⊥)
      → FieldsWritten fields event' r
      → FieldsWritten (field ∷ fields) event r
  joined field fields event event' (ok u, event'') d w c (d', w', c') =
      (λ rest. d' rest ∙ d (fields ++ rest), w' ∙ w, (c, c'))
  joined field fields event event' (err e, event'') d w c (q, w', nul) = (q, w' ∙ w, inr nul)
  joined field fields event event' (panicked, event'') d w c h = absurd h

  fields_after :
      (field : Field) (fields : List Field) (event : Event) (r : Outcome (Unit {0}) × Event)
      → OneWritten field event r
      → ((event' : Event)
          → FieldsWritten fields event' (for_each (write_field socket) fields event'))
      → FieldsWritten
          (field ∷ fields)
          event
          (continue r.0 (λ u. for_each (write_field socket) fields) r.1)
  fields_after field fields event (ok u, event') (d, w, c) later =
      joined field fields event event' (for_each (write_field socket) fields event') d w c.0
        (later event')
  fields_after field fields event (err e, event') (q, w, nul) later = (q, w, first nul)
    where
      first : Any (λ f. HasNul f.value) (field ∷ []) → Any (λ f. HasNul f.value) (field ∷ fields)
      first (inl n) = inl n
      first (inr n) = absurd n
  fields_after field fields event (panicked, event') h later = absurd h

  pub fields-FieldsWritten :
      (fields : List Field) (event : Event)
      → FieldsWritten fields event (for_each (write_field socket) fields event)
  unfolding for_each
  fields-FieldsWritten [] event = (λ rest. refl, refl, tt)
  fields-FieldsWritten (field ∷ fields) event =
      fields_after field fields event (write_field socket field event)
        (annotated field event (write_value field.value event)
          (write_value-ValueWritten field.value event))
        (fields-FieldsWritten fields)
