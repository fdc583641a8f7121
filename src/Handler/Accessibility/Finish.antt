-- ===== src/Handler/Accessibility/Finish.antt =====
-- The end of the accessibility handler: it reports every grant, and no timestamp is too large.
use android_packages_modules.Common.{
  ◌<◌, ◌^◌, ℤ, true, pos, List, [], ◌∷◌, map, All, All-append, values, traverse, ok, ◌≡◌, refl,
  subst, sym, arith,
}
use android_packages_modules.Atom.{
  UnstructuredAtom, int32, int64, string, int32_vec, int64_vec, is_uid, new, new_with_annotation,
}
use android_packages_modules.Config.Resolved.{Duration, as_millis}
use android_packages_modules.Handler.World.{World, Local, wrote}
use android_packages_modules.Handler.Writes.{
  TakesUnstructured, to_signed-as_millis, after_calls, for_each-write,
}
use android_packages_modules.Handler.Accessibility.{
  Event, AccessibilityHandler, AccessibilityRuntimePermissionGrant,
  atom_id_accessibility_runtime_permission_grant, millis_i64, grant_atom, insert_desc, sort_desc,
  sort_all, all_grants, associate_events, on_finished,
}
use android_packages_modules.Handler.Accessibility.Associate.{
  reports, calls_before, associate_events-reports,
}

-- The kernel's clock is a u64 of nanoseconds.
abbrev pub IsTimed : Event → Type 0
IsTimed e = e.timestamp < 2 ^ 64

abbrev pub AreTimed : List (ℤ × List Event) → Type 0
AreTimed events = All (λ p. All IsTimed p.1) events

abbrev GrantFits : AccessibilityRuntimePermissionGrant → Type 0
GrantFits g = (g.timestamp < 2 ^ 64) × All (λ c. c.1 < 2 ^ 64) g.preceding_a11y_calls

-- The atom of a grant, with every time in milliseconds.
unfoldable pub report_atom : AccessibilityRuntimePermissionGrant → UnstructuredAtom
report_atom g = record {
  atom_id = atom_id_accessibility_runtime_permission_grant;
  fields =
      new_with_annotation (int32 g.uid) (is_uid true)
      ∷ new (string g.permission_name)
      ∷ new (int64 (pos (as_millis g.timestamp)))
      ∷ new (int32_vec (map (λ c. c.0) g.preceding_a11y_calls))
      ∷ new (int64_vec (map (λ c. pos (as_millis c.1)) g.preceding_a11y_calls))
      ∷ [];
}

millis_all :
    (cs : List (ℤ × Duration))
    → All (λ c. c.1 < 2 ^ 64) cs
    → traverse (λ c. millis_i64 c.1) cs ≡ ok (map (λ c. pos (as_millis c.1)) cs)
unfolding traverse
millis_all [] h = refl
millis_all (c ∷ cs) h = rw (to_signed-as_millis c.1 h.0, millis_all cs h.1) refl

grant_atom-report :
    (g : AccessibilityRuntimePermissionGrant) → GrantFits g → grant_atom g ≡ ok (report_atom g)
unfolding grant_atom report_atom
grant_atom-report g h =
    rw (to_signed-as_millis g.timestamp h.0, millis_all g.preceding_a11y_calls h.1) refl

insert_desc-IsTimed :
    (e : Event) (es : List Event) → IsTimed e → All IsTimed es → All IsTimed (insert_desc e es)
unfolding insert_desc
insert_desc-IsTimed e [] h hs = (h, tt)
insert_desc-IsTimed e (x ∷ es) h hs = ground (arith, insert_desc-IsTimed e es h hs.1)

sort_desc-IsTimed : (es : List Event) → All IsTimed es → All IsTimed (sort_desc es)
unfolding sort_desc
sort_desc-IsTimed [] h = tt
sort_desc-IsTimed (e ∷ es) h = insert_desc-IsTimed e (sort_desc es) h.0 (sort_desc-IsTimed es h.1)

calls_before-fit :
    (d : Duration) (es : List Event) → All IsTimed es → All (λ c. c.1 < 2 ^ 64) (calls_before d es)
unfolding calls_before
calls_before-fit d [] h = tt
calls_before-fit d (e ∷ es) h = ground (arith, calls_before-fit d es h.1)

reports-fit : (es : List Event) → All IsTimed es → All GrantFits (reports es)
unfolding reports
reports-fit [] h = tt
reports-fit (e ∷ es) h = ground (arith, reports-fit es h.1, calls_before-fit e.timestamp es h.1)

all_grants-fit :
    (m : List (ℤ × List Event)) → AreTimed m → All GrantFits (all_grants (values (sort_all m)))
unfolding all_grants
all_grants-fit [] h = tt
all_grants-fit ((uid, es) ∷ m) h =
    All-append GrantFits (associate_events (sort_desc es)) (all_grants (values (sort_all m)))
      (subst (All GrantFits) (sym (associate_events-reports (sort_desc es)))
        (reports-fit (sort_desc es) (sort_desc-IsTimed es h.0)))
      (all_grants-fit m h.1)

atoms_of :
    (gs : List AccessibilityRuntimePermissionGrant)
    → All GrantFits gs
    → All (λ g. grant_atom g ≡ ok (report_atom g)) gs
atoms_of [] h = tt
atoms_of (g ∷ gs) h = (grant_atom-report g h.0, atoms_of gs h.1)

-- When every write succeeds and every stored timestamp is a u64, the end of the handler succeeds and
-- writes exactly one atom for each grant of each app, in order, with its times in milliseconds.
pub on_finished-writes :
    (w : World)
    → TakesUnstructured w
    → (s : Local AccessibilityHandler) → AreTimed s.own.events
    → let sorted = sort_all s.own.events in
      on_finished w s ≡ (
        ok tt,
        record {
          own = record { events = sorted };
          calls =
              after_calls s.calls (map (λ g. wrote (report_atom g)) (all_grants (values sorted)));
        },
      )
unfolding on_finished
on_finished-writes w takes s h =
    for_each-write w takes grant_atom report_atom (all_grants (values (sort_all s.own.events)))
      (record s { own = record { events = sort_all s.own.events } })
      (atoms_of (all_grants (values (sort_all s.own.events))) (all_grants-fit s.own.events h))
