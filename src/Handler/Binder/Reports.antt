-- ===== src/Handler/Binder/Reports.antt =====
-- The binder transaction handler reports what the filters ask for.
use android_packages_modules.Common.{
  ℕ, ◌^◌, ◌<◌, pos, to_signed, Bool, true, false, Option, none, some, List, [], ◌∷◌, ◌++◌, map, All,
  Str, codes, Outcome, ok, err, other, traverse, no_binder_config, ◌≡◌, refl, arith, inl, inr,
  Option-cases,
}
use android_packages_modules.Strings.{bytes_as_nonempty_str}
use android_packages_modules.Atom.{Field, string, int32, int64, is_uid, new, new_with_annotation}
use android_packages_modules.Config.Resolved.{
  AtomFieldPosition, AtomConfig, EventServiceConfig, EventMode, MethodConfig, ResolvedTask,
  as_millis,
}
use android_packages_modules.Config.Resolved
use android_packages_modules.Handler.World.{
  World, Local, Call, Calls, BridgeEvent, wrote, got_service, enqueued, read_clock, string_entry,
  int_entry, get_current_timestamp_millis,
}
use android_packages_modules.Handler.Writes.{TakesUnstructured, to_signed-as_millis}
use android_packages_modules.Handler.Binder.{
  BinderTransaction, find_method_config, atom_field, write_to_statsd, enqueue_event, is_flush,
  report_atom, report_event, on_item,
}

-- The bridge service is there and takes every event, and the clock reads `t` nanoseconds.
pub record IsServing (w : World) (t : ℕ) : Type 0 where
  pub takes : TakesUnstructured w
  pub gets : (cs : Calls) → w.get cs ≡ ok tt
  pub enqueues : (cs : Calls) (e : BridgeEvent) (flush : Bool) → w.enqueue_event cs e flush ≡ ok tt
  pub clock : (cs : Calls) → w.system_time cs ≡ some t
  pub small : t < 2 ^ 64

-- What stands at a position of the atom.
abbrev shown : BinderTransaction → Str → AtomFieldPosition → Field
shown item name Resolved.unknown = new (int32 (pos 0))
shown item name Resolved.calling_uid = new_with_annotation (int32 item.calling_uid) (is_uid true)
shown item name Resolved.interface_name = new (string name)
shown item name Resolved.code = new (int32 (pos item.code))
shown item name Resolved.ktime_ns = new (int64 (pos item.timestamp_ns))

abbrev pub IsKnown : AtomFieldPosition → Type 0
IsKnown Resolved.unknown = ⊥
IsKnown _ = Unit

abbrev pub AllKnown : Option AtomConfig → Type 0
AllKnown none = Unit
AllKnown (some ac) = All IsKnown ac.atom_field_positions

-- The calls that a method's configuration asks for, the newest first.
abbrev atom_calls : BinderTransaction → Str → Option AtomConfig → List Call
atom_calls item name none = []
atom_calls item name (some ac) =
    wrote (record { atom_id = ac.atom_id; fields = map (shown item name) ac.atom_field_positions })
    ∷ []

abbrev event_of : BinderTransaction → Str → ℕ → BridgeEvent
event_of item name t = record {
  uid = item.calling_uid;
  timestamp_ms = pos (as_millis t);
  payload_id = pos 1;
  payload =
      string_entry (codes "INTERFACE_NAME") name ∷ int_entry (codes "CODE") (pos item.code) ∷ [];
}

abbrev event_calls : BinderTransaction → Str → ℕ → Option EventServiceConfig → List Call
event_calls item name t none = []
event_calls item name t (some ec) =
    enqueued (event_of item name t)
      (elim ec.mode [ Resolved.flush ↦ true | Resolved.buffer ↦ false ])
    ∷ got_service
    ∷ read_clock
    ∷ []

abbrev pub Reportable : Option MethodConfig → Type 0
Reportable none = Unit
Reportable (some c) = AllKnown c.atom_config

abbrev pub reported :
    {H : Type 0}
    → BinderTransaction
    → Str
    → ℕ
    → Local H
    → Option MethodConfig
    → Outcome (Unit {0}) × Local H
reported item name t s none = (err (other no_binder_config), s)
reported item name t s (some c) = (
  ok tt,
  record s {
    calls =
        event_calls item name t c.event_service_config
        ++ (atom_calls item name c.atom_config ++ s.calls);
  },
)

traverse-shown :
    (item : BinderTransaction) (name : Str) (ps : List AtomFieldPosition)
    → All IsKnown ps
    → traverse (atom_field item.calling_uid name (pos item.code) (pos item.timestamp_ns)) ps
      ≡ ok (map (shown item name) ps)
unfolding traverse atom_field
traverse-shown item name [] h = refl
traverse-shown item name (p ∷ ps) h = ground (arith, traverse-shown item name ps h.1)

fits : (b n : ℕ) → n < 2 ^ b → to_signed b n ≡ some (pos n)
unfolding to_signed
fits b n h = ground arith

module _ {H : Type 0} (w : World) (t : ℕ) (serving : IsServing w t) where
  report_atom-calls :
      (o : Option AtomConfig) (item : BinderTransaction) (name : Str) (s : Local H)
      → item.timestamp_ns < 2 ^ 63
      → AllKnown o
      → report_atom w o item name (pos item.code) s
        ≡ (ok tt, record s { calls = atom_calls item name o ++ s.calls })
  unfolding report_atom write_to_statsd
  report_atom-calls none item name s h k = refl
  report_atom-calls (some ac) item name s h k =
      rw
        (
          fits 63 item.timestamp_ns h,
          traverse-shown item name ac.atom_field_positions k,
          serving.takes s.calls (record {
            atom_id = ac.atom_id;
            fields = map (shown item name) ac.atom_field_positions;
          }),
        )
        refl

  report_event-calls :
      (o : Option EventServiceConfig) (item : BinderTransaction) (name : Str) (s : Local H)
      → report_event w o item name (pos item.code) s
        ≡ (ok tt, record s { calls = event_calls item name t o ++ s.calls })
  unfolding report_event enqueue_event get_current_timestamp_millis
  report_event-calls none item name s = refl
  report_event-calls (some ec) item name s =
      let c = read_clock ∷ s.calls in
      rw
        (
          serving.clock s.calls,
          to_signed-as_millis t serving.small,
          serving.gets c,
          serving.enqueues (got_service ∷ c) (event_of item name t) (is_flush ec.mode),
        )
        (ground arith)

  -- When the service and the writes succeed, the code is an i32 and the time an i64: a transaction
  -- whose interface and method have a configuration with no unknown position gets one atom if an atom
  -- is configured, with the field of each position in order, and then one event if events are
  -- configured, flushed in the flush mode only. One without a configuration is an error, with no call.
  pub on_item-reports :
      (task : ResolvedTask) (item : BinderTransaction) (name : Str) (s : Local H)
      → item.code < 2 ^ 31
      → item.timestamp_ns < 2 ^ 63
      → bytes_as_nonempty_str item.interface_descriptor ≡ ok name
      → Reportable (find_method_config task.resolved_probes name item.code)
      → on_item w task item s
        ≡ reported item name t s (find_method_config task.resolved_probes name item.code)
  unfolding on_item
  on_item-reports task item name s hc ht hn hk =
      elim (Option-cases (find_method_config task.resolved_probes name item.code)) [
        | inl q ↦ rw (hn, q) refl
        | inr (c, q) ↦
            rw (hn, q, fits 31 item.code hc)
              (rw (report_atom-calls c.atom_config item name s ht (rw q at hk)) (
                report_event-calls c.event_service_config item name
                  (record s { calls = atom_calls item name c.atom_config ++ s.calls })))
      ]
