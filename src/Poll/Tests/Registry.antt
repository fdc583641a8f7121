-- ===== src/Poll/Tests/Registry.antt =====
-- The registry with every flag off, polled for a map that it has and one that it does not have.
use android_packages_modules.Common.{
  ℕ, ◌*◌, ◌+◌, none, some, true, false, [], ◌∷◌, Str, codes, ok, err, other, list_beq, list_eq,
  lookup, insert, ◌≡◌, refl, arith, unsupported_map_path,
}
use android_packages_modules.Config.Flags.{Flags, prefix_bpf}
use android_packages_modules.Poll.Ends.{Ended}
use android_packages_modules.Poll.Registry.{
  HandlerType, map_path_of, HandlerRegistry, register_handler, registered, handler_registry,
  AnyHandler, poll_registry,
}
use android_packages_modules.Poll.Registry.Ends.{poll_registry-Ended}
use android_packages_modules.Poll.Tests.{task}

abbrev pub flags : Flags
flags = record {
  monitor_disruptive_app_activities = false;
  enable_bitmap_snapshot = false;
  enable_bitmap_instrumentation = false;
  enable_bitmap_scaled_instrumentation = false;
  enable_binder_transaction = false;
  a11y_runtime_permission = false;
}

abbrev registry : HandlerRegistry
registry = handler_registry flags true false

abbrev details : Str
details = codes "/sys/fs/bpf/uprobestats/map_GenericInstrumentation_call_detail_buf"

-- Each type counts its items, for a second in each round.
abbrev counting : HandlerType → AnyHandler
counting h = record {
  State = ℕ;
  Item = ℕ;
  handler = record {
    map_path = map_path_of h;
    prog_path = none;
    on_item = λ t x n. (ok tt, n + x);
    on_finished = λ n. (ok tt, n);
  };
  ring_buffer = record {
    new = ok tt;
    poll = λ round timeout. ok (1 ∷ []);
    elapsed_millis = λ round. round * 1000;
  };
  default = 0;
}

binder_refused :
    poll_registry counting registry 1
      (codes "/sys/fs/bpf/uprobestats/map_Binder_output_buf")
      task
      3000000
      []
    ≡ some (err (other unsupported_map_path), [])
unfolding poll_registry handler_registry registered register_handler insert lookup map_path_of
    prefix_bpf list_beq
binder_refused = refl

polling_ends : Ended (poll_registry counting registry 5 details task 3000000 [])
polling_ends =
    poll_registry-Ended counting registry 4 5 details task 3000000 [] (omega arith)
      (λ h. omega arith)
