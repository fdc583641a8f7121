-- ===== src/Poll/Tests.antt =====
-- A handler that counts, polled for two rounds.
pub mod Registry
pub mod Handlers
use android_packages_modules.Common.{
  ℕ, ◌+◌, pos, to_signed, none, some, [], ◌∷◌, list_eq, list_beq, codes, ok, ◌≡◌, refl, arith,
}
use android_packages_modules.Config.Resolved.{ResolvedTask, from_secs}
use android_packages_modules.Poll.{
  Handler, RingBuffer, Polling, map_polled, remaining_millis, handle_items, poll_round, poll_rounds,
  finish, poll_loop,
}
use android_packages_modules.Common.{err, bpf_data_invalid, reported_to_statsd}
use android_packages_modules.Poll.{classify, internal_error, ring_buffer_data_invalid}
use android_packages_modules.Poll.Failures.{Logs, poll_loop-Logs}
use android_packages_modules.Poll.Ends.{Ended, poll_loop-Ended}
use android_packages_modules.Poll.Handled.{Completes, poll_loop-Completes}

abbrev pub task : ResolvedTask
task = record {
  id = pos 1;
  duration = from_secs 1;
  resolved_process = record { pid = pos 9; uid = pos 1000; name = [] };
  bpf_map_paths = [];
  statsd_logging_config = none;
  resolved_probes = [];
}

abbrev counter : Handler ℕ ℕ
counter = record {
  map_path = codes "map";
  prog_path = none;
  on_item = λ t x n. (ok tt, n + x);
  on_finished = λ n. (ok tt, n);
}

-- A second passes in each round, and each round has an item.
abbrev ring : RingBuffer ℕ
ring = record { new = ok tt; poll = λ round timeout. ok (5 ∷ []); elapsed_millis = elapsed }
  where
    elapsed : ℕ → ℕ
    elapsed n = n + n

abbrev start : Polling ℕ
start = record { handler = 0; reports = [] }

ends_example : Ended (poll_loop counter ring task 3 (codes "map") 3000000 start)
ends_example =
    poll_loop-Ended counter ring task 2 3 (codes "map") 3000000 start (omega arith) (omega arith)

abbrev stop : Polling ℕ
stop = record { handler = 10; reports = map_polled (codes "map") (pos 3) 2 (pos 1) ∷ [] }

loop_run : poll_loop counter ring task 3 (codes "map") 3000000 start ≡ some (ok tt, stop)
unfolding poll_loop poll_rounds poll_round handle_items remaining_millis finish to_signed list_beq
loop_run = refl

loop_example : (codes "map" ≡ codes "map") × Completes counter ring task 3 3000000 start stop
loop_example = poll_loop-Completes counter ring task 3 (codes "map") 3000000 start stop loop_run

-- A handler that finds its data invalid.
abbrev failing : Handler ℕ ℕ
failing = record counter { on_item = λ t x n. (err (bpf_data_invalid (pos 3)), n) }

abbrev failed : Polling ℕ
failed = record {
  handler = 0;
  reports = internal_error ring_buffer_data_invalid (pos 1) none (some (codes "map")) (pos 3) ∷ [];
}

failing_run :
    poll_loop failing ring task 3 (codes "map") 3000000 start
    ≡ some (err (reported_to_statsd (bpf_data_invalid (pos 3))), failed)
unfolding poll_loop poll_rounds poll_round handle_items classify remaining_millis to_signed list_beq
failing_run = refl

failure_example :
    Logs failing ring task {A = Unit {0}} start.reports
      (err (reported_to_statsd (bpf_data_invalid (pos 3))))
      failed.reports
failure_example =
    poll_loop-Logs failing ring task 3 (codes "map") 3000000 start failed
      (reported_to_statsd (bpf_data_invalid (pos 3))) failing_run
