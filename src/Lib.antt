-- ===== src/Lib.antt =====
-- A model of the uprobestats daemon: what it accepts as a configuration, which tasks it runs at once,
-- and what it reports of the data that its BPF programs emit.
--
-- A client sends a configuration (config/config.proto). The daemon resolves it into one task: it checks
-- the guardrail for user builds and the build flags, finds the process and the offsets of each method,
-- and reads the filters of binder transactions. A thread of the task claims the maps it will poll in
-- the state that all threads share, writes the filters into a map of the kernel, polls for the task's
-- duration while handlers take each item, and releases its maps.
--
-- Config: daemon/core/config_resolver.rs and config_resolver/. Config.Proto and Config.Resolved have
--   the types, Config.Guardrail is guardrail.rs, Config.Flags is `is_bpf_file_enabled`, Config.Filters
--   the filters, Config.Resolve `resolve_config` and the functions it calls. The protobuf parser, the
--   values of the flags and the traits `ProcessResolver` and `OffsetResolver` are the fields of
--   `Device`.
-- Task: daemon/android/task.rs and uprobestats_service.rs. Task.State has `update_polled_bpf_maps` and
--   `cleanup_polled_bpf_maps`; Task.Schedule interleaves the threads of `startTasks` as steps on a
--   system with the state, the mutex's poisoning and the running tasks. Task.Execute is `execute`, with
--   Task.Filters for the filters it writes and drains and Task.Attach for the probes it attaches and
--   the maps it polls; Task.HandleTasks is `handle_tasks` of daemon/uprobestats.rs.
-- Resolver: the resolvers of the device. Resolver.Offsets is daemon/android/offsets.rs with its retries,
--   over Resolver.Manager, the wrapper daemon/ffi/dynamic_instrumentation_manager. Resolver.Process is
--   daemon/android/process.rs, with Resolver.Proc for the scan of /proc, Resolver.Observer for the
--   process observer (daemon/ffi/activity_manager) and Resolver.Uprobe for the probe on starts.
-- Statsd: daemon/android/atom.rs and daemon/ffi/statsd/statssocket.rs. Statsd.Paths makes enums of
--   paths, Statsd.Socket writes an atom of any id through the C library and Statsd.Codegen calls the
--   generated functions.
-- BpfMap: daemon/android/bpf_map.rs and bpf_map/binder_transaction.rs over a kernel (`Kernel`) whose
--   calls are those of daemon/ffi/bpf/bpf.rs; `IsHealthy` is the behaviour of bpf(2) on a hash map.
--   BpfMap.Raw has the checks of those calls on what the C functions return.
-- Strings and Atom: daemon/core/string.rs and daemon/core/atom.rs.
-- Handler: daemon/core/bpf_handler/. Handler.World is what every handler calls (atom writers, bridge
--   service, device properties, clock, random numbers): each answer may depend on all calls before, and
--   the calls are kept. Handler.Disruptive, Handler.Accessibility, Handler.Bitmap and Handler.Binder
--   are the files of those names; Handler.Logging is process_management.rs and
--   generic_instrumentation.rs, and Handler.ArtTest is art_test.rs.
-- Poll: `poll_loop_generic` of daemon/android/bpf_handler.rs with daemon/core/timer.rs, for any handler,
--   over a ring buffer and a clock that answer by the number of the round. Poll.Registry is the registry
--   of that file, from map paths to types of handlers, and Poll.Registry.Handlers has the handlers of
--   Handler at those types.
-- Effects and Common: code with state, errors and panics (`Eff`, `Outcome`), integers, maps and text.
--
-- Integers: an unsigned or signed number of the source is ℕ or ℤ, and each checked conversion, cast and
-- overflow is written out at its width; a sum that overflows panics. A HashMap is an association list
-- and a HashSet a list, so an iteration, whose order the source leaves open, goes in insertion order.
-- A log line has no effect. Four loops are on fuel: that of `drain`, for which fuel above the number of
-- keys is enough, the poll loop and the wait for a start, for which fuel above a round by which the timer
-- has run out is enough, and the retries of the offsets, for which six is enough. The count of polled
-- events is not bounded.
--
-- `poll_registry` takes any handlers, those of Handler among them; what polls a map is a parameter of
-- `execute`, where it is one of the threads. The two resolvers are modelled over the platform, and
-- `resolve_config` over any resolvers.
--
-- Not modelled: the BPF programs, the loader and the Java services, and what only calls the system: the
-- start of the daemon, the registration of its service, the system properties, the connection to the
-- bridge service, and the lifetime of descriptors and handles. The callbacks of the process observer that
-- nothing implements have no model. The guard that keeps the lazy service alive has no state that is read.
pub mod Atom
pub mod BpfMap
pub mod Common
pub mod Config
pub mod Effects
pub mod Handler
pub mod Poll
pub mod Resolver
pub mod Statsd
pub mod Strings
pub mod Task
