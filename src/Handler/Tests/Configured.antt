-- ===== src/Handler/Tests/Configured.antt =====
-- The handlers that follow the configuration: registers of a call, and a binder transaction.
use android_packages_modules.Common.{
  pos, some, [], ◌∷◌, map, codes, list_beq, lookup, ok, panicked, ◌≡◌, refl, arith,
}
use android_packages_modules.Strings.{bytes_as_nonempty_str, bytes_as_str, is_utf8, until_nul}
use android_packages_modules.Config.Resolved
use android_packages_modules.Config.Resolved.{ResolvedTask}
use android_packages_modules.Handler.World.{write}
use android_packages_modules.Handler.Logging.{CallResult, on_result_item}
use android_packages_modules.Handler.Logging.Registers.{argument, on_result_item-registers}
use android_packages_modules.Handler.Binder.{BinderTransaction, find_method_config, on_item}
use android_packages_modules.Handler.Binder.Reports.{
  IsServing, Reportable, reported, on_item-reports,
}
use android_packages_modules.Handler.Tests.Data.{world, task_logging, fresh, nul_terminated}

abbrev call : CallResult
call = record { pc = 0; regs = 0 ∷ 1 ∷ 2 ∷ 3 ∷ 4 ∷ 5 ∷ 6 ∷ 7 ∷ 8 ∷ 9 ∷ [] }

registers_example :
    on_result_item world (task_logging (pos 0 ∷ pos 7 ∷ [])) call (fresh (tt {0}))
    ≡ write world
        (record { atom_id = 915; fields = map (argument call.regs) (0 ∷ 7 ∷ []) })
        (fresh (tt {0}))
registers_example =
    on_result_item-registers world (task_logging (pos 0 ∷ pos 7 ∷ [])) call (fresh (tt {0})) 915
      (0 ∷ 7 ∷ []) (omega arith) refl (omega arith, (omega arith, tt))

past_registers :
    on_result_item world (task_logging (pos 8 ∷ [])) call (fresh (tt {0}))
    ≡ (panicked, fresh (tt {0}))
past_registers =
    on_result_item-registers world (task_logging (pos 8 ∷ [])) call (fresh (tt {0})) 915 (8 ∷ [])
      (omega arith) refl (omega arith, tt)

abbrev item : BinderTransaction
item = record {
  interface_descriptor = nul_terminated (codes "IFoo");
  code = 7;
  calling_uid = pos 10001;
  timestamp_ns = 1000;
}

abbrev task : ResolvedTask
task = record (task_logging []) {
  resolved_probes =
      record {
        method_descriptor = record {
          fully_qualified_class_name = [];
          method_name = [];
          fully_qualified_parameters = [];
        };
        offsets = record { container_path = []; container_offset = 0; method_offset = 0 };
        bpf_program_path = [];
        binder_transaction_filters =
            (
              codes "IFoo",
              record {
                methods =
                    (
                      7,
                      record {
                        event_service_config = some (record { mode = Resolved.flush });
                        atom_config = some (record {
                          atom_id = 915;
                          atom_field_positions = Resolved.calling_uid ∷ Resolved.code ∷ [];
                        });
                      },
                    )
                    ∷ [];
              },
            )
            ∷ [];
      }
      ∷ [];
}

world-IsServing : IsServing world 7000000
world-IsServing = record {
  takes = λ cs a. refl;
  gets = λ cs. refl;
  enqueues = λ cs e flush. refl;
  clock = λ cs. refl;
  small = omega arith;
}

name_read : bytes_as_nonempty_str item.interface_descriptor ≡ ok (codes "IFoo")
unfolding bytes_as_nonempty_str bytes_as_str is_utf8 until_nul
name_read = refl

item-Reportable : Reportable (find_method_config task.resolved_probes (codes "IFoo") item.code)
unfolding find_method_config lookup list_beq
item-Reportable = (tt, (tt, tt))

binder_example :
    on_item world task item (fresh (tt {0}))
    ≡ reported item
        (codes "IFoo")
        7000000
        (fresh (tt {0}))
        (find_method_config task.resolved_probes (codes "IFoo") item.code)
binder_example =
    on_item-reports world 7000000 world-IsServing task item (codes "IFoo") (fresh (tt {0}))
      (omega arith) (omega arith) name_read item-Reportable
