-- ===== src/Task/Tests/Handled.antt =====
-- The daemon at a configuration that resolves.
use android_packages_modules.Common.{none, [], ok, ◌≡◌, refl, sym, subst, arith, ◌∙◌}
use android_packages_modules.Config.Resolved
use android_packages_modules.Config.Resolved.{ResolvedTask}
use android_packages_modules.Config.Tests.Data.{config, device_of}
use android_packages_modules.Config.Tests.Resolve.{resolved_task, config_resolves}
use android_packages_modules.Task.HandleTasks.{Daemon, handle_tasks}
use android_packages_modules.Task.HandleTasks.Clean.{IsManageable, IsClean, handle_tasks-IsClean}
use android_packages_modules.Task.Tests.Executed.{
  Map, kernel, keys, bpf, kernel-IsHealthy, kernel-IsInserting, bpf-Returns,
}

abbrev idle : Daemon Map
idle = record { state = none; map = []; reports = [] }

same_task :
    (task : ResolvedTask)
    → Resolved.resolved resolved_task ≡ Resolved.resolved task
    → resolved_task ≡ task
same_task task e = ground (arith, e)

manageable : IsManageable 1 resolved_task
manageable = ((tt, tt), omega arith)

daemon_run : IsClean kernel keys (handle_tasks (device_of config) kernel bpf (ok tt) 1 (ok []) idle)
daemon_run =
    handle_tasks-IsClean kernel keys kernel-IsInserting (device_of config) bpf (ok tt) 1 [] idle
      kernel-IsHealthy bpf-Returns (λ e. cc e) refl refl (λ e. cc (sym config_resolves ∙ e))
      (λ task e. subst (IsManageable 1) (same_task task (sym config_resolves ∙ e)) manageable)
