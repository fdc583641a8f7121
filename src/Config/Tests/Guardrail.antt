-- ===== src/Config/Tests/Guardrail.antt =====
-- The guardrail on a configuration, and a flag on a name.
use android_packages_modules.Common.{true, false, ok, codes, ◌≡◌, ◌↔◌}
use android_packages_modules.Config.Guardrail.{is_allowed}
use android_packages_modules.Config.Guardrail.Decision.{IsVetted, all_probes, is_allowed-IsVetted}
use android_packages_modules.Config.Flags.{is_bpf_file_enabled}
use android_packages_modules.Config.Flags.Gates.{scaled_flag_unused}
use android_packages_modules.Config.Tests.Data.{config, flags}

is_allowed-IsVetted_example :
    (is_allowed config true true ≡ ok true) ↔ IsVetted (all_probes config.tasks)
is_allowed-IsVetted_example = is_allowed-IsVetted config

scaled_flag_unused_example :
    is_bpf_file_enabled
      (record flags { enable_bitmap_scaled_instrumentation = false })
      (codes "prog_BitmapAllocation_uprobe_create_scaled_bitmap")
    ≡ is_bpf_file_enabled flags (codes "prog_BitmapAllocation_uprobe_create_scaled_bitmap")
scaled_flag_unused_example =
    scaled_flag_unused flags false (codes "prog_BitmapAllocation_uprobe_create_scaled_bitmap")
