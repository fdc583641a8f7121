-- ===== src/Handler/Tests/Apps.antt =====
-- A launcher activity that is disabled, and a binding, on a user build.
use android_packages_modules.Common.{ℤ, pos, false, [], codes, ◌≡◌, refl}
use android_packages_modules.Handler.Disruptive.{
  ComponentEnabledSetting, BindServiceLocked, on_component_item, on_bind_item, has_bal_flag,
}
use android_packages_modules.Handler.Disruptive.Privacy.{disruptive_silent}
use android_packages_modules.Handler.Tests.Data.{world, fresh, nul_terminated}

abbrev pub setting : ℤ → ComponentEnabledSetting
setting state = record {
  error_code = pos 0;
  package_name = nul_terminated (codes "com.app");
  class_name = nul_terminated (codes "Main");
  new_state = state;
  calling_package_name = nul_terminated (codes "shell");
}

abbrev pub binding : ℤ → BindServiceLocked
binding flags = record {
  error_code = pos 0;
  intent_action = nul_terminated [];
  intent_package = nul_terminated (codes "com.app");
  intent_component_name_package = nul_terminated [];
  intent_component_name_class = nul_terminated [];
  bind_flags = flags;
  calling_package = nul_terminated (codes "com.caller");
}

no_flag : has_bal_flag (binding (pos 1)).bind_flags ≡ false
unfolding has_bal_flag
no_flag = refl

silent_example :
    ((on_component_item world (setting (pos 1)) (fresh (tt {0}))).1 ≡ fresh (tt {0}))
    × ((on_bind_item world (binding (pos 1)) (fresh (tt {0}))).1 ≡ fresh (tt {0}))
silent_example =
    disruptive_silent world (setting (pos 1)) (binding (pos 1)) (fresh (tt {0})) refl no_flag
