-- ===== src/Config/Resolved.antt =====
-- The resolved configuration: daemon/core/config_resolver.rs (the types), config_resolver/offsets.rs
-- and config_resolver/process.rs. A `Duration` is its nanoseconds.
use android_packages_modules.Common.{
  ℕ, ◌+◌, ◌*◌, ◌/◌, ◌^◌, ℤ, Option, none, some, List, [], Str, codes, nat_eq, Outcome, ok, err,
  panicked, other, duplicate_method, lookup, insert, ends_with, keys, Error, ltb, if◌then◌else◌,
}
use android_packages_modules.Config.Proto.{StatsdLoggingConfig}

abbrev pub Duration : Type 0
Duration = ℕ

abbrev pub from_secs : ℕ → Duration
from_secs s = s * 1000000000

abbrev pub as_millis : Duration → ℕ
as_millis d = d / 1000000

pub data EventMode : Type 0 where
  flush buffer : EventMode

pub record EventServiceConfig : Type 0 where
  pub mode : EventMode

pub data AtomFieldPosition : Type 0 where
  unknown calling_uid interface_name code ktime_ns : AtomFieldPosition

pub record AtomConfig : Type 0 where
  pub atom_id : ℕ
  pub atom_field_positions : List AtomFieldPosition

pub record MethodConfig : Type 0 where
  pub event_service_config : Option EventServiceConfig
  pub atom_config : Option AtomConfig

pub record InterfaceConfig : Type 0 where
  pub methods : List (ℕ × MethodConfig)

abbrev pub default_interface : InterfaceConfig
default_interface = record { methods = [] }

-- The map is written whether or not the key was there.
unfoldable pub insert_method :
    ℕ → MethodConfig → InterfaceConfig → Outcome (Unit {0}) × InterfaceConfig
insert_method id c i = (
  elim (lookup id i.methods) [ none ↦ ok tt | some old ↦ err (other duplicate_method) ],
  record { methods = insert id c i.methods },
)

abbrev pub get_method : InterfaceConfig → ℕ → Option MethodConfig
get_method i id = lookup id i.methods

abbrev pub method_ids : InterfaceConfig → List ℕ
method_ids i = keys i.methods

pub record MethodDescriptor : Type 0 where
  pub fully_qualified_class_name : Str
  pub method_name : Str
  pub fully_qualified_parameters : List Str

pub record ExecutableMethodFileOffsets : Type 0 where
  pub container_path : Str
  pub container_offset : ℕ
  pub method_offset : ℕ

-- The sum is of two u64; past the width it panics.
unfoldable pub method_identifier : ExecutableMethodFileOffsets → Outcome ℕ
method_identifier o =
    if ends_with o.container_path (codes "so")
    then ok o.container_offset
    else if ltb (o.container_offset + o.method_offset) (2 ^ 64)
    then ok (o.container_offset + o.method_offset)
    else panicked

pub record ResolvedProcess : Type 0 where
  pub pid : ℤ
  pub uid : ℤ
  pub name : Str

pub data TargetProcessSelection : Type 0 where
  unknown specific_process_name : TargetProcessSelection
  any_app_process_on_start specific_app_process_on_start : TargetProcessSelection

pub record ResolvedProbe : Type 0 where
  pub method_descriptor : MethodDescriptor
  pub offsets : ExecutableMethodFileOffsets
  pub bpf_program_path : Str
  pub binder_transaction_filters : List (Str × InterfaceConfig)

pub record ResolvedTask : Type 0 where
  pub id : ℤ
  pub duration : Duration
  pub resolved_process : ResolvedProcess
  pub bpf_map_paths : List Str
  pub statsd_logging_config : Option StatsdLoggingConfig
  pub resolved_probes : List ResolvedProbe

pub data ConfigError : Type 0 where
  task_validation : ℤ → Error → ConfigError
  config_other : Error → ConfigError

unfoldable pub task_id : ConfigError → Option ℤ
task_id (task_validation id e) = some id
task_id (config_other e) = none

-- `Result<ResolvedTask, ConfigError>`, or a panic of a resolver.
pub data ConfigResult : Type 0 where
  resolved : ResolvedTask → ConfigResult
  invalid : ConfigError → ConfigResult
  config_panicked : ConfigResult
