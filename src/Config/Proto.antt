-- ===== src/Config/Proto.antt =====
-- The messages of config/config.proto, as the daemon reads them: an optional field is an `Option`,
-- an enum is its number, a string its bytes.
use android_packages_modules.Common.{ℤ, Bool, Option, List, Str}

pub record EventServiceConfigProto : Type 0 where
  pub flush : Option Bool

pub record AtomConfigProto : Type 0 where
  pub atom_id : Option ℤ
  pub atom_field_positions : List ℤ

pub record MethodConfigProto : Type 0 where
  pub method_id : Option ℤ
  pub event_service_config : Option EventServiceConfigProto
  pub atom_config : Option AtomConfigProto

pub record BinderTransactionFilter : Type 0 where
  pub interface_name : Option Str
  pub method_configs : List MethodConfigProto

pub record ProbeConfig : Type 0 where
  pub bpf_name : Option Str
  pub method_signature : Option Str
  pub fully_qualified_class_name : Option Str
  pub method_name : Option Str
  pub fully_qualified_parameters : List Str
  pub binder_transaction_filters : List BinderTransactionFilter

pub record StatsdLoggingConfig : Type 0 where
  pub atom_id : Option ℤ
  pub primitive_argument_positions : List ℤ

pub record Task : Type 0 where
  pub probe_configs : List ProbeConfig
  pub bpf_maps : List Str
  pub target_process_name : Option Str
  pub duration_seconds : Option ℤ
  pub statsd_logging_config : Option StatsdLoggingConfig
  pub target_process_selection : Option ℤ
  pub task_id : Option ℤ

pub record UprobestatsConfig : Type 0 where
  pub tasks : List Task
