-- ===== src/Models.antt =====
-- models/l3afd.go: the constants and the records of the configuration.
use l3afd.Prelude.{String, List, Option, Map, Bool, ℤ}

abbrev pub enabled : String
enabled = "enabled"

abbrev pub disabled : String
disabled = "disabled"

abbrev pub start_type : String
start_type = "start"

abbrev pub stop_type : String
stop_type = "stop"

abbrev pub xdp_type : String
xdp_type = "xdp"

abbrev pub tc_type : String
tc_type = "tc"

abbrev pub ingress_type : String
ingress_type = "ingress"

abbrev pub egress_type : String
egress_type = "egress"

abbrev pub xdp_ingress_type : String
xdp_ingress_type = "xdpingress"

-- An `interface{}` decoded from JSON: a string, or anything else, kept as its JSON text.
pub data Value : Type 0 where
  str : String → Value
  other : String → Value

-- A `map[string]interface{}`; `none` is the nil map.
abbrev pub Args : Type 0
Args = Option (Map Value)

pub record MetricsMap : Type 0 where
  pub name : String
  pub key : ℤ
  pub aggregator : String

pub record BpfProgram : Type 0 where
  pub id : ℤ
  pub name : String
  pub seq_id : ℤ
  pub artifact : String
  pub map_name : String
  pub cmd_start : String
  pub cmd_stop : String
  pub cmd_status : String
  pub cmd_config : String
  pub version : String
  pub user_program_daemon : Bool
  pub is_plugin : Bool
  pub cpu : ℤ
  pub memory : ℤ
  pub admin_status : String
  pub prog_type : String
  pub rules_file : String
  pub rules : String
  pub config_file_path : String
  pub cfg_version : ℤ
  pub start_args : Args
  pub stop_args : Args
  pub status_args : Args
  pub map_args : Args
  pub config_args : Args
  pub monitor_maps : Option (List MetricsMap)

-- The slices hold pointers: a `null` of the payload is `none`.
pub record BpfPrograms : Type 0 where
  pub xdp_ingress : List (Option BpfProgram)
  pub tc_ingress : List (Option BpfProgram)
  pub tc_egress : List (Option BpfProgram)

-- `bpf_programs` is a pointer: `none` is nil.
pub record L3afBpfPrograms : Type 0 where
  pub host_name : String
  pub iface : String
  pub bpf_programs : Option BpfPrograms
