-- ===== src/Kf/Equality.antt =====
-- reflect.DeepEqual at the types that VerifyNUpdateBPFProgram compares. A nil map or slice differs
-- from an empty one; the order of a map's entries does not matter.
pub mod Sound
use l3afd.Prelude.{
  Bool, true, false, ◌&&◌, not, xor, Option, none, some, List, [], ◌∷◌, Map, lookup, length, nat_eq,
  eq_ℤ, ◌==◌,
}
use l3afd.Models.{Value, str, other, Args, MetricsMap, BpfProgram}

abbrev pub bool_eq : Bool → Bool → Bool
bool_eq a b = not (xor a b)

abbrev pub value_eq : Value → Value → Bool
value_eq (str a) (str b) = a == b
value_eq (other a) (other b) = a == b
value_eq _ _ = false

abbrev pub has_value : Value → Option Value → Bool
has_value v none = false
has_value v (some w) = value_eq v w

unfoldable pub entries_in : Map Value → Map Value → Bool
entries_in [] n = true
entries_in ((k, v) ∷ m) n = has_value v (lookup k n) && entries_in m n

-- The keys of a Go map are distinct, so equal sizes and inclusion are equality.
unfoldable pub args_eq : Args → Args → Bool
unfolding entries_in
args_eq none none = true
args_eq (some m) (some n) = nat_eq (length m) (length n) && entries_in m n
args_eq _ _ = false

abbrev pub metrics_map_eq : MetricsMap → MetricsMap → Bool
metrics_map_eq a b = a.name == b.name && eq_ℤ a.key b.key && a.aggregator == b.aggregator

unfoldable pub metrics_maps_eq : List MetricsMap → List MetricsMap → Bool
metrics_maps_eq [] [] = true
metrics_maps_eq (a ∷ as') (b ∷ bs) = metrics_map_eq a b && metrics_maps_eq as' bs
metrics_maps_eq _ _ = false

unfoldable pub monitor_maps_eq : Option (List MetricsMap) → Option (List MetricsMap) → Bool
unfolding metrics_maps_eq
monitor_maps_eq none none = true
monitor_maps_eq (some a) (some b) = metrics_maps_eq a b
monitor_maps_eq _ _ = false

unfoldable pub program_eq : BpfProgram → BpfProgram → Bool
unfolding args_eq monitor_maps_eq
program_eq a b =
    eq_ℤ a.id b.id
    && a.name == b.name
    && eq_ℤ a.seq_id b.seq_id
    && a.artifact == b.artifact
    && a.map_name == b.map_name
    && a.cmd_start == b.cmd_start
    && a.cmd_stop == b.cmd_stop
    && a.cmd_status == b.cmd_status
    && a.cmd_config == b.cmd_config
    && a.version == b.version
    && bool_eq a.user_program_daemon b.user_program_daemon
    && bool_eq a.is_plugin b.is_plugin
    && eq_ℤ a.cpu b.cpu
    && eq_ℤ a.memory b.memory
    && a.admin_status == b.admin_status
    && a.prog_type == b.prog_type
    && a.rules_file == b.rules_file
    && a.rules == b.rules
    && a.config_file_path == b.config_file_path
    && eq_ℤ a.cfg_version b.cfg_version
    && args_eq a.start_args b.start_args
    && args_eq a.stop_args b.stop_args
    && args_eq a.status_args b.status_args
    && args_eq a.map_args b.map_args
    && args_eq a.config_args b.config_args
    && monitor_maps_eq a.monitor_maps b.monitor_maps
