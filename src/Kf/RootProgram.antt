-- ===== src/Kf/RootProgram.antt =====
-- The root program of a chain: LoadRootProgram of kf/bpf.go.
pub mod Quiet
pub mod Effects
use Prim.Native.String
use l3afd.Prelude.{
  is_empty, ℕ, zero, suc, ℤ, pos, Bool, true, false, ◌&&◌, ◌||◌, not, String, Option, none, some,
  is_some, List, [], ◌∷◌, ◌++◌, Map, ltb, ◌==◌, if◌then◌else◌,
}
use l3afd.Prelude.Text.{join}
use l3afd.Models.{
  BpfProgram, str, xdp_type, tc_type, ingress_type, egress_type, enabled, start_type, stop_type,
}
use l3afd.Config.{Config}
use l3afd.Os.{Os}
use l3afd.Stats.{nf_start_count, nf_stop_count, nf_running, nf_start_time, incr, set}
use l3afd.Exec.{on_option, pure, fail, blocks, deref, check, wrap, try, attempt, ◌>>=◌, ◌>>◌}
use l3afd.Kf.ElementList.{Ref}
use l3afd.Kf.State.{BpfMap, Bpf, Kf}
use l3afd.Kf.Access.{call, sleep, read, write, alloc, publish}
use l3afd.Kf.PinnedMaps.{
  get_prog_id, remove_prev_prog_fd, verify_pinned_map_exists, verify_pinned_map_vanish, file_exists,
}
use l3afd.Kf.Processes.{
  entries, stop_external_running_process, assert_executable, flags, is_running, process_terminate,
  set_pr_limits,
}
use l3afd.Kf.ConfigMaps.{update}
use l3afd.Kf.Artifacts.{verify_and_get_artifacts}
use l3afd.Kf.Lifecycle.{new_bpf_program, stop, start}

-- The structs that LoadRootProgram fills in.
unfoldable pub xdp_root_program : Config → BpfProgram
xdp_root_program conf = record {
  id = pos 0;
  name = conf.xdp_root_program_name;
  seq_id = pos 0;
  artifact = conf.xdp_root_program_artifact;
  map_name = conf.xdp_root_program_map_name;
  cmd_start = conf.xdp_root_program_command;
  cmd_stop = conf.xdp_root_program_command;
  cmd_status = "";
  cmd_config = "";
  version = conf.xdp_root_program_version;
  user_program_daemon = conf.xdp_root_program_user_program_daemon;
  is_plugin = false;
  cpu = pos 0;
  memory = pos 0;
  admin_status = enabled;
  prog_type = "";
  rules_file = "";
  rules = "";
  config_file_path = "";
  cfg_version = pos 0;
  start_args = some (("cmd", str start_type) ∷ []);
  stop_args = some (("cmd", str stop_type) ∷ []);
  status_args = some [];
  map_args = none;
  config_args = none;
  monitor_maps = none;
}

unfoldable pub tc_root_program : Config → String → BpfProgram
tc_root_program conf direction = record {
  id = pos 0;
  name = conf.tc_root_program_name;
  seq_id = pos 0;
  artifact = conf.tc_root_program_artifact;
  map_name =
      if direction == ingress_type
      then conf.tc_root_program_ingress_map_name
      else if direction == egress_type
      then conf.tc_root_program_egress_map_name
      else "";
  cmd_start = conf.tc_root_program_command;
  cmd_stop = conf.tc_root_program_command;
  cmd_status = "";
  cmd_config = "";
  version = conf.tc_root_program_version;
  user_program_daemon = conf.tc_root_program_user_program_daemon;
  is_plugin = false;
  cpu = pos 0;
  memory = pos 0;
  admin_status = enabled;
  prog_type = "";
  rules_file = "";
  rules = "";
  config_file_path = "";
  cfg_version = pos 0;
  start_args = some (("cmd", str start_type) ∷ []);
  stop_args = some (("cmd", str stop_type) ∷ []);
  status_args = some [];
  map_args = none;
  config_args = none;
  monitor_maps = none;
}

-- The `switch progType`.
unfoldable pub root_program : String → String → Config → Option BpfProgram
unfolding xdp_root_program tc_root_program
root_program direction prog_type conf =
    if prog_type == xdp_type
    then some (xdp_root_program conf)
    else if prog_type == tc_type
    then some (tc_root_program conf direction)
    else none

-- The struct of a root program has no maps.
unfoldable pub root_struct : BpfProgram → Bpf
unfolding new_bpf_program
root_struct program = record (new_bpf_program program "" "") { has_maps = false }

module _ ⦃os : Os⦄ where
  unfoldable pub start_root : Ref → String → String → Config → Kf (Unit {0})
  start_root root iface_name direction conf = do
    verify_and_get_artifacts root conf
    bpf ← read root
    left_over ← file_exists bpf.program.map_name
    if left_over
        then wrap "failed to stop root program"
            (stop root iface_name direction conf.bpf_chaining_enabled)
        else pure tt
    wrap "failed to start root program" (start root iface_name direction conf.bpf_chaining_enabled)

  unfoldable pub load_root_program : String → String → String → Config → Kf Ref
  unfolding start_root root_struct on_option
  load_root_program iface_name direction prog_type conf =
      on_option (root_program direction prog_type conf) (fail "unknown direction for root program")
        λ program. do
          root ← alloc (root_struct program)
          start_root root iface_name direction conf
          pure root
