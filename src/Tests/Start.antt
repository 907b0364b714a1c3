-- ===== src/Tests/Start.antt =====
-- A daemon that starts with a configuration in its store.
use l3afd.Prelude.{◌≡◌, refl, ap, Bool, true, false, String, arith, List, [], ◌∷◌, Map, ◌==◌, some}
use l3afd.Prelude.{lookup}
use l3afd.Prelude.Text.{trim_space}
use l3afd.Config.Loader.{◌>>=◌}
use l3afd.Config.{Config}
use l3afd.Config.Reading.{read_config}
use l3afd.Exec.{Result, ok, err, panic, blocked}
use l3afd.Kf.State.{State}
use l3afd.Main.Startup.{start_up}
use l3afd.Main.Startup.Stored.{IsDeployed, start_up-IsDeployed}
use l3afd.Tests.World.{bpfs}
use l3afd.Tests.Node.{choices, balancer_report, node_os, two_interfaces}
use l3afd.Tests.Nodes.{node_disk}
use l3afd.Tests.Daemon.{full_file, config_of, file_read}

abbrev files : Map String
files = ("filename", "report") ∷ ("/proc/version", "Linux version 5.15.0-86-generic (gcc)") ∷ []

abbrev settings : Config
settings = config_of (read_config full_file)

abbrev state_of : Result (State node_os) → State node_os
state_of (ok s) = s
state_of (err e) = two_interfaces
state_of panic = two_interfaces
state_of blocked = two_interfaces

abbrev outcome : Result (State node_os) × Map String
outcome = start_up ⦃os = node_os⦄ bpfs full_file "host" choices files

abbrev is_ok : Result (State node_os) → Bool
is_ok (ok s) = true
is_ok (err e) = false
is_ok panic = false
is_ok blocked = false

is_ok-state_of : (r : Result (State node_os)) → is_ok r ≡ true → r ≡ ok (state_of r)
is_ok-state_of (ok s) h = refl
is_ok-state_of (err e) h = absurd (ground (arith, h))
is_ok-state_of panic h = absurd (ground (arith, h))
is_ok-state_of blocked h = absurd (ground (arith, h))

up : is_ok outcome.0 ≡ true
unfolding l3afd.Exec.pure l3afd.Exec.gets l3afd.Exec.◌>>=◌ l3afd.Exec.modify l3afd.Exec.wrap
    l3afd.Exec.try l3afd.Exec.attempt l3afd.Prelude.lookup l3afd.Prelude.insert
    l3afd.Prelude.Text.before_dot l3afd.Prelude.Text.join l3afd.Prelude.Text.trim_space
    l3afd.Prelude.Decimal.atoi l3afd.Kf.Access.direction_of l3afd.Kf.Access.call
    l3afd.Kf.Access.read l3afd.Kf.Access.write l3afd.Kf.Access.alloc l3afd.Kf.Access.get_chain
    l3afd.Kf.Access.set_chain l3afd.Kf.Access.publish l3afd.Kf.ElementList.prev
    l3afd.Kf.ElementList.push_back l3afd.Kf.ElementList.push_front l3afd.Kf.PinnedMaps.get_prog_id
    l3afd.Kf.PinnedMaps.remove_prev_prog_fd l3afd.Kf.PinnedMaps.verify_pinned_map_exists
    l3afd.Kf.PinnedMaps.verify_pinned_map_vanish l3afd.Kf.PinnedMaps.file_exists
    l3afd.Kf.Processes.stop_external_running_process l3afd.Kf.Processes.is_running
    l3afd.Kf.Processes.set_pr_limits l3afd.Kf.Lifecycle.new_bpf_program
    l3afd.Kf.Lifecycle.verify_metrics_maps_vanish l3afd.Kf.Lifecycle.stop l3afd.Kf.Lifecycle.start
    l3afd.Kf.RootProgram.root_program l3afd.Kf.RootProgram.load_root_program
    l3afd.Kf.Linking.download_and_start_bpf_program l3afd.Kf.Linking.push_back_and_start_bpf
    l3afd.Kf.Removal.remove_missing_bpf_programs_in_config l3afd.Kf.Deploy.disable_lro
    l3afd.Kf.Deploy.verify_and_start_xdp_root_program l3afd.Kf.Deploy.deploy
    l3afd.Kf.Report.ebpf_programs l3afd.Kf.Configs.new_nf_configs
    l3afd.Kf.Configs.deploye_bpf_programs l3afd.Kf.Artifacts.verify_and_get_artifacts l3afd.Sys.ask
    l3afd.Pidfile.create_pid l3afd.Pidfile.check_pid_conflict l3afd.Main.check_kernel_version
    l3afd.Main.read_configs_from_config_store l3afd.Main.Startup.start_up l3afd.Config.Loader.◌>>=◌
    l3afd.Config.Reading.read_config l3afd.Kf.RootProgram.root_struct l3afd.Kf.ElementList.next
up = refl

other_file : (settings.pid_filename == settings.l3af_config_store_file_name) ≡ false
unfolding read_config ◌>>=◌ trim_space
other_file = refl

report_kept : node_disk.Holds files settings.l3af_config_store_file_name "report"
unfolding lookup read_config ◌>>=◌ trim_space
report_kept = refl

start_up-IsDeployed_example :
    IsDeployed ⦃os = node_os⦄ bpfs "host" choices settings
      (balancer_report ∷ [])
      (state_of outcome.0)
start_up-IsDeployed_example =
    start_up-IsDeployed ⦃os = node_os⦄ node_disk bpfs full_file "host" choices settings "report"
      (balancer_report ∷ []) files outcome.1 (state_of outcome.0) file_read other_file report_kept
      refl (ap (λ result. (result, outcome.1)) (is_ok-state_of outcome.0 up))
