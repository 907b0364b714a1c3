-- ===== src/Tests/Node.antt =====
-- A node with two interfaces, on a system that keeps its files, and what happens at it.
use l3afd.Prelude.{
  nat_eq, ◌≡◌, refl, sym, ap, true, false, String, Option, some, none, List, [], ◌∷◌, Map,
  if◌then◌else◌, ◌==◌, ◌++◌,
}
use l3afd.Models.{L3afBpfPrograms}
use l3afd.Os.{Os}
use l3afd.Exec.{ok, pure, ◌>>=◌}
use l3afd.Kf.ElementList.{Ref, Chain}
use l3afd.Kf.State.{Direction, xdp_ingress, ingress, egress, Bpf, State}
use l3afd.Kf.Access.{chain_at}
use l3afd.Kf.Deploy.{deploy}
use l3afd.Kf.Report.{ebpf_programs, ebpf_programs_all}
use l3afd.Kf.Configs.{Choice, in_payload, deploye_bpf_programs}
use l3afd.Kf.Close.{close, finished}
use l3afd.Apis.{respond, status_ok, marshalled, update_config, get_config_all}
use l3afd.Tests.World.{willing_os, start_state, balancer_config, only_balancer, bpfs, root, running}
use l3afd.Tests.Disk.{disk_os}

-- The payload reads the loop's variable after all rounds and comes first.
abbrev pub choices : List Choice
choices = (record { place = 0; rounds = 5 }) ∷ []

-- A second interface with the same list.
abbrev pub two_chains : Direction → Map (Option Chain)
two_chains xdp_ingress = ("eth1", some (3 ∷ [])) ∷ ("eth0", some (0 ∷ 1 ∷ 2 ∷ [])) ∷ []
two_chains ingress = []
two_chains egress = []

-- The root program of the second interface has a struct of its own.
abbrev pub node_bpfs : Ref → Bpf
node_bpfs r = if nat_eq r 3 then running root "" else bpfs r

-- The system gives back what was deployed last.
abbrev pub balancer_report : L3afBpfPrograms
balancer_report = record balancer_config { bpf_programs = some only_balancer }

abbrev pub node_os : Os
node_os = record disk_os {
  marshal = λ indent all. some "report";
  unmarshal = λ body. if body == "report" then some (some (balancer_report ∷ [])) else none;
}

abbrev pub two_interfaces : State node_os
two_interfaces = record {
  world = [];
  bpfs = node_bpfs;
  next_ref = 4;
  configs = record (start_state.configs) {
    chains = two_chains;
    ifaces = ("eth0", "eth0") ∷ ("eth1", "eth1") ∷ [];
  };
  stats = start_state.stats;
}

abbrev pub after_deployment : State node_os
after_deployment =
    (deploye_bpf_programs ⦃os = node_os⦄ choices (balancer_config ∷ []) two_interfaces).1

abbrev pub after_close : State node_os
after_close = (close ⦃os = node_os⦄ (xdp_ingress ∷ xdp_ingress ∷ []) finished two_interfaces).1

abbrev pub after_update : State node_os
after_update = (update_config ⦃os = node_os⦄ choices (some "report") two_interfaces).1

-- A configuration of the first interface is deployed and reported, directly and through the API.
pub runs :
    ((deploye_bpf_programs ⦃os = node_os⦄ choices (balancer_config ∷ []) two_interfaces).0 ≡ ok tt)
    × (((ebpf_programs ⦃os = node_os⦄ "eth0" after_deployment).0 ≡ ok balancer_report)
        × (((update_config ⦃os = node_os⦄ choices (some "report") two_interfaces).0
              ≡ ok (respond status_ok ""))
            × ((ebpf_programs ⦃os = node_os⦄ "eth0" after_update).0 ≡ ok balancer_report)))
unfolding l3afd.Exec.pure l3afd.Exec.gets l3afd.Exec.◌>>=◌ l3afd.Exec.modify l3afd.Exec.wrap
    l3afd.Exec.try l3afd.Prelude.lookup l3afd.Prelude.insert l3afd.Kf.Access.direction_of
    l3afd.Kf.Access.call l3afd.Kf.Access.read l3afd.Kf.Access.write l3afd.Kf.Access.get_chain
    l3afd.Kf.Access.set_chain l3afd.Kf.Access.publish l3afd.Kf.ElementList.next
    l3afd.Kf.ElementList.prev l3afd.Kf.ElementList.move_to_back
    l3afd.Kf.PinnedMaps.put_next_prog_fd_from_id l3afd.Kf.PinnedMaps.verify_pinned_map_vanish
    l3afd.Kf.Processes.is_running l3afd.Kf.Lifecycle.verify_metrics_maps_vanish
    l3afd.Kf.Lifecycle.stop l3afd.Kf.Linking.link_bpf_programs
    l3afd.Kf.Removal.remove_missing_bpf_programs_in_config l3afd.Kf.Equality.program_eq
    l3afd.Kf.Update.verify_n_update_bpf_program l3afd.Kf.Deploy.deploy l3afd.Kf.Report.ebpf_programs
    l3afd.Kf.Configs.deploye_bpf_programs l3afd.Apis.update_config mathlib.Core.Bool.xor
runs = (refl, (refl, (refl, refl)))

pub closed :
    (close ⦃os = node_os⦄ (xdp_ingress ∷ xdp_ingress ∷ []) finished two_interfaces).0 ≡ ok tt
unfolding l3afd.Exec.pure l3afd.Exec.fail l3afd.Exec.gets l3afd.Exec.◌>>=◌ l3afd.Exec.modify
    l3afd.Exec.wrap l3afd.Exec.try l3afd.Prelude.lookup l3afd.Prelude.delete l3afd.Prelude.insert
    l3afd.Kf.Access.direction_of l3afd.Kf.Access.call l3afd.Kf.Access.read l3afd.Kf.Access.write
    l3afd.Kf.Access.get_chain l3afd.Kf.Access.set_chain l3afd.Kf.Access.publish
    l3afd.Kf.PinnedMaps.verify_pinned_map_vanish l3afd.Kf.Processes.is_running
    l3afd.Kf.Lifecycle.verify_metrics_maps_vanish l3afd.Kf.Lifecycle.stop
    l3afd.Kf.Removal.stop_n_remove_all_bpf_programs l3afd.Kf.Close.graceful_stop
closed = refl
