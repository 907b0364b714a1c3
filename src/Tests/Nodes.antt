-- ===== src/Tests/Nodes.antt =====
-- The properties of whole configurations, of the store and of the API at an interface.
use l3afd.Prelude.{◌≡◌, refl, sym, ap, false, String, Option, some, none, List, [], ◌∷◌}
use l3afd.Models.{L3afBpfPrograms}
use l3afd.Exec.{ok, pure, ◌>>=◌}
use l3afd.Files.{FileSystem}
use l3afd.Kf.State.{xdp_ingress}
use l3afd.Kf.Access.{chain_at}
use l3afd.Kf.Deploy.{deploy}
use l3afd.Kf.Report.{ebpf_programs, ebpf_programs_all}
use l3afd.Kf.Local.{IsLocal}
use l3afd.Kf.Local.Deploying.{deploy-IsLocal}
use l3afd.Kf.Configs.{in_payload, deploye_bpf_programs}
use l3afd.Kf.Configs.Interfaces.{deploye-leaves_others, deploye-reports_last}
use l3afd.Kf.Close.Emptied.{close-empties}
use l3afd.Main.{read_configs_from_config_store}
use l3afd.Main.Restart.{restart-restores}
use l3afd.Apis.{respond, status_ok, get_config_all}
use l3afd.Apis.Answers.{update_config-get_config_all}
use l3afd.Tests.World.{willing_os, balancer_config, only_balancer}
use l3afd.Tests.Node.{
  choices, balancer_report, node_os, two_interfaces, after_deployment, after_close, after_update,
  runs, closed,
}
use l3afd.Tests.Disk.{disk}

eth1_missing : in_payload "eth1" (balancer_config ∷ []) ≡ false
unfolding in_payload
eth1_missing = refl

deploye-leaves_others_example :
    chain_at after_deployment.configs xdp_ingress "eth1"
    ≡ chain_at two_interfaces.configs xdp_ingress "eth1"
deploye-leaves_others_example =
    deploye-leaves_others ⦃os = node_os⦄ two_interfaces choices balancer_config [] "eth1"
      xdp_ingress eth1_missing

deploy-IsLocal_example :
    IsLocal ⦃os = willing_os⦄ "eth0" (deploy "eth0" "host" (some only_balancer))
deploy-IsLocal_example = deploy-IsLocal "eth0" "host" (some only_balancer)

deployment :
    deploye_bpf_programs ⦃os = node_os⦄ choices (balancer_config ∷ []) two_interfaces
    ≡ (ok tt, after_deployment)
deployment = ap (λ result. (result, after_deployment)) runs.0

deploye-reports_last_example :
    ebpf_programs_all ⦃os = node_os⦄ after_deployment
    ≡ (ebpf_programs ⦃os = node_os⦄ "eth0" >>= λ programs. pure (programs ∷ [])) after_deployment
deploye-reports_last_example =
    deploye-reports_last ⦃os = node_os⦄ two_interfaces after_deployment choices balancer_config []
      deployment

close-empties_example : after_close.configs.chains xdp_ingress ≡ []
close-empties_example =
    close-empties ⦃os = node_os⦄ two_interfaces after_close (xdp_ingress ∷ xdp_ingress ∷ [])
      xdp_ingress (ap (λ result. (result, after_close)) closed)

-- What `json.Unmarshal` gives for what `json.MarshalIndent` gave.
abbrev reads : Option String → Option (Option (List L3afBpfPrograms))
reads none = none
reads (some body) = node_os.unmarshal body

abbrev pub node_disk : FileSystem node_os
node_disk = record {
  Holds = disk.Holds;
  written = disk.written;
  read = disk.read;
  opens = disk.opens;
  found = disk.found;
  read_keeps = disk.read_keeps;
  open_keeps = disk.open_keeps;
  stat_keeps = disk.stat_keeps;
  getpid_keeps = disk.getpid_keeps;
  signal_keeps = disk.signal_keeps;
  interfaces_keep = disk.interfaces_keep;
  write_keeps = disk.write_keeps;
  remove_keeps = disk.remove_keeps;
}

restart-restores_example :
    (read_configs_from_config_store ⦃os = node_os⦄ after_deployment.configs.host_config
      after_deployment.world).0
    ≡ ok (some (balancer_report ∷ []))
restart-restores_example =
    restart-restores ⦃os = node_os⦄ node_disk two_interfaces after_deployment choices
      balancer_config [] balancer_report deployment runs.1.0
      (λ body written. ap reads (sym written))

update_config-get_config_all_example :
    get_config_all ⦃os = node_os⦄ after_update ≡ (ok (respond status_ok "report"), after_update)
update_config-get_config_all_example =
    update_config-get_config_all ⦃os = node_os⦄ two_interfaces after_update choices "report"
      balancer_report [] balancer_report refl (ap (λ result. (result, after_update)) runs.1.1.0)
      runs.1.1.1
