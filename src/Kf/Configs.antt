-- ===== src/Kf/Configs.antt =====
-- All interfaces of a host: NewNFConfigs, DeployeBPFPrograms, SaveConfigsToConfigStore,
-- RemoveMissingNetIfacesNBPFProgsInConfig and getHostInterfaces of kf/nfconfig.go. The goroutines of
-- one call run in an order that a list of choices decides, each of them whole.
pub mod Tracked
pub mod Interfaces
use l3afd.Prelude.{
  ℕ, zero, suc, Bool, true, false, String, Option, none, some, is_some, List, [], ◌∷◌, ◌++◌, Map,
  lookup, insert, delete, ◌==◌, if◌then◌else◌,
}
use l3afd.Models.{L3afBpfPrograms, xdp_ingress_type, ingress_type, egress_type}
use l3afd.Config.{Config}
use l3afd.Os.{Os}
use l3afd.Sys.{Sys, ask}
use l3afd.Exec.{pure, fail, gets, modify, check, some_or, wrap, try, ◌>>=◌, ◌>>◌}
use l3afd.Kf.State.{Direction, xdp_ingress, ingress, egress, NfConfigs, Kf}
use l3afd.Kf.Access.{call}
use l3afd.Kf.Removal.{stop_n_remove_all_bpf_programs, remove_missing_bpf_programs_in_config}
use l3afd.Kf.Deploy.{deploy}
use l3afd.Kf.Report.{ebpf_programs}

-- The loop of getHostInterfaces: all but the loopback interfaces.
unfoldable pub without_loopback : List (String × Bool) → Map Bool
without_loopback [] = []
without_loopback ((name, loopback) ∷ rest) =
    if loopback then without_loopback rest else insert name true (without_loopback rest)

module _ ⦃os : Os⦄ where
  unfoldable pub get_host_interfaces : Sys (Map Bool)
  unfolding without_loopback
  get_host_interfaces = do
    listed ← ask os.interfaces
    ifaces ← some_or listed "failed to get net interfaces"
    pure (without_loopback ifaces)

  -- The map `ifaces` stays nil, which reads as empty. The monitors run in goroutines of their own.
  unfoldable pub new_nf_configs : String → Config → Sys NfConfigs
  unfolding get_host_interfaces
  new_nf_configs host host_conf = do
    host_interfaces ← wrap "failed to get network interfaces" get_host_interfaces
    pure (record {
      host_name = host;
      host_interfaces = host_interfaces;
      chains = λ d. [];
      host_config = host_conf;
      ifaces = [];
    })

-- A goroutine of RemoveMissingNetIfacesNBPFProgsInConfig. It reads the loop's variable `bpfProg` when
-- it runs: that holds the payload of its own round or of a later one.
pub record Spawned : Type 0 where
  pub current : L3afBpfPrograms
  pub later : List L3afBpfPrograms
  pub iface_name : String
  pub direction : String

-- What the scheduler decides of a goroutine: its place among those that were started after it, and
-- how many rounds of the loop had begun since its own when it read the variable.
pub record Choice : Type 0 where
  pub place : ℕ
  pub rounds : ℕ

-- The loop's variable so many rounds later. After the loop it keeps its last value.
unfoldable pub variable_after : ℕ → L3afBpfPrograms → List L3afBpfPrograms → L3afBpfPrograms
variable_after n p [] = p
variable_after zero p (q ∷ qs) = p
variable_after (suc n) p (q ∷ qs) = variable_after n q qs

abbrev pub insert_nth {ℓ} : {A : Type ℓ} → ℕ → A → List A → List A
insert_nth n x [] = x ∷ []
insert_nth zero x (y ∷ ys) = x ∷ y ∷ ys
insert_nth (suc n) x (y ∷ ys) = y ∷ insert_nth n x ys

-- The order of the goroutines, each with the rounds after which it reads the variable.
unfoldable pub in_some_order : List Choice → List Spawned → List (Spawned × ℕ)
in_some_order choices [] = []
in_some_order [] (g ∷ gs) = (g, 0) ∷ in_some_order [] gs
in_some_order (c ∷ cs) (g ∷ gs) = insert_nth c.place (g, c.rounds) (in_some_order cs gs)

unfoldable pub spawned_at :
    NfConfigs → Direction → String → L3afBpfPrograms → List L3afBpfPrograms → String → List Spawned
spawned_at c d direction p ps iface_name =
    if is_some (lookup iface_name (c.chains d))
    then (record { current = p; later = ps; iface_name = iface_name; direction = direction }) ∷ []
    else []

-- `if ifaceName, ok := c.ifaces[bpfProg.Iface]; ok`
unfoldable pub spawned_if :
    NfConfigs → L3afBpfPrograms → List L3afBpfPrograms → Option String → List Spawned
unfolding spawned_at
spawned_if c p ps none = []
spawned_if c p ps (some iface_name) =
    spawned_at c xdp_ingress xdp_ingress_type p ps iface_name
    ++ (spawned_at c ingress ingress_type p ps iface_name
        ++ spawned_at c egress egress_type p ps iface_name)

unfoldable pub all_spawned : NfConfigs → List L3afBpfPrograms → List Spawned
unfolding spawned_if
all_spawned c [] = []
all_spawned c (p ∷ ps) = spawned_if c p ps (lookup p.iface c.ifaces) ++ all_spawned c ps

-- `_, ok := tempIfaces[ifaceName]`
unfoldable pub in_payload : String → List L3afBpfPrograms → Bool
in_payload iface_name [] = false
in_payload iface_name (p ∷ ps) = if p.iface == iface_name then true else in_payload iface_name ps

-- A slice that only `append` has filled.
abbrev pub or_nil {ℓ} : {A : Type ℓ} → List A → Option (List A)
or_nil [] = none
or_nil (x ∷ xs) = some (x ∷ xs)

module _ ⦃os : Os⦄ where
  -- The goroutines, up to `wg.Wait()`. Their errors are logged; a panic of one ends the daemon.
  unfoldable pub run_spawned : List (Spawned × ℕ) → Kf (Unit {0})
  unfolding variable_after
  run_spawned [] = pure tt
  run_spawned ((g, rounds) ∷ gs) = do
    removed ← try (
        remove_missing_bpf_programs_in_config (variable_after rounds g.current g.later) g.iface_name
          g.direction)
    run_spawned gs

  unfoldable pub set_ifaces : (Map String → Map String) → Kf (Unit {0})
  set_ifaces f =
      modify (λ s. record s { configs = record (s.configs) { ifaces = f s.configs.ifaces } })

  -- The three calls for an interface that the configuration lacks.
  unfoldable pub stop_interface : String → Kf (Unit {0})
  unfolding set_ifaces
  stop_interface iface_name = do
    xdp ← try (stop_n_remove_all_bpf_programs iface_name xdp_ingress_type)
    tc_in ← try (stop_n_remove_all_bpf_programs iface_name ingress_type)
    tc_out ← try (stop_n_remove_all_bpf_programs iface_name egress_type)
    set_ifaces (delete iface_name)

  unfoldable pub stop_missing : List L3afBpfPrograms → Map String → Kf (Unit {0})
  unfolding stop_interface in_payload
  stop_missing progs [] = pure tt
  stop_missing progs ((key, iface_name) ∷ m) = do
    if in_payload iface_name progs then pure tt else stop_interface iface_name
    stop_missing progs m

  unfoldable pub remove_missing_net_ifaces_n_bpf_progs_in_config :
      List Choice → List L3afBpfPrograms → Kf (Unit {0})
  unfolding run_spawned all_spawned in_some_order stop_missing
  remove_missing_net_ifaces_n_bpf_progs_in_config choices progs = do
    c ← gets (λ s. s.configs)
    run_spawned (in_some_order choices (all_spawned c progs))
    c ← gets (λ s. s.configs)
    stop_missing progs c.ifaces

  -- `for _, iface := range c.ifaces`
  unfoldable pub programs_of_each : Map String → Kf (List L3afBpfPrograms)
  programs_of_each [] = pure []
  programs_of_each ((key, iface) ∷ m) = do
    programs ← ebpf_programs iface
    rest ← programs_of_each m
    pure (programs ∷ rest)

  -- The slice that is appended to is nil where there is nothing to append.
  unfoldable pub save_configs_to_config_store : Kf (Unit {0})
  unfolding programs_of_each
  save_configs_to_config_store = do
    c ← gets (λ s. s.configs)
    bpf_progs ← programs_of_each c.ifaces
    file ← some_or (os.marshal " " (or_nil bpf_progs)) "failed to marshal configs"
    written ← call (os.write_file c.host_config.l3af_config_store_file_name file)
    check written "failed to save configs"

  -- The loop of DeployeBPFPrograms. Each round replaces the whole map of interfaces.
  unfoldable pub deploy_each : List L3afBpfPrograms → Kf (Unit {0})
  unfolding set_ifaces save_configs_to_config_store
  deploy_each [] = pure tt
  deploy_each (p ∷ ps) = do
    deployed ← try (deploy p.iface p.host_name p.bpf_programs)
    if deployed then (do set_ifaces (λ _. (p.iface, p.iface) ∷ []); deploy_each ps) else (do
      wrap "deploy eBPF Programs failed to save configs" save_configs_to_config_store
      fail "failed to deploy BPF program on iface")

  unfoldable pub deploye_bpf_programs : List Choice → List L3afBpfPrograms → Kf (Unit {0})
  unfolding deploy_each remove_missing_net_ifaces_n_bpf_progs_in_config save_configs_to_config_store
  deploye_bpf_programs choices bpf_progs = do
    deploy_each bpf_progs
    removed ← try (remove_missing_net_ifaces_n_bpf_progs_in_config choices bpf_progs)
    wrap "deploy eBPF Programs failed to save configs" save_configs_to_config_store
