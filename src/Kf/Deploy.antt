-- ===== src/Kf/Deploy.antt =====
-- Deploying the configuration of an interface: VerifyAndStartXDPRootProgram,
-- VerifyAndStartTCRootProgram and Deploy of kf/nfconfig.go, and the two calls of kf/kf_unix.go.
pub mod Guards
pub mod Rooted
pub mod InOrder
pub mod Again
pub mod Fresh
use l3afd.Prelude.{
  is_empty, not, String, Option, none, some, is_some, List, [], ◌∷◌, lookup, ◌==◌, if◌then◌else◌,
}
use l3afd.Models.{
  BpfProgram, BpfPrograms, enabled, xdp_type, tc_type, xdp_ingress_type, ingress_type, egress_type,
}
use l3afd.Os.{Os}
use l3afd.Exec.{on_option, pure, fail, gets, deref, some_or, check, wrap, attempt, ◌>>=◌, ◌>>◌}
use l3afd.Kf.ElementList.{push_front}
use l3afd.Kf.State.{Direction, xdp_ingress, ingress, egress, Kf}
use l3afd.Kf.Access.{call, get_chain, set_chain}
use l3afd.Kf.RootProgram.{load_root_program}
use l3afd.Kf.Linking.{push_back_and_start_bpf}
use l3afd.Kf.Update.{verify_n_update_bpf_program}

module _ ⦃os : Os⦄ where
  unfoldable pub disable_lro : String → Kf (Unit {0})
  disable_lro iface_name = do
    changed ← call (os.disable_lro iface_name)
    check changed "ethtool failed to disable LRO"

  -- The branch for a list with nothing in it.
  unfoldable pub start_root_at : Direction → String → String → String → Kf (Unit {0})
  start_root_at d iface_name direction prog_type = do
    conf ← gets (λ s. s.configs.host_config)
    root_bpf ←
        wrap "failed to load root program" (load_root_program iface_name direction prog_type conf)
    bpf_list ← get_chain d iface_name
    l ← deref bpf_list
    set_chain d iface_name (some (push_front l root_bpf))

  unfoldable pub verify_and_start_xdp_root_program : String → String → Kf (Unit {0})
  unfolding start_root_at
  verify_and_start_xdp_root_program iface_name direction = do
    conf ← gets (λ s. s.configs.host_config)
    if not conf.bpf_chaining_enabled then pure tt else do
      bpf_list ← get_chain xdp_ingress iface_name
      l ← deref bpf_list
      if not (is_empty l) then pure tt else (do
        wrap "failed to disable lro" (disable_lro iface_name)
        mounted ← call os.mount_bpffs
        check mounted "failed to mount bpf file system"
        start_root_at xdp_ingress iface_name direction xdp_type)

  unfoldable pub verify_and_start_tc_root_program : String → String → Kf (Unit {0})
  unfolding start_root_at
  verify_and_start_tc_root_program iface_name direction = do
    conf ← gets (λ s. s.configs.host_config)
    if not conf.bpf_chaining_enabled then pure tt else do
      let d = if direction == ingress_type then ingress else egress
      bpf_list ← get_chain d iface_name
      l ← deref bpf_list
      if is_empty l then start_root_at d iface_name direction tc_type else pure tt

  -- `if err := m; err != nil { cleanup; return fmt.Errorf(e) }`
  unfoldable pub or_clean_up : Kf (Unit {0}) → Kf (Unit {0}) → String → Kf (Unit {0})
  or_clean_up m clean_up e = do
    done ← attempt m
    if is_some done then pure tt else (clean_up >> fail e)

  unfoldable pub verify_and_start_root_program : Direction → String → String → Kf (Unit {0})
  verify_and_start_root_program xdp_ingress iface_name direction =
      verify_and_start_xdp_root_program iface_name direction
  verify_and_start_root_program d iface_name direction =
      verify_and_start_tc_root_program iface_name direction

  -- The first program of a direction: a new list, its root program, and the program behind it.
  unfoldable pub start_chain : BpfProgram → Direction → String → String → Kf (Unit {0})
  unfolding or_clean_up verify_and_start_root_program
  start_chain bpf_prog d iface_name direction = do
    set_chain d iface_name (some [])
    or_clean_up (verify_and_start_root_program d iface_name direction) (set_chain d iface_name none)
        "failed to chain bpf programs"
    wrap "failed to update BPF Program" (push_back_and_start_bpf bpf_prog iface_name direction)

  -- A program of a direction that has no list yet.
  unfoldable pub deploy_first : Option BpfProgram → Direction → String → String → Kf (Unit {0})
  unfolding start_chain
  deploy_first bpf_prog d iface_name direction = do
    prog ← deref bpf_prog
    if prog.admin_status == enabled then start_chain prog d iface_name direction else pure tt

  -- The body of the three loops of Deploy.
  unfoldable pub deploy_program : Direction → String → String → Option BpfProgram → Kf (Unit {0})
  unfolding deploy_first on_option
  deploy_program d iface_name direction bpf_prog = do
    bpf_list ← get_chain d iface_name
    on_option bpf_list (deploy_first bpf_prog d iface_name direction) λ l.
        wrap "failed to update BPF Program"
          (verify_n_update_bpf_program bpf_prog iface_name direction)

  unfoldable pub deploy_programs :
      Direction → String → String → List (Option BpfProgram) → Kf (Unit {0})
  unfolding deploy_program
  deploy_programs d iface_name direction [] = pure tt
  deploy_programs d iface_name direction (p ∷ ps) =
      deploy_program d iface_name direction p >> deploy_programs d iface_name direction ps

  unfoldable pub deploy : String → String → Option BpfPrograms → Kf (Unit {0})
  unfolding deploy_programs
  deploy iface_name host_name bpf_progs = do
    configs ← gets (λ s. s.configs)
    check (host_name == configs.host_name) "provided bpf programs do not belong to this host"
    check (not (iface_name == "")) "iface name or bpf programs are empty"
    progs ← some_or bpf_progs "iface name or bpf programs are empty"
    check (is_some (lookup iface_name configs.host_interfaces))
        "interface name not found in the host"
    deploy_programs xdp_ingress iface_name xdp_ingress_type progs.xdp_ingress
    deploy_programs ingress iface_name ingress_type progs.tc_ingress
    deploy_programs egress iface_name egress_type progs.tc_egress
