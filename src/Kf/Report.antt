-- ===== src/Kf/Report.antt =====
-- What runs on an interface: EBPFPrograms, EBPFProgramsAll and KFDetails of kf/nfconfig.go.
pub mod Shown
pub mod Quiet
pub mod Exact
use l3afd.Prelude.{
  Bool, true, false, String, Option, none, some, List, [], ◌∷◌, ◌++◌, Map, ◌==◌, if◌then◌else◌,
}
use l3afd.Models.{BpfProgram, L3afBpfPrograms}
use l3afd.Config.{Config}
use l3afd.Os.{Os}
use l3afd.Exec.{on_option, pure, gets, deref, ◌>>=◌}
use l3afd.Kf.ElementList.{Chain}
use l3afd.Kf.State.{Bpf, Direction, xdp_ingress, ingress, egress, Kf}
use l3afd.Kf.Access.{read, get_chain}

abbrev pub root_name : Direction → Config → String
root_name xdp_ingress conf = conf.xdp_root_program_name
root_name _ conf = conf.tc_root_program_name

module _ ⦃os : Os⦄ where
  unfoldable pub read_programs : Chain → Kf (List (Option BpfProgram))
  read_programs [] = pure []
  read_programs (e ∷ es) = do bpf ← read e; rest ← read_programs es; pure (some bpf.program ∷ rest)

  -- With chaining the first element is used without a test, and passed over if it has the root's name.
  unfoldable pub programs_behind_root : Bool → String → Chain → Kf (List (Option BpfProgram))
  unfolding read_programs
  programs_behind_root false name l = read_programs l
  programs_behind_root true name [] = deref none
  programs_behind_root true name (e ∷ es) = do
    bpf ← read e
    if bpf.program.name == name then read_programs es else read_programs (e ∷ es)

  unfoldable pub programs_in : Direction → String → Kf (List (Option BpfProgram))
  unfolding programs_behind_root on_option
  programs_in d iface = do
    conf ← gets (λ s. s.configs.host_config)
    bpf_list ← get_chain d iface
    on_option bpf_list (pure [])
        (λ l. programs_behind_root conf.bpf_chaining_enabled (root_name d conf) l)

  unfoldable pub ebpf_programs : String → Kf L3afBpfPrograms
  unfolding programs_in
  ebpf_programs iface = do
    configs ← gets (λ s. s.configs)
    xdp ← programs_in xdp_ingress iface
    tc_in ← programs_in ingress iface
    tc_out ← programs_in egress iface
    pure (record {
      host_name = configs.host_name;
      iface = iface;
      bpf_programs = some (record { xdp_ingress = xdp; tc_ingress = tc_in; tc_egress = tc_out });
    })

  unfoldable pub report_each : Map String → Kf (List L3afBpfPrograms)
  report_each [] = pure []
  report_each ((iface, name) ∷ m) = do
    programs ← ebpf_programs iface
    rest ← report_each m
    pure (programs ∷ rest)

  unfoldable pub ebpf_programs_all : Kf (List L3afBpfPrograms)
  unfolding report_each
  ebpf_programs_all = do configs ← gets (λ s. s.configs); report_each configs.ifaces

  unfoldable pub read_all : Chain → Kf (List Bpf)
  read_all [] = pure []
  read_all (e ∷ es) = do bpf ← read e; rest ← read_all es; pure (bpf ∷ rest)

  unfoldable pub details_in : Direction → String → Kf (List Bpf)
  unfolding read_all on_option
  details_in d iface = do
    bpf_list ← get_chain d iface
    on_option bpf_list (pure []) (λ l. read_all l)

  unfoldable pub kf_details : String → Kf (List Bpf)
  unfolding details_in
  kf_details iface = do
    xdp ← details_in xdp_ingress iface
    tc_in ← details_in ingress iface
    tc_out ← details_in egress iface
    pure (xdp ++ (tc_in ++ tc_out))
