-- ===== src/Kf/Local/Deploying.antt =====
-- Deploying the configuration of an interface works on that interface only.
use l3afd.Prelude.{is_some, String, Option, List, [], ◌∷◌}
use l3afd.Models.{BpfProgram, BpfPrograms}
use l3afd.Config.{Config}
use l3afd.Os.{Os}
use l3afd.Kf.ElementList.{Ref}
use l3afd.Kf.State.{Direction, xdp_ingress, ingress, egress, Kf}
use l3afd.Exec.{attempt}
use l3afd.Kf.Local.{
  attempt-IsLocal, bind-IsLocal, if-IsLocal, pure-IsLocal, fail-IsLocal, IsLocal, Keeps-IsLocal,
}
use l3afd.Kf.Local.Chains.{leaf_rules, push_back-IsLocal}
use l3afd.Kf.Local.Updating.{verify_n_update-IsLocal}
use l3afd.Kf.RootProgram.{start_root, load_root_program}
use l3afd.Kf.RootProgram.Quiet.{start_root-Keeps}
use l3afd.Kf.Deploy.{
  disable_lro, start_root_at, verify_and_start_xdp_root_program, verify_and_start_tc_root_program,
  or_clean_up, verify_and_start_root_program, start_chain, deploy_first, deploy_program,
  deploy_programs, deploy,
}

module _ ⦃os : Os⦄ (iface : String) where
  start_root-IsLocal :
      (root : Ref) (i direction : String) (conf : Config)
      → IsLocal iface (start_root root i direction conf)
  start_root-IsLocal root i direction conf =
      Keeps-IsLocal iface _ (start_root-Keeps root i direction conf)

  load_root-IsLocal :
      (direction prog_type : String) (conf : Config)
      → IsLocal iface (load_root_program iface direction prog_type conf)
  unfolding load_root_program
  load_root-IsLocal direction prog_type conf = search (leaf_rules, start_root-IsLocal) depth 30

  disable_lro-IsLocal : IsLocal iface (disable_lro iface)
  unfolding disable_lro
  disable_lro-IsLocal = search leaf_rules depth 30

  start_root_at-IsLocal :
      (d : Direction) (direction prog_type : String)
      → IsLocal iface (start_root_at d iface direction prog_type)
  unfolding start_root_at
  start_root_at-IsLocal d direction prog_type = search (leaf_rules, load_root-IsLocal) depth 30

  xdp_root-IsLocal :
      (direction : String) → IsLocal iface (verify_and_start_xdp_root_program iface direction)
  unfolding verify_and_start_xdp_root_program
  xdp_root-IsLocal direction =
      search (leaf_rules, disable_lro-IsLocal, start_root_at-IsLocal) depth 30

  tc_root-IsLocal :
      (direction : String) → IsLocal iface (verify_and_start_tc_root_program iface direction)
  unfolding verify_and_start_tc_root_program
  tc_root-IsLocal direction = search (leaf_rules, start_root_at-IsLocal) depth 30

  root-IsLocal :
      (d : Direction) (direction : String)
      → IsLocal iface (verify_and_start_root_program d iface direction)
  unfolding verify_and_start_root_program
  root-IsLocal xdp_ingress direction = xdp_root-IsLocal direction
  root-IsLocal ingress direction = tc_root-IsLocal direction
  root-IsLocal egress direction = tc_root-IsLocal direction

  or_clean_up-IsLocal :
      (m n : Kf (Unit {0})) (e : String)
      → IsLocal iface m
      → IsLocal iface n
      → IsLocal iface (or_clean_up m n e)
  unfolding or_clean_up
  or_clean_up-IsLocal m n e p q =
      bind-IsLocal iface (attempt m) _ (attempt-IsLocal iface m p) (λ done.
        if-IsLocal iface (is_some done) _ _ (pure-IsLocal iface tt)
          (bind-IsLocal iface n _ q (λ _. fail-IsLocal iface e)))

  start_chain-IsLocal :
      (p : BpfProgram) (d : Direction) (direction : String)
      → IsLocal iface (start_chain p d iface direction)
  unfolding start_chain
  start_chain-IsLocal p d direction =
      search (leaf_rules, or_clean_up-IsLocal, root-IsLocal, push_back-IsLocal) depth 30

  deploy_first-IsLocal :
      (o : Option BpfProgram) (d : Direction) (direction : String)
      → IsLocal iface (deploy_first o d iface direction)
  unfolding deploy_first
  deploy_first-IsLocal o d direction = search (leaf_rules, start_chain-IsLocal) depth 30

  deploy_program-IsLocal :
      (d : Direction) (direction : String) (o : Option BpfProgram)
      → IsLocal iface (deploy_program d iface direction o)
  unfolding deploy_program
  deploy_program-IsLocal d direction o =
      search (leaf_rules, deploy_first-IsLocal, verify_n_update-IsLocal) depth 30

  deploy_programs-IsLocal :
      (d : Direction) (direction : String) (ps : List (Option BpfProgram))
      → IsLocal iface (deploy_programs d iface direction ps)
  unfolding deploy_programs
  deploy_programs-IsLocal d direction [] = search leaf_rules
  deploy_programs-IsLocal d direction (p ∷ ps) =
      search
        (leaf_rules, deploy_program-IsLocal, λ (dir : String). deploy_programs-IsLocal d dir ps)
        depth 30

  -- Deploying the configuration of one interface, whatever the payload and whatever the system answers,
  -- changes no chain of another interface and nothing that NFConfigs knows of the host.
  pub deploy-IsLocal :
      (host_name : String) (progs : Option BpfPrograms)
      → IsLocal iface (deploy iface host_name progs)
  unfolding deploy
  deploy-IsLocal host_name progs = search (leaf_rules, deploy_programs-IsLocal) depth 30
