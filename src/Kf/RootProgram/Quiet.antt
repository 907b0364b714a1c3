-- ===== src/Kf/RootProgram/Quiet.antt =====
-- Starting a root program is quiet, whatever the outcome.
use l3afd.Prelude.{String}
use l3afd.Config.{Config}
use l3afd.Os.{Os}
use l3afd.Kf.ElementList.{Ref}
use l3afd.Kf.Quiet.{Keeps, quiet_rules}
use l3afd.Kf.PinnedMaps.Quiet.{pinned_map_rules}
use l3afd.Kf.Artifacts.Quiet.{verify_and_get_artifacts-Keeps}
use l3afd.Kf.Lifecycle.Quiet.{start-Keeps, stop-Keeps}
use l3afd.Kf.RootProgram.{start_root}

module _ ⦃os : Os⦄ where
  pub start_root-Keeps :
      (root : Ref) (iface direction : String) (conf : Config)
      → Keeps (start_root root iface direction conf)
  unfolding start_root
  start_root-Keeps root iface direction conf =
      search
        (quiet_rules, pinned_map_rules, verify_and_get_artifacts-Keeps, start-Keeps, stop-Keeps)
        depth 40
