-- ===== src/Kf/Local/Updating.antt =====
-- Updating a running program works on its interface only.
use l3afd.Prelude.{String, Option, none, some, [], ◌∷◌}
use l3afd.Models.{BpfProgram}
use l3afd.Os.{Os}
use l3afd.Kf.ElementList.{Ref, Chain}
use l3afd.Kf.State.{Direction}
use l3afd.Kf.Local.{IsLocal, Keeps-IsLocal}
use l3afd.Kf.Local.Chains.{
  leaf_rules, download-IsLocal, stop_root-IsLocal, insert-IsLocal, move-IsLocal,
}
use l3afd.Kf.Local.Removing.{take_out-IsLocal}
use l3afd.Kf.ConfigMaps.{update}
use l3afd.Kf.ConfigMaps.Quiet.{update-Keeps}
use l3afd.Kf.Update.{
  find_program, stop_lone_root, change_admin_status, put_next, change_version, change_monitoring,
  change_seq_id, change_map_args, change_settings, update_element, verify_n_update_bpf_program,
}

module _ ⦃os : Os⦄ (iface : String) where
  update-IsLocal : (b : Ref) (direction : String) → IsLocal iface (update b direction)
  update-IsLocal b direction = Keeps-IsLocal iface _ (update-Keeps b direction)

  find_program-IsLocal : (name : String) (l : Chain) → IsLocal iface (find_program name l)
  unfolding find_program
  find_program-IsLocal name [] = search leaf_rules
  find_program-IsLocal name (e ∷ es) =
      search (leaf_rules, λ (n : String). find_program-IsLocal n es) depth 30

  stop_lone_root-IsLocal :
      (l : Chain) (e : Ref) (direction : String)
      → IsLocal iface (stop_lone_root l e iface direction)
  unfolding stop_lone_root
  stop_lone_root-IsLocal l e direction = search (leaf_rules, stop_root-IsLocal) depth 30

  change_admin_status-IsLocal :
      (p : BpfProgram) (e : Ref) (l : Chain) (d : Direction) (direction : String)
      → IsLocal iface (change_admin_status p e l d iface direction)
  unfolding change_admin_status
  change_admin_status-IsLocal p e l d direction =
      search (leaf_rules, take_out-IsLocal, stop_lone_root-IsLocal) depth 30

  put_next-IsLocal : (e : Ref) (o : Option Ref) → IsLocal iface (put_next e o)
  unfolding put_next
  put_next-IsLocal e none = search leaf_rules
  put_next-IsLocal e (some a) = search leaf_rules depth 30

  change_version-IsLocal :
      (p : BpfProgram) (e : Ref) (l : Chain) (d : Direction) (direction : String)
      → IsLocal iface (change_version p e l d iface direction)
  unfolding change_version
  change_version-IsLocal p e l d direction =
      search (leaf_rules, download-IsLocal, put_next-IsLocal) depth 30

  change_monitoring-IsLocal : (p : BpfProgram) (e : Ref) → IsLocal iface (change_monitoring p e)
  unfolding change_monitoring
  change_monitoring-IsLocal p e = search leaf_rules depth 30

  change_seq_id-IsLocal :
      (p : BpfProgram) (e : Ref) (d : Direction) → IsLocal iface (change_seq_id p e d iface)
  unfolding change_seq_id
  change_seq_id-IsLocal p e d = search (leaf_rules, move-IsLocal) depth 30

  change_map_args-IsLocal :
      (p : BpfProgram) (e : Ref) (direction : String)
      → IsLocal iface (change_map_args p e direction)
  unfolding change_map_args
  change_map_args-IsLocal p e direction = search (leaf_rules, update-IsLocal) depth 30

  change_settings-IsLocal :
      (p : BpfProgram) (e : Ref) (d : Direction) (direction : String)
      → IsLocal iface (change_settings p e d iface direction)
  unfolding change_settings
  change_settings-IsLocal p e d direction =
      search (leaf_rules, change_monitoring-IsLocal, change_seq_id-IsLocal, change_map_args-IsLocal)
        depth 30

  update_element-IsLocal :
      (p : BpfProgram) (e : Ref) (l : Chain) (d : Direction) (direction : String)
      → IsLocal iface (update_element p e l d iface direction)
  unfolding update_element
  update_element-IsLocal p e l d direction =
      search
        (leaf_rules, change_admin_status-IsLocal, change_version-IsLocal, change_settings-IsLocal)
        depth 30

  pub verify_n_update-IsLocal :
      (o : Option BpfProgram) (direction : String)
      → IsLocal iface (verify_n_update_bpf_program o iface direction)
  unfolding verify_n_update_bpf_program
  verify_n_update-IsLocal none direction = search leaf_rules
  verify_n_update-IsLocal (some p) direction =
      search (leaf_rules, find_program-IsLocal, insert-IsLocal, update_element-IsLocal) depth 30
