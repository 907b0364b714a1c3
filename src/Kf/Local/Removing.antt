-- ===== src/Kf/Local/Removing.antt =====
-- Removing programs works on their interface only.
use l3afd.Prelude.{ℕ, zero, suc, String, Option, none, some, List, [], ◌∷◌}
use l3afd.Models.{BpfProgram, L3afBpfPrograms}
use l3afd.Os.{Os}
use l3afd.Exec.{blocks}
use l3afd.Kf.ElementList.{Ref, Chain}
use l3afd.Kf.State.{Direction}
use l3afd.Kf.Local.{IsLocal}
use l3afd.Kf.Local.Chains.{leaf_rules, link-IsLocal, stop_root-IsLocal}
use l3afd.Kf.Removal.{
  relink, take_out, is_configured, remove_missing_program, remove_missing_from,
  remove_missing_bpf_programs_in_config, stop_each, stop_n_remove_all_bpf_programs,
}

module _ ⦃os : Os⦄ (iface : String) where
  relink-IsLocal : (l : Chain) (o : Option Ref) (m : String) → IsLocal iface (relink l o m)
  unfolding relink
  relink-IsLocal l none m = search leaf_rules
  relink-IsLocal l (some a) m = search (leaf_rules, link-IsLocal) depth 30

  pub take_out-IsLocal :
      (e : Ref) (l : Chain) (d : Direction) (direction m n : String)
      → IsLocal iface (take_out e l d iface direction m n)
  unfolding take_out
  take_out-IsLocal e l d direction m n = search (leaf_rules, relink-IsLocal) depth 30

  is_configured-IsLocal :
      (name : String) (ps : List (Option BpfProgram)) → IsLocal iface (is_configured name ps)
  unfolding is_configured
  is_configured-IsLocal name [] = search leaf_rules
  is_configured-IsLocal name (p ∷ ps) =
      search (leaf_rules, λ (n : String). is_configured-IsLocal n ps) depth 30

  remove_missing_program-IsLocal :
      (e : Ref) (l : Chain) (d : Direction) (direction : String)
      → IsLocal iface (remove_missing_program e l d iface direction)
  unfolding remove_missing_program
  remove_missing_program-IsLocal e l d direction =
      search (leaf_rules, take_out-IsLocal, stop_root-IsLocal) depth 30

  remove_from-IsLocal :
      (rounds : ℕ) (ps : List (Option BpfProgram)) (l : Chain) (d : Direction) (direction : String)
      (o : Option Ref)
      → IsLocal iface (remove_missing_from rounds ps l d iface direction o)
  unfolding remove_missing_from blocks
  remove_from-IsLocal rounds ps l d direction none = search leaf_rules
  remove_from-IsLocal zero ps l d direction (some e) = search leaf_rules
  remove_from-IsLocal (suc n) ps l d direction (some e) =
      search
        (
          leaf_rules,
          is_configured-IsLocal,
          remove_missing_program-IsLocal,
          λ (qs : List (Option BpfProgram)) (k : Chain). remove_from-IsLocal n qs k d direction,
        )
        depth 30

  pub remove_missing-IsLocal :
      (b : L3afBpfPrograms) (direction : String)
      → IsLocal iface (remove_missing_bpf_programs_in_config b iface direction)
  unfolding remove_missing_bpf_programs_in_config
  remove_missing-IsLocal b direction = search (leaf_rules, remove_from-IsLocal) depth 30

  stop_each-IsLocal : (direction : String) (l : Chain) → IsLocal iface (stop_each iface direction l)
  unfolding stop_each
  stop_each-IsLocal direction [] = search leaf_rules
  stop_each-IsLocal direction (e ∷ es) =
      search (leaf_rules, λ (dir : String). stop_each-IsLocal dir es) depth 30

  pub stop_all-IsLocal :
      (direction : String) → IsLocal iface (stop_n_remove_all_bpf_programs iface direction)
  unfolding stop_n_remove_all_bpf_programs
  stop_all-IsLocal direction = search (leaf_rules, stop_each-IsLocal) depth 30
