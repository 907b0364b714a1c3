-- ===== src/Kf/Local/Chains.antt =====
-- The operations on one chain work on its interface only.
use l3afd.Prelude.{Bool, String, ℤ, Option, none, some, [], ◌∷◌}
use l3afd.Models.{BpfProgram}
use l3afd.Os.{Os}
use l3afd.Config.{Config}
use l3afd.Kf.ElementList.{Ref, Chain}
use l3afd.Kf.State.{Direction}
use l3afd.Kf.Local.{IsLocal, Keeps-IsLocal, local_rules}
use l3afd.Kf.PinnedMaps.{put_next_prog_fd_from_id, remove_next_prog_fd}
use l3afd.Kf.PinnedMaps.Quiet.{put_next_prog_fd_from_id-Keeps, remove_next_prog_fd-Keeps}
use l3afd.Kf.Artifacts.{verify_and_get_artifacts}
use l3afd.Kf.Artifacts.Quiet.{verify_and_get_artifacts-Keeps}
use l3afd.Kf.Lifecycle.{start, stop}
use l3afd.Kf.Lifecycle.Quiet.{start-Keeps, stop-Keeps}
use l3afd.Kf.Linking.{
  link_bpf_programs, set_prev_map_name, download_and_start_bpf_program, alloc_program,
  push_back_and_start_bpf, stop_root_program,
}
use l3afd.Kf.Placement.{
  find_position, link_next, insert_at, insert_into, insert_and_start_bpf_program, find_move_mark,
  close_gap, open_gap, link_prev, move_in_front, move_behind, move_to_location,
}

-- The statements of other modules that are quiet.
module _ ⦃os : Os⦄ (iface : String) where
  pub stop-IsLocal :
      (b : Ref) (i direction : String) (chain : Bool) → IsLocal iface (stop b i direction chain)
  stop-IsLocal b i direction chain = Keeps-IsLocal iface _ (stop-Keeps b i direction chain)

  pub start-IsLocal :
      (b : Ref) (i direction : String) (chain : Bool) → IsLocal iface (start b i direction chain)
  start-IsLocal b i direction chain = Keeps-IsLocal iface _ (start-Keeps b i direction chain)

  pub artifacts-IsLocal :
      (b : Ref) (conf : Config) → IsLocal iface (verify_and_get_artifacts b conf)
  artifacts-IsLocal b conf = Keeps-IsLocal iface _ (verify_and_get_artifacts-Keeps b conf)

  pub put_next_fd-IsLocal : (b : Ref) (id : ℤ) → IsLocal iface (put_next_prog_fd_from_id b id)
  put_next_fd-IsLocal b id = Keeps-IsLocal iface _ (put_next_prog_fd_from_id-Keeps b id)

  pub remove_next_fd-IsLocal : (b : Ref) → IsLocal iface (remove_next_prog_fd b)
  remove_next_fd-IsLocal b = Keeps-IsLocal iface _ (remove_next_prog_fd-Keeps b)

pub ruleset leaf_rules = (
  local_rules, stop-IsLocal, start-IsLocal, artifacts-IsLocal, put_next_fd-IsLocal,
  remove_next_fd-IsLocal,
)

module _ ⦃os : Os⦄ (iface : String) where
  pub link-IsLocal : (a b : Ref) → IsLocal iface (link_bpf_programs a b)
  unfolding link_bpf_programs
  link-IsLocal a b = search leaf_rules depth 30

  set_prev-IsLocal : (e : Ref) (o : Option Ref) → IsLocal iface (set_prev_map_name e o)
  unfolding set_prev_map_name
  set_prev-IsLocal e none = search leaf_rules
  set_prev-IsLocal e (some a) = search leaf_rules depth 30

  pub download-IsLocal :
      (e : Ref) (d : Direction) (direction : String)
      → IsLocal iface (download_and_start_bpf_program e d iface direction)
  unfolding download_and_start_bpf_program
  download-IsLocal e d direction = search (leaf_rules, set_prev-IsLocal) depth 30

  alloc_program-IsLocal : (p : BpfProgram) → IsLocal iface (alloc_program p)
  unfolding alloc_program
  alloc_program-IsLocal p = search leaf_rules depth 30

  pub push_back-IsLocal :
      (p : BpfProgram) (direction : String)
      → IsLocal iface (push_back_and_start_bpf p iface direction)
  unfolding push_back_and_start_bpf
  push_back-IsLocal p direction =
      search (leaf_rules, alloc_program-IsLocal, download-IsLocal) depth 30

  pub stop_root-IsLocal : (direction : String) → IsLocal iface (stop_root_program iface direction)
  unfolding stop_root_program
  stop_root-IsLocal direction = search leaf_rules depth 30

  find_position-IsLocal : (n : ℤ) (l : Chain) → IsLocal iface (find_position n l)
  unfolding find_position
  find_position-IsLocal n [] = search leaf_rules
  find_position-IsLocal n (e ∷ es) =
      search (leaf_rules, λ (m : ℤ). find_position-IsLocal m es) depth 30

  link_next-IsLocal : (e : Ref) (o : Option Ref) (m : String) → IsLocal iface (link_next e o m)
  unfolding link_next
  link_next-IsLocal e none m = search leaf_rules
  link_next-IsLocal e (some a) m = search (leaf_rules, link-IsLocal) depth 30

  insert_at-IsLocal :
      (p : BpfProgram) (b : Ref) (o : Option Ref) (l : Chain) (d : Direction) (direction : String)
      → IsLocal iface (insert_at p b o l d iface direction)
  unfolding insert_at
  insert_at-IsLocal p b none l d direction = search (leaf_rules, push_back-IsLocal) depth 30
  insert_at-IsLocal p b (some e) l d direction =
      search (leaf_rules, download-IsLocal, link_next-IsLocal) depth 30

  insert_into-IsLocal :
      (p : BpfProgram) (b : Ref) (d : Direction) (direction : String) (o : Option Chain)
      → IsLocal iface (insert_into p b d iface direction o)
  unfolding insert_into
  insert_into-IsLocal p b d direction none = search leaf_rules
  insert_into-IsLocal p b d direction (some l) =
      search (leaf_rules, find_position-IsLocal, insert_at-IsLocal) depth 30

  pub insert-IsLocal :
      (p : BpfProgram) (direction : String)
      → IsLocal iface (insert_and_start_bpf_program (some p) iface direction)
  unfolding insert_and_start_bpf_program
  insert-IsLocal p direction =
      search (leaf_rules, alloc_program-IsLocal, insert_into-IsLocal) depth 30

  find_move_mark-IsLocal : (e : Ref) (l : Chain) → IsLocal iface (find_move_mark e l)
  unfolding find_move_mark
  find_move_mark-IsLocal e [] = search leaf_rules
  find_move_mark-IsLocal e (f ∷ fs) =
      search (leaf_rules, λ (r : Ref). find_move_mark-IsLocal r fs) depth 30

  close_gap-IsLocal : (a b : Option Ref) (m : String) → IsLocal iface (close_gap a b m)
  unfolding close_gap
  close_gap-IsLocal (some a) (some b) m = search (leaf_rules, link-IsLocal) depth 30
  close_gap-IsLocal (some a) none m = search leaf_rules
  close_gap-IsLocal none (some b) m = search leaf_rules
  close_gap-IsLocal none none m = search leaf_rules

  open_gap-IsLocal : (a b : Option Ref) → IsLocal iface (open_gap a b)
  unfolding open_gap
  open_gap-IsLocal (some a) (some b) = search (leaf_rules, close_gap-IsLocal) depth 30
  open_gap-IsLocal (some a) none = search leaf_rules depth 30
  open_gap-IsLocal none (some b) = search leaf_rules depth 30
  open_gap-IsLocal none none = search leaf_rules depth 30

  link_prev-IsLocal : (o : Option Ref) (e : Ref) (m : String) → IsLocal iface (link_prev o e m)
  unfolding link_prev
  link_prev-IsLocal none e m = search leaf_rules
  link_prev-IsLocal (some a) e m = search (leaf_rules, link-IsLocal) depth 30

  move_in_front-IsLocal :
      (e mark : Ref) (l : Chain) (d : Direction) → IsLocal iface (move_in_front e mark l d iface)
  unfolding move_in_front
  move_in_front-IsLocal e mark l d =
      search (leaf_rules, open_gap-IsLocal, link-IsLocal, link_next-IsLocal) depth 30

  move_behind-IsLocal :
      (e : Ref) (l : Chain) (d : Direction) → IsLocal iface (move_behind e l d iface)
  unfolding move_behind
  move_behind-IsLocal e l d = search (leaf_rules, close_gap-IsLocal, link_prev-IsLocal) depth 30

  pub move-IsLocal : (e : Ref) (d : Direction) → IsLocal iface (move_to_location e d iface)
  unfolding move_to_location
  move-IsLocal e d =
      search (leaf_rules, find_move_mark-IsLocal, move_in_front-IsLocal, move_behind-IsLocal) depth
        30
