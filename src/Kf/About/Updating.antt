-- ===== src/Kf/About/Updating.antt =====
-- Updating a running program is about that program.
use l3afd.Prelude.{◌≡◌, refl, String, Option, none, some, [], ◌∷◌, ℤ}
use l3afd.Models.{BpfProgram}
use l3afd.Config.{Config}
use l3afd.Os.{Os}
use l3afd.Kf.ElementList.{Ref, Chain, next}
use l3afd.Kf.State.{Direction}
use l3afd.Kf.Access.{write}
use l3afd.Kf.About.{
  IsAbout, Keeps-IsAbout, write-IsAbout, bind-IsAbout, read-IsAbout, if-IsAbout, wrap-IsAbout,
  try-IsAbout, gets-IsAbout, pure-IsAbout, about_rules,
}
use l3afd.Kf.PinnedMaps.{put_next_prog_fd_from_id, remove_next_prog_fd}
use l3afd.Kf.PinnedMaps.Quiet.{put_next_prog_fd_from_id-Keeps, remove_next_prog_fd-Keeps}
use l3afd.Kf.Artifacts.{verify_and_get_artifacts}
use l3afd.Kf.Artifacts.Quiet.{verify_and_get_artifacts-Keeps}
use l3afd.Kf.ConfigMaps.{update}
use l3afd.Kf.ConfigMaps.Quiet.{update-Keeps}
use l3afd.Kf.Lifecycle.{start, stop}
use l3afd.Kf.Lifecycle.Quiet.{start-Keeps, stop-Keeps}
use l3afd.Kf.Linking.{link_bpf_programs, set_prev_map_name, download_and_start_bpf_program}
use l3afd.Kf.Placement.{
  find_move_mark, close_gap, open_gap, link_next, link_prev, move_in_front, move_behind,
  move_to_location,
}
use l3afd.Kf.Update.{
  put_next, change_version, change_monitoring, change_seq_id, change_map_args, change_settings,
}

module _ ⦃os : Os⦄ (e : Ref) (n : String) where
  stop-IsAbout :
      (b : Ref) (iface direction : String) (chain : l3afd.Prelude.Bool)
      → IsAbout e n (stop b iface direction chain)
  stop-IsAbout b iface direction chain = Keeps-IsAbout e n _ (stop-Keeps b iface direction chain)

  start-IsAbout :
      (b : Ref) (iface direction : String) (chain : l3afd.Prelude.Bool)
      → IsAbout e n (start b iface direction chain)
  start-IsAbout b iface direction chain = Keeps-IsAbout e n _ (start-Keeps b iface direction chain)

  artifacts-IsAbout : (b : Ref) (conf : Config) → IsAbout e n (verify_and_get_artifacts b conf)
  artifacts-IsAbout b conf = Keeps-IsAbout e n _ (verify_and_get_artifacts-Keeps b conf)

  put_next_fd-IsAbout : (b : Ref) (id : ℤ) → IsAbout e n (put_next_prog_fd_from_id b id)
  put_next_fd-IsAbout b id = Keeps-IsAbout e n _ (put_next_prog_fd_from_id-Keeps b id)

  remove_next_fd-IsAbout : (b : Ref) → IsAbout e n (remove_next_prog_fd b)
  remove_next_fd-IsAbout b = Keeps-IsAbout e n _ (remove_next_prog_fd-Keeps b)

  update-IsAbout : (b : Ref) (direction : String) → IsAbout e n (update b direction)
  update-IsAbout b direction = Keeps-IsAbout e n _ (update-Keeps b direction)

ruleset leaf_rules = (
  about_rules, stop-IsAbout, start-IsAbout, artifacts-IsAbout, put_next_fd-IsAbout,
  remove_next_fd-IsAbout, update-IsAbout,
)

module _ ⦃os : Os⦄ (e : Ref) (n : String) where
  link-IsAbout : (a b : Ref) → IsAbout e n (link_bpf_programs a b)
  unfolding link_bpf_programs
  link-IsAbout a b = search leaf_rules depth 30

  set_prev-IsAbout : (b : Ref) (o : Option Ref) → IsAbout e n (set_prev_map_name b o)
  unfolding set_prev_map_name
  set_prev-IsAbout b none = search leaf_rules
  set_prev-IsAbout b (some a) = search leaf_rules depth 30

  download-IsAbout :
      (b : Ref) (d : Direction) (iface direction : String)
      → IsAbout e n (download_and_start_bpf_program b d iface direction)
  unfolding download_and_start_bpf_program
  download-IsAbout b d iface direction = search (leaf_rules, set_prev-IsAbout) depth 30

  link_next-IsAbout : (b : Ref) (o : Option Ref) (m : String) → IsAbout e n (link_next b o m)
  unfolding link_next
  link_next-IsAbout b none m = search leaf_rules
  link_next-IsAbout b (some a) m = search (leaf_rules, link-IsAbout) depth 30

  find_move_mark-IsAbout : (b : Ref) (l : Chain) → IsAbout e n (find_move_mark b l)
  unfolding find_move_mark
  find_move_mark-IsAbout b [] = search leaf_rules
  find_move_mark-IsAbout b (f ∷ fs) =
      search (leaf_rules, λ (r : Ref). find_move_mark-IsAbout r fs) depth 30

  close_gap-IsAbout : (a b : Option Ref) (m : String) → IsAbout e n (close_gap a b m)
  unfolding close_gap
  close_gap-IsAbout (some a) (some b) m = search (leaf_rules, link-IsAbout) depth 30
  close_gap-IsAbout (some a) none m = search leaf_rules
  close_gap-IsAbout none (some b) m = search leaf_rules
  close_gap-IsAbout none none m = search leaf_rules

  open_gap-IsAbout : (a b : Option Ref) → IsAbout e n (open_gap a b)
  unfolding open_gap
  open_gap-IsAbout (some a) (some b) = search (leaf_rules, close_gap-IsAbout) depth 30
  open_gap-IsAbout (some a) none = search leaf_rules depth 30
  open_gap-IsAbout none (some b) = search leaf_rules depth 30
  open_gap-IsAbout none none = search leaf_rules depth 30

  link_prev-IsAbout : (o : Option Ref) (b : Ref) (m : String) → IsAbout e n (link_prev o b m)
  unfolding link_prev
  link_prev-IsAbout none b m = search leaf_rules
  link_prev-IsAbout (some a) b m = search (leaf_rules, link-IsAbout) depth 30

  move_in_front-IsAbout :
      (b mark : Ref) (l : Chain) (d : Direction) (iface : String)
      → IsAbout e n (move_in_front b mark l d iface)
  unfolding move_in_front
  move_in_front-IsAbout b mark l d iface =
      search (leaf_rules, open_gap-IsAbout, link-IsAbout, link_next-IsAbout) depth 30

  move_behind-IsAbout :
      (b : Ref) (l : Chain) (d : Direction) (iface : String) → IsAbout e n (move_behind b l d iface)
  unfolding move_behind
  move_behind-IsAbout b l d iface =
      search (leaf_rules, close_gap-IsAbout, link_prev-IsAbout) depth 30

  move-IsAbout :
      (b : Ref) (d : Direction) (iface : String) → IsAbout e n (move_to_location b d iface)
  unfolding move_to_location
  move-IsAbout b d iface =
      search (leaf_rules, find_move_mark-IsAbout, move_in_front-IsAbout, move_behind-IsAbout) depth
        30

  put_next-IsAbout : (b : Ref) (o : Option Ref) → IsAbout e n (put_next b o)
  unfolding put_next
  put_next-IsAbout b none = search leaf_rules
  put_next-IsAbout b (some a) = search leaf_rules depth 30

  monitor_maps-IsAbout :
      (p : BpfProgram)
      → IsAbout e n (
          write e (λ bpf. record bpf {
            program = record (bpf.program) { monitor_maps = p.monitor_maps };
          }))
  monitor_maps-IsAbout p =
      write-IsAbout e n
        (λ bpf. record bpf { program = record (bpf.program) { monitor_maps = p.monitor_maps } })
        (λ b h. h)

  cfg_version-IsAbout :
      (p : BpfProgram)
      → IsAbout e n (
          write e
            (λ bpf. record bpf { program = record (bpf.program) { cfg_version = p.cfg_version } }))
  cfg_version-IsAbout p =
      write-IsAbout e n
        (λ bpf. record bpf { program = record (bpf.program) { cfg_version = p.cfg_version } })
        (λ b h. h)

  seq_id-IsAbout :
      (p : BpfProgram)
      → IsAbout e n
          (write e (λ bpf. record bpf { program = record (bpf.program) { seq_id = p.seq_id } }))
  seq_id-IsAbout p =
      write-IsAbout e n (λ bpf. record bpf { program = record (bpf.program) { seq_id = p.seq_id } })
        (λ b h. h)

  map_args-IsAbout :
      (p : BpfProgram)
      → IsAbout e n
          (write e (λ bpf. record bpf { program = record (bpf.program) { map_args = p.map_args } }))
  map_args-IsAbout p =
      write-IsAbout e n
        (λ bpf. record bpf { program = record (bpf.program) { map_args = p.map_args } }) (λ b h. h)

  change_monitoring-IsAbout : (p : BpfProgram) → IsAbout e n (change_monitoring p e)
  unfolding change_monitoring
  change_monitoring-IsAbout p = bind-IsAbout e n _ _ (read-IsAbout e n e) (λ bpf.
      bind-IsAbout e n _ _ (if-IsAbout e n _ _ _ (monitor_maps-IsAbout p) (pure-IsAbout e n tt))
        (λ _. cfg_version-IsAbout p))

  change_seq_id-IsAbout :
      (p : BpfProgram) (d : Direction) (iface : String) → IsAbout e n (change_seq_id p e d iface)
  unfolding change_seq_id
  change_seq_id-IsAbout p d iface = bind-IsAbout e n _ _ (read-IsAbout e n e) (λ bpf.
      if-IsAbout e n _ _ _ (pure-IsAbout e n tt) (
        bind-IsAbout e n _ _ (seq_id-IsAbout p)
          (λ _. wrap-IsAbout e n _ _ (move-IsAbout e d iface))))

  change_map_args-IsAbout :
      (p : BpfProgram) (direction : String) → IsAbout e n (change_map_args p e direction)
  unfolding change_map_args
  change_map_args-IsAbout p direction = bind-IsAbout e n _ _ (read-IsAbout e n e) (λ bpf.
      if-IsAbout e n _ _ _ (pure-IsAbout e n tt) (
        bind-IsAbout e n _ _ (map_args-IsAbout p) (λ _.
          bind-IsAbout e n _ _ (try-IsAbout e n _ (update-IsAbout e n e direction))
            (λ updated. pure-IsAbout e n tt))))

  pub change_settings-IsAbout :
      (p : BpfProgram) (d : Direction) (iface direction : String)
      → IsAbout e n (change_settings p e d iface direction)
  unfolding change_settings
  change_settings-IsAbout p d iface direction =
      search (leaf_rules, change_monitoring-IsAbout, change_seq_id-IsAbout, change_map_args-IsAbout)
        depth 30

module _ ⦃os : Os⦄ (e : Ref) where
  program-IsAbout :
      (p : BpfProgram) → IsAbout e p.name (write e (λ bpf. record bpf { program = p }))
  program-IsAbout p = write-IsAbout e p.name (λ bpf. record bpf { program = p }) (λ b h. refl)

  pub change_version-IsAbout :
      (p : BpfProgram) (l : Chain) (d : Direction) (iface direction : String)
      → IsAbout e p.name (change_version p e l d iface direction)
  unfolding change_version
  change_version-IsAbout p l d iface direction =
      bind-IsAbout e p.name _ _ (gets-IsAbout e p.name _) (λ conf.
        bind-IsAbout e p.name _ _
          (wrap-IsAbout e p.name _ _
            (stop-IsAbout e p.name e iface direction conf.bpf_chaining_enabled))
          (λ _. bind-IsAbout e p.name _ _ (program-IsAbout p) (λ _.
            bind-IsAbout e p.name _ _
              (wrap-IsAbout e p.name _ _ (download-IsAbout e p.name e d iface direction))
              (λ _. put_next-IsAbout e p.name e (next l e)))))
