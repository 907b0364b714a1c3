-- ===== src/Kf/PinnedMaps/Quiet.antt =====
-- The operations on pinned maps are quiet.
use l3afd.Prelude.{Bool, String, ℤ, ℕ, zero, suc}
use l3afd.Os.{Os, Stat, is_file, is_dir, not_exist, stat_error}
use l3afd.Exec.{pure, panics}
use l3afd.Kf.ElementList.{Ref}
use l3afd.Kf.Quiet.{Keeps, quiet_rules}
use l3afd.Kf.PinnedMaps.{
  put_next_prog_fd_from_id, get_prog_id, remove_next_prog_fd, remove_prev_prog_fd, await_pinned_map,
  verify_pinned_map_exists, await_map_removal, verify_pinned_map_vanish, file_exists,
}

module _ ⦃os : Os⦄ where
  pub put_next_prog_fd_from_id-Keeps : (b : Ref) (id : ℤ) → Keeps (put_next_prog_fd_from_id b id)
  unfolding put_next_prog_fd_from_id
  put_next_prog_fd_from_id-Keeps b id = search quiet_rules depth 30

  pub get_prog_id-Keeps : (b : Ref) → Keeps (get_prog_id b)
  unfolding get_prog_id
  get_prog_id-Keeps b = search quiet_rules depth 30

  pub remove_next_prog_fd-Keeps : (b : Ref) → Keeps (remove_next_prog_fd b)
  unfolding remove_next_prog_fd
  remove_next_prog_fd-Keeps b = search quiet_rules depth 30

  pub remove_prev_prog_fd-Keeps : (b : Ref) → Keeps (remove_prev_prog_fd b)
  unfolding remove_prev_prog_fd
  remove_prev_prog_fd-Keeps b = search quiet_rules depth 30

  await_pinned_map-Keeps : (n : ℕ) (name : String) → Keeps (await_pinned_map n name)
  unfolding await_pinned_map
  await_pinned_map-Keeps zero name = search quiet_rules
  await_pinned_map-Keeps (suc n) name =
      search (quiet_rules, λ (k : String). await_pinned_map-Keeps n k) depth 30

  pub verify_pinned_map_exists-Keeps :
      (b : Ref) (chain : Bool) → Keeps (verify_pinned_map_exists b chain)
  unfolding verify_pinned_map_exists
  verify_pinned_map_exists-Keeps b chain = search (quiet_rules, await_pinned_map-Keeps) depth 30

  await_map_removal-Keeps : (n : ℕ) (name : String) → Keeps (await_map_removal n name)
  unfolding await_map_removal
  await_map_removal-Keeps zero name = search quiet_rules
  await_map_removal-Keeps (suc n) name =
      search (quiet_rules, λ (k : String). await_map_removal-Keeps n k) depth 30

  pub verify_pinned_map_vanish-Keeps :
      (b : Ref) (chain : Bool) → Keeps (verify_pinned_map_vanish b chain)
  unfolding verify_pinned_map_vanish
  verify_pinned_map_vanish-Keeps b chain = search (quiet_rules, await_map_removal-Keeps) depth 30

  file_kind-Keeps :
      (info : Stat)
      → Keeps (elim info [
        | is_file _ ↦ pure Bool.true
        | is_dir _ ↦ pure Bool.false
        | not_exist ↦ pure Bool.false
        | stat_error ↦ panics
      ])
  file_kind-Keeps (is_file _) = search quiet_rules
  file_kind-Keeps _ = search quiet_rules

  pub file_exists-Keeps : (name : String) → Keeps (file_exists name)
  unfolding file_exists
  file_exists-Keeps name = search (quiet_rules, file_kind-Keeps) depth 30

pub ruleset pinned_map_rules = (
  put_next_prog_fd_from_id-Keeps, get_prog_id-Keeps, remove_next_prog_fd-Keeps,
  remove_prev_prog_fd-Keeps, verify_pinned_map_exists-Keeps, verify_pinned_map_vanish-Keeps,
  file_exists-Keeps,
)
