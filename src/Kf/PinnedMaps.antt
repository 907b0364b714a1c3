-- ===== src/Kf/PinnedMaps.antt =====
-- The pinned program maps of kf/bpf.go: a program's own map holds, at key 0, the program that follows.
pub mod Quiet
use l3afd.Prelude.{ℕ, zero, suc, ℤ, pos, Bool, true, false, ◌||◌, not, String, ◌==◌, if◌then◌else◌}
use l3afd.Models.{xdp_type}
use l3afd.Os.{Os, Stat, is_file, is_dir, not_exist, stat_error}
use l3afd.Exec.{pure, fail, panics, some_or, check, ◌>>=◌, ◌>>◌}
use l3afd.Kf.ElementList.{Ref}
use l3afd.Kf.State.{Kf}
use l3afd.Kf.Access.{call, sleep, read}

-- `err == nil` of os.Stat
abbrev pub is_found : Stat → Bool
is_found (is_file _) = true
is_found (is_dir _) = true
is_found _ = false

abbrev pub is_missing : Stat → Bool
is_missing not_exist = true
is_missing _ = false

module _ ⦃os : Os⦄ where
  unfoldable pub put_next_prog_fd_from_id : Ref → ℤ → Kf (Unit {0})
  put_next_prog_fd_from_id b prog_id = do
    bpf ← read b
    if bpf.program.map_name == "" then pure tt else do
      pinned ← call (os.load_pinned_map bpf.program.map_name)
      ebpf_map ← some_or pinned "unable to access pinned next prog map"
      bpf_prog ← call (os.program_from_id prog_id)
      fd ← some_or bpf_prog "failed to get next prog FD from ID for program"
      updated ← call (os.map_update ebpf_map (pos 0) (pos fd))
      check updated "unable to update prog next map"

  unfoldable pub get_prog_id : Ref → Kf ℤ
  get_prog_id b = do
    bpf ← read b
    pinned ← call (os.load_pinned_map bpf.prev_map_name)
    ebpf_map ← some_or pinned "unable to access pinned prog map"
    found ← call (os.map_lookup ebpf_map (pos 0))
    value ← some_or found "unable to lookup prog map"
    bpf_prog ← call (os.program_from_id value)
    fd ← some_or bpf_prog "failed to verify program ID"
    pure value

  unfoldable pub remove_next_prog_fd : Ref → Kf (Unit {0})
  remove_next_prog_fd b = do
    bpf ← read b
    if bpf.program.map_name == "" then pure tt else do
      pinned ← call (os.load_pinned_map bpf.program.map_name)
      ebpf_map ← some_or pinned "unable to access pinned next prog map"
      deleted ← call (os.map_delete ebpf_map (pos 0))
      check deleted "failed to delete prog fd entry"

  -- A failing deletion is only logged.
  unfoldable pub remove_prev_prog_fd : Ref → Kf (Unit {0})
  remove_prev_prog_fd b = do
    bpf ← read b
    pinned ← call (os.load_pinned_map bpf.prev_map_name)
    ebpf_map ← some_or pinned "unable to access pinned prev prog map"
    deleted ← call (os.map_delete ebpf_map (pos 0))
    pure tt

  -- The loop of VerifyPinnedMapExists, by the rounds left.
  unfoldable pub await_pinned_map : ℕ → String → Kf (Unit {0})
  await_pinned_map zero map_name = fail "failed to find pinned file"
  await_pinned_map (suc n) map_name = do
    info ← call (os.stat map_name)
    if is_found info then pure tt else do sleep; await_pinned_map n map_name

  unfoldable pub verify_pinned_map_exists : Ref → Bool → Kf (Unit {0})
  unfolding await_pinned_map
  verify_pinned_map_exists b chain = do
    bpf ← read b
    if not chain || bpf.program.map_name == ""
        then pure tt
        else await_pinned_map 10 bpf.program.map_name

  unfoldable pub await_map_removal : ℕ → String → Kf (Unit {0})
  await_map_removal zero map_name = fail "map file was never removed by BPF program"
  await_map_removal (suc n) map_name = do
    info ← call (os.stat map_name)
    if is_missing info then pure tt else do sleep; await_map_removal n map_name

  unfoldable pub verify_pinned_map_vanish : Ref → Bool → Kf (Unit {0})
  unfolding await_map_removal
  verify_pinned_map_vanish b chain = do
    bpf ← read b
    let program = bpf.program
    if program.map_name == "" || not (program.prog_type == xdp_type) || not chain
        then pure tt
        else await_map_removal 10 program.map_name

  -- A Stat error other than "not exist" leaves no file info, whose method call panics.
  unfoldable pub file_exists : String → Kf Bool
  file_exists filename = do
    info ← call (os.stat filename)
    elim info [
      | is_file _ ↦ pure true
      | is_dir _ ↦ pure false
      | not_exist ↦ pure false
      | stat_error ↦ panics
    ]
