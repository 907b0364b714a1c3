-- ===== src/Kf/Lifecycle/Quiet.antt =====
-- Starting and stopping a program is quiet, whatever the outcome.
use l3afd.Prelude.{String, [], ◌∷◌, Bool, Map, ℕ, zero, suc}
use l3afd.Os.{Os}
use l3afd.Kf.ElementList.{Ref}
use l3afd.Kf.State.{BpfMap}
use l3afd.Kf.Quiet.{Keeps, quiet_rules}
use l3afd.Kf.PinnedMaps.Quiet.{pinned_map_rules}
use l3afd.Kf.Processes.Quiet.{process_rules}
use l3afd.Kf.ConfigMaps.Quiet.{update-Keeps}
use l3afd.Exec.{blocks}
use l3afd.Kf.Lifecycle.{
  send_to, send_done, maps_alive, await_metrics_removal, verify_metrics_maps_vanish, verify_stopped,
  stop_process, run_stop_command, stop, create_update_rules_file, await_prog_id, start_arguments,
  finish_start, launch, start,
}

module _ ⦃os : Os⦄ where
  maps_alive-Keeps : (m : Map BpfMap) → Keeps (maps_alive m)
  unfolding maps_alive
  maps_alive-Keeps [] = search quiet_rules
  maps_alive-Keeps ((k, v) ∷ m) =
      search (quiet_rules, λ (u : Unit {0}). maps_alive-Keeps m) depth 30

  await_metrics_removal-Keeps : (n : ℕ) (b : Ref) → Keeps (await_metrics_removal n b)
  unfolding await_metrics_removal
  await_metrics_removal-Keeps zero b = search quiet_rules
  await_metrics_removal-Keeps (suc n) b =
      search (quiet_rules, maps_alive-Keeps, λ (r : Ref). await_metrics_removal-Keeps n r) depth 30

  verify_metrics_maps_vanish-Keeps : (b : Ref) → Keeps (verify_metrics_maps_vanish b)
  unfolding verify_metrics_maps_vanish
  verify_metrics_maps_vanish-Keeps b = search (quiet_rules, await_metrics_removal-Keeps)

  verify_stopped-Keeps : (b : Ref) (chain : Bool) → Keeps (verify_stopped b chain)
  unfolding verify_stopped
  verify_stopped-Keeps b chain =
      search (quiet_rules, pinned_map_rules, verify_metrics_maps_vanish-Keeps) depth 30

  stop_process-Keeps : (b : Ref) → Keeps (stop_process b)
  unfolding stop_process
  stop_process-Keeps b = search (quiet_rules, process_rules) depth 30

  run_stop_command-Keeps :
      (b : Ref) (iface direction : String) → Keeps (run_stop_command b iface direction)
  unfolding run_stop_command
  run_stop_command-Keeps b iface direction = search (quiet_rules, process_rules) depth 30

  send_to-Keeps : (b : Ref) (n : ℕ) → Keeps (send_to b n)
  unfolding send_to blocks
  send_to-Keeps b zero = search quiet_rules
  send_to-Keeps b (suc n) = search quiet_rules depth 30

  send_done-Keeps : (b : Ref) → Keeps (send_done b)
  unfolding send_done
  send_done-Keeps b = search (quiet_rules, send_to-Keeps) depth 30

  -- Stopping a program, whatever the system answers, changes no chain, no program's configuration, no
  -- map that a program is linked behind, and allocates no struct.
  pub stop-Keeps :
      (b : Ref) (iface direction : String) (chain : Bool) → Keeps (stop b iface direction chain)
  unfolding stop
  stop-Keeps b iface direction chain =
      search
        (
          quiet_rules, send_done-Keeps, verify_stopped-Keeps, stop_process-Keeps,
          run_stop_command-Keeps,
        )
        depth 30

  create_update_rules_file-Keeps :
      (b : Ref) (direction : String) → Keeps (create_update_rules_file b direction)
  unfolding create_update_rules_file
  create_update_rules_file-Keeps b direction = search quiet_rules depth 30

  await_prog_id-Keeps : (n : ℕ) (b : Ref) → Keeps (await_prog_id n b)
  unfolding await_prog_id
  await_prog_id-Keeps zero b = search quiet_rules
  await_prog_id-Keeps (suc n) b =
      search (quiet_rules, pinned_map_rules, λ (r : Ref). await_prog_id-Keeps n r) depth 30

  start_arguments-Keeps :
      (b : Ref) (iface direction : String) (chain : Bool)
      → Keeps (start_arguments b iface direction chain)
  unfolding start_arguments
  start_arguments-Keeps b iface direction chain =
      search (quiet_rules, process_rules, create_update_rules_file-Keeps) depth 30

  finish_start-Keeps :
      (b : Ref) (iface direction : String) (chain : Bool)
      → Keeps (finish_start b iface direction chain)
  unfolding finish_start
  finish_start-Keeps b iface direction chain =
      search (quiet_rules, process_rules, pinned_map_rules, update-Keeps, await_prog_id-Keeps) depth
        40

  launch-Keeps :
      (b : Ref) (iface direction : String) (chain : Bool) → Keeps (launch b iface direction chain)
  unfolding launch
  launch-Keeps b iface direction chain =
      search (quiet_rules, pinned_map_rules, start_arguments-Keeps, finish_start-Keeps) depth 40

  -- Starting a program, whatever the system answers, changes no chain, no program's configuration, no
  -- map that a program is linked behind, and allocates no struct.
  pub start-Keeps :
      (b : Ref) (iface direction : String) (chain : Bool) → Keeps (start b iface direction chain)
  unfolding start
  start-Keeps b iface direction chain =
      search (quiet_rules, process_rules, pinned_map_rules, launch-Keeps) depth 40
