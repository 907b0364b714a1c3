-- ===== src/Kf/Update.antt =====
-- VerifyNUpdateBPFProgram of kf/nfconfig.go: brings a running program to its new configuration.
pub mod Order
pub mod Names
pub mod Members
pub mod Inserted
pub mod Same
pub mod Disable
pub mod Version
pub mod Settings
pub mod Whole
pub mod Follows
use l3afd.Prelude.{
  ◌&&◌, ◌||◌, not, String, Option, none, some, is_some, [], ◌∷◌, eq_ℤ, ◌==◌, if◌then◌else◌,
}
use l3afd.Models.{BpfProgram}
use l3afd.Os.{Os}
use l3afd.Exec.{on_option, pure, gets, deref, some_or, wrap, try, ◌>>=◌, ◌>>◌}
use l3afd.Kf.ElementList.{Ref, Chain, next}
use l3afd.Kf.State.{Direction, Kf}
use l3afd.Kf.Access.{direction_of, read, write, get_chain, set_chain}
use l3afd.Kf.PinnedMaps.{put_next_prog_fd_from_id}
use l3afd.Kf.ConfigMaps.{update}
use l3afd.Kf.Equality.{args_eq, monitor_maps_eq, program_eq}
use l3afd.Kf.Lifecycle.{stop}
use l3afd.Kf.Linking.{download_and_start_bpf_program, stop_root_program}
use l3afd.Kf.Placement.{insert_and_start_bpf_program, move_to_location}
use l3afd.Kf.Removal.{stands_alone, take_out}

module _ ⦃os : Os⦄ where
  -- The loop over the list: the element whose program has the name.
  unfoldable pub find_program : String → Chain → Kf (Option Ref)
  find_program name [] = pure none
  find_program name (e ∷ es) = do
    data_bpf ← read e
    if data_bpf.program.name == name then pure (some e) else find_program name es

  -- The end of the admin_status branch: a chain that is left with its root only is taken down.
  unfoldable pub stop_lone_root : Chain → Ref → String → String → Kf (Unit {0})
  stop_lone_root rest tmp_previous iface_name direction = do
    conf ← gets (λ s. s.configs.host_config)
    if stands_alone rest tmp_previous && conf.bpf_chaining_enabled
        then wrap "failed to stop to root program" (stop_root_program iface_name direction)
        else pure tt

  unfoldable pub change_admin_status :
      BpfProgram → Ref → Chain → Direction → String → String → Kf (Unit {0})
  unfolding stop_lone_root
  change_admin_status bpf_prog e l d iface_name direction = do
    write e (λ bpf. record bpf {
      program = record (bpf.program) { admin_status = bpf_prog.admin_status };
    })
    (rest, before, after) ←
        take_out e l d iface_name direction "failed to stop to on admin_status change BPF"
          "admin status disabled - failed LinkBPFPrograms"
    if not (is_some before) && not (is_some after)
        then set_chain d iface_name none
        else do tmp_previous ← deref before; stop_lone_root rest tmp_previous iface_name direction

  -- `data.PutNextProgFDFromID(…)` for the next element, whose error is dropped.
  unfoldable pub put_next : Ref → Option Ref → Kf (Unit {0})
  put_next e none = pure tt
  put_next e (some after) = do
    after_bpf ← read after
    put ← try (put_next_prog_fd_from_id e after_bpf.prog_id)
    pure tt

  unfoldable pub change_version :
      BpfProgram → Ref → Chain → Direction → String → String → Kf (Unit {0})
  unfolding put_next
  change_version bpf_prog e l d iface_name direction = do
    conf ← gets (λ s. s.configs.host_config)
    wrap "failed to stop older version of network function BPF"
        (stop e iface_name direction conf.bpf_chaining_enabled)
    write e (λ bpf. record bpf { program = bpf_prog })
    wrap "failed to download and start newer version of network function BPF"
        (download_and_start_bpf_program e d iface_name direction)
    put_next e (next l e)

  -- The monitored maps and the configuration version.
  unfoldable pub change_monitoring : BpfProgram → Ref → Kf (Unit {0})
  change_monitoring bpf_prog e = do
    bpf ← read e
    if not (monitor_maps_eq bpf.program.monitor_maps bpf_prog.monitor_maps)
        then write e (λ bpf. record bpf {
          program = record (bpf.program) { monitor_maps = bpf_prog.monitor_maps };
        })
        else pure tt
    write e (λ bpf. record bpf {
      program = record (bpf.program) { cfg_version = bpf_prog.cfg_version };
    })

  unfoldable pub change_seq_id : BpfProgram → Ref → Direction → String → Kf (Unit {0})
  change_seq_id bpf_prog e d iface_name = do
    bpf ← read e
    if eq_ℤ bpf.program.seq_id bpf_prog.seq_id then pure tt else do
      write e (λ bpf. record bpf { program = record (bpf.program) { seq_id = bpf_prog.seq_id } })
      wrap "failed to move to new position in the chain BPF" (move_to_location e d iface_name)

  unfoldable pub change_map_args : BpfProgram → Ref → String → Kf (Unit {0})
  change_map_args bpf_prog e direction = do
    bpf ← read e
    if args_eq bpf.program.map_args bpf_prog.map_args then pure tt else do
      write e
          (λ bpf. record bpf { program = record (bpf.program) { map_args = bpf_prog.map_args } })
      updated ← try (update e direction)
      pure tt

  unfoldable pub change_settings : BpfProgram → Ref → Direction → String → String → Kf (Unit {0})
  unfolding change_monitoring change_seq_id change_map_args
  change_settings bpf_prog e d iface_name direction = do
    change_monitoring bpf_prog e
    change_seq_id bpf_prog e d iface_name
    change_map_args bpf_prog e direction

  unfoldable pub update_element :
      BpfProgram → Ref → Chain → Direction → String → String → Kf (Unit {0})
  unfolding change_admin_status change_version change_settings
  update_element bpf_prog e l d iface_name direction = do
    data_bpf ← read e
    let program = data_bpf.program
    if program_eq program bpf_prog
        then pure tt
        else if not (program.admin_status == bpf_prog.admin_status)
        then change_admin_status bpf_prog e l d iface_name direction
        else if not (program.version == bpf_prog.version)
            || not (args_eq program.start_args bpf_prog.start_args)
        then change_version bpf_prog e l d iface_name direction
        else change_settings bpf_prog e d iface_name direction

  unfoldable pub verify_n_update_bpf_program : Option BpfProgram → String → String → Kf (Unit {0})
  unfolding find_program update_element on_option
  verify_n_update_bpf_program none iface_name direction = pure tt
  verify_n_update_bpf_program (some bpf_prog) iface_name direction = do
    d ← some_or (direction_of direction) "unknown direction type"
    bpf_list ← get_chain d iface_name
    l ← deref bpf_list
    found ← find_program bpf_prog.name l
    on_option found
        (wrap "failed to insert and start BPFProgram to new location BPF"
          (insert_and_start_bpf_program (some bpf_prog) iface_name direction))
        (λ e. update_element bpf_prog e l d iface_name direction)
