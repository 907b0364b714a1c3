-- ===== src/Kf/Linking.antt =====
-- Two neighbours in a chain, and the chain's root: LinkBPFPrograms, DownloadAndStartBPFProgram,
-- PushBackAndStartBPF and StopRootProgram of kf/nfconfig.go.
pub mod Effects
pub mod Rewrite
use l3afd.Prelude.{String, Option, none, some, []}
use l3afd.Models.{BpfProgram}
use l3afd.Os.{Os}
use l3afd.Exec.{on_option, pure, gets, deref, some_or, wrap, ◌>>=◌, ◌>>◌}
use l3afd.Kf.ElementList.{Ref, Chain, front, prev, push_back, remove}
use l3afd.Kf.State.{Direction, Kf}
use l3afd.Kf.Access.{direction_of, read, write, alloc, get_chain, set_chain}
use l3afd.Kf.PinnedMaps.{put_next_prog_fd_from_id}
use l3afd.Kf.Artifacts.{verify_and_get_artifacts}
use l3afd.Kf.Lifecycle.{new_bpf_program, start, stop}

-- The list that an element links to; an element outside every list has no neighbours.
abbrev pub or_empty : Option Chain → Chain
or_empty none = []
or_empty (some l) = l

module _ ⦃os : Os⦄ where
  unfoldable pub link_bpf_programs : Ref → Ref → Kf (Unit {0})
  link_bpf_programs left_bpf right_bpf = do
    left ← read left_bpf
    write right_bpf (λ bpf. record bpf { prev_map_name = left.program.map_name })
    right ← read right_bpf
    wrap "LinkBPFPrograms - failed to update program fd in prev prog map"
        (put_next_prog_fd_from_id left_bpf right.prog_id)

  -- `if element.Prev() != nil { bpf.PrevMapName = … }`
  unfoldable pub set_prev_map_name : Ref → Option Ref → Kf (Unit {0})
  set_prev_map_name element none = pure tt
  set_prev_map_name element (some before) = do
    prev_bpf ← read before
    write element (λ bpf. record bpf { prev_map_name = prev_bpf.program.map_name })

  unfoldable pub download_and_start_bpf_program : Ref → Direction → String → String → Kf (Unit {0})
  unfolding set_prev_map_name
  download_and_start_bpf_program element d iface_name direction = do
    l ← get_chain d iface_name
    set_prev_map_name element (prev (or_empty l) element)
    conf ← gets (λ s. s.configs.host_config)
    wrap "failed to get artifacts" (verify_and_get_artifacts element conf)
    wrap "failed to start bpf program"
        (start element iface_name direction conf.bpf_chaining_enabled)

  -- A new struct for a program of the configuration.
  unfoldable pub alloc_program : BpfProgram → Kf Ref
  alloc_program bpf_prog = do
    conf ← gets (λ s. s.configs.host_config)
    alloc (new_bpf_program bpf_prog conf.bpf_log_dir conf.data_center)

  unfoldable pub push_back_and_start_bpf : BpfProgram → String → String → Kf (Unit {0})
  unfolding alloc_program
  push_back_and_start_bpf bpf_prog iface_name direction = do
    bpf ← alloc_program bpf_prog
    d ← some_or (direction_of direction) "unknown direction type"
    bpf_list ← get_chain d iface_name
    l ← deref bpf_list
    set_chain d iface_name (some (push_back l bpf))
    wrap "failed to download and start the BPF"
        (download_and_start_bpf_program bpf d iface_name direction)

  unfoldable pub stop_root_program : String → String → Kf (Unit {0})
  unfolding on_option
  stop_root_program iface_name direction = do
    d ← some_or (direction_of direction) "unknown direction type"
    bpf_list ← get_chain d iface_name
    on_option bpf_list (pure tt) λ l. do
      root ← deref (front l)
      conf ← gets (λ s. s.configs.host_config)
      wrap "failed to stop root program" (stop root iface_name direction conf.bpf_chaining_enabled)
      set_chain d iface_name (some (remove l root))
      set_chain d iface_name none
