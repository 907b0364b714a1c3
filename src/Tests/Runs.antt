-- ===== src/Tests/Runs.antt =====
-- Whole runs at the interface of the tests.
use l3afd.Prelude.{◌≡◌, refl, some, lookup, insert}
use l3afd.Prelude.Text.{contains, split, before_dot, clean, join}
use l3afd.Exec.{ok, pure, fail, panics, gets, wrap, try, attempt, on_option, ◌>>=◌}
use l3afd.Stats.{incr, set}
use l3afd.Kf.ElementList.{next, prev_from, prev, insert_before, push_back}
use l3afd.Kf.Access.{direction_of, call, sleep, read, write, alloc, get_chain, set_chain, publish}
use l3afd.Kf.PinnedMaps.{
  put_next_prog_fd_from_id, get_prog_id, remove_prev_prog_fd, await_pinned_map,
  verify_pinned_map_exists,
}
use l3afd.Kf.Processes.{
  stop_matching, stop_external_running_process, assert_executable, flags, is_process_running,
  await_process, verify_process_object, is_running, set_limit, set_pr_limits,
}
use l3afd.Kf.Artifacts.{verify_and_get_artifacts}
use l3afd.Kf.Lifecycle.{
  new_bpf_program, start_arguments, finish_start, launch, start, await_prog_id,
}
use l3afd.Kf.Linking.{
  link_bpf_programs, set_prev_map_name, download_and_start_bpf_program, alloc_program,
  push_back_and_start_bpf,
}
use l3afd.Kf.Placement.{
  find_position, link_next, insert_at, insert_into, insert_and_start_bpf_program,
}
use l3afd.Tests.World.{willing_os, start_state, mirror}

-- The mirror is inserted without an error.
mirror_inserted :
    (insert_and_start_bpf_program (some mirror) "eth0" "xdpingress" start_state).0 ≡ ok tt
unfolding insert_and_start_bpf_program find_position link_next insert_at insert_into alloc_program
    link_bpf_programs set_prev_map_name download_and_start_bpf_program push_back_and_start_bpf
    new_bpf_program start_arguments finish_start launch start await_prog_id verify_and_get_artifacts
    stop_matching stop_external_running_process assert_executable flags is_process_running
    await_process verify_process_object is_running set_limit set_pr_limits put_next_prog_fd_from_id
    get_prog_id remove_prev_prog_fd await_pinned_map verify_pinned_map_exists direction_of call
    sleep read write alloc get_chain set_chain publish next prev_from prev insert_before push_back
    incr set pure fail panics gets wrap try attempt on_option ◌>>=◌ lookup insert contains join
    clean split before_dot
mirror_inserted = refl
