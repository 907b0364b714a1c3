-- ===== src/Kf/Lifecycle.antt =====
-- Starting and stopping one program: NewBpfProgram, Stop, Start, createUpdateRulesFile,
-- VerifyMetricsMapsVanish and LoadRootProgram of kf/bpf.go.
pub mod Quiet
pub mod Stopped
pub mod Commands
pub mod Started
use Prim.Native.String
use l3afd.Prelude.{
  is_empty, ℕ, zero, suc, ℤ, pos, Bool, true, false, ◌&&◌, ◌||◌, not, String, Option, none, some,
  is_some, List, [], ◌∷◌, ◌++◌, Map, ltb, ◌==◌, if◌then◌else◌,
}
use l3afd.Prelude.Text.{join}
use l3afd.Models.{
  BpfProgram, str, xdp_type, tc_type, ingress_type, egress_type, enabled, start_type, stop_type,
}
use l3afd.Config.{Config}
use l3afd.Os.{Os}
use l3afd.Stats.{nf_start_count, nf_stop_count, nf_running, nf_start_time, incr, set}
use l3afd.Exec.{on_option, pure, fail, blocks, deref, check, wrap, try, attempt, ◌>>=◌, ◌>>◌}
use l3afd.Kf.ElementList.{Ref}
use l3afd.Kf.State.{BpfMap, Bpf, Kf}
use l3afd.Kf.Access.{call, sleep, read, write, alloc, publish}
use l3afd.Kf.PinnedMaps.{
  get_prog_id, remove_prev_prog_fd, verify_pinned_map_exists, verify_pinned_map_vanish, file_exists,
}
use l3afd.Kf.Processes.{
  entries, stop_external_running_process, assert_executable, flags, is_running, process_terminate,
  set_pr_limits,
}
use l3afd.Kf.ConfigMaps.{update}
use l3afd.Kf.Artifacts.{verify_and_get_artifacts}

unfoldable pub new_bpf_program : BpfProgram → String → String → Bpf
new_bpf_program program log_dir data_center = record {
  program = program;
  cmd = none;
  file_path = "";
  restart_count = 0;
  log_dir = log_dir;
  prev_map_name = "";
  prog_id = pos 0;
  bpf_maps = [];
  metrics_bpf_maps = [];
  has_maps = true;
  done = none;
  data_center = data_center;
}

-- Whether a program has a KF specific configuration to watch.
abbrev pub has_kf_configs : BpfProgram → Bool
has_kf_configs program = not (program.cmd_config == "") && not (program.config_file_path == "")

abbrev pub value_or_zero : Option ℤ → ℤ
value_or_zero none = pos 0
value_or_zero (some v) = v

module _ ⦃os : Os⦄ where
  -- Whether one of the maps can still be opened by its id.
  unfoldable pub maps_alive : Map BpfMap → Kf Bool
  maps_alive [] = pure false
  maps_alive ((k, v) ∷ m) = do
    opened ← call (os.map_from_id v.map_id)
    rest ← maps_alive m
    pure (is_some opened || rest)

  unfoldable pub await_metrics_removal : ℕ → Ref → Kf (Unit {0})
  unfolding maps_alive
  await_metrics_removal zero b = fail "metrics maps are never removed by Kernel"
  await_metrics_removal (suc n) b = do
    bpf ← read b
    map_exists ← maps_alive bpf.bpf_maps
    if not map_exists then pure tt else do sleep; await_metrics_removal n b

  unfoldable pub verify_metrics_maps_vanish : Ref → Kf (Unit {0})
  unfolding await_metrics_removal
  verify_metrics_maps_vanish b = await_metrics_removal 10 b

  -- RunKFConfigs of kf/kfCfgs_internal.go, in its own goroutine: it logs a line and returns.
  unfoldable pub run_kf_configs : Ref → Kf (Unit {0})
  run_kf_configs b = pure tt

  -- A send on a channel without a buffer needs a receive that waits.
  unfoldable pub send_to : Ref → ℕ → Kf (Unit {0})
  send_to b zero = blocks
  send_to b (suc waiting) = write b (λ bpf. record bpf { done = some waiting })

  -- `b.Done <- true`. On a nil channel it blocks for ever.
  unfoldable pub send_done : Ref → Kf (Unit {0})
  unfolding send_to on_option
  send_done b = do bpf ← read b; on_option bpf.done blocks (λ waiting. send_to b waiting)

  -- The end of Stop, once the command is gone.
  unfoldable pub verify_stopped : Ref → Bool → Kf (Unit {0})
  verify_stopped b chain = do
    wrap "failed to remove pinned file" (verify_pinned_map_vanish b chain)
    wrap "failed to remove metric map references" (verify_metrics_maps_vanish b)

  -- The branch of Stop without a stop command: SIGTERM to the process. An error of Wait is logged.
  unfoldable pub stop_process : Ref → Kf (Unit {0})
  unfolding on_option
  stop_process b = do
    wrap "process terminate failed" (process_terminate b)
    bpf ← read b
    on_option bpf.cmd (pure tt) λ cmd. do
      pid ← deref cmd.process
      waited ← call (os.wait pid)
      write b (λ bpf. record bpf { cmd = none })

  -- The branch with a stop command, whose failure is only logged.
  unfoldable pub run_stop_command : Ref → String → String → Kf (Unit {0})
  run_stop_command b iface_name direction = do
    bpf ← read b
    let program = bpf.program
    let cmd = join (bpf.file_path ∷ program.cmd_stop ∷ [])
    wrap "no executable permissions" (assert_executable cmd)
    args ← flags "stop args is not a string" (entries program.stop_args)
    stopped ← call (
        os.run cmd
          (String.◌++◌ "--iface=" iface_name ∷ String.◌++◌ "--direction=" direction ∷ args))
    write b (λ bpf. record bpf { cmd = none })

  unfoldable pub stop : Ref → String → String → Bool → Kf (Unit {0})
  unfolding verify_stopped stop_process run_stop_command send_done
  stop b iface_name direction chain = do
    bpf ← read b
    let program = bpf.program
    check (not (program.user_program_daemon && not (is_some bpf.cmd))) "BPFProgram is not running"
    write b (λ bpf. record bpf { bpf_maps = []; metrics_bpf_maps = [] })
    if has_kf_configs program then send_done b else pure tt
    write b (λ bpf. record bpf { prog_id = pos 0 })
    publish (incr nf_stop_count program.name direction)
    publish (set (pos 0) nf_running program.name direction)
    if program.cmd_stop == "" then stop_process b else run_stop_command b iface_name direction
    verify_stopped b chain

  unfoldable pub create_update_rules_file : Ref → String → Kf String
  create_update_rules_file b direction = do
    bpf ← read b
    check (not (bpf.program.rules_file == "")) "RulesFile name is empty"
    let file_name = join (bpf.file_path ∷ direction ∷ bpf.program.rules_file ∷ [])
    written ← call (os.write_file file_name bpf.program.rules)
    check written "create or Update Rules File failed"
    pure file_name

  -- At most ten attempts to read the program's ID; an attempt that fails leaves the ID 0.
  unfoldable pub await_prog_id : ℕ → Ref → Kf (Unit {0})
  await_prog_id zero b = fail "failed to fetch network functions program FD"
  await_prog_id (suc n) b = do
    found ← attempt (get_prog_id b)
    write b (λ bpf. record bpf { prog_id = value_or_zero found })
    if is_some found then pure tt else do sleep; await_prog_id n b

  abbrev pub optional_flag : Bool → String → String → List String
  optional_flag b name value = if b then String.◌++◌ name value ∷ [] else []

  -- The arguments of the start command.
  unfoldable pub start_arguments : Ref → String → String → Bool → Kf (List String)
  unfolding create_update_rules_file
  start_arguments b iface_name direction chain = do
    bpf ← read b
    let program = bpf.program
    rules ←
        (if ltb 1 (String.len program.rules_file) && ltb 1 (String.len program.rules)
          then attempt (create_update_rules_file b direction)
          else pure none)
    let rules_flag : List String = elim rules [
      | none ↦ []
      | some file_name ↦ String.◌++◌ "--rules-file=" file_name ∷ []
    ]
    args ← flags "start args is not a string" (entries program.start_args)
    pure (
        String.◌++◌ "--iface=" iface_name
        ∷ String.◌++◌ "--direction=" direction
        ∷ (optional_flag (chain && ltb 1 (String.len bpf.prev_map_name)) "--map-name="
              bpf.prev_map_name
            ++ (optional_flag (ltb 1 (String.len bpf.log_dir)) "--log-dir=" bpf.log_dir
                ++ (rules_flag ++ args))))

  -- What Start does once a daemon's process is started: it must run, its map must be pinned, its
  -- configuration is written, and its program ID is read back.
  unfoldable pub finish_start : Ref → String → String → Bool → Kf (Unit {0})
  unfolding await_prog_id run_kf_configs
  finish_start b iface_name direction chain = do
    wrap "bpf program failed to start" (is_running b)
    wrap "failed to find pinned file" (verify_pinned_map_exists b chain)
    bpf ← read b
    let program = bpf.program
    if is_empty (entries program.map_args)
        then pure tt
        else wrap "failed to update network functions BPF maps" (update b direction)
    if bpf.prev_map_name == "" then pure tt else await_prog_id 10 b
    if has_kf_configs program then write b (λ bpf. record bpf { done = some 0 }) else pure tt
    if has_kf_configs program then run_kf_configs b else pure tt
    limited ← try (set_pr_limits b)
    publish (incr nf_start_count program.name direction)
    started ← call os.now
    publish (set (pos started) nf_start_time program.name direction)

  -- The start command itself. A program without a daemon is waited for.
  unfoldable pub launch : Ref → String → String → Bool → Kf (Unit {0})
  unfolding start_arguments finish_start on_option
  launch b iface_name direction chain = do
    bpf ← read b
    let cmd = join (bpf.file_path ∷ bpf.program.cmd_start ∷ [])
    args ← start_arguments b iface_name direction chain
    write b (λ bpf. record bpf { cmd = some (record { path = cmd; args = args; process = none }) })
    started ← call (os.start cmd args)
    on_option started (fail "failed to start") λ pid. do
      write b (λ bpf. record bpf {
        cmd = some (record { path = cmd; args = args; process = some pid });
      })
      if bpf.program.user_program_daemon then finish_start b iface_name direction chain else (do
        exited ← call (os.wait pid)
        check exited "cmd wait at starting of bpf program returned with error"
        write b (λ bpf. record bpf { cmd = none })
        wrap "no userprogram and failed to find pinned file" (verify_pinned_map_exists b chain))

  unfoldable pub start : Ref → String → String → Bool → Kf (Unit {0})
  unfolding launch
  start b iface_name direction chain = do
    bpf ← read b
    let program = bpf.program
    check (not (bpf.file_path == "")) "no program binary path found"
    wrap "failed to stop external instance of the program"
        (stop_external_running_process program.cmd_start)
    wrap "no executable permissions"
        (assert_executable (join (bpf.file_path ∷ program.cmd_start ∷ [])))
    removed ← (if bpf.prev_map_name == "" then pure true else try (remove_prev_prog_fd b))
    launch b iface_name direction chain
