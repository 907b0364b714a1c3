-- ===== src/Kf/Processes.antt =====
-- The user processes of the programs: kf/bpf.go's StopExternalRunningProcess, isRunning and
-- VerifyProcessObject, kf/kf_unix.go, and assertExecutable of kf/bpf_test_unix.go.
pub mod Quiet
use Prim.Native.String
use l3afd.Prelude.{
  ℕ, zero, suc, ℤ, pos, Bool, false, ◌&&◌, not, String, none, some, List, [], ◌∷◌, Map, nat_eq, ltb,
  eq_ℤ, ◌==◌, if◌then◌else◌,
}
use l3afd.Prelude.Text.{contains, equal_fold, join}
use l3afd.Models.{Value, str, other, Args}
use l3afd.Os.{Os, Stat, is_file, is_dir, Process}
use l3afd.Exec.{on_option, pure, fail, deref, some_or, check, try, ◌>>=◌, ◌>>◌}
use l3afd.Kf.ElementList.{Ref}
use l3afd.Kf.State.{Kf}
use l3afd.Kf.Access.{call, sleep, read}

-- Process names are truncated to 15 bytes.
abbrev pub ps_name : String → String
ps_name name = if ltb 15 (String.len name) then String.slice name 0 15 else name

abbrev pub entries : Args → Map Value
entries none = []
entries (some m) = m

abbrev pub is_executable : Stat → Bool
is_executable (is_file b) = b
is_executable (is_dir b) = b
is_executable _ = false

module _ ⦃os : Os⦄ where
  unfoldable pub stop_matching : String → ℕ → List Process → Kf (Unit {0})
  stop_matching name my_pid [] = pure tt
  stop_matching name my_pid (process ∷ rest) = do
    if contains process.executable name && not (nat_eq process.ppid my_pid)
        then (do
          killed ← call (os.sigkill process.pid)
          check killed "external BPFProgram stop failed with error")
        else pure tt
    stop_matching name my_pid rest

  unfoldable pub stop_external_running_process : String → Kf (Unit {0})
  unfolding stop_matching
  stop_external_running_process process_name = do
    check (not (process_name == "")) "process name can not be empty"
    my_pid ← call os.getpid
    listed ← call os.processes
    process_list ← some_or listed "failed to fetch processes list"
    stop_matching (ps_name process_name) my_pid process_list

  unfoldable pub assert_executable : String → Kf (Unit {0})
  assert_executable path = do
    info ← call (os.stat path)
    check (is_executable info) "no executable permissions"

  -- `--key=value` for each argument, in the order of the range over the map.
  unfoldable pub flags : String → Map Value → Kf (List String)
  flags e [] = pure []
  flags e ((k, other v) ∷ m) = fail e
  flags e ((k, str v) ∷ m) = do
    rest ← flags e m
    pure (String.◌++◌ "--" (String.◌++◌ k (String.◌++◌ "=" v)) ∷ rest)

  -- IsProcessRunning; false comes with an error.
  unfoldable pub is_process_running : ℕ → Kf (Unit {0})
  is_process_running pid = do
    scanned ← call (os.proc_state pid)
    state ← some_or scanned "BPF Program not running"
    check (not (state == "Z")) "process in Zombie state"

  unfoldable pub await_process : ℕ → Ref → Kf (Unit {0})
  unfolding on_option
  await_process zero b = fail "process object is nil"
  await_process (suc n) b = do
    bpf ← read b
    cmd ← deref bpf.cmd
    on_option cmd.process (sleep >> await_process n b) (λ pid. pure tt)

  unfoldable pub verify_process_object : Ref → Kf (Unit {0})
  unfolding await_process
  verify_process_object b = do
    bpf ← read b
    some_or bpf.cmd "command object is nil"
    await_process 10 b

  -- isRunning; it returns false with an error, and true with none.
  unfoldable pub is_running : Ref → Kf (Unit {0})
  unfolding flags assert_executable is_process_running verify_process_object
  is_running b = do
    bpf ← read b
    let program = bpf.program
    if ltb 1 (String.len program.cmd_status)
        then (do
          let cmd = join (bpf.file_path ∷ program.cmd_status ∷ [])
          assert_executable cmd
          args ← flags "status args is not a string" (entries program.status_args)
          (success, out) ← call (os.run cmd args)
          check (equal_fold out "RUNNING") "BPF Program not running")
        else if not program.user_program_daemon
        then pure tt
        else do
          alive ← try (verify_process_object b)
          check alive "no process id found"
          bpf ← read b
          cmd ← deref bpf.cmd
          pid ← deref cmd.process
          is_process_running pid

  unfoldable pub process_terminate : Ref → Kf (Unit {0})
  process_terminate b = do
    bpf ← read b
    cmd ← deref bpf.cmd
    pid ← deref cmd.process
    sent ← call (os.sigterm pid)
    check sent "SIGTERM failed with error"

  -- A limit that cannot be set is only logged. RLIMIT_AS is 9, RLIMIT_CPU is 0.
  unfoldable pub set_limit : Ref → ℕ → ℤ → Kf (Unit {0})
  set_limit b resource limit = if eq_ℤ limit (pos 0) then pure tt else do
    bpf ← read b
    cmd ← deref bpf.cmd
    pid ← deref cmd.process
    done ← call (os.prlimit pid resource limit)
    pure tt

  unfoldable pub set_pr_limits : Ref → Kf (Unit {0})
  unfolding set_limit
  set_pr_limits b = do
    bpf ← read b
    cmd ← some_or bpf.cmd "no Process to set limits"
    set_limit b 9 bpf.program.memory
    set_limit b 0 bpf.program.cpu
