-- ===== src/Pidfile.antt =====
-- pidfile/pidfile.go: one instance of the daemon at a time, by a file that holds its process ID. A
-- signal to a process that is not there fails; `os.FindProcess` itself never does on Unix.
pub mod Instances
use Prim.Native.String.{◌++◌}
use l3afd.Prelude.{
  ℕ, ℤ, pos, negsuc, suc, Bool, true, false, not, String, Option, none, some, leb_ℤ, eq_ℤ, ◌==◌,
  if◌then◌else◌, ◌+◌, ◌*◌, ◌^◌,
}
use l3afd.Prelude.Decimal.{itoa, atoi, print_int}
use l3afd.Os.{Os, ReadFile, content, no_file, read_error}
use l3afd.Sys.{Sys, ask}
use l3afd.Exec.{pure, fail, some_or, check, wrap, try, ◌>>=◌, ◌>>◌}

abbrev pub text_of : ReadFile → Option String
text_of (content s) = some s
text_of no_file = none
text_of read_error = none

-- SetupGracefulShutdown once the signal has come. The handler is nil, or it ends with or without an
-- error, or the timeout comes first. The result is the exit code.
pub data Handler : Type 0 where
  no_handler timed_out : Handler
  executed : (failed : Bool) → Handler

abbrev pub exit_code : Handler → ℕ
exit_code no_handler = 0
exit_code timed_out = 1
exit_code (executed failed) = if failed then 1 else 0

module _ ⦃os : Os⦄ where
  unfoldable pub remove_pid : String → Sys (Unit {0})
  remove_pid pid_filename = do
    removed ← ask (os.remove_file pid_filename)
    check removed "could not remove PID file"

  unfoldable pub create_pid : String → Sys (Unit {0})
  create_pid pid_filename = do
    pid ← ask os.getpid
    written ← ask (os.write_file pid_filename (itoa pid))
    check written "could not write process ID to file"

  -- The process runs: only one with another command name is no conflict.
  unfoldable pub compare_names : String → ℤ → Sys (Unit {0})
  unfolding remove_pid
  compare_names pid_filename old_pid = do
    self ← ask (os.read_file "/proc/self/comm")
    self_proc_name ←
        some_or (text_of self) "could not read this processes command name from the proc filesystem"
    conflict ← ask (os.read_file ("/proc/" ++ (print_int old_pid ++ "/comm")))
    conflict_proc_name ←
        some_or (text_of conflict)
          "could not read old processes command name from the proc filesystem"
    if not (self_proc_name == conflict_proc_name)
        then wrap "removal failed, please manually remove" (remove_pid pid_filename)
        else fail "a previous instance of this process is running"

  unfoldable pub check_old_pid : String → String → Sys (Unit {0})
  unfolding compare_names remove_pid
  check_old_pid pid_filename old_pid_string = do
    old_pid ← some_or (atoi old_pid_string) "PID file contained a value which could not be parsed"
    pid ← ask os.getpid
    if eq_ℤ old_pid (pos pid) then pure tt else (do
      running ← ask (os.signal_zero old_pid)
      if not running
          then wrap "removal failed, please manually remove" (remove_pid pid_filename)
          else compare_names pid_filename old_pid)

  unfoldable pub check_content : String → ReadFile → Sys (Unit {0})
  unfolding check_old_pid
  check_content pid_filename no_file = pure tt
  check_content pid_filename read_error = fail "could not open PID file"
  check_content pid_filename (content s) = if s == "" then pure tt else check_old_pid pid_filename s

  unfoldable pub check_pid_conflict : String → Sys (Unit {0})
  unfolding check_content
  check_pid_conflict pid_filename = do
    pid_file_content ← ask (os.read_file pid_filename)
    check_content pid_filename pid_file_content

  unfoldable pub shut_down : Handler → String → Sys ℕ
  unfolding remove_pid
  shut_down handler pid_filename = do
    removed ← (if pid_filename == "" then pure true else try (remove_pid pid_filename))
    pure (exit_code handler)

-- In nanoseconds: ten seconds where no timeout is given.
unfoldable pub handler_timeout : ℤ → ℤ
handler_timeout timeout = if leb_ℤ (pos 1) timeout then timeout else pos (10 * 10 ^ 9)
