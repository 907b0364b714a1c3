-- ===== src/Tests/Disk.antt =====
-- A system that keeps the texts of its files, and the properties that go through files at it.
use text.Mathlib.TextPositions.{eq_refl}
use Prim.Native.String
use l3afd.Prelude.{
  ◌≡◌, ◌≢◌, ◌↔◌, refl, ◌∙◌, ap, Bool, true, false, String, Option, none, some, [], ◌∷◌, Map, insert,
  lookup, lookup-insert, if◌then◌else◌, ◌==◌, arith,
}
use l3afd.Prelude.Text.{contains}
use l3afd.Prelude.Decimal.{emit, itoa}
use l3afd.Config.{Config}
use l3afd.Os.{Os, ReadFile, is_file, not_exist, content, no_file}
use l3afd.Exec.{ok, err}
use l3afd.Files.{FileSystem}
use l3afd.Pidfile.{check_pid_conflict, text_of}
use l3afd.Pidfile.Instances.{check-decides}
use l3afd.Main.{check_version}
use l3afd.Main.Kernel.{IsReached, version_text, check_version-IsReached}
use l3afd.Apis.{listens_with_mtls}
use l3afd.Apis.Certificates.{listens_with_mtls-host_port}
use l3afd.Tests.World.{system, conf, willing_os}

-- The command names of the processes of the system.
abbrev proc_comm : String → Option String
proc_comm name =
    if name == "/proc/self/comm"
    then some "l3afd"
    else if name == "/proc/7/comm"
    then some "l3afd"
    else none

abbrev disk_file : Option String → Option String → ReadFile
disk_file (some comm) kept = content comm
disk_file none (some body) = content body
disk_file none none = no_file

abbrev disk_write : Option String → String → String → Map String → Bool × Map String
disk_write (some comm) name body w = (false, w)
disk_write none name body w = (true, insert name body w)

abbrev pub disk_os : Os
disk_os =
    record (system (Map String) (λ name w. (disk_file (proc_comm name) (lookup name w), w))
      (λ name body w. disk_write (proc_comm name) name body w) (λ name w. (true, w))
      (λ name w. (true, w))) { getpid = λ w. (12, w) }

pub disk_write-kept :
    (comm : Option String) (name body : String) (w : Map String)
    → (disk_write comm name body w).0 ≡ true
    → disk_file comm (lookup name (disk_write comm name body w).1) ≡ content body
disk_write-kept (some comm) name body w done = absurd (ground (arith, done))
disk_write-kept none name body w done = ap (disk_file none) (
    lookup-insert name name body w
    ∙ ap (λ b. if b then some body else lookup name w) (eq_refl name))

pub disk_write-other :
    (comm named : Option String) (name body other text : String) (w : Map String)
    → (other == name) ≡ false
    → disk_file named (lookup name w) ≡ content body
    → disk_file named (lookup name (disk_write comm other text w).1) ≡ content body
disk_write-other (some c) named name body other text w d h = h
disk_write-other none named name body other text w d h =
    ap (disk_file named)
      (lookup-insert other name text w ∙ ap (λ b. if b then some text else lookup name w) d)
    ∙ h

pub exists : is_file true ≢ not_exist
exists same = absurd (ground (arith, same))

abbrev pub disk : FileSystem disk_os
disk = record {
  Holds = λ w name body. disk_file (proc_comm name) (lookup name w) ≡ content body;
  written = λ name body w done. disk_write-kept (proc_comm name) name body w done;
  read = λ name body w h. h;
  opens = λ name body w h. refl;
  found = λ name body w h. exists;
  read_keeps = λ name body other w h. h;
  open_keeps = λ name body other w h. h;
  stat_keeps = λ name body other w h. h;
  getpid_keeps = λ name body w h. h;
  signal_keeps = λ name body pid w h. h;
  interfaces_keep = λ name body w h. h;
  write_keeps = λ name body other text w d h.
      disk_write-other (proc_comm other) (proc_comm name) name body other text w d h;
  remove_keeps = λ name body other w d h. h;
}

-- Another instance runs as process 7.
abbrev with_pid : Map String
with_pid = ("/run/l3afd.pid", "7") ∷ []

pid_kept :
    disk_file (proc_comm "/run/l3afd.pid") (lookup "/run/l3afd.pid" with_pid) ≡ content (itoa 7)
unfolding lookup itoa emit
pid_kept = refl

seven_comm :
    (kept : Option String)
    → disk_file (proc_comm (String.◌++◌ "/proc/" (String.◌++◌ (itoa 7) "/comm"))) kept
      ≡ content "l3afd"
unfolding itoa emit
seven_comm kept = refl

check-decides_example :
    (check_pid_conflict ⦃os = disk_os⦄ "/run/l3afd.pid" with_pid).0
    ≡ err "a previous instance of this process is running"
check-decides_example =
    check-decides ⦃os = disk_os⦄ disk "/run/l3afd.pid" (some "l3afd") (some "l3afd") 12 7 true true
      with_pid (omega arith) (λ same. absurd (omega (arith, same))) pid_kept (λ v. refl) (λ v. refl)
      (λ v. refl)
      (λ v.
        ap text_of (seven_comm (lookup (String.◌++◌ "/proc/" (String.◌++◌ (itoa 7) "/comm")) v)))
      (λ v. refl)

check_version-IsReached_example :
    ((check_version ⦃os = disk_os⦄ conf (version_text 5 15 "0-86-generic") []).0 ≡ ok tt)
    ↔ IsReached conf 5 15
check_version-IsReached_example =
    check_version-IsReached ⦃os = disk_os⦄ conf 5 15 "0-86-generic" [] (omega arith) (omega arith)

-- Any address of the host, and mTLS switched off.
abbrev open_conf : Config
open_conf = record conf { l3af_configs_rest_api_addr = "0.0.0.0:53000"; mtls_enabled = false }

not_local : contains "0.0.0.0:53000" "localhost:" ≡ false
unfolding contains
not_local = refl

listens_with_mtls-host_port_example : listens_with_mtls open_conf ≡ true
listens_with_mtls-host_port_example =
    listens_with_mtls-host_port open_conf "0.0.0.0" "53000" refl
      (refl, (refl, (refl, (refl, (refl, tt))))) not_local
