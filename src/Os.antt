-- ===== src/Os.antt =====
-- What the daemon calls and does not implement: the operating system, the processes that it starts,
-- the eBPF maps and programs of the kernel (through cilium/ebpf) and the archives that it downloads.
-- A `World` is all of that at one moment. Every call takes the world and returns the next one, so
-- nothing is assumed about what happens between two calls.
use l3afd.Prelude.{ℕ, Bool, String, Option, List, ℤ}
use l3afd.Models.{L3afBpfPrograms}

-- What `os.Stat` answers.
pub data Stat : Type 0 where
  is_file : (executable : Bool) → Stat
  is_dir : (executable : Bool) → Stat
  not_exist : Stat
  stat_error : Stat

pub data ReadFile : Type 0 where
  content : String → ReadFile
  no_file : ReadFile
  read_error : ReadFile

pub record Process : Type 0 where
  pub pid : ℕ
  pub ppid : ℕ
  pub executable : String

pub data MapType : Type 0 where
  hash array other_type : MapType

pub record MapInfo : Type 0 where
  pub name : String
  pub map_id : Option ℕ
  pub type : MapType

-- A parsed URL: its path, and the text that its String method gives with another path in it.
pub record Url : Type 0 where
  pub path : String
  pub with_path : String → String

pub record HttpResponse : Type 0 where
  pub status_code : ℕ
  pub body : String

-- A file of an archive; `header` is false where the entry cannot be opened.
pub record Entry : Type 0 where
  pub name : String
  pub readable : Bool
  pub is_directory : Bool
  pub body : String

pub record Os : Type 1 where
  pub World : Type 0
  -- time.Sleep of a second, time.Now
  pub sleep : World → World
  pub now : World → ℕ × World
  -- files
  pub stat : String → World → Stat × World
  pub read_file : String → World → ReadFile × World
  pub write_file : String → String → World → Bool × World
  pub remove_file : String → World → Bool × World
  pub mkdir_all : String → World → Bool × World
  -- commands and processes: `run` gives success and output, `start` the pid
  pub run : String → List String → World → (Bool × String) × World
  pub start : String → List String → World → Option ℕ × World
  pub wait : ℕ → World → Bool × World
  pub sigterm : ℕ → World → Bool × World
  pub sigkill : ℕ → World → Bool × World
  pub signal_zero : ℤ → World → Bool × World
  pub getpid : World → ℕ × World
  pub processes : World → Option (List Process) × World
  -- the state letter in /proc/PID/stat, if the file can be read and scanned
  pub proc_state : ℕ → World → Option String × World
  pub prlimit : ℕ → ℕ → ℤ → World → Bool × World
  -- the network card and the bpf file system
  pub disable_lro : String → World → Bool × World
  pub mount_bpffs : World → Bool × World
  -- eBPF maps and programs; a handle is a file descriptor
  pub load_pinned_map : String → World → Option ℕ × World
  pub map_from_id : ℕ → World → Option ℕ × World
  pub map_next_id : ℕ → World → Option ℕ × World
  pub map_info : ℕ → World → Option MapInfo × World
  pub program_from_id : ℤ → World → Option ℕ × World
  pub map_update : ℕ → ℤ → ℤ → World → Bool × World
  pub map_delete : ℕ → ℤ → World → Bool × World
  pub map_lookup : ℕ → ℤ → World → Option ℤ × World
  pub map_keys : ℕ → World → List ℤ × World
  -- the download of artifacts
  -- url.Parse
  pub parse_url : String → Option Url
  pub http_get : String → World → Option HttpResponse × World
  pub unzip : String → Option (List Entry)
  pub gunzip : String → Option String
  pub untar : String → List Entry × Bool
  -- encoding/json
  -- with the given indent; `none` stands for a nil slice
  pub marshal : String → Option (List L3afBpfPrograms) → Option String
  pub marshal_one : String → L3afBpfPrograms → Option String
  pub unmarshal : String → Option (Option (List L3afBpfPrograms))
  -- net.Interfaces: the names, and whether each is a loopback interface
  pub interfaces : World → Option (List (String × Bool)) × World
  -- net.ParseIP, with whether the address is a loopback address
  pub parse_ip : String → Option Bool
  -- os.OpenFile for reading
  pub open_file : String → World → Bool × World
