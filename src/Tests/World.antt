-- ===== src/Tests/World.antt =====
-- A system on which every call succeeds and that is the list of the paths written to, and an interface
-- with a root program and two others.
use l3afd.Prelude.{
  List, zero, suc, ℤ, Bool, pos, true, false, String, Option, none, some, [], ◌∷◌, Map,
  if◌then◌else◌, ◌==◌,
}
use l3afd.Models.{disabled, BpfProgram, BpfPrograms, L3afBpfPrograms, enabled}
use l3afd.Config.{Config}
use l3afd.Os.{Os, ReadFile, is_file, content, array}
use l3afd.Kf.ElementList.{Ref, Chain}
use l3afd.Kf.State.{Bpf, Direction, xdp_ingress, ingress, egress, State}
use l3afd.Kf.Lifecycle.{new_bpf_program}

-- A system with the given files: what reading, writing and removing one do, and making a directory.
abbrev pub system :
    (W : Type 0)
    → (String → W → ReadFile × W)
    → (String → String → W → Bool × W)
    → (String → W → Bool × W)
    → (String → W → Bool × W)
    → Os
system W read_file write_file remove_file mkdir_all = record {
  World = W;
  sleep = λ w. w;
  now = λ w. (0, w);
  stat = λ name w. (is_file true, w);
  read_file = read_file;
  write_file = write_file;
  remove_file = remove_file;
  mkdir_all = mkdir_all;
  run = λ cmd args w. ((true, "RUNNING"), w);
  start = λ cmd args w. (some 7, w);
  wait = λ pid w. (true, w);
  sigterm = λ pid w. (true, w);
  sigkill = λ pid w. (true, w);
  signal_zero = λ pid w. (true, w);
  getpid = λ w. (1, w);
  processes = λ w. (some [], w);
  proc_state = λ pid w. (some "S", w);
  prlimit = λ pid resource limit w. (true, w);
  disable_lro = λ iface w. (true, w);
  mount_bpffs = λ w. (true, w);
  load_pinned_map = λ name w. (some 3, w);
  map_from_id = λ id w. (some 3, w);
  map_next_id = λ id w. (none, w);
  map_info = λ fd w. (some (record { name = "m"; map_id = some 1; type = array }), w);
  program_from_id = λ id w. (some 4, w);
  map_update = λ fd key value w. (true, w);
  map_delete = λ fd key w. (true, w);
  map_lookup = λ fd key w. (some (pos 9), w);
  map_keys = λ fd w. ([], w);
  parse_url = λ url. some (record {
    path = "/releases";
    with_path = λ path. Prim.Native.String.◌++◌ "https://repo.example" path;
  });
  http_get = λ url w. (none, w);
  unzip = λ body. none;
  gunzip = λ body. none;
  untar = λ body. ([], true);
  marshal = λ indent all. some "";
  marshal_one = λ indent one. some "";
  unmarshal = λ body. some none;
  interfaces = λ w. (some (("lo", true) ∷ ("eth0", false) ∷ []), w);
  parse_ip = λ addr. if addr == "0.0.0.0" then some false else none;
  open_file = λ name w. (true, w);
}

instance abbrev pub willing_os : Os
willing_os =
    system (List String) (λ name w. (content "", w)) (λ name body w. (true, name ∷ w))
      (λ name w. (true, w)) (λ name w. (true, name ∷ w))

-- A program for the tests.
abbrev pub program_of : String → ℤ → String → BpfProgram
program_of name seq_id map_name = record {
  id = pos 0;
  name = name;
  seq_id = seq_id;
  artifact = "a.zip";
  map_name = map_name;
  cmd_start = "run";
  cmd_stop = "stop";
  cmd_status = "";
  cmd_config = "";
  version = "1.0";
  user_program_daemon = true;
  is_plugin = false;
  cpu = pos 0;
  memory = pos 0;
  admin_status = enabled;
  prog_type = "";
  rules_file = "";
  rules = "";
  config_file_path = "";
  cfg_version = pos 1;
  start_args = some [];
  stop_args = some [];
  status_args = none;
  map_args = none;
  config_args = none;
  monitor_maps = none;
}

abbrev pub root : BpfProgram
root = program_of "root" (pos 0) "root_map"

abbrev pub limiter : BpfProgram
limiter = program_of "limiter" (pos 1) "limiter_map"

abbrev pub balancer : BpfProgram
balancer = program_of "balancer" (pos 5) "balancer_map"

-- To be put between the limiter and the balancer.
abbrev pub mirror : BpfProgram
mirror = program_of "mirror" (pos 3) "mirror_map"

abbrev pub running : BpfProgram → String → Bpf
running p prev_map_name = record {
  program = p;
  cmd = some (record { path = "run"; args = []; process = some 7 });
  file_path = "/srv/bpf";
  restart_count = 0;
  log_dir = "";
  prev_map_name = prev_map_name;
  prog_id = pos 2;
  bpf_maps = [];
  metrics_bpf_maps = [];
  has_maps = true;
  done = none;
  data_center = "dc";
}

abbrev pub conf : Config
conf = record {
  pid_filename = "/run/l3afd.pid";
  data_center = "dc";
  bpf_dir = "/srv";
  bpf_log_dir = "/var/log";
  min_kernel_major_ver = pos 5;
  min_kernel_minor_ver = pos 1;
  kf_repo_url = "http://repo";
  http_client_timeout = pos 10;
  max_nf_restart_count = pos 3;
  max_nfs_attach_count = pos 10;
  environment = "PROD";
  bpf_chaining_enabled = true;
  metrics_addr = "0.0.0.0:8898";
  kf_poll_interval = pos 30;
  n_metric_samples = pos 20;
  shutdown_timeout = pos 1;
  swagger_api_enabled = false;
  admind_host = "";
  admind_username = "";
  admind_api_key = "";
  admind_group_id = pos 0;
  admind_api_enabled = true;
  xdp_root_program_name = "root";
  xdp_root_program_artifact = "a.zip";
  xdp_root_program_map_name = "root_map";
  xdp_root_program_command = "run";
  xdp_root_program_version = "1.0";
  xdp_root_program_user_program_daemon = false;
  tc_root_program_name = "tc_root";
  tc_root_program_artifact = "a.zip";
  tc_root_program_ingress_map_name = "in_map";
  tc_root_program_egress_map_name = "out_map";
  tc_root_program_command = "run";
  tc_root_program_version = "1.0";
  tc_root_program_user_program_daemon = false;
  ebpf_chain_debug_addr = "0.0.0.0:8899";
  ebpf_chain_debug_enabled = false;
  l3af_configs_rest_api_addr = "localhost:53000";
  l3af_config_store_file_name = "/var/store";
  mtls_enabled = true;
  mtls_min_version = 0x0304;
  mtls_cert_dir = "/etc/l3afd/certs";
  mtls_ca_cert_filename = "ca.pem";
  mtls_server_cert_filename = "server.crt";
  mtls_server_key_filename = "server.key";
}

-- The programs by their structs 0, 1 and 2; the next struct is 3.
abbrev pub bpfs : Ref → Bpf
bpfs zero = running root ""
bpfs (suc zero) = running limiter "root_map"
bpfs (suc (suc zero)) = running balancer "limiter_map"
bpfs _ = new_bpf_program root "" ""

abbrev pub chains : Direction → Map (Option Chain)
chains xdp_ingress = ("eth0", some (0 ∷ 1 ∷ 2 ∷ [])) ∷ []
chains ingress = []
chains egress = []

abbrev pub start_state : State willing_os
start_state = record {
  world = [];
  bpfs = bpfs;
  next_ref = 3;
  configs = record {
    host_name = "host";
    host_interfaces = ("eth0", true) ∷ [];
    chains = chains;
    host_config = conf;
    ifaces = ("eth0", "eth0") ∷ [];
  };
  stats = record { is_set_up = λ v. true; writes = [] };
}

-- The limiter with a sequence ID behind the balancer's, and the chain before it is moved.
abbrev pub late_limiter : BpfProgram
late_limiter = program_of "limiter" (pos 9) "limiter_map"

abbrev pub late_bpfs : Ref → Bpf
late_bpfs zero = running root ""
late_bpfs (suc zero) = running late_limiter "root_map"
late_bpfs _ = running balancer "limiter_map"

abbrev pub late_state : State willing_os
late_state = record start_state { bpfs = late_bpfs }

-- A configuration that only has the balancer.
abbrev pub only_balancer : BpfPrograms
only_balancer = record { xdp_ingress = some balancer ∷ []; tc_ingress = []; tc_egress = [] }

abbrev pub balancer_config : L3afBpfPrograms
balancer_config = record { host_name = "host"; iface = "eth0"; bpf_programs = some only_balancer }

-- The limiter, disabled.
abbrev pub off : BpfProgram
off = record limiter { admin_status = disabled }

-- The limiter in a new version.
abbrev pub newer : BpfProgram
newer = record limiter { version = "2.0" }
