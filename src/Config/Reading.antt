-- ===== src/Config/Reading.antt =====
-- config/config.go: ReadConfig and loadTLSVersion, for a file that could be opened.
pub mod Settings
use l3afd.Prelude.{
  ◌≡◌, refl, ◌⊎◌, inl, inr, ℕ, ℤ, pos, ◌*◌, ◌^◌, Bool, true, false, ◌||◌, String, Option, none,
  some, ◌==◌, if◌then◌else◌, Bool-cases, arith,
}
use l3afd.Prelude.Text.{trim_space}
use l3afd.Exec.{Result, ok, err}
use l3afd.Config.{Config}
use l3afd.Config.Loader.{
  Reader, ◌>>=◌, load_config_string, load_optional_config_string, load_optional_config_bool,
  load_config_int, load_optional_config_int, load_config_duration, load_optional_config_duration,
}

abbrev pub env_prod : String
env_prod = "PROD"

-- The constants of crypto/tls.
abbrev pub version_tls12 : ℕ
version_tls12 = 0x0303

abbrev pub version_tls13 : ℕ
version_tls13 = 0x0304

abbrev pub second : ℕ
second = 10 ^ 9

unfoldable pub tls_version : String → Result ℕ
tls_version ver =
    if ver == "" || (ver == "Default" || ver == "default")
    then ok version_tls13
    else if ver == "TLS_1.2"
    then ok version_tls12
    else if ver == "TLS_1.3"
    then ok version_tls13
    else err "Unsupported TLS version"

module _ (r : Reader) where
  -- The group is spelled "mTLS" here and "mtls" everywhere else.
  unfoldable pub load_tls_version : String → Result ℕ
  unfolding load_optional_config_string tls_version
  load_tls_version field_name =
      tls_version (trim_space (load_optional_config_string r "mTLS" field_name "TLS_1.3"))

  unfoldable pub read_config : Result Config
  unfolding load_tls_version load_config_string load_optional_config_string
      load_optional_config_bool load_config_int load_optional_config_int load_config_duration
      load_optional_config_duration
  read_config = do
    min_tls_version ← load_tls_version "min-tls-version"
    pid_filename ← load_config_string r "l3afd" "pid-file"
    data_center ← load_config_string r "l3afd" "datacenter"
    bpf_dir ← load_config_string r "l3afd" "bpf-dir"
    bpf_log_dir ← load_config_string r "l3afd" "bpf-log-dir"
    kernel_major_version ← load_config_int r "l3afd" "kernel-major-version"
    kernel_minor_version ← load_config_int r "l3afd" "kernel-minor-version"
    kf_repo_url ← load_config_string r "kf-repo" "url"
    http_client_timeout ← load_config_duration r "l3afd" "http-client-timeout"
    max_nf_restart_count ← load_config_int r "l3afd" "max-nf-restart-count"
    max_nfs_attach_count ← load_config_int r "l3afd" "max-nfs-attach-count"
    metrics_addr ← load_config_string r "web" "metrics-addr"
    shutdown_timeout ← load_config_duration r "l3afd" "shutdown-timeout"
    admind_host ← load_config_string r "admind" "host"
    admind_username ← load_config_string r "admind" "username"
    admind_api_key ← load_config_string r "admind" "api-key"
    admind_group_id ← load_config_int r "admind" "group-id"
    ok (record {
      pid_filename = pid_filename;
      data_center = data_center;
      bpf_dir = bpf_dir;
      bpf_log_dir = bpf_log_dir;
      min_kernel_major_ver = kernel_major_version;
      min_kernel_minor_ver = kernel_minor_version;
      kf_repo_url = kf_repo_url;
      http_client_timeout = http_client_timeout;
      max_nf_restart_count = max_nf_restart_count;
      max_nfs_attach_count = max_nfs_attach_count;
      environment = load_optional_config_string r "l3afd" "environment" env_prod;
      bpf_chaining_enabled = load_optional_config_bool r "l3afd" "bpf-chaining-enabled" true;
      metrics_addr = metrics_addr;
      kf_poll_interval =
          load_optional_config_duration r "web" "kf-poll-interval" (pos (30 * second));
      n_metric_samples = load_optional_config_int r "web" "n-metric-samples" (pos 20);
      shutdown_timeout = shutdown_timeout;
      swagger_api_enabled = load_optional_config_bool r "l3afd" "swagger-api-enabled" false;
      admind_host = admind_host;
      admind_username = admind_username;
      admind_api_key = admind_api_key;
      admind_group_id = admind_group_id;
      admind_api_enabled = load_optional_config_bool r "admind" "api-enabled" true;
      xdp_root_program_name = load_optional_config_string r "xdp-root-program" "name" "xdp_root";
      xdp_root_program_artifact =
          load_optional_config_string r "xdp-root-program" "artifact" "l3af_xdp_root.tar.gz";
      xdp_root_program_map_name =
          load_optional_config_string r "xdp-root-program" "ingress-map-name"
            "/sys/fs/bpf/xdp_root_array";
      xdp_root_program_command =
          load_optional_config_string r "xdp-root-program" "command" "xdp_root";
      xdp_root_program_version = load_optional_config_string r "xdp-root-program" "version" "1.01";
      xdp_root_program_user_program_daemon =
          load_optional_config_bool r "xdp-root-program" "user-program-daemon" false;
      tc_root_program_name = load_optional_config_string r "tc-root-program" "name" "tc_root";
      tc_root_program_artifact =
          load_optional_config_string r "tc-root-program" "artifact" "l3af_tc_root.tar.gz";
      tc_root_program_ingress_map_name =
          load_optional_config_string r "tc-root-program" "ingress-map-name"
            "/sys/fs/bpf/tc/globals/tc_ingress_root_array";
      tc_root_program_egress_map_name =
          load_optional_config_string r "tc-root-program" "egress-map-name"
            "/sys/fs/bpf/tc/globals/tc_egress_root_array";
      tc_root_program_command = load_optional_config_string r "tc-root-program" "command" "tc_root";
      tc_root_program_version = load_optional_config_string r "tc-root-program" "version" "1.0";
      tc_root_program_user_program_daemon =
          load_optional_config_bool r "tc-root-program" "user-program-daemon" false;
      ebpf_chain_debug_addr =
          load_optional_config_string r "ebpf-chain-debug" "addr" "0.0.0.0:8899";
      ebpf_chain_debug_enabled = load_optional_config_bool r "ebpf-chain-debug" "enabled" false;
      l3af_configs_rest_api_addr =
          load_optional_config_string r "l3af-configs" "restapi-addr" "localhost:53000";
      l3af_config_store_file_name =
          load_optional_config_string r "l3af-config-store" "filename"
            "/etc/l3afd/l3af-config.json";
      mtls_enabled = load_optional_config_bool r "mtls" "enabled" true;
      mtls_min_version = min_tls_version;
      mtls_cert_dir = load_optional_config_string r "mtls" "cert-dir" "/etc/l3afd/certs";
      mtls_ca_cert_filename = load_optional_config_string r "mtls" "cacert-filename" "ca.pem";
      mtls_server_cert_filename =
          load_optional_config_string r "mtls" "server-cert-filename" "server.crt";
      mtls_server_key_filename =
          load_optional_config_string r "mtls" "server-key-filename" "server.key";
    })
