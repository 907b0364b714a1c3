-- ===== src/Config.antt =====
-- config/config.go: the settings of the daemon. A duration is a number of nanoseconds.
pub mod Loader
pub mod Reading
use l3afd.Prelude.{ℕ, ℤ, Bool, String}

pub record Config : Type 0 where
  pub pid_filename : String
  pub data_center : String
  pub bpf_dir : String
  pub bpf_log_dir : String
  pub min_kernel_major_ver : ℤ
  pub min_kernel_minor_ver : ℤ
  pub kf_repo_url : String
  pub http_client_timeout : ℤ
  pub max_nf_restart_count : ℤ
  pub max_nfs_attach_count : ℤ
  pub environment : String
  pub bpf_chaining_enabled : Bool
  pub metrics_addr : String
  pub kf_poll_interval : ℤ
  pub n_metric_samples : ℤ
  pub shutdown_timeout : ℤ
  pub swagger_api_enabled : Bool
  pub admind_host : String
  pub admind_username : String
  pub admind_api_key : String
  pub admind_group_id : ℤ
  pub admind_api_enabled : Bool
  pub xdp_root_program_name : String
  pub xdp_root_program_artifact : String
  pub xdp_root_program_map_name : String
  pub xdp_root_program_command : String
  pub xdp_root_program_version : String
  pub xdp_root_program_user_program_daemon : Bool
  pub tc_root_program_name : String
  pub tc_root_program_artifact : String
  pub tc_root_program_ingress_map_name : String
  pub tc_root_program_egress_map_name : String
  pub tc_root_program_command : String
  pub tc_root_program_version : String
  pub tc_root_program_user_program_daemon : Bool
  pub ebpf_chain_debug_addr : String
  pub ebpf_chain_debug_enabled : Bool
  pub l3af_configs_rest_api_addr : String
  pub l3af_config_store_file_name : String
  pub mtls_enabled : Bool
  pub mtls_min_version : ℕ
  pub mtls_cert_dir : String
  pub mtls_ca_cert_filename : String
  pub mtls_server_cert_filename : String
  pub mtls_server_key_filename : String
