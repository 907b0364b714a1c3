-- ===== src/Config/Reading/Settings.antt =====
-- What a configuration that was read says of the file.
use l3afd.Prelude.{
  Bool-cases, ◌≡◌, refl, subst, ◌⊎◌, inl, inr, ℕ, ℤ, ◌||◌, String, Option, none, some, ◌==◌, arith,
}
use l3afd.Prelude.Text.{trim_space}
use l3afd.Exec.{Result, ok, err, panic, blocked}
use l3afd.Config.{Config}
use l3afd.Config.Loader.{
  Reader, fatal, ◌>>=◌, load_config_string, load_optional_config_string, load_config_int,
  load_config_duration,
}
use l3afd.Config.Reading.{version_tls12, version_tls13, tls_version, load_tls_version, read_config}

-- The versions that the daemon can be told to accept.
abbrev IsModern : ℕ → Type 0
IsModern v = (v ≡ version_tls12) ⊎ (v ≡ version_tls13)

-- A duration that the file has and that can be parsed.
abbrev IsDuration : Reader → String → String → ℤ → Type 0
IsDuration r group field d =
    (text : String) × (r.string_at group field ≡ some text) × (r.parse_duration text ≡ some d)

-- Every mandatory setting is the one of the file.
pub record IsRead (r : Reader) (c : Config) : Type 0 where
  pub mtls_min_version : IsModern c.mtls_min_version
  pub pid_filename : r.string_at "l3afd" "pid-file" ≡ some c.pid_filename
  pub data_center : r.string_at "l3afd" "datacenter" ≡ some c.data_center
  pub bpf_dir : r.string_at "l3afd" "bpf-dir" ≡ some c.bpf_dir
  pub bpf_log_dir : r.string_at "l3afd" "bpf-log-dir" ≡ some c.bpf_log_dir
  pub min_kernel_major_ver : r.int_at "l3afd" "kernel-major-version" ≡ some c.min_kernel_major_ver
  pub min_kernel_minor_ver : r.int_at "l3afd" "kernel-minor-version" ≡ some c.min_kernel_minor_ver
  pub kf_repo_url : r.string_at "kf-repo" "url" ≡ some c.kf_repo_url
  pub http_client_timeout : IsDuration r "l3afd" "http-client-timeout" c.http_client_timeout
  pub max_nf_restart_count : r.int_at "l3afd" "max-nf-restart-count" ≡ some c.max_nf_restart_count
  pub max_nfs_attach_count : r.int_at "l3afd" "max-nfs-attach-count" ≡ some c.max_nfs_attach_count
  pub metrics_addr : r.string_at "web" "metrics-addr" ≡ some c.metrics_addr
  pub shutdown_timeout : IsDuration r "l3afd" "shutdown-timeout" c.shutdown_timeout
  pub admind_host : r.string_at "admind" "host" ≡ some c.admind_host
  pub admind_username : r.string_at "admind" "username" ≡ some c.admind_username
  pub admind_api_key : r.string_at "admind" "api-key" ≡ some c.admind_api_key
  pub admind_group_id : r.int_at "admind" "group-id" ≡ some c.admind_group_id

abbrev Returns : {A : Type 0} → (A → Type 0) → Result A → Type 0
Returns P (ok a) = P a
Returns P (err e) = Unit
Returns P panic = Unit
Returns P blocked = Unit

bind-Returns :
    {A B : Type 0} (P : B → Type 0) (m : Result A) (f : A → Result B)
    → ((a : A) → m ≡ ok a → Returns P (f a))
    → Returns P (m >>= f)
unfolding ◌>>=◌
bind-Returns P (ok a) f h = h a refl
bind-Returns P (err e) f h = tt
bind-Returns P panic f h = tt
bind-Returns P blocked f h = tt

tls_version-IsModern : (ver : String) (v : ℕ) → tls_version ver ≡ ok v → IsModern v
unfolding tls_version
tls_version-IsModern ver v h =
    elim (Bool-cases (ver == "" || (ver == "Default" || ver == "default"))) [
      | inl default ↦ inr (ground (arith, h, default))
      | inr named ↦ elim (Bool-cases (ver == "TLS_1.2")) [
        | inl older ↦ inl (ground (arith, h, named, older))
        | inr other ↦ elim (Bool-cases (ver == "TLS_1.3")) [
          | inl newer ↦ inr (ground (arith, h, named, other, newer))
          | inr unknown ↦ absurd (ground (arith, h, named, other, unknown))
        ]
      ]
    ]

fatal-ok : {A : Type 0} (kind : String) (o : Option A) (a : A) → fatal kind o ≡ ok a → o ≡ some a
fatal-ok kind none a h = cc
fatal-ok kind (some b) a h = cc

module _ (r : Reader) where
  string-ok :
      (group field value : String)
      → load_config_string r group field ≡ ok value
      → r.string_at group field ≡ some value
  unfolding load_config_string
  string-ok group field value h = fatal-ok "text" (r.string_at group field) value h

  int-ok :
      (group field : String) (value : ℤ)
      → load_config_int r group field ≡ ok value
      → r.int_at group field ≡ some value
  unfolding load_config_int
  int-ok group field value h = fatal-ok "integer" (r.int_at group field) value h

  load_config_duration-IsDuration :
      (group field : String) (value : ℤ)
      → load_config_duration r group field ≡ ok value
      → IsDuration r group field value
  unfolding load_config_duration ◌>>=◌
  load_config_duration-IsDuration group field value h =
      parsed (load_config_string r group field) refl h
    where
      parsed :
          (m : Result String)
          → load_config_string r group field ≡ m
          → (m >>= λ text. fatal "duration" (r.parse_duration text)) ≡ ok value
          → IsDuration r group field value
      parsed (ok text) e h =
          (text, string-ok group field text e, fatal-ok "duration" (r.parse_duration text) value h)
      parsed (err _) e h = cc
      parsed panic e h = cc
      parsed blocked e h = cc

  tls-ok : (v : ℕ) → load_tls_version r "min-tls-version" ≡ ok v → IsModern v
  unfolding load_tls_version
  tls-ok v h =
      tls_version-IsModern
        (trim_space (load_optional_config_string r "mTLS" "min-tls-version" "TLS_1.3")) v h

  read_config-Returns : Returns (IsRead r) (read_config r)
  unfolding read_config
  read_config-Returns = bind-Returns _ _ _ (λ a0 e0. bind-Returns _ _ _ (λ a1 e1.
      bind-Returns _ _ _ (λ a2 e2. bind-Returns _ _ _ (λ a3 e3. bind-Returns _ _ _ (λ a4 e4.
        bind-Returns _ _ _ (λ a5 e5. bind-Returns _ _ _ (λ a6 e6. bind-Returns _ _ _ (λ a7 e7.
          bind-Returns _ _ _ (λ a8 e8. bind-Returns _ _ _ (λ a9 e9. bind-Returns _ _ _ (λ a10 e10.
            bind-Returns _ _ _ (λ a11 e11. bind-Returns _ _ _ (λ a12 e12.
              bind-Returns _ _ _ (λ a13 e13. bind-Returns _ _ _ (λ a14 e14.
                bind-Returns _ _ _ (λ a15 e15. bind-Returns _ _ _ (λ a16 e16. record {
                  mtls_min_version = tls-ok a0 e0;
                  pid_filename = string-ok _ _ a1 e1;
                  data_center = string-ok _ _ a2 e2;
                  bpf_dir = string-ok _ _ a3 e3;
                  bpf_log_dir = string-ok _ _ a4 e4;
                  min_kernel_major_ver = int-ok _ _ a5 e5;
                  min_kernel_minor_ver = int-ok _ _ a6 e6;
                  kf_repo_url = string-ok _ _ a7 e7;
                  http_client_timeout = load_config_duration-IsDuration _ _ a8 e8;
                  max_nf_restart_count = int-ok _ _ a9 e9;
                  max_nfs_attach_count = int-ok _ _ a10 e10;
                  metrics_addr = string-ok _ _ a11 e11;
                  shutdown_timeout = load_config_duration-IsDuration _ _ a12 e12;
                  admind_host = string-ok _ _ a13 e13;
                  admind_username = string-ok _ _ a14 e14;
                  admind_api_key = string-ok _ _ a15 e15;
                  admind_group_id = int-ok _ _ a16 e16;
                })))))))))))))))))

  -- A configuration that ReadConfig returns has every mandatory setting as the file has it, and asks for
  -- TLS 1.2 or 1.3: a file that lacks one of them, or names another version, is refused.
  pub read_config-IsRead : (c : Config) → read_config r ≡ ok c → IsRead r c
  read_config-IsRead c h = subst (λ m. Returns (IsRead r) m) h read_config-Returns
