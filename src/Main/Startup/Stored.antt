-- ===== src/Main/Startup/Stored.antt =====
-- What the daemon deploys when it starts.
use Prim.Native.String.{◌++◌}
use l3afd.Prelude.{
  ◌≡◌, ◌⊎◌, inl, inr, refl, sym, subst, false, String, some, List, [], ◌==◌, not, ℤ, pos, eq_ℤ,
}
use l3afd.Prelude.Decimal.{print_int, atoi}
use l3afd.Models.{L3afBpfPrograms}
use l3afd.Config.{Config}
use l3afd.Config.Loader.{Reader}
use l3afd.Config.Reading.{read_config}
use l3afd.Os.{Os, ReadFile, content, no_file, read_error}
use l3afd.Files.{FileSystem}
use l3afd.Files.Retains.{
  Retains, retains_rules, if-Retains, getpid-Retains, signal-Retains, some_or-Retains, bind-Retains,
  read-Retains, pure-Retains, fail-Retains, wrap-Retains,
}
use l3afd.Exec.{
  Exec, Result, ok, err, panic, blocked, pure, fail, some_or, check, succeeded, wrap, try, attempt,
  ◌>>=◌, ◌>>◌,
}
use l3afd.Exec.After.{
  Ensures, WhenOk, bind-Ensures, mono-Ensures, both-Ensures, wrap-Ensures, Ensures-ok, self-Ensures,
  pure-Ensures, then-Ensures, always-Ensures,
}
use l3afd.Pidfile.{
  remove_pid, create_pid, compare_names, check_old_pid, check_content, check_pid_conflict, text_of,
}
use l3afd.Kf.ElementList.{Ref}
use l3afd.Kf.State.{Bpf, Direction, NfConfigs, State}
use l3afd.Kf.Configs.{Choice, get_host_interfaces, new_nf_configs, deploye_bpf_programs}
use l3afd.Main.{get_kernel_version, check_version, check_kernel_version}
use l3afd.Main.Restart.{configs-read}
use l3afd.Main.Startup.{
  fresh, hand_over, settled, setup_nf_configs, deploy_stored, start_with, start_up, or_nil_slice,
}

module _ ⦃os : Os⦄ (fs : FileSystem os) (name body : String) where
  remove_pid-Retains :
      (file : String) → (file == name) ≡ false → Retains fs name body (remove_pid file)
  unfolding remove_pid
  remove_pid-Retains file d = search (retains_rules, d) depth 30

  create_pid-Retains :
      (file : String) → (file == name) ≡ false → Retains fs name body (create_pid file)
  unfolding create_pid
  create_pid-Retains file d = search (retains_rules, d) depth 30

  compare_names-Retains :
      (file : String) (pid : ℤ)
      → (file == name) ≡ false
      → Retains fs name body (compare_names file pid)
  unfolding compare_names
  compare_names-Retains file pid d = bind-Retains (read-Retains "/proc/self/comm") (λ self.
      bind-Retains (some_or-Retains (text_of self) _) (λ own.
        bind-Retains (read-Retains ("/proc/" ++ (print_int pid ++ "/comm"))) (λ conflict.
          bind-Retains (some_or-Retains (text_of conflict) _) (λ other.
            if-Retains (not (own == other)) (wrap-Retains _ (remove_pid-Retains file d))
              (fail-Retains _)))))

  check_old_pid-Retains :
      (file text : String) → (file == name) ≡ false → Retains fs name body (check_old_pid file text)
  unfolding check_old_pid
  check_old_pid-Retains file text d = bind-Retains (some_or-Retains (atoi text) _) (λ old_pid.
      bind-Retains getpid-Retains (λ pid. if-Retains (eq_ℤ old_pid (pos pid)) (pure-Retains tt) (
        bind-Retains (signal-Retains old_pid) (λ running.
          if-Retains (not running) (wrap-Retains _ (remove_pid-Retains file d))
            (compare_names-Retains file old_pid d)))))

  check_content-Retains :
      (file : String) (r : ReadFile)
      → (file == name) ≡ false
      → Retains fs name body (check_content file r)
  unfolding check_content
  check_content-Retains file no_file d = search retains_rules
  check_content-Retains file read_error d = search retains_rules
  check_content-Retains file (content s) d =
      if-Retains (s == "") (pure-Retains tt) (check_old_pid-Retains file s d)

  check_pid_conflict-Retains :
      (file : String) → (file == name) ≡ false → Retains fs name body (check_pid_conflict file)
  unfolding check_pid_conflict
  check_pid_conflict-Retains file d =
      search (retains_rules, λ (r : ReadFile). check_content-Retains file r d) depth 30

  check_kernel_version-Retains : (conf : Config) → Retains fs name body (check_kernel_version conf)
  unfolding check_kernel_version get_kernel_version check_version
  check_kernel_version-Retains conf = search retains_rules depth 40

  setup-Retains :
      (host : String) (conf : Config) → Retains fs name body (setup_nf_configs host conf)
  unfolding setup_nf_configs new_nf_configs get_host_interfaces
  setup-Retains host conf = search retains_rules depth 40

one_value : {A : Type 0} (r : Result A) (a b : A) → r ≡ ok a → r ≡ ok b → a ≡ b
one_value r a b p q = cc

attempted :
    {S A : Type 0} (a : A) (r : Result A) (t : S)
    → r ≡ ok a
    → WhenOk (λ o _. o ≡ some a) (l3afd.Exec.value_of r) t
attempted a (ok b) t h = cc
attempted a (err e) t h = absurd (cc)
attempted a panic t h = absurd (cc)
attempted a blocked t h = absurd (cc)

attempt-Ensures :
    {S A : Type 0} (m : Exec S A) (s : S) (a : A)
    → (m s).0 ≡ ok a
    → Ensures (attempt m) s (λ o _. o ≡ some a)
unfolding attempt
attempt-Ensures m s a h = record { at = attempted a (m s).0 (m s).1 h }

module _ ⦃os : Os⦄ where
  -- NFConfigs of a host on which nothing runs.
  pub record IsIdle (host : String) (c : Config) (n : NfConfigs) : Type 0 where
    pub host_name : n.host_name ≡ host
    pub host_config : n.host_config ≡ c
    pub chains : (d : Direction) → n.chains d ≡ []

  setup-IsIdle :
      (host : String) (c : Config) (w : os.World)
      → Ensures (setup_nf_configs host c) w (λ n _. IsIdle host c n)
  unfolding setup_nf_configs new_nf_configs
  setup-IsIdle host c w = wrap-Ensures _ _ w _ (
      then-Ensures _ (wrap "failed to get network interfaces" get_host_interfaces) _ w (λ found v.
        pure-Ensures _ v _ (record { host_name = refl; host_config = refl; chains = λ d. refl })))

  -- The call has returned, with an error or without one, and has left this state.
  abbrev pub HasReturned : Result (Unit {0}) × State os → State os → Type 0
  HasReturned call u = (call ≡ (ok tt, u)) ⊎ ((e : String) × (call ≡ (err e, u)))

  handed_over :
      (call : Result (Unit {0}) × State os) (v : os.World)
      → WhenOk (λ u _. HasReturned call u) (hand_over (succeeded call.0) call.1) v
  handed_over (ok a, t) v = inl refl
  handed_over (err e, t) v = inr (e, refl)
  handed_over (panic, t) v = tt
  handed_over (blocked, t) v = tt

  -- DeployeBPFPrograms has returned from a call with the payload on an idle host.
  pub IsDeployed :
      (Ref → Bpf) → String → List Choice → Config → List L3afBpfPrograms → State os → Type 0
  IsDeployed heap host choices c ps u =
      (n : NfConfigs) × (x : os.World) × IsIdle host c n
      × HasReturned (deploye_bpf_programs choices ps (fresh heap n x)) u

  deploy_stored-IsDeployed :
      (heap : Ref → Bpf) (host : String) (choices : List Choice) (c : Config)
      (ps : List L3afBpfPrograms) (n : NfConfigs) (x : os.World)
      → IsIdle host c n
      → Ensures
          (deploy_stored heap choices n (some ps))
          x
          (λ u _. IsDeployed heap host choices c ps u)
  unfolding deploy_stored try IsDeployed
  deploy_stored-IsDeployed heap host choices c ps n x idle =
      let call = deploye_bpf_programs choices ps (fresh heap n x) in
      mono-Ensures _ _ _ x (record { at = handed_over call call.1.world })
        (λ u v same. (n, x, idle, same))

module _ ⦃os : Os⦄ (fs : FileSystem os) where
  start_with-Ensures :
      (heap : Ref → Bpf) (host : String) (choices : List Choice) (c : Config) (body : String)
      (ps : List L3afBpfPrograms) (w : os.World)
      → (c.pid_filename == c.l3af_config_store_file_name) ≡ false
      → fs.Holds w c.l3af_config_store_file_name body
      → os.unmarshal body ≡ some (some ps)
      → Ensures (start_with heap host choices c) w (λ u _. IsDeployed heap host choices c ps u)
  unfolding start_with
  start_with-Ensures heap host choices c body ps w d h decoded =
      let name = c.l3af_config_store_file_name in
      let P : os.World → Type 0 = λ v. fs.Holds v name body in
      bind-Ensures _ (λ _ v. P v) _ _ w
        (wrap-Ensures _ _ w _ (
          always-Ensures _ w P ((check_pid_conflict-Retains fs name body c.pid_filename d).at w h)))
        (λ _ w1 h1.
          bind-Ensures _ (λ _ v. P v) _ _ w1
            (wrap-Ensures _ _ w1 _
              (always-Ensures _ w1 P ((create_pid-Retains fs name body c.pid_filename d).at w1 h1)))
            (λ _ w2 h2.
              bind-Ensures _ (λ _ v. P v) _ _ w2
                (wrap-Ensures _ _ w2 _
                  (always-Ensures _ w2 P ((check_kernel_version-Retains fs name body c).at w2 h2)))
                (λ _ w3 h3.
                  bind-Ensures _ (λ n v. P v × IsIdle host c n) _ _ w3
                    (wrap-Ensures _ _ w3 _ (
                      both-Ensures _ w3 P ((setup-Retains fs name body host c).at w3 h3)
                        (setup-IsIdle host c w3)))
                    (λ n w4 h4.
                      bind-Ensures _ (λ t _. t ≡ some (some ps)) _ _ w4
                        (attempt-Ensures _ w4 (some ps)
                          (configs-read fs c body w4 (some ps) h4.0 decoded))
                        (λ t w5 known.
                          subst
                            (λ t.
                              Ensures (deploy_stored heap choices n (or_nil_slice t)) w5
                                (λ u _. IsDeployed heap host choices c ps u))
                            (sym known)
                            (deploy_stored-IsDeployed heap host choices c ps n w5 h4.1))))))

  -- A daemon that comes up has called DeployeBPFPrograms with exactly what its configuration store
  -- held, on a host on which nothing ran; the call has returned, without an error or with one, and the
  -- daemon's state is the state that this call left. The store is another file than the PID file, it
  -- holds a list in JSON, and the file system keeps what it is given.
  pub start_up-IsDeployed :
      (heap : Ref → Bpf) (file : Reader) (host : String) (choices : List Choice) (c : Config)
      (body : String) (ps : List L3afBpfPrograms) (w v : os.World) (u : State os)
      → read_config file ≡ ok c
      → (c.pid_filename == c.l3af_config_store_file_name) ≡ false
      → fs.Holds w c.l3af_config_store_file_name body
      → os.unmarshal body ≡ some (some ps)
      → start_up heap file host choices w ≡ (ok u, v)
      → IsDeployed heap host choices c ps u
  unfolding start_up
  start_up-IsDeployed heap file host choices c body ps w v u settings d h decoded up =
      Ensures-ok _ w v u _
        (bind-Ensures (λ u _. IsDeployed heap host choices c ps u) _ (settled (read_config file)) _
          w (self-Ensures (settled (read_config file)) w)
          (λ conf x same.
            let same_settings : c ≡ conf = one_value (read_config file) c conf settings same.0 in
            subst
              (λ y.
                Ensures (start_with heap host choices conf) y
                  (λ u _. IsDeployed heap host choices c ps u))
              same.1
              (subst
                (λ k.
                  Ensures (start_with heap host choices k) w
                    (λ u _. IsDeployed heap host choices c ps u))
                same_settings (start_with-Ensures heap host choices c body ps w d h decoded))))
        up
