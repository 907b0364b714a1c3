-- ===== src/Main/Startup.antt =====
-- main.go: the start of the daemon, SetupNFConfigs included. Logging, the flags, the debug server and
-- the servers of StartConfigWatcher are left out, and registerL3afD, which does nothing.
pub mod Stored
use l3afd.Prelude.{true, String, Option, none, some, List}
use l3afd.Models.{L3afBpfPrograms}
use l3afd.Config.{Config}
use l3afd.Config.Loader.{Reader}
use l3afd.Config.Reading.{read_config}
use l3afd.Os.{Os}
use l3afd.Sys.{Sys}
use l3afd.Exec.{Result, ok, err, panic, blocked, pure, wrap, try, attempt, ◌>>=◌, ◌>>◌}
use l3afd.Pidfile.{check_pid_conflict, create_pid}
use l3afd.Kf.ElementList.{Ref}
use l3afd.Kf.State.{Bpf, NfConfigs, State, Kf}
use l3afd.Kf.Configs.{Choice, new_nf_configs, deploye_bpf_programs}
use l3afd.Main.{check_kernel_version, read_configs_from_config_store}

-- A list that was not read is nil.
abbrev pub or_nil_slice : Option (Option (List L3afBpfPrograms)) → Option (List L3afBpfPrograms)
or_nil_slice none = none
or_nil_slice (some t) = t

module _ ⦃os : Os⦄ where
  -- The metrics are set up and no struct is allocated. `heap` is what the unused memory holds.
  abbrev pub fresh : (Ref → Bpf) → NfConfigs → os.World → State os
  fresh heap c w = record {
    world = w;
    bpfs = heap;
    next_ref = 0;
    configs = c;
    stats = record { is_set_up = λ v. true; writes = l3afd.Prelude.[] };
  }

  abbrev pub hand_over : {A : Type 0} → Result A → State os → Result (State os)
  hand_over (ok a) t = ok t
  hand_over (err e) t = err e
  hand_over panic t = panic
  hand_over blocked t = blocked

  -- A statement on NFConfigs, from the state that it has in this world.
  abbrev pub on_state : {A : Type 0} → (os.World → State os) → Kf A → Sys (State os)
  on_state f m w = let (r, t) = m (f w) in (hand_over r t, t.world)

  abbrev pub settled : {A : Type 0} → Result A → Sys A
  settled r w = (r, w)

  unfoldable pub setup_nf_configs : String → Config → Sys NfConfigs
  setup_nf_configs machine_hostname conf =
      wrap "error in NewNFConfigs setup" (new_nf_configs machine_hostname conf)

  -- `if t != nil`; an error of the deployment is logged.
  unfoldable pub deploy_stored :
      (Ref → Bpf) → List Choice → NfConfigs → Option (List L3afBpfPrograms) → Sys (State os)
  deploy_stored heap choices c none = on_state (fresh heap c) (pure tt)
  deploy_stored heap choices c (some t) =
      on_state (fresh heap c) (try (deploye_bpf_programs choices t))

  -- `main` once the settings are read.
  unfoldable pub start_with : (Ref → Bpf) → String → List Choice → Config → Sys (State os)
  unfolding setup_nf_configs deploy_stored
  start_with heap machine_hostname choices conf = do
    wrap "the PID file is in an unacceptable state" (check_pid_conflict conf.pid_filename)
    wrap "the PID file could not be created" (create_pid conf.pid_filename)
    wrap "unsupported kernel version please upgrade" (check_kernel_version conf)
    kf_configs ← wrap "L3afd failed to start" (setup_nf_configs machine_hostname conf)
    t ← attempt (read_configs_from_config_store conf)
    deploy_stored heap choices kf_configs (or_nil_slice t)

  -- Up to the point where the daemon only waits.
  unfoldable pub start_up : (Ref → Bpf) → Reader → String → List Choice → Sys (State os)
  unfolding start_with
  start_up heap file machine_hostname choices = do
    conf ← settled (read_config file)
    start_with heap machine_hostname choices conf
