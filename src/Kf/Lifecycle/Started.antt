-- ===== src/Kf/Lifecycle/Started.antt =====
-- What Start leaves of the struct of a program.
use l3afd.Prelude.{
  ◌≡◌, refl, ap, subst, Bool, true, false, String, Option, none, some, List, [], ◌∷◌, ◌==◌,
  if◌then◌else◌, ℕ, zero, suc, arith,
}
use l3afd.Prelude.Text.{join}
use l3afd.Os.{Os, Process}
use l3afd.Exec.{on_option, pure, fail, check, wrap, try, ◌>>=◌}
use l3afd.Exec.After.{Ensures, bind-Ensures, then-Ensures, fail-Ensures, mono-Ensures}
use l3afd.Kf.ElementList.{Ref}
use l3afd.Kf.State.{Bpf, Cmd, State, Kf}
use l3afd.Kf.Access.{read, write, call}
use l3afd.Kf.Leaves.{
  Leaves, Leaves-Ensures, after-Leaves, leaves_rules, Leaves-wrap, Leaves-if, Leaves-pure,
  Leaves-try,
}
use l3afd.Kf.Processes.{stop_matching, stop_external_running_process, assert_executable}
use l3afd.Kf.PinnedMaps.{remove_prev_prog_fd, verify_pinned_map_exists}
use l3afd.Kf.Lifecycle.{await_prog_id, run_kf_configs, start_arguments, finish_start, launch, start}
use l3afd.Kf.Lifecycle.Stopped.{write-Ensures, check-Ensures}
use l3afd.Kf.Lifecycle.Commands.{
  HasCommand, command_rules, is_running-Leaves, set_pr_limits-Leaves, update-Leaves,
  get_prog_id-Leaves, verify_pinned_map_exists-Leaves,
}

-- The command of a program that was started: a daemon has its process, of the path in the program's
-- directory; another program has ended and has none.
abbrev pub StartedAs : Bool → String → Bpf → Type 0
StartedAs true path y =
    (pid : ℕ) × (args : List String) × (y.cmd
      ≡ some (record { path = path; args = args; process = some pid }))
StartedAs false path y = y.cmd ≡ none

abbrev pub IsStarted : Bpf → Bpf → Type 0
IsStarted x y =
    StartedAs x.program.user_program_daemon (join (x.file_path ∷ x.program.cmd_start ∷ [])) y

module _ ⦃os : Os⦄ {q : Ref} {c : Option Cmd} where
  await_prog_id-Leaves : (n : ℕ) (b : Ref) → Leaves q (HasCommand c) (await_prog_id n b)
  unfolding await_prog_id
  await_prog_id-Leaves zero b = search command_rules
  await_prog_id-Leaves (suc n) b =
      search (command_rules, get_prog_id-Leaves, λ (r : Ref). await_prog_id-Leaves n r) depth 30

  finish_start-Leaves :
      (b : Ref) (iface direction : String) (chain : Bool)
      → Leaves q (HasCommand c) (finish_start b iface direction chain)
  unfolding finish_start run_kf_configs
  finish_start-Leaves b iface direction chain =
      search
        (
          command_rules, is_running-Leaves, verify_pinned_map_exists-Leaves, update-Leaves,
          await_prog_id-Leaves, set_pr_limits-Leaves,
        )
        depth 40

module _ ⦃os : Os⦄ where
  option-Ensures :
      {A : Type 0} (e : String) {k : A → Kf (Unit {0})} {s : State os}
      {Q : Unit {0} → State os → Type 0} (o : Option A)
      → ((a : A) → Ensures (k a) s Q)
      → Ensures (on_option o (fail e) k) s Q
  unfolding on_option
  option-Ensures e {s = s} {Q = Q} none h = fail-Ensures e s Q
  option-Ensures e (some a) h = h a

  -- A process runs: the rest of the start keeps its command, or drops it once the process has ended.
  launched-Ensures :
      (b : Ref) (path : String) (daemon : Bool) (args : List String) (iface direction : String)
      (chain : Bool) (pid : ℕ) (s : State os)
      → Ensures
          (write b (λ bpf. record bpf {
            cmd = some (record { path = path; args = args; process = some pid });
          })
            >>= λ _.
                if daemon
                then finish_start b iface direction chain
                else (call (os.wait pid) >>= λ exited.
                    check exited "cmd wait at starting of bpf program returned with error" >>= λ _.
                    write b (λ bpf. record bpf { cmd = none }) >>= λ _.
                    wrap "no userprogram and failed to find pinned file"
                      (verify_pinned_map_exists b chain)))
          s
          (λ _ t. StartedAs daemon path (t.bpfs b))
  launched-Ensures b path true args iface direction chain pid s =
      let c : Option Cmd = some (record { path = path; args = args; process = some pid }) in
      bind-Ensures _ (λ _ t. HasCommand c (t.bpfs b)) _ _ s
        (write-Ensures b (λ bpf. record bpf { cmd = c }) s (HasCommand c) refl)
        (λ _ t h.
          mono-Ensures (λ _ u. HasCommand c (u.bpfs b)) _ _ t
            (Leaves-Ensures (finish_start b iface direction chain) t
              (finish_start-Leaves b iface direction chain) h)
            (λ _ u left. (pid, args, left)))
  launched-Ensures b path false args iface direction chain pid s =
      then-Ensures _ (write b _) _ s (λ _ t. then-Ensures _ (call (os.wait pid)) _ t (λ exited u.
        then-Ensures _ (check exited _) _ u (λ _ v.
          bind-Ensures _ (λ _ w. HasCommand none (w.bpfs b)) _ _ v
            (write-Ensures b (λ bpf. record bpf { cmd = none }) v (HasCommand none) refl)
            (λ _ w hw.
              Leaves-Ensures
                (wrap "no userprogram and failed to find pinned file"
                  (verify_pinned_map_exists b chain))
                w (Leaves-wrap _ _ (verify_pinned_map_exists-Leaves b chain)) hw))))

  launch-Ensures :
      (b : Ref) (iface direction : String) (chain : Bool) (s : State os)
      → Ensures (launch b iface direction chain) s (λ _ t. IsStarted (s.bpfs b) (t.bpfs b))
  unfolding launch read ◌>>=◌
  launch-Ensures b iface direction chain s = record {
    at =
        (then-Ensures _ (start_arguments b iface direction chain) _ s (λ args t.
          then-Ensures _ (write b _) _ t (λ _ u.
            then-Ensures _ (call (os.start _ args)) _ u (λ started v.
              option-Ensures _ started (λ pid.
                launched-Ensures b _ (s.bpfs b).program.user_program_daemon args iface direction
                  chain pid v))))).at;
  }

  -- What stands before the launch leaves every struct as it is.
  module _ (b : Ref) (P : Bpf → Type 0) where
    stop_matching-Leaves :
        (name : String) (pid : ℕ) (ps : List Process) → Leaves b P (stop_matching name pid ps)
    unfolding stop_matching
    stop_matching-Leaves name pid [] = search leaves_rules
    stop_matching-Leaves name pid (p ∷ ps) =
        search (leaves_rules, λ (k : String). stop_matching-Leaves k pid ps) depth 30

    stop_external-Leaves : (name : String) → Leaves b P (stop_external_running_process name)
    unfolding stop_external_running_process
    stop_external-Leaves name = search (leaves_rules, stop_matching-Leaves) depth 30

    executable-Leaves : (path : String) → Leaves b P (assert_executable path)
    unfolding assert_executable
    executable-Leaves path = search leaves_rules depth 30

    remove_prev-Leaves : (r : Ref) → Leaves b P (remove_prev_prog_fd r)
    unfolding remove_prev_prog_fd
    remove_prev-Leaves r = search leaves_rules depth 30

  -- Where Start returns without an error the program had a directory. A daemon then has the command
  -- of its start, from the program's directory, with a process; a program without a daemon has ended
  -- and has no command. This holds whatever the system answers.
  pub start-IsStarted :
      (b : Ref) (iface direction : String) (chain : Bool) (s : State os)
      → Ensures
          (start b iface direction chain)
          s
          (λ _ t. (((s.bpfs b).file_path == "") ≡ false) × IsStarted (s.bpfs b) (t.bpfs b))
  unfolding start read ◌>>=◌
  start-IsStarted b iface direction chain s =
      let Same : Bpf → Type 0 = λ x. x ≡ s.bpfs b in
      record {
        at =
            (bind-Ensures _ _ (check _ "no program binary path found") _ s (check-Ensures _ _ s)
              (λ _ t q.
                after-Leaves b Same
                  (wrap "failed to stop external instance of the program"
                    (stop_external_running_process (s.bpfs b).program.cmd_start))
                  t (Leaves-wrap _ _ (stop_external-Leaves b Same _)) (ap (λ t. t.bpfs b) q.1)
                  (λ _ u hu.
                    after-Leaves b Same (wrap "no executable permissions" (assert_executable _)) u
                      (Leaves-wrap _ _ (executable-Leaves b Same _)) hu
                      (λ _ v hv.
                        after-Leaves b Same
                          (if (s.bpfs b).prev_map_name == ""
                            then pure true
                            else try (remove_prev_prog_fd b))
                          v
                          (Leaves-if _ _ _ (Leaves-pure true)
                            (Leaves-try _ (remove_prev-Leaves b Same b)))
                          hv
                          (λ _ w hw.
                            mono-Ensures (λ _ z. IsStarted (w.bpfs b) (z.bpfs b)) _ _ w
                              (launch-Ensures b iface direction chain w)
                              (λ _ z started. (
                                ground (arith, q.0),
                                subst (λ x. IsStarted x (z.bpfs b)) hw started,
                              ))))))).at;
      }
