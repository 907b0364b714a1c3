-- ===== src/Kf/Lifecycle/Stopped.antt =====
-- What Stop leaves of the struct of a program.
use l3afd.Prelude.{
  ◌≡◌, refl, ℕ, zero, suc, pos, Bool, true, false, ◌&&◌, not, String, Option, none, some, is_some,
  [], ◌∷◌, Map, ◌==◌, if◌then◌else◌, arith,
}
use l3afd.Prelude.Text.{join}
use l3afd.Models.{BpfProgram, Value, str, other}
use l3afd.Os.{Os}
use l3afd.Stats.{incr, set, nf_stop_count, nf_running}
use l3afd.Exec.{deref, on_option, pure, check, blocks, wrap, ◌>>=◌}
use l3afd.Exec.After.{
  Ensures, bind-Ensures, if-Ensures, pure-Ensures, fail-Ensures, blocks-Ensures, mono-Ensures,
}
use l3afd.Kf.ElementList.{Ref}
use l3afd.Kf.ElementList.Split.{nat_eq_refl}
use l3afd.Kf.State.{Bpf, Cmd, BpfMap, State}
use l3afd.Kf.Access.{read, write, call, publish}
use l3afd.Kf.Leaves.{
  Leaves, Leaves-Ensures, Leaves-read, Leaves-deref, Leaves-call, Leaves-wrap, Leaves-publish,
  after-Leaves, leaves_rules,
}
use l3afd.Kf.PinnedMaps.{await_map_removal, verify_pinned_map_vanish}
use l3afd.Kf.Processes.{entries, flags, assert_executable, process_terminate}
use l3afd.Kf.Lifecycle.{
  has_kf_configs, maps_alive, await_metrics_removal, verify_metrics_maps_vanish, send_to, send_done,
  verify_stopped, stop_process, run_stop_command, stop,
}

-- No handle of a map is left.
abbrev HasNoMaps : Bpf → Type 0
HasNoMaps x = (x.bpf_maps ≡ []) × (x.metrics_bpf_maps ≡ [])

abbrev HasNoProgram : Bpf → Type 0
HasNoProgram x = (x.prog_id ≡ pos 0) × (x.bpf_maps ≡ []) × (x.metrics_bpf_maps ≡ [])

-- Neither a command nor a program nor the handle of a map is left.
abbrev pub IsStopped : Bpf → Type 0
IsStopped x = (x.cmd ≡ none) × (x.prog_id ≡ pos 0) × (x.bpf_maps ≡ []) × (x.metrics_bpf_maps ≡ [])

-- A daemon without a command cannot be stopped.
abbrev pub CanStop : Bpf → Type 0
CanStop x = (x.program.user_program_daemon && not (is_some x.cmd)) ≡ false

module _ ⦃os : Os⦄ where
  pub write-Ensures :
      (b : Ref) (f : Bpf → Bpf) (s : State os) (P : Bpf → Type 0)
      → P (f (s.bpfs b))
      → Ensures (write b f) s (λ _ t. P (t.bpfs b))
  unfolding write
  write-Ensures b f s P p = record { at = rw (nat_eq_refl b) p }

  read-Ensures : (b : Ref) (s : State os) → Ensures (read b) s (λ x t. (x ≡ s.bpfs b) × (t ≡ s))
  unfolding read
  read-Ensures b s = record { at = (refl, refl) }

  pub check-Ensures :
      (c : Bool) (e : String) (s : State os) → Ensures (check c e) s (λ _ t. (c ≡ true) × (t ≡ s))
  check-Ensures true e s = pure-Ensures tt s _ (refl, refl)
  check-Ensures false e s = fail-Ensures e s _

  module _ (b : Ref) (P : Bpf → Type 0) where
    await_map_removal-Leaves : (n : ℕ) (name : String) → Leaves b P (await_map_removal n name)
    unfolding await_map_removal
    await_map_removal-Leaves zero name = search leaves_rules
    await_map_removal-Leaves (suc n) name =
        search (leaves_rules, λ (k : String). await_map_removal-Leaves n k) depth 30

    verify_pinned_map_vanish-Leaves :
        (r : Ref) (chain : Bool) → Leaves b P (verify_pinned_map_vanish r chain)
    unfolding verify_pinned_map_vanish
    verify_pinned_map_vanish-Leaves r chain =
        search (leaves_rules, await_map_removal-Leaves) depth 30

    maps_alive-Leaves : (m : Map BpfMap) → Leaves b P (maps_alive m)
    unfolding maps_alive
    maps_alive-Leaves [] = search leaves_rules
    maps_alive-Leaves ((k, v) ∷ m) =
        search (leaves_rules, λ (u : Unit {0}). maps_alive-Leaves m) depth 30

    await_metrics-Leaves : (n : ℕ) (r : Ref) → Leaves b P (await_metrics_removal n r)
    unfolding await_metrics_removal
    await_metrics-Leaves zero r = search leaves_rules
    await_metrics-Leaves (suc n) r =
        search (leaves_rules, maps_alive-Leaves, λ (q : Ref). await_metrics-Leaves n q) depth 30

    verify_stopped-Leaves : (r : Ref) (chain : Bool) → Leaves b P (verify_stopped r chain)
    unfolding verify_stopped verify_metrics_maps_vanish
    verify_stopped-Leaves r chain =
        search (leaves_rules, verify_pinned_map_vanish-Leaves, await_metrics-Leaves) depth 30

    process_terminate-Leaves : (r : Ref) → Leaves b P (process_terminate r)
    unfolding process_terminate
    process_terminate-Leaves r = search leaves_rules depth 30

    flags-Leaves : (e : String) (m : Map Value) → Leaves b P (flags e m)
    unfolding flags
    flags-Leaves e [] = search leaves_rules
    flags-Leaves e ((k, other v) ∷ m) = search leaves_rules
    flags-Leaves e ((k, str v) ∷ m) =
        search (leaves_rules, λ (f : String). flags-Leaves f m) depth 30

    assert_executable-Leaves : (path : String) → Leaves b P (assert_executable path)
    unfolding assert_executable
    assert_executable-Leaves path = search leaves_rules depth 30

  send_to-Ensures :
      (b : Ref) (n : ℕ) (s : State os)
      → HasNoMaps (s.bpfs b)
      → Ensures (send_to b n) s (λ _ t. HasNoMaps (t.bpfs b))
  unfolding send_to
  send_to-Ensures b zero s h = blocks-Ensures s _
  send_to-Ensures b (suc n) s h =
      write-Ensures b (λ bpf. record bpf { done = some n }) s HasNoMaps h

  sent-Ensures :
      (b : Ref) (o : Option ℕ) (s : State os)
      → HasNoMaps (s.bpfs b)
      → Ensures (on_option o blocks (λ n. send_to b n)) s (λ _ t. HasNoMaps (t.bpfs b))
  unfolding on_option
  sent-Ensures b none s h = blocks-Ensures s _
  sent-Ensures b (some n) s h = send_to-Ensures b n s h

  send_done-Ensures :
      (b : Ref) (s : State os)
      → HasNoMaps (s.bpfs b)
      → Ensures (send_done b) s (λ _ t. HasNoMaps (t.bpfs b))
  unfolding send_done
  send_done-Ensures b s h =
      after-Leaves b HasNoMaps (read b) s (Leaves-read b) h
        (λ x t left. sent-Ensures b x.done t left)

  waited-Ensures :
      (b : Ref) (o : Option Cmd) (t : State os)
      → (t.bpfs b).cmd ≡ o
      → HasNoProgram (t.bpfs b)
      → Ensures
          (on_option o (pure tt) λ cmd. deref cmd.process >>= λ pid.
            call (os.wait pid) >>= λ waited. write b (λ bpf. record bpf { cmd = none }))
          t
          (λ _ u. IsStopped (u.bpfs b))
  unfolding on_option
  waited-Ensures b none t q h = pure-Ensures tt t _ (q, h.0, h.1, h.2)
  waited-Ensures b (some cmd) t q h =
      after-Leaves b HasNoProgram (deref cmd.process) t (Leaves-deref cmd.process) h (λ pid u hu.
        after-Leaves b HasNoProgram (call (os.wait pid)) u (Leaves-call (os.wait pid)) hu
          (λ waited v hv.
            write-Ensures b (λ bpf. record bpf { cmd = none }) v IsStopped
              (refl, hv.0, hv.1, hv.2)))

  -- The command that a process was started with is dropped; without one there is nothing to drop.
  stop_process-Ensures :
      (b : Ref) (s : State os)
      → HasNoProgram (s.bpfs b)
      → Ensures (stop_process b) s (λ _ t. IsStopped (t.bpfs b))
  unfolding stop_process read ◌>>=◌
  stop_process-Ensures b s h =
      after-Leaves b HasNoProgram (wrap "process terminate failed" (process_terminate b)) s
        (Leaves-wrap _ _ (process_terminate-Leaves b HasNoProgram b)) h
        (λ _ t left. record { at = (waited-Ensures b (t.bpfs b).cmd t refl left).at })

  run_stop_command-Ensures :
      (b : Ref) (iface direction : String) (s : State os)
      → HasNoProgram (s.bpfs b)
      → Ensures (run_stop_command b iface direction) s (λ _ t. IsStopped (t.bpfs b))
  unfolding run_stop_command
  run_stop_command-Ensures b iface direction s h =
      after-Leaves b HasNoProgram (read b) s (Leaves-read b) h (λ x t ht.
        let command = join (x.file_path ∷ x.program.cmd_stop ∷ []) in
        after-Leaves b HasNoProgram (wrap "no executable permissions" (assert_executable command)) t
          (Leaves-wrap _ _ (assert_executable-Leaves b HasNoProgram command)) ht
          (λ _ u hu.
            after-Leaves b HasNoProgram
              (flags "stop args is not a string" (entries x.program.stop_args)) u
              (flags-Leaves b HasNoProgram _ _) hu
              (λ args v hv.
                after-Leaves b HasNoProgram (call _) v (Leaves-call _) hv (λ stopped w hw.
                  write-Ensures b (λ bpf. record bpf { cmd = none }) w IsStopped
                    (refl, hw.0, hw.1, hw.2)))))

  -- From the emptied maps on.
  emptied-Ensures :
      (b : Ref) (program : BpfProgram) (iface direction : String) (chain : Bool) (s : State os)
      → HasNoMaps (s.bpfs b)
      → Ensures
          ((if has_kf_configs program then send_done b else pure tt) >>= λ _.
            write b (λ bpf. record bpf { prog_id = pos 0 }) >>= λ _.
            publish (incr nf_stop_count program.name direction) >>= λ _.
            publish (set (pos 0) nf_running program.name direction) >>= λ _.
            (if program.cmd_stop == "" then stop_process b else run_stop_command b iface direction)
            >>= λ _. verify_stopped b chain)
          s
          (λ _ t. IsStopped (t.bpfs b))
  emptied-Ensures b program iface direction chain s h =
      bind-Ensures _ (λ _ t. HasNoMaps (t.bpfs b)) _ _ s
        (if-Ensures (has_kf_configs program) _ _ s _ (λ _. send_done-Ensures b s h)
          (λ _. pure-Ensures tt s _ h))
        (λ _ t ht.
          bind-Ensures _ (λ _ u. HasNoProgram (u.bpfs b)) _ _ t
            (write-Ensures b (λ bpf. record bpf { prog_id = pos 0 }) t HasNoProgram
              (refl, ht.0, ht.1))
            (λ _ u hu. after-Leaves b HasNoProgram (publish _) u (Leaves-publish _) hu (λ _ v hv.
              after-Leaves b HasNoProgram (publish _) v (Leaves-publish _) hv (λ _ w hw.
                bind-Ensures _ (λ _ x. IsStopped (x.bpfs b)) _ _ w
                  (if-Ensures (program.cmd_stop == "") _ _ w _ (λ _. stop_process-Ensures b w hw)
                    (λ _. run_stop_command-Ensures b iface direction w hw))
                  (λ _ x hx.
                    Leaves-Ensures (verify_stopped b chain) x
                      (verify_stopped-Leaves b IsStopped b chain) hx)))))

  -- Where Stop returns without an error the program was no daemon without a command, and its struct is
  -- left without a command, without a program ID and without handles of maps, with a stop command
  -- and without one, and whatever the system answers.
  pub stop-IsStopped :
      (b : Ref) (iface direction : String) (chain : Bool) (s : State os)
      → Ensures (stop b iface direction chain) s (λ _ t. CanStop (s.bpfs b) × IsStopped (t.bpfs b))
  unfolding stop read ◌>>=◌
  stop-IsStopped b iface direction chain s = record {
    at =
        (bind-Ensures _ _ (check _ "BPFProgram is not running") _ s (check-Ensures _ _ s) (λ _ t q.
          bind-Ensures _ (λ _ u. HasNoMaps (u.bpfs b)) _ _ t
            (write-Ensures b (λ bpf. record bpf { bpf_maps = []; metrics_bpf_maps = [] }) t
              HasNoMaps (refl, refl))
            (λ _ u hu.
              mono-Ensures (λ _ v. IsStopped (v.bpfs b)) _ _ u
                (emptied-Ensures b (s.bpfs b).program iface direction chain u hu)
                (λ _ v stopped. (ground (arith, q.0), stopped))))).at;
  }
