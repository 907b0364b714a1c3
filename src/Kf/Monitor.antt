-- ===== src/Kf/Monitor.antt =====
-- The process monitor: pMonitorWorker of kf/processCheck.go, one round of its ticker. The rounds of the
-- three directions are goroutines of their own; here one runs at a time.
pub mod Bounds
use l3afd.Prelude.{
  ℕ, ◌+◌, pos, Bool, ◌&&◌, String, Option, none, some, [], ◌∷◌, Map, ltb, eq_ℤ, ◌==◌, if◌then◌else◌,
}
use l3afd.Models.{enabled, disabled}
use l3afd.Os.{Os}
use l3afd.Stats.{nf_running, set}
use l3afd.Exec.{pure, try, ◌>>=◌, ◌>>◌}
use l3afd.Kf.ElementList.{Ref, Chain}
use l3afd.Kf.State.{Kf}
use l3afd.Kf.Access.{read, write, publish}
use l3afd.Kf.Processes.{is_running}
use l3afd.Kf.Lifecycle.{start}

-- The struct pCheck without its interval.
pub record PCheck : Type 0 where
  pub max_retry_count : ℕ
  pub chain : Bool

module _ ⦃os : Os⦄ where
  -- A program that does not run: another attempt, or the end of them. A failing start is logged.
  unfoldable pub restart : PCheck → Ref → String → String → Kf (Unit {0})
  restart c e iface_name direction = do
    bpf ← read e
    if ltb bpf.restart_count c.max_retry_count && bpf.program.admin_status == enabled
        then (do
          write e (λ bpf. record bpf { restart_count = bpf.restart_count + 1 })
          started ← try (start e iface_name direction c.chain)
          pure tt)
        else publish (set (pos 0) nf_running bpf.program.name direction)

  unfoldable pub check_program : PCheck → Ref → String → String → Kf (Unit {0})
  unfolding restart
  check_program c e iface_name direction = do
    bpf ← read e
    if c.chain && eq_ℤ bpf.program.seq_id (pos 0)
        then pure tt
        else if bpf.program.admin_status == disabled
        then pure tt
        else do
          running ← try (is_running e)
          if running
              then publish (set (pos 1) nf_running bpf.program.name direction)
              else restart c e iface_name direction

  unfoldable pub check_list : PCheck → String → String → Chain → Kf (Unit {0})
  unfolding check_program
  check_list c iface_name direction [] = pure tt
  check_list c iface_name direction (e ∷ es) = do
    check_program c e iface_name direction
    check_list c iface_name direction es

  unfoldable pub monitor_round : PCheck → String → Map (Option Chain) → Kf (Unit {0})
  unfolding check_list
  monitor_round c direction [] = pure tt
  monitor_round c direction ((iface_name, none) ∷ m) = monitor_round c direction m
  monitor_round c direction ((iface_name, some l) ∷ m) = do
    check_list c iface_name direction l
    monitor_round c direction m
