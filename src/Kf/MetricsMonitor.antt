-- ===== src/Kf/MetricsMonitor.antt =====
-- kf/kfmetrics.go: kfMetricsWorker, one round of its ticker.
use l3afd.Prelude.{ℤ, pos, Bool, ◌&&◌, Option, none, some, [], ◌∷◌, Map, eq_ℤ, ◌==◌, if◌then◌else◌}
use l3afd.Models.{disabled}
use l3afd.Os.{Os}
use l3afd.Exec.{pure, try, ◌>>=◌, ◌>>◌}
use l3afd.Kf.ElementList.{Ref, Chain}
use l3afd.Kf.State.{Kf}
use l3afd.Kf.Access.{read}
use l3afd.Kf.Metrics.{monitor_maps}

pub record KfMetrics : Type 0 where
  pub chain : Bool
  pub intervals : ℤ

module _ ⦃os : Os⦄ where
  -- An error is logged.
  unfoldable pub measure_program : KfMetrics → Ref → Kf (Unit {0})
  measure_program c e = do
    bpf ← read e
    if c.chain && eq_ℤ bpf.program.seq_id (pos 0)
        then pure tt
        else if bpf.program.admin_status == disabled
        then pure tt
        else do monitored ← try (monitor_maps e c.intervals); pure tt

  unfoldable pub measure_list : KfMetrics → Chain → Kf (Unit {0})
  unfolding measure_program
  measure_list c [] = pure tt
  measure_list c (e ∷ es) = measure_program c e >> measure_list c es

  unfoldable pub metrics_round : KfMetrics → Map (Option Chain) → Kf (Unit {0})
  unfolding measure_list
  metrics_round c [] = pure tt
  metrics_round c ((iface_name, none) ∷ m) = metrics_round c m
  metrics_round c ((iface_name, some l) ∷ m) = do measure_list c l; metrics_round c m
