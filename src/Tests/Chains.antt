-- ===== src/Tests/Chains.antt =====
-- The properties of chains at the interface of the tests.
use l3afd.Prelude.{◌==◌, lookup, ◌⊎◌, arith, ◌≡◌, refl, true, false, none, some, [], ◌∷◌}
use l3afd.Exec.After.{Ensures}
use l3afd.Kf.Lifecycle.{start, stop}
use l3afd.Kf.Lifecycle.Started.{IsStarted, start-IsStarted}
use l3afd.Kf.Lifecycle.Stopped.{CanStop, IsStopped, stop-IsStopped}
use l3afd.Kf.ElementList.{next, prev, insert_before, mem, remove, push_back}
use l3afd.Kf.State.{xdp_ingress}
use l3afd.Kf.Access.{direction_of, chain_at}
use l3afd.Kf.View.{put_chain, view, IsWellFormed}
use l3afd.Kf.Outcome.{Outcome}
use l3afd.Kf.Linking.{stop_root_program}
use l3afd.Kf.Removal.{remove_missing_program, take_out, stop_n_remove_all_bpf_programs}
use l3afd.Kf.Removal.Effects.{take_out-keeps_order}
use l3afd.Kf.Removal.All.{stop_n_remove_all-Outcome, stop_root-Outcome}
use l3afd.Kf.Update.{change_admin_status}
use l3afd.Kf.Placement.Moving.{MovedOrNot, move-keeps_order}
use l3afd.Kf.Placement.{move_to_location, insert_and_start_bpf_program}
use l3afd.Kf.Placement.Sorted.{insert-keeps_order}
use l3afd.Kf.Removal.Gone.{IsGone, MayBeGone, remove_missing_program-IsGone}
use l3afd.Kf.Update.Disable.{change_admin_status-IsGone}
use l3afd.Tests.World.{off, late_state, willing_os, start_state, mirror}

pub start-IsWellFormed : IsWellFormed (view start_state) (0 ∷ 1 ∷ 2 ∷ [])
unfolding mem
start-IsWellFormed = record {
  sorted = (tt, (omega arith, (omega arith, tt)));
  linked = (tt, (refl, (refl, tt)));
  distinct = (refl, (refl, (refl, tt)));
  allocated = (omega arith, (omega arith, (omega arith, tt)));
}

pub xdp_direction : direction_of "xdpingress" ≡ some xdp_ingress
unfolding direction_of
xdp_direction = refl

pub there : chain_at start_state.configs xdp_ingress "eth0" ≡ some (0 ∷ 1 ∷ 2 ∷ [])
unfolding lookup
there = refl

-- The mirror goes between the limiter and the balancer.
insert-keeps_order_example :
    Outcome
      (insert_and_start_bpf_program (some mirror) "eth0" "xdpingress")
      start_state
      (λ _ v.
        (chain_at v.configs xdp_ingress "eth0" ≡ some (0 ∷ 1 ∷ 3 ∷ 2 ∷ []))
        × IsWellFormed v (0 ∷ 1 ∷ 3 ∷ 2 ∷ []))
      (λ v. chain_at v.configs xdp_ingress "eth0" ≡ some (0 ∷ 1 ∷ 3 ∷ 2 ∷ []))
unfolding insert_before
insert-keeps_order_example =
    insert-keeps_order start_state mirror (0 ∷ 1 ∷ 2 ∷ []) xdp_ingress "eth0" "xdpingress" refl
      xdp_direction there start-IsWellFormed

-- The limiter goes behind the balancer.
move-keeps_order_example :
    Outcome
      (move_to_location 1 xdp_ingress "eth0")
      late_state
      (λ _ v.
        (chain_at v.configs xdp_ingress "eth0" ≡ some (0 ∷ 2 ∷ 1 ∷ []))
        × IsWellFormed v (0 ∷ 2 ∷ 1 ∷ []))
      (MovedOrNot xdp_ingress "eth0" (0 ∷ 1 ∷ 2 ∷ []) (0 ∷ 2 ∷ 1 ∷ []))
unfolding mem remove push_back
move-keeps_order_example =
    move-keeps_order late_state 1 (0 ∷ 1 ∷ 2 ∷ []) xdp_ingress "eth0" refl
      (refl, (refl, (refl, tt))) there (tt, (omega arith, tt)) (tt, (refl, (refl, tt)))
      (refl, (refl, (refl, tt))) (omega arith, (omega arith, (omega arith, tt)))

take_out-keeps_order_example :
    Outcome
      (take_out 1 (0 ∷ 1 ∷ 2 ∷ []) xdp_ingress "eth0" "xdpingress" "not stopped" "not linked")
      start_state
      (λ r v.
        (r ≡ (0 ∷ 2 ∷ [], some 0, some 2))
        × (chain_at v.configs xdp_ingress "eth0" ≡ some (0 ∷ 2 ∷ []))
        × IsWellFormed v (0 ∷ 2 ∷ []))
      (λ v.
        (chain_at v.configs xdp_ingress "eth0" ≡ some (0 ∷ 1 ∷ 2 ∷ []))
        ⊎ (chain_at v.configs xdp_ingress "eth0" ≡ some (0 ∷ 2 ∷ [])))
unfolding mem remove next prev
take_out-keeps_order_example =
    take_out-keeps_order start_state 1 (0 ∷ 1 ∷ 2 ∷ []) xdp_ingress "eth0" "xdpingress"
      "not stopped" "not linked" refl there start-IsWellFormed

stop_n_remove_all-Outcome_example :
    Outcome
      (stop_n_remove_all_bpf_programs "eth0" "xdpingress")
      start_state
      (λ _ v. v ≡ put_chain (view start_state) xdp_ingress "eth0" none)
      (λ v. v ≡ put_chain (view start_state) xdp_ingress "eth0" none)
stop_n_remove_all-Outcome_example =
    stop_n_remove_all-Outcome start_state xdp_ingress "eth0" "xdpingress" xdp_direction

stop_root-Outcome_example :
    Outcome
      (stop_root_program "eth0" "xdpingress")
      start_state
      (λ _ v. chain_at v.configs xdp_ingress "eth0" ≡ none)
      (λ v. v ≡ view start_state)
stop_root-Outcome_example =
    stop_root-Outcome start_state xdp_ingress "eth0" "xdpingress" 0 (1 ∷ 2 ∷ []) xdp_direction there

start-IsStarted_example : Ensures (start 1 "eth0" "xdpingress" true) start_state (λ _ t.
    (((start_state.bpfs 1).file_path == "") ≡ false) × IsStarted (start_state.bpfs 1) (t.bpfs 1))
start-IsStarted_example = start-IsStarted 1 "eth0" "xdpingress" true start_state

stop-IsStopped_example :
    Ensures
      (stop 1 "eth0" "xdpingress" true)
      start_state
      (λ _ t. CanStop (start_state.bpfs 1) × IsStopped (t.bpfs 1))
stop-IsStopped_example = stop-IsStopped 1 "eth0" "xdpingress" true start_state

remove_missing_program-IsGone_example :
    Outcome
      (remove_missing_program 1 (0 ∷ 1 ∷ 2 ∷ []) xdp_ingress "eth0" "xdpingress")
      start_state
      (λ _ v. IsGone false xdp_ingress "eth0" (0 ∷ 1 ∷ 2 ∷ []) 1 v)
      (MayBeGone xdp_ingress "eth0" (0 ∷ 1 ∷ 2 ∷ []) 1)
unfolding mem remove
remove_missing_program-IsGone_example =
    remove_missing_program-IsGone start_state 1 (0 ∷ 1 ∷ 2 ∷ []) xdp_ingress "eth0" "xdpingress"
      xdp_direction refl there start-IsWellFormed

change_admin_status-IsGone_example :
    Outcome
      (change_admin_status off 1 (0 ∷ 1 ∷ 2 ∷ []) xdp_ingress "eth0" "xdpingress")
      start_state
      (λ _ v. IsGone false xdp_ingress "eth0" (0 ∷ 1 ∷ 2 ∷ []) 1 v)
      (MayBeGone xdp_ingress "eth0" (0 ∷ 1 ∷ 2 ∷ []) 1)
unfolding mem remove
change_admin_status-IsGone_example =
    change_admin_status-IsGone start_state off 1 (0 ∷ 1 ∷ 2 ∷ []) xdp_ingress "eth0" "xdpingress"
      xdp_direction refl there start-IsWellFormed
