-- ===== src/Tests/Updates.antt =====
-- Updates of running programs at the interface of the tests.
use l3afd.Prelude.{◌≡◌, arith, refl, some, [], ◌∷◌}
use l3afd.Kf.ElementList.{Chain, mem}
use l3afd.Kf.State.{xdp_ingress, ingress}
use l3afd.Kf.Access.{direction_of, chain_at}
use l3afd.Kf.View.{IsWellFormed}
use l3afd.Kf.Deploy.{start_chain}
use l3afd.Kf.Deploy.Fresh.{start_chain-IsWellFormed}
use l3afd.Kf.Outcome.{Outcome}
use l3afd.Kf.Update.{change_version, change_settings, verify_n_update_bpf_program}
use l3afd.Kf.Update.Version.{IsKept, change_version-IsKept}
use l3afd.Kf.Update.Settings.{IsReordered, HasMembers, change_settings-keeps_order}
use l3afd.Kf.Update.Whole.{IsInOrder, HasChain, verify_n_update-keeps_order}
use l3afd.Tests.Chains.{start-IsWellFormed, xdp_direction, there}
use l3afd.Tests.World.{willing_os, start_state, late_limiter, newer, mirror}

change_version-IsKept_example :
    Outcome
      (change_version newer 1 (0 ∷ 1 ∷ 2 ∷ []) xdp_ingress "eth0" "xdpingress")
      start_state
      (λ _ v. IsKept xdp_ingress "eth0" (0 ∷ 1 ∷ 2 ∷ []) v)
      (IsKept xdp_ingress "eth0" (0 ∷ 1 ∷ 2 ∷ []))
unfolding mem
change_version-IsKept_example =
    change_version-IsKept start_state newer 1 (0 ∷ 1 ∷ 2 ∷ []) xdp_ingress "eth0" "xdpingress" refl
      refl refl there start-IsWellFormed

change_settings-keeps_order_example :
    Outcome
      (change_settings late_limiter 1 xdp_ingress "eth0" "xdpingress")
      start_state
      (λ _ v. IsReordered xdp_ingress "eth0" (0 ∷ 1 ∷ 2 ∷ []) v)
      (HasMembers xdp_ingress "eth0" (0 ∷ 1 ∷ 2 ∷ []))
unfolding mem
change_settings-keeps_order_example =
    change_settings-keeps_order start_state late_limiter 1 (0 ∷ 1 ∷ 2 ∷ []) xdp_ingress "eth0"
      "xdpingress" refl (refl, (refl, (refl, tt))) there start-IsWellFormed

-- The mirror is new to the chain.
verify_n_update-keeps_order_example :
    Outcome
      (verify_n_update_bpf_program (some mirror) "eth0" "xdpingress")
      start_state
      (λ _ v. IsInOrder xdp_ingress "eth0" v)
      (HasChain xdp_ingress "eth0")
verify_n_update-keeps_order_example =
    verify_n_update-keeps_order start_state mirror (0 ∷ 1 ∷ 2 ∷ []) xdp_ingress "eth0" "xdpingress"
      xdp_direction ((refl, (refl, tt)), ((refl, tt), (tt, tt))) refl there start-IsWellFormed

ingress_is : direction_of "ingress" ≡ some ingress
unfolding direction_of
ingress_is = refl

-- The first program of the ingress chain.
start_chain-IsWellFormed_example :
    Outcome
      (start_chain mirror ingress "eth0" "ingress")
      start_state
      (λ _ v. (k : Chain) × (chain_at v.configs ingress "eth0" ≡ some k) × IsWellFormed v k)
      (λ v. Unit)
start_chain-IsWellFormed_example =
    start_chain-IsWellFormed start_state mirror ingress "eth0" "ingress" ingress_is (omega arith)
