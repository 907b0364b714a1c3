-- ===== src/Tests/Deploys.antt =====
-- A configuration with a moved and a new program for the chain of the tests.
use l3afd.Prelude.{arith, refl, zero, suc, some, [], ◌∷◌, map}
use l3afd.Kf.ElementList.{Chain, mem}
use l3afd.Kf.State.{xdp_ingress}
use l3afd.Kf.View.{view}
use l3afd.Kf.Outcome.{Outcome}
use l3afd.Kf.Equality.{args_eq, entries_in}
use l3afd.Kf.Deploy.{deploy_programs}
use l3afd.Kf.Deploy.InOrder.{deploy_programs-keeps_order}
use l3afd.Kf.Update.Members.{AreDistinct}
use l3afd.Kf.Update.Follows.{Fits, Holds}
use l3afd.Kf.Update.Whole.{HasChain}
use l3afd.Tests.Chains.{start-IsWellFormed, xdp_direction, there}
use l3afd.Tests.World.{willing_os, start_state, late_limiter, mirror}

start-AreDistinct : AreDistinct (view start_state) (0 ∷ 1 ∷ 2 ∷ [])
unfolding mem
start-AreDistinct zero zero p q same = refl
start-AreDistinct zero (suc zero) p q same = absurd (ground (arith, same))
start-AreDistinct zero (suc (suc zero)) p q same = absurd (ground (arith, same))
start-AreDistinct (suc zero) zero p q same = absurd (ground (arith, same))
start-AreDistinct (suc zero) (suc zero) p q same = refl
start-AreDistinct (suc zero) (suc (suc zero)) p q same = absurd (ground (arith, same))
start-AreDistinct (suc (suc zero)) zero p q same = absurd (ground (arith, same))
start-AreDistinct (suc (suc zero)) (suc zero) p q same = absurd (ground (arith, same))
start-AreDistinct (suc (suc zero)) (suc (suc zero)) p q same = refl
start-AreDistinct a (suc (suc (suc b))) p q same = absurd (ground (arith, q))
start-AreDistinct (suc (suc (suc a))) b p q same = absurd (ground (arith, p))

limiter-Fits : Fits (view start_state) (0 ∷ 1 ∷ 2 ∷ []) late_limiter
unfolding mem args_eq entries_in
limiter-Fits zero m same = absurd (ground (arith, same))
limiter-Fits (suc zero) m same = (refl, refl)
limiter-Fits (suc (suc zero)) m same = absurd (ground (arith, same))
limiter-Fits (suc (suc (suc a))) m same = absurd (ground (arith, m))

mirror-Fits : Fits (view start_state) (0 ∷ 1 ∷ 2 ∷ []) mirror
unfolding mem
mirror-Fits zero m same = absurd (ground (arith, same))
mirror-Fits (suc zero) m same = absurd (ground (arith, same))
mirror-Fits (suc (suc zero)) m same = absurd (ground (arith, same))
mirror-Fits (suc (suc (suc a))) m same = absurd (ground (arith, m))

deploy_programs-keeps_order_example :
    Outcome
      (deploy_programs xdp_ingress "eth0" "xdpingress" (map some (late_limiter ∷ mirror ∷ [])))
      start_state
      (λ _ v. (k : Chain) × Holds xdp_ingress "eth0" v k)
      (HasChain xdp_ingress "eth0")
deploy_programs-keeps_order_example =
    deploy_programs-keeps_order (late_limiter ∷ mirror ∷ []) start_state (0 ∷ 1 ∷ 2 ∷ [])
      xdp_ingress "eth0" "xdpingress" xdp_direction (there, start-IsWellFormed, start-AreDistinct)
      ((refl, tt), (tt, tt)) (limiter-Fits, (mirror-Fits, tt))
