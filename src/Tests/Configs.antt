-- ===== src/Tests/Configs.antt =====
-- The properties of configurations at the interface of the tests.
use l3afd.Prelude.{◌≡◌, refl, true, some, [], ◌∷◌, lookup}
use l3afd.Exec.{on_option}
use l3afd.Kf.ElementList.{mem}
use l3afd.Kf.State.{xdp_ingress}
use l3afd.Kf.Access.{direction_of, chain_at}
use l3afd.Kf.Removal.{remove_missing_program, remove_missing_bpf_programs_in_config}
use l3afd.Kf.Removal.Missing.{remove_missing-removes_first}
use l3afd.Kf.Deploy.{deploy}
use l3afd.Kf.Deploy.Guards.{is_error, deploy-refuses}
use l3afd.Tests.World.{willing_os, start_state, balancer, only_balancer, balancer_config}

xdp_direction : direction_of "xdpingress" ≡ some xdp_ingress
unfolding direction_of
xdp_direction = refl

there : chain_at start_state.configs xdp_ingress "eth0" ≡ some (0 ∷ 1 ∷ 2 ∷ [])
unfolding lookup
there = refl

remove_missing-removes_first_example :
    remove_missing_bpf_programs_in_config balancer_config "eth0" "xdpingress" start_state
    ≡ remove_missing_program 1 (0 ∷ 1 ∷ 2 ∷ []) xdp_ingress "eth0" "xdpingress" start_state
unfolding on_option mem
remove_missing-removes_first_example =
    remove_missing-removes_first start_state balancer_config only_balancer (balancer ∷ [])
      (0 ∷ 1 ∷ 2 ∷ []) xdp_ingress "eth0" "xdpingress" xdp_direction refl refl there
      (refl, (refl, (refl, tt)))

deploy-refuses_example :
    (is_error (deploy "eth0" "elsewhere" (some only_balancer) start_state).0 ≡ true)
    × ((deploy "eth0" "elsewhere" (some only_balancer) start_state).1 ≡ start_state)
deploy-refuses_example = deploy-refuses start_state "eth0" "elsewhere" (some only_balancer) refl
