-- ===== src/Kf/Report/Quiet.antt =====
-- Reports are quiet.
use l3afd.Prelude.{Bool, true, false, String, some, [], ◌∷◌}
use l3afd.Os.{Os}
use l3afd.Kf.ElementList.{Chain}
use l3afd.Kf.State.{Direction}
use l3afd.Kf.Access.{get_chain}
use l3afd.Kf.Quiet.{Keeps, Keeps-bind, Keeps-read, Keeps-pure, Quiet-refl, quiet_rules}
use l3afd.Kf.Report.{read_programs, programs_behind_root, programs_in, ebpf_programs}

module _ ⦃os : Os⦄ where
  read_programs-Keeps : (l : Chain) → Keeps (read_programs l)
  unfolding read_programs
  read_programs-Keeps [] = search quiet_rules
  read_programs-Keeps (e ∷ es) = Keeps-bind _ _ (Keeps-read e) (λ bpf.
      Keeps-bind _ _ (read_programs-Keeps es) (λ rest. Keeps-pure (some bpf.program ∷ rest)))

  behind_root-Keeps : (b : Bool) (name : String) (l : Chain) → Keeps (programs_behind_root b name l)
  unfolding programs_behind_root
  behind_root-Keeps false name l = read_programs-Keeps l
  behind_root-Keeps true name [] = search quiet_rules
  behind_root-Keeps true name (e ∷ es) = search (quiet_rules, read_programs-Keeps) depth 30

  get_chain-Keeps : (d : Direction) (iface : String) → Keeps (get_chain d iface)
  unfolding get_chain
  get_chain-Keeps d iface = record { at = λ s. Quiet-refl s }

  programs_in-Keeps : (d : Direction) (iface : String) → Keeps (programs_in d iface)
  unfolding programs_in
  programs_in-Keeps d iface = search (quiet_rules, get_chain-Keeps, behind_root-Keeps) depth 30

  pub ebpf_programs-Keeps : (iface : String) → Keeps (ebpf_programs iface)
  unfolding ebpf_programs
  ebpf_programs-Keeps iface = search (quiet_rules, programs_in-Keeps) depth 30
