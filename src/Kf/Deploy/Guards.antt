-- ===== src/Kf/Deploy/Guards.antt =====
-- Configurations that Deploy refuses, and a chain that cannot be started.
use l3afd.Prelude.{
  ◌≡◌, refl, Bool, true, false, ◌&&◌, not, String, Option, none, some, is_some, lookup, ◌==◌,
  Bool-cases, inl, inr, arith,
}
use l3afd.Models.{BpfPrograms}
use l3afd.Os.{Os}
use l3afd.Exec.{err, Result, gets, pure, fail, ◌>>=◌}
use l3afd.Kf.State.{NfConfigs, State}
use l3afd.Kf.Deploy.{deploy}

-- The payload is for this host, it names an interface that the host has, and it has programs.
abbrev pub is_acceptable : NfConfigs → String → String → Option BpfPrograms → Bool
is_acceptable c iface_name host_name bpf_progs =
    (host_name == c.host_name)
    && not (iface_name == "")
    && is_some bpf_progs
    && is_some (lookup iface_name c.host_interfaces)

abbrev pub is_error : {A : Type 0} → Result A → Bool
is_error (err e) = true
is_error _ = false

module _ ⦃os : Os⦄ where
  -- A payload that is not acceptable gives an error and changes nothing.
  pub deploy-refuses :
      (s : State os) (iface_name host_name : String) (bpf_progs : Option BpfPrograms)
      → is_acceptable s.configs iface_name host_name bpf_progs ≡ false
      → (is_error (deploy iface_name host_name bpf_progs s).0 ≡ true)
        × ((deploy iface_name host_name bpf_progs s).1 ≡ s)
  unfolding deploy gets pure fail ◌>>=◌
  deploy-refuses s iface_name host_name none bad =
      elim (Bool-cases (host_name == s.configs.host_name)) [
        | inr host ↦ rw host (refl, refl)
        | inl host ↦ elim (Bool-cases (iface_name == "")) [
          | inl empty ↦ rw (host, empty) (refl, refl)
          | inr named ↦ rw (host, named) (refl, refl)
        ]
      ]
  deploy-refuses s iface_name host_name (some progs) bad =
      elim (Bool-cases (host_name == s.configs.host_name)) [
        | inr host ↦ rw host (refl, refl)
        | inl host ↦ elim (Bool-cases (iface_name == "")) [
          | inl empty ↦ rw (host, empty) (refl, refl)
          | inr named ↦ rw (host, named, unknown host named) (refl, refl)
        ]
      ]
    where
      unknown :
          (host_name == s.configs.host_name) ≡ true
          → (iface_name == "") ≡ false
          → is_some (lookup iface_name s.configs.host_interfaces) ≡ false
      unknown host named = ground arith
