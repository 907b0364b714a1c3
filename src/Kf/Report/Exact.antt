-- ===== src/Kf/Report/Exact.antt =====
-- A report as a function of the view.
use l3afd.Prelude.{
  ◌≡◌, refl, ◌∙◌, ap, Bool, true, false, String, Option, none, some, List, [], ◌∷◌, map, ◌==◌,
  if◌then◌else◌, Bool-cases, inl, inr,
}
use l3afd.Models.{BpfProgram, L3afBpfPrograms}
use l3afd.Os.{Os}
use l3afd.Exec.{Exec, Result, ok, err, panic, blocked, pure, gets, panics, on_option, ◌>>=◌}
use l3afd.Kf.ElementList.{Chain}
use l3afd.Kf.State.{Direction, xdp_ingress, ingress, egress, State, Kf}
use l3afd.Kf.Access.{chain_at, read, get_chain}
use l3afd.Kf.View.{View, view}
use l3afd.Kf.Report.{root_name, programs_behind_root, programs_in, ebpf_programs}
use l3afd.Kf.Report.Shown.{programs_at, read_programs-exact}

abbrev behind : View → Bool → String → Chain → Result (List (Option BpfProgram))
behind v false name l = ok (map some (programs_at v l))
behind v true name [] = panic
behind v true name (e ∷ es) =
    ok (map some (programs_at v (if (v.program e).name == name then es else e ∷ es)))

abbrev in_direction : View → Direction → Option Chain → Result (List (Option BpfProgram))
in_direction v d none = ok []
in_direction v d (some l) =
    behind v v.configs.host_config.bpf_chaining_enabled (root_name d v.configs.host_config) l

abbrev and_then : {A B : Type 0} → Result A → (A → Result B) → Result B
and_then (ok a) f = f a
and_then (err e) f = err e
and_then panic f = panic
and_then blocked f = blocked

abbrev report_of :
    View
    → String
    → List (Option BpfProgram)
    → List (Option BpfProgram)
    → List (Option BpfProgram)
    → L3afBpfPrograms
report_of v iface xdp tc_in tc_out = record {
  host_name = v.configs.host_name;
  iface = iface;
  bpf_programs = some (record { xdp_ingress = xdp; tc_ingress = tc_in; tc_egress = tc_out });
}

-- What is reported of an interface: the programs of its three lists, each without its root program.
-- With chaining an empty list ends in a panic.
abbrev pub shown : View → String → Result L3afBpfPrograms
shown v iface = and_then (in_direction v xdp_ingress (chain_at v.configs xdp_ingress iface)) λ xdp.
    and_then (in_direction v ingress (chain_at v.configs ingress iface)) λ tc_in.
      and_then (in_direction v egress (chain_at v.configs egress iface))
        λ tc_out. ok (report_of v iface xdp tc_in tc_out)

module _ ⦃os : Os⦄ where
  behind-exact :
      (s : State os) (b : Bool) (name : String) (l : Chain)
      → programs_behind_root b name l s ≡ (behind (view s) b name l, s)
  unfolding programs_behind_root read panics ◌>>=◌
  behind-exact s false name l = read_programs-exact s l
  behind-exact s true name [] = refl
  behind-exact s true name (e ∷ es) = elim (Bool-cases ((s.bpfs e).program.name == name)) [
    | inl root ↦ rw root (read_programs-exact s es)
    | inr other ↦ rw other (read_programs-exact s (e ∷ es))
  ]

  in_direction-exact :
      (s : State os) (d : Direction) (o : Option Chain)
      → on_option o
          (pure [])
          (λ l.
            programs_behind_root s.configs.host_config.bpf_chaining_enabled
              (root_name d s.configs.host_config)
              l)
          s
        ≡ (in_direction (view s) d o, s)
  unfolding on_option pure
  in_direction-exact s d none = refl
  in_direction-exact s d (some l) = behind-exact s _ _ l

  programs_in-exact :
      (s : State os) (d : Direction) (iface : String)
      → programs_in d iface s ≡ (in_direction (view s) d (chain_at s.configs d iface), s)
  unfolding programs_in gets get_chain ◌>>=◌
  programs_in-exact s d iface = in_direction-exact s d (chain_at s.configs d iface)

  continue-exact :
      {A B : Type 0} (s : State os) (r : Result A) (f : A → Kf B) (g : A → Result B)
      → ((a : A) → f a s ≡ (g a, s))
      → l3afd.Exec.continue r f s ≡ (and_then r g, s)
  continue-exact s (ok a) f g h = h a
  continue-exact s (err e) f g h = refl
  continue-exact s panic f g h = refl
  continue-exact s blocked f g h = refl

  bind-exact :
      {A B : Type 0} (s : State os) (m : Kf A) (r : Result A) (f : A → Kf B) (g : A → Result B)
      → m s ≡ (r, s)
      → ((a : A) → f a s ≡ (g a, s))
      → (m >>= f) s ≡ (and_then r g, s)
  unfolding ◌>>=◌
  bind-exact {A = A} s m r f g e h =
      ap (λ (p : Result A × State os). l3afd.Exec.continue p.0 f p.1) e ∙ continue-exact s r f g h

  gets-exact :
      {A B : Type 0} (s : State os) (f : State os → A) (k : A → Kf B) → (gets f >>= k) s ≡ k (f s) s
  unfolding gets ◌>>=◌
  gets-exact s f k = refl

  -- A report depends on the view alone, and changes nothing.
  pub ebpf_programs-exact :
      (s : State os) (iface : String) → ebpf_programs iface s ≡ (shown (view s) iface, s)
  unfolding ebpf_programs pure
  ebpf_programs-exact s iface =
      gets-exact s (λ s. s.configs) _
      ∙ (bind-exact s (programs_in xdp_ingress iface) _ _ _ (programs_in-exact s xdp_ingress iface)
          (λ xdp.
            bind-exact s (programs_in ingress iface) _ _ _ (programs_in-exact s ingress iface)
              (λ tc_in.
                bind-exact s (programs_in egress iface) _ _ _ (programs_in-exact s egress iface)
                  (λ tc_out. refl))))
