-- ===== src/Kf/Configs/Interfaces.antt =====
-- Which interfaces a deployment touches, and which it remembers.
use l3afd.Prelude.{
  ◌≡◌, refl, ◌∙◌, ap, Bool, true, false, String, List, [], ◌∷◌, ◌==◌, if◌then◌else◌, Bool-cases,
  inl, inr, arith,
}
use l3afd.Models.{L3afBpfPrograms}
use l3afd.Os.{Os}
use text.Mathlib.TextPositions.{eq_refl}
use l3afd.Exec.{modify, ok, pure, fail, gets, try, wrap, ◌>>=◌, ◌>>◌}
use l3afd.Exec.After.{Ensures, bind-Ensures, Ensures-ok, always-Ensures, bind-after}
use l3afd.Kf.State.{Direction, NfConfigs, State, Kf}
use l3afd.Kf.Access.{chain_at}
use l3afd.Kf.Local.{try-IsLocal}
use l3afd.Kf.Local.Deploying.{deploy-IsLocal}
use l3afd.Kf.Quiet.{Keeps, Keeps-wrap, Keeps-fail, Keeps-bind}
use l3afd.Kf.Deploy.{deploy}
use l3afd.Kf.Report.{report_each, ebpf_programs, ebpf_programs_all}
use l3afd.Kf.Configs.{
  Choice, in_payload, set_ifaces, remove_missing_net_ifaces_n_bpf_progs_in_config,
  save_configs_to_config_store, deploy_each, deploye_bpf_programs,
}
use l3afd.Kf.Configs.Tracked.{last_iface, deploy_each-Ensures, remove_missing-SameBut, save-Keeps}

-- The lists of `other` are the same in all directions.
abbrev Unmoved : String → NfConfigs → NfConfigs → Type 0
Unmoved other c c' = (d : Direction) → chain_at c' d other ≡ chain_at c d other

last-in_payload :
    (p : L3afBpfPrograms) (ps : List L3afBpfPrograms) → in_payload (last_iface p ps) (p ∷ ps) ≡ true
unfolding in_payload
last-in_payload p [] = rw (eq_refl p.iface)
last-in_payload p (q ∷ qs) = elim (Bool-cases (p.iface == last_iface q qs)) [
  | inl same ↦ rw same
  | inr other ↦ rw other (last-in_payload q qs)
]

-- An interface outside of the payload is not the first one, nor in the rest.
not-in_payload :
    (other : String) (p : L3afBpfPrograms) (ps : List L3afBpfPrograms)
    → in_payload other (p ∷ ps) ≡ false
    → ((p.iface == other) ≡ false) × (in_payload other ps ≡ false)
unfolding in_payload
not-in_payload other p ps h = elim (Bool-cases (p.iface == other)) [
  | inl same ↦ absurd (ground (arith, h, same))
  | inr differs ↦ (differs, ground (arith, h, differs))
]

last-not_in_payload :
    (other : String) (p : L3afBpfPrograms) (ps : List L3afBpfPrograms)
    → in_payload other (p ∷ ps) ≡ false
    → (last_iface p ps == other) ≡ false
last-not_in_payload other p [] h = (not-in_payload other p [] h).0
last-not_in_payload other p (q ∷ qs) h =
    last-not_in_payload other q qs (not-in_payload other p (q ∷ qs) h).1

module _ ⦃os : Os⦄ {A : Type 0} where
  Keeps-Unmoved :
      (other : String) (c : NfConfigs) (m : Kf A) (t : State os)
      → Keeps m
      → Unmoved other c t.configs
      → Unmoved other c (m t).1.configs
  Keeps-Unmoved other c m t k u d =
      ap (λ (e : NfConfigs). chain_at e d other) (k.at t).configs ∙ u d

module _ ⦃os : Os⦄ where
  -- The round of one payload, once it is deployed or not.
  deployed-Unmoved :
      (other : String) (c : NfConfigs) (p : L3afBpfPrograms) (ps : List L3afBpfPrograms)
      (t : State os) (deployed : Bool)
      → ((u : State os) → Unmoved other u.configs (deploy_each ps u).1.configs)
      → Unmoved other c t.configs
      → Unmoved other c
          ((if deployed then (do set_ifaces (λ _. (p.iface, p.iface) ∷ []); deploy_each ps) else (do
            wrap "deploy eBPF Programs failed to save configs" save_configs_to_config_store
            fail "failed to deploy BPF program on iface"))
            t).1.configs
  unfolding set_ifaces modify ◌>>=◌
  deployed-Unmoved other c p ps t true rest u = λ d. rest _ d ∙ u d
  deployed-Unmoved other c p ps t false rest u =
      Keeps-Unmoved other c _ t
        (Keeps-bind _ _ (Keeps-wrap "deploy eBPF Programs failed to save configs" _ save-Keeps)
          (λ _. Keeps-fail "failed to deploy BPF program on iface"))
        u

  deploy_each-Unmoved :
      (other : String) (ps : List L3afBpfPrograms) (s : State os)
      → in_payload other ps ≡ false
      → Unmoved other s.configs (deploy_each ps s).1.configs
  unfolding deploy_each pure
  deploy_each-Unmoved other [] s h = λ d. refl
  deploy_each-Unmoved other (p ∷ ps) s h =
      let parts = not-in_payload other p ps h in
      let local =
        (try-IsLocal p.iface _ (deploy-IsLocal p.iface p.host_name p.bpf_programs)).at s in
      let moved : Unmoved other s.configs
          (try (deploy p.iface p.host_name p.bpf_programs) s).1.configs =
        λ d. local.others d other parts.0 in
      bind-after (λ t. Unmoved other s.configs t.configs)
        (try (deploy p.iface p.host_name p.bpf_programs)) _ s moved
        (λ deployed _.
          deployed-Unmoved other s.configs p ps _ deployed
            (λ u. deploy_each-Unmoved other ps u parts.1) moved)

  pub remove_missing-ifaces :
      (choices : List Choice) (p : L3afBpfPrograms) (ps : List L3afBpfPrograms) (t : State os)
      → t.configs.ifaces ≡ (last_iface p ps, last_iface p ps) ∷ []
      → (try (remove_missing_net_ifaces_n_bpf_progs_in_config choices (p ∷ ps)) t).1.configs.ifaces
        ≡ (last_iface p ps, last_iface p ps) ∷ []
  unfolding try
  remove_missing-ifaces choices p ps t tracked =
      (remove_missing-SameBut choices (p ∷ ps) (last_iface p ps) t tracked
        (last-in_payload p ps)).ifaces
      ∙ tracked

  -- A deployment with at least one payload leaves the lists of every interface that is not in the payload
  -- as they are, element by element, whatever the outcome, the order of the goroutines and what they
  -- see of the loop's variable: a list that the configuration no longer has is not taken down.
  pub deploye-leaves_others :
      (s : State os) (choices : List Choice) (p : L3afBpfPrograms) (ps : List L3afBpfPrograms)
      (other : String) (d : Direction)
      → in_payload other (p ∷ ps) ≡ false
      → chain_at (deploye_bpf_programs choices (p ∷ ps) s).1.configs d other
        ≡ chain_at s.configs d other
  unfolding deploye_bpf_programs try ◌>>=◌
  deploye-leaves_others s choices p ps other d h =
      bind-after (λ t. Unmoved other s.configs t.configs) (deploy_each (p ∷ ps)) _ s deployed
        (λ _ done.
          let t = (deploy_each (p ∷ ps) s).1 in
          let tracked = Ensures-ok _ s t tt _ (deploy_each-Ensures p ps s) (λ i. (done i, t)) in
          let q = last_iface p ps in
          let local =
            (remove_missing-SameBut choices (p ∷ ps) q t tracked (last-in_payload p ps)) in
          let removed : Unmoved other s.configs
              (try (remove_missing_net_ifaces_n_bpf_progs_in_config choices (p ∷ ps)) t).1.configs =
            λ d. local.others d other (last-not_in_payload other p ps h) ∙ deployed d in
          bind-after (λ t. Unmoved other s.configs t.configs)
            (try (remove_missing_net_ifaces_n_bpf_progs_in_config choices (p ∷ ps))) _ t removed
            (λ _ _.
              Keeps-Unmoved other s.configs _ _
                (Keeps-wrap "deploy eBPF Programs failed to save configs" _ save-Keeps) removed))
        d
    where
      deployed : Unmoved other s.configs (deploy_each (p ∷ ps) s).1.configs
      deployed = deploy_each-Unmoved other (p ∷ ps) s h

  pub deploye-Ensures :
      (choices : List Choice) (p : L3afBpfPrograms) (ps : List L3afBpfPrograms) (s : State os)
      → Ensures
          (deploye_bpf_programs choices (p ∷ ps))
          s
          (λ _ t. t.configs.ifaces ≡ (last_iface p ps, last_iface p ps) ∷ [])
  unfolding deploye_bpf_programs
  deploye-Ensures choices p ps s =
      let q = last_iface p ps in
      bind-Ensures _ _ _ _ s (deploy_each-Ensures p ps s) (λ _ t tracked.
        bind-Ensures _ (λ _ u. u.configs.ifaces ≡ (q, q) ∷ []) _ _ t
          (always-Ensures _ t (λ u. u.configs.ifaces ≡ (q, q) ∷ [])
            (remove_missing-ifaces choices p ps t tracked))
          (λ _ u kept.
            always-Ensures _ u (λ v. v.configs.ifaces ≡ (q, q) ∷ [])
              (ap (λ (c : NfConfigs). c.ifaces)
                  ((Keeps-wrap "deploy eBPF Programs failed to save configs" _ save-Keeps).at
                    u).configs
                ∙ kept)))

  reports_one :
      (q : String) (t : State os)
      → report_each ((q, q) ∷ []) t ≡ (ebpf_programs q >>= λ programs. pure (programs ∷ [])) t
  unfolding report_each pure ◌>>=◌
  reports_one q t = refl

  -- After a deployment that returns no error EBPFProgramsAll reports the last interface of the payload
  -- and no other, whatever was deployed before it.
  pub deploye-reports_last :
      (s t : State os) (choices : List Choice) (p : L3afBpfPrograms) (ps : List L3afBpfPrograms)
      → deploye_bpf_programs choices (p ∷ ps) s ≡ (ok tt, t)
      → ebpf_programs_all t
        ≡ (ebpf_programs (last_iface p ps) >>= λ programs. pure (programs ∷ [])) t
  unfolding ebpf_programs_all gets pure ◌>>=◌
  deploye-reports_last s t choices p ps done =
      ap (λ m. report_each m t) (Ensures-ok _ s t tt _ (deploye-Ensures choices p ps s) done)
      ∙ reports_one (last_iface p ps) t
