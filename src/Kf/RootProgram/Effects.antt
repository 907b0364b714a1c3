-- ===== src/Kf/RootProgram/Effects.antt =====
-- What loading a root program does, whatever the system answers: one new struct.
use l3afd.Prelude.{
  ℤ, ◌≡◌, refl, sym, ap, ◌∙◌, pos, String, Option, none, some, ◌==◌, Bool-cases, inl, inr,
}
use l3afd.Models.{BpfProgram, xdp_type, tc_type}
use l3afd.Config.{Config}
use l3afd.Os.{Os}
use l3afd.Exec.{on_option, fail, pure, ◌>>=◌}
use l3afd.Kf.ElementList.{Ref}
use l3afd.Kf.State.{State}
use l3afd.Kf.Access.{alloc}
use l3afd.Kf.Lifecycle.{new_bpf_program}
use l3afd.Kf.View.{View, view, alloc_view}
use l3afd.Kf.Outcome.{Outcome, then-Outcome, alloc-Outcome, pure-Outcome}
use l3afd.Kf.Linking.Effects.{struct-view}
use l3afd.Kf.RootProgram.{root_program, root_struct, start_root, load_root_program}
use l3afd.Kf.RootProgram.Quiet.{start_root-Keeps}

-- The view as it was, or with a new struct for a root program.
abbrev pub IsLoaded : View → Ref → View → Type 0
IsLoaded v r w = (p : BpfProgram) × (p.seq_id ≡ pos 0) × (w ≡ alloc_view v p) × (r ≡ v.next_ref)

abbrev first_seq_id : Option BpfProgram → ℤ
first_seq_id none = pos 0
first_seq_id (some p) = p.seq_id

seq_id-root_program :
    (direction prog_type : String) (conf : Config)
    → first_seq_id (root_program direction prog_type conf) ≡ pos 0
unfolding root_program
seq_id-root_program direction prog_type conf = elim (Bool-cases (prog_type == xdp_type)) [
  | inl xdp ↦ rw xdp
  | inr not_xdp ↦ elim (Bool-cases (prog_type == tc_type)) [
    | inl tc ↦ rw (not_xdp, tc)
    | inr neither ↦ rw (not_xdp, neither)
  ]
]

module _ ⦃os : Os⦄ where
  load_program-Outcome :
      (s : State os) (o : Option BpfProgram) (iface direction : String) (conf : Config)
      → ((p : BpfProgram) → o ≡ some p → p.seq_id ≡ pos 0)
      → Outcome
          (on_option o (fail "unknown direction for root program") (λ program.
            alloc (root_struct program) >>= λ root.
            start_root root iface direction conf >>= λ _. pure root))
          s
          (λ r v. IsLoaded (view s) r v)
          (λ v. v.configs ≡ s.configs)
  unfolding on_option fail root_struct new_bpf_program
  load_program-Outcome s none iface direction conf first = record { at = refl }
  load_program-Outcome s (some p) iface direction conf first = alloc-Outcome s _ _ (
      then-Outcome _ _ _ (start_root-Keeps s.next_ref iface direction conf)
        (λ _ t q. pure-Outcome _ t (p, first p refl, q ∙ struct-view s (root_struct p), refl)) refl)

  pub load_root_program-Outcome :
      (s : State os) (iface direction prog_type : String) (conf : Config)
      → Outcome
          (load_root_program iface direction prog_type conf)
          s
          (λ r v. IsLoaded (view s) r v)
          (λ v. v.configs ≡ s.configs)
  unfolding load_root_program
  load_root_program-Outcome s iface direction prog_type conf =
      load_program-Outcome s (root_program direction prog_type conf) iface direction conf
        (λ p q. ap first_seq_id (sym q) ∙ seq_id-root_program direction prog_type conf)
