-- ===== src/Kf/Update/Follows.antt =====
-- VerifyNUpdateBPFProgram leaves the other programs of a chain for the next rounds.
use l3afd.Prelude.{
  ◌≡◌, refl, sym, ap, ◌∙◌, subst, true, String, Option, none, some, ◌==◌, eq_ℤ, eq_ℤ_iff, eq_iff,
  Bool-cases, inl, inr,
}
use l3afd.Models.{BpfProgram, disabled}
use l3afd.Os.{Os}
use l3afd.Exec.{on_option, wrap}
use l3afd.Kf.ElementList.{Ref, Chain, mem}
use l3afd.Kf.State.{Direction, State, Kf}
use l3afd.Kf.Access.{direction_of, chain_at}
use l3afd.Kf.View.{View, view, IsWellFormed, alloc_view}
use l3afd.Kf.About.{SameOthers}
use l3afd.Kf.About.Updating.{change_version-IsAbout, change_settings-IsAbout}
use l3afd.Kf.Outcome.{
  Post, Outcome, Outcome-mono, bind-Outcome, read-Outcome, return-Outcome, get_chain-Outcome,
  pure-Outcome, wrap-Outcome,
}
use l3afd.Exec.{Result, ok, err, panic, blocked}
use l3afd.Kf.Equality.{program_eq}
use l3afd.Kf.Placed.{position}
use l3afd.Kf.Placement.{insert_and_start_bpf_program}
use l3afd.Kf.Placement.Insertion.{placed, placed_chain, insert_and_start-Outcome, placed-chain}
use l3afd.Kf.Placement.Sorted.{placed-IsWellFormed, position-alloc}
use l3afd.Kf.Update.{update_element, verify_n_update_bpf_program}
use l3afd.Kf.Update.Same.{named}
use l3afd.Kf.Update.Names.{names-NameIsUnique, named-mem}
use l3afd.Kf.Update.Members.{
  AreDistinct, Evolves, AreDistinct-HasNames, named-name, changed-AreDistinct, changed-Evolves,
}
use l3afd.Kf.Update.Inserted.{placed-AreDistinct, placed-Evolves}
use l3afd.Kf.Update.Version.{change_version-IsKept}
use l3afd.Kf.Update.Settings.{change_settings-keeps_order}
use l3afd.Kf.Update.Whole.{stays, is_restarted, HasChain, find_program-Outcome, split_stay}

-- A running program of the same name is not disabled, and if it is restarted it keeps its sequence
-- ID and its map name.
abbrev pub Fits : View → Chain → BpfProgram → Type 0
Fits v l p =
    (a : Ref)
    → mem a l ≡ true
    → ((v.program a).name == p.name) ≡ true
    → (stays (v.program a) p ≡ true) × (((v.program a).admin_status == p.admin_status) ≡ true)

-- The entry holds a well-formed chain of programs with different names.
abbrev pub Holds : Direction → String → View → Chain → Type 0
Holds d iface v l = (chain_at v.configs d iface ≡ some l) × IsWellFormed v l × AreDistinct v l

-- What one round leaves.
abbrev pub Follows : Direction → String → String → View → Chain → View → Type 0
Follows d iface n v l v' = (l' : Chain) × Holds d iface v' l' × Evolves n v l v' l'

unchanged-Follows :
    (d : Direction) (iface n : String) (v : View) (l : Chain)
    → Holds d iface v l
    → Follows d iface n v l v
unchanged-Follows d iface n v l h = (l, h, λ a m other. (m, refl))

module _ ⦃os : Os⦄ where
  -- What holds on every outcome, besides.
  with-frame :
      {A : Type 0} {P : A → View → Type 0} {E : View → Type 0} {m : Kf A} {s : State os}
      (Q : View → Type 0)
      → Q (view (m s).1)
      → Outcome m s P E
      → Outcome m s (λ a v. P a v × Q v) E
  with-frame {P = P} {E = E} {m = m} {s = s} Q q o = record {
    at = both (m s).0 (view (m s).1) q o.at;
  }
    where
      both : (r : Result _) (v : View) → Q v → Post P E r v → Post (λ a v. P a v × Q v) E r v
      both (ok a) v q p = (p, q)
      both (err e) v q p = p
      both panic v q p = p
      both blocked v q p = p

  insert_off-Follows :
      (s : State os) (p : BpfProgram) (l : Chain) (d : Direction) (iface direction : String)
      → (p.admin_status == disabled) ≡ true
      → Holds d iface (view s) l
      → Outcome
          (insert_and_start_bpf_program (some p) iface direction)
          s
          (λ _ v. Follows d iface p.name (view s) l v)
          (HasChain d iface)
  unfolding insert_and_start_bpf_program
  insert_off-Follows s p l d iface direction off h =
      rw off (pure-Outcome tt s (unchanged-Follows d iface p.name (view s) l h))

  inserted-Follows :
      (s : State os) (p : BpfProgram) (l : Chain) (d : Direction) (iface direction : String)
      → direction_of direction ≡ some d
      → named (view s) p.name l ≡ none
      → Holds d iface (view s) l
      → Outcome
          (insert_and_start_bpf_program (some p) iface direction)
          s
          (λ _ v. Follows d iface p.name (view s) l v)
          (HasChain d iface)
  inserted-Follows s p l d iface direction dir none_named h =
      elim (Bool-cases (p.admin_status == disabled)) [
        | inl off ↦ insert_off-Follows s p l d iface direction off h
        | inr on ↦
            let o = position (alloc_view (view s) p) p.seq_id l in
            let below = h.1.allocated in
            let after : Follows d iface p.name (view s) l (placed (view s) p d iface l o) = (
              placed_chain (view s) l o,
              (
                placed-chain (view s) p d iface l o,
                placed-IsWellFormed (view s) p d iface l o h.1
                    (sym (position-alloc (view s) p p.seq_id l below)),
                placed-AreDistinct (view s) p d iface l o below none_named h.2,
              ),
              placed-Evolves (view s) p d iface l o below,
            ) in
            Outcome-mono _ _ _ _
              (λ _ v q. subst (λ v. Follows d iface p.name (view s) l v) (sym q) after)
              (λ v q. (placed_chain (view s) l o, q))
              (insert_and_start-Outcome s p l d iface direction on dir h.0)
      ]

  updated-Follows :
      (s : State os) (p : BpfProgram) (e : Ref) (l : Chain) (d : Direction)
      (iface direction : String)
      → mem e l ≡ true
      → (s.bpfs e).program.name ≡ p.name
      → stays (s.bpfs e).program p ≡ true
      → ((s.bpfs e).program.admin_status == p.admin_status) ≡ true
      → Holds d iface (view s) l
      → Outcome
          (update_element p e l d iface direction)
          s
          (λ _ v. Follows d iface p.name (view s) l v)
          (HasChain d iface)
  unfolding update_element
  updated-Follows s p e l d iface direction m name st status h =
      read-Outcome s e _ (elim (Bool-cases (program_eq (s.bpfs e).program p)) [
        | inl same ↦ rw same (pure-Outcome tt s (unchanged-Follows d iface p.name (view s) l h))
        | inr new ↦
            rw (new, status)
              (elim (Bool-cases (is_restarted (s.bpfs e).program p)) [
                | inl restarted ↦
                    let keys =
                      split_stay (is_restarted (s.bpfs e).program p)
                        (eq_ℤ p.seq_id (s.bpfs e).program.seq_id)
                        (p.map_name == (s.bpfs e).program.map_name) restarted st in
                    rw restarted (
                      Outcome-mono _ _ _ _
                        (λ _ v q. (
                          l,
                          (
                            q.0.0,
                            q.0.1,
                            changed-AreDistinct (view s) v e p.name l l name q.1 (λ x. refl) h.2,
                          ),
                          changed-Evolves (view s) v e p.name l l q.1 (λ x. refl),
                        ))
                        (λ v q. (l, q.0))
                        (with-frame (SameOthers e p.name (view s))
                          ((change_version-IsAbout e p l d iface direction).at s name)
                          (change_version-IsKept s p e l d iface direction m
                            ((eq_ℤ_iff p.seq_id (s.bpfs e).program.seq_id).0 keys.0)
                            ((eq_iff p.map_name (s.bpfs e).program.map_name).0 keys.1) h.0 h.1)))
                | inr running ↦
                    let unique =
                      names-NameIsUnique (view s) e l
                        (AreDistinct-HasNames (view s) l h.1.distinct h.2) m in
                    rw running (
                      Outcome-mono _ _ _ _
                        (λ _ v q. (
                          q.0.0,
                          (
                            q.0.1,
                            q.0.2,
                            changed-AreDistinct (view s) v e p.name l q.0.0 name q.1 q.0.3 h.2,
                          ),
                          changed-Evolves (view s) v e p.name l q.0.0 q.1 q.0.3,
                        ))
                        (λ v q. (q.0, q.1))
                        (with-frame (SameOthers e p.name (view s))
                          ((change_settings-IsAbout e p.name p d iface direction).at s name)
                          (change_settings-keeps_order s p e l d iface direction m unique h.0 h.1)))
              ])
      ])

  found-Follows :
      (t : State os) (p : BpfProgram) (o : Option Ref) (l : Chain) (d : Direction)
      (iface direction message : String)
      → direction_of direction ≡ some d
      → named (view t) p.name l ≡ o
      → Holds d iface (view t) l
      → Fits (view t) l p
      → Outcome
          (on_option o
            (wrap message (insert_and_start_bpf_program (some p) iface direction))
            (λ e. update_element p e l d iface direction))
          t
          (λ _ v. Follows d iface p.name (view t) l v)
          (HasChain d iface)
  unfolding on_option
  found-Follows t p none l d iface direction message dir found h fits =
      wrap-Outcome _ _ t (inserted-Follows t p l d iface direction dir found h)
  found-Follows t p (some e) l d iface direction message dir found h fits =
      let m = named-mem (view t) p.name l e found in
      let n = named-name (view t) p.name l e found in
      let f = fits e m n in
      updated-Follows t p e l d iface direction m ((eq_iff (t.bpfs e).program.name p.name).0 n) f.0
        f.1 h

  pub verified-Follows :
      (s : State os) (p : BpfProgram) (l : Chain) (d : Direction) (iface direction : String)
      → direction_of direction ≡ some d
      → Holds d iface (view s) l
      → Fits (view s) l p
      → Outcome
          (verify_n_update_bpf_program (some p) iface direction)
          s
          (λ _ v. Follows d iface p.name (view s) l v)
          (HasChain d iface)
  unfolding verify_n_update_bpf_program
  verified-Follows s p l d iface direction dir h fits = rw dir (
      return-Outcome s d _ (
        get_chain-Outcome s d iface _ (
          rw h.0 (
            return-Outcome s l _ (
              bind-Outcome _ _ _ _ s (find_program-Outcome _ s p.name l)
                (λ o t q.
                  subst
                    (λ x.
                      Outcome
                        (on_option o
                          (wrap "failed to insert and start BPFProgram to new location BPF"
                            (insert_and_start_bpf_program (some p) iface direction))
                          (λ e. update_element p e l d iface direction))
                        t (λ _ v. Follows d iface p.name x l v) (HasChain d iface))
                    q.1
                    (found-Follows t p o l d iface direction _ dir
                      (ap (λ x. named x p.name l) q.1 ∙ sym q.0)
                      (subst (λ x. Holds d iface x l) (sym q.1) h)
                      (subst (λ x. Fits x l p) (sym q.1) fits)))
                (λ v h. h))))))
