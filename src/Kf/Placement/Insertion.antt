-- ===== src/Kf/Placement/Insertion.antt =====
-- What InsertAndStartBPFProgram does to its chain.
use l3afd.Prelude.{
  ◌≡◌, refl, ap, ◌∙◌, ℤ, suc, false, String, Option, none, some, [], ◌∷◌, leb_ℤ, ◌==◌, Bool-cases,
  inl, inr, subst,
}
use l3afd.Models.{BpfProgram, disabled}
use l3afd.Os.{Os}
use l3afd.Kf.ElementList.{Ref, Chain, next, prev, insert_before, push_back}
use l3afd.Kf.State.{Direction, State}
use l3afd.Kf.Access.{direction_of, chain_at}
use l3afd.Kf.View.{View, view, link_behind, link_before, put_chain, alloc_view}
use l3afd.Kf.Outcome.{
  Outcome-mono, read-Outcome, Outcome, bind-Outcome, wrap-Outcome, return-Outcome,
  get_chain-Outcome, set_chain-Outcome, pure-Outcome,
}
use l3afd.Kf.Placed.{position}
use l3afd.Kf.Linking.Effects.{
  pushed, chain-put, link_bpf_programs-Outcome, download_and_start-Outcome, alloc_program-Outcome,
  push_back-Outcome,
}
use l3afd.Kf.Placement.{
  find_position, link_next, insert_at, insert_into, insert_and_start_bpf_program,
}

-- The view after the new program's links are made, and the one an error may leave.
abbrev pub started_at : View → BpfProgram → Direction → String → Chain → View
started_at v p d iface l =
    link_behind (put_chain (alloc_view v p) d iface (some l)) (prev l v.next_ref) v.next_ref

abbrev pub placed : View → BpfProgram → Direction → String → Chain → Option Ref → View
placed v p d iface l none = pushed (alloc_view v p) p d iface l
placed v p d iface l (some mark) =
    let k = insert_before l v.next_ref mark in
    link_before (started_at v p d iface k) v.next_ref (next k v.next_ref)

-- The chain afterwards.
abbrev pub placed_chain : View → Chain → Option Ref → Chain
placed_chain v l none = push_back l (suc v.next_ref)
placed_chain v l (some mark) = insert_before l v.next_ref mark

module _ ⦃os : Os⦄ where
  pub find_position-Outcome :
      (E : View → Type 0) (s : State os) (q : ℤ) (l : Chain)
      → Outcome (find_position q l) s (λ r v. (r ≡ position (view s) q l) × (v ≡ view s)) E
  unfolding find_position
  find_position-Outcome E s q [] = pure-Outcome none s (refl, refl)
  find_position-Outcome E s q (e ∷ es) =
      read-Outcome s e _ (elim (Bool-cases (leb_ℤ q (s.bpfs e).program.seq_id)) [
        | inl here ↦ rw here (pure-Outcome (some e) s (refl, refl))
        | inr other ↦ rw other (find_position-Outcome E s q es)
      ])

  -- An error of the map leaves the link made.
  pub link_next-Outcome :
      (s : State os) (e : Ref) (o : Option Ref) (message : String)
      → Outcome
          (link_next e o message)
          s
          (λ _ v. v ≡ link_before (view s) e o)
          (λ v. v ≡ link_before (view s) e o)
  unfolding link_next
  link_next-Outcome s e none message = pure-Outcome tt s refl
  link_next-Outcome s e (some after) message =
      wrap-Outcome _ _ s (link_bpf_programs-Outcome s e after)

  pub before-configs :
      (v : View) (e : Ref) (o : Option Ref) → (link_before v e o).configs ≡ v.configs
  before-configs v e none = refl
  before-configs v e (some n) = refl

  pub behind-configs :
      (v : View) (e : Ref) (o : Option Ref) → (link_behind v o e).configs ≡ v.configs
  behind-configs v e none = refl
  behind-configs v e (some n) = refl

  started-chain :
      (v : View) (d : Direction) (iface : String) (k : Chain) (o : Option Ref) (e : Ref)
      → chain_at (link_behind (put_chain v d iface (some k)) o e).configs d iface ≡ some k
  started-chain v d iface k o e =
      ap (λ c. chain_at c d iface) (behind-configs (put_chain v d iface (some k)) e o)
      ∙ chain-put v.configs d iface (some k)

  linked-chain :
      (v : View) (d : Direction) (iface : String) (k : Chain) (o : Option Ref) (e : Ref)
      (n : Option Ref)
      → chain_at (link_before (link_behind (put_chain v d iface (some k)) o e) e n).configs d iface
        ≡ some k
  linked-chain v d iface k o e n =
      ap (λ c. chain_at c d iface)
        (before-configs (link_behind (put_chain v d iface (some k)) o e) e n)
      ∙ started-chain v d iface k o e

  insert_at-Outcome :
      (s t : State os) (p : BpfProgram) (l : Chain) (o : Option Ref) (d : Direction)
      (iface direction : String)
      → direction_of direction ≡ some d
      → chain_at s.configs d iface ≡ some l
      → view t ≡ alloc_view (view s) p
      → Outcome
          (insert_at p s.next_ref o l d iface direction)
          t
          (λ _ v. v ≡ placed (view s) p d iface l o)
          (λ v. chain_at v.configs d iface ≡ some (placed_chain (view s) l o))
  unfolding insert_at
  insert_at-Outcome s t p l none d iface direction dir there same =
      Outcome-mono _ _ _ _ (λ _ v q. q ∙ pushed_from same)
        (λ v q.
          ap (λ v. chain_at v.configs d iface) (q ∙ pushed_from same)
          ∙ started-chain _ d iface (push_back l (suc s.next_ref)) _ (suc s.next_ref))
        (wrap-Outcome _ _ t (
          push_back-Outcome t p d iface direction l dir
            (ap (λ v. chain_at v.configs d iface) same ∙ there)))
    where
      pushed_from : {v w : View} → v ≡ w → pushed v p d iface l ≡ pushed w p d iface l
      pushed_from q = ap (λ v. pushed v p d iface l) q
  insert_at-Outcome s t p l (some mark) d iface direction dir there same =
      set_chain-Outcome t d iface _ _ (
        bind-Outcome _ _ _ _ _
          (wrap-Outcome _ _ _ (
            download_and_start-Outcome _ s.next_ref d iface direction k
              (chain-put t.configs d iface (some k))))
          (λ _ u q.
            Outcome-mono _ _ _ _
              (λ _ v r.
                r ∙ ap (λ v. link_before v s.next_ref (next k s.next_ref)) (q ∙ started_from same))
              (λ v r.
                ap (λ v. chain_at v.configs d iface)
                  (r ∙ ap (λ v. link_before v s.next_ref (next k s.next_ref)) q)
                ∙ linked-chain (view t) d iface k _ s.next_ref (next k s.next_ref))
              (link_next-Outcome u s.next_ref (next k s.next_ref) _))
          (λ v q.
            ap (λ v. chain_at v.configs d iface) q ∙ started-chain (view t) d iface k _ s.next_ref))
    where
      k : Chain
      k = insert_before l s.next_ref mark

      started_from :
          {v w : View}
          → v ≡ w
          → link_behind (put_chain v d iface (some k)) (prev k s.next_ref) s.next_ref
            ≡ link_behind (put_chain w d iface (some k)) (prev k s.next_ref) s.next_ref
      started_from q =
          ap (λ v. link_behind (put_chain v d iface (some k)) (prev k s.next_ref) s.next_ref) q

  insert_into-Outcome :
      (s t : State os) (p : BpfProgram) (l : Chain) (d : Direction) (iface direction : String)
      → direction_of direction ≡ some d
      → chain_at s.configs d iface ≡ some l
      → view t ≡ alloc_view (view s) p
      → Outcome
          (insert_into p s.next_ref d iface direction (some l))
          t
          (λ _ v. v ≡ placed (view s) p d iface l (position (alloc_view (view s) p) p.seq_id l))
          (λ v.
            chain_at v.configs d iface
            ≡ some (placed_chain (view s) l (position (alloc_view (view s) p) p.seq_id l)))
  unfolding insert_into
  insert_into-Outcome s t p l d iface direction dir there same =
      bind-Outcome _ _ _ _ _ (find_position-Outcome _ t p.seq_id l)
        (λ o u q.
          let found : o ≡ position (alloc_view (view s) p) p.seq_id l =
            q.0 ∙ ap (λ v. position v p.seq_id l) same in
          subst
            (λ x.
              Outcome (insert_at p s.next_ref o l d iface direction) u
                (λ _ v. v ≡ placed (view s) p d iface l x)
                (λ v. chain_at v.configs d iface ≡ some (placed_chain (view s) l x)))
            found (insert_at-Outcome s u p l o d iface direction dir there (q.1 ∙ same)))
        (λ v e. e)

  -- The whole operation, for a program that is not disabled.
  pub insert_and_start-Outcome :
      (s : State os) (p : BpfProgram) (l : Chain) (d : Direction) (iface direction : String)
      → (p.admin_status == disabled) ≡ false
      → direction_of direction ≡ some d
      → chain_at s.configs d iface ≡ some l
      → Outcome
          (insert_and_start_bpf_program (some p) iface direction)
          s
          (λ _ v. v ≡ placed (view s) p d iface l (position (alloc_view (view s) p) p.seq_id l))
          (λ v.
            chain_at v.configs d iface
            ≡ some (placed_chain (view s) l (position (alloc_view (view s) p) p.seq_id l)))
  unfolding insert_and_start_bpf_program
  insert_and_start-Outcome s p l d iface direction on dir there = rw on (
      bind-Outcome _ _ _ _ _ (alloc_program-Outcome _ s p)
        (λ r t q. rw dir (
          return-Outcome t d _ (
            get_chain-Outcome t d iface _ (
              rw (ap (λ v. chain_at v.configs d iface) q.1, there, q.0)
                (insert_into-Outcome s t p l d iface direction dir there q.1)))))
        (λ v e. e))

  pub placed-chain :
      (v : View) (p : BpfProgram) (d : Direction) (iface : String) (l : Chain) (o : Option Ref)
      → chain_at (placed v p d iface l o).configs d iface ≡ some (placed_chain v l o)
  placed-chain v p d iface l none =
      started-chain (alloc_view (alloc_view v p) p) d iface (push_back l (suc v.next_ref)) _
        (suc v.next_ref)
  placed-chain v p d iface l (some mark) =
      linked-chain (alloc_view v p) d iface (insert_before l v.next_ref mark) _ v.next_ref _
