-- ===== src/Kf/Placement/Moving/Steps.antt =====
-- What the steps of MoveToLocation do to the view, whatever the system answers.
use l3afd.Prelude.{
  ◌≡◌, refl, ap, ◌∙◌, sym, true, false, ◌&&◌, not, String, Option, none, some, [], ◌∷◌, leb_ℤ, ◌==◌,
  nat_eq, Bool-cases, ◌⊎◌, inl, inr,
}
use l3afd.Os.{Os}
use l3afd.Exec.{deref, ◌>>◌, on_option, wrap, pure, ◌>>=◌}
use l3afd.Kf.ElementList.{
  Ref, Chain, mem, next, prev, remove, insert_before, push_back, move_before, move_to_back,
}
use l3afd.Kf.ElementList.Split.{Distinct}
use l3afd.Kf.State.{Direction, State}
use l3afd.Kf.Access.{chain_at}
use l3afd.Kf.Quiet.{quiet_rules}
use l3afd.Kf.View.{View, view, link_behind, link_before, put_chain}
use l3afd.Kf.Outcome.{
  Outcome, Outcome-mono, quiet-Outcome, read-Outcome, bind-Outcome, wrap-Outcome, return-Outcome,
  set_chain-Outcome, pure-Outcome, panics-Outcome,
}
use l3afd.Kf.PinnedMaps.Quiet.{remove_next_prog_fd-Keeps}
use l3afd.Kf.Placed.Insert.{next-push}
use l3afd.Kf.Placed.Remove.{mem-remove}
use l3afd.Kf.Placed.Move.{mark_of, closed, moved, moved_chain}
use l3afd.Kf.Linking.{link_bpf_programs}
use l3afd.Kf.Linking.Effects.{chain-put, link_bpf_programs-Outcome}
use l3afd.Kf.Placement.{
  find_move_mark, close_gap, open_gap, link_next, link_prev, move_in_front, move_behind,
}
use l3afd.Kf.Placement.Insertion.{before-configs, behind-configs, link_next-Outcome}

module _ ⦃os : Os⦄ where
  pub find_move_mark-Outcome :
      (E : View → Type 0) (s : State os) (e : Ref) (l : Chain)
      → Outcome (find_move_mark e l) s (λ r v. (r ≡ mark_of (view s) e l) × (v ≡ view s)) E
  unfolding find_move_mark
  find_move_mark-Outcome E s e [] = pure-Outcome none s (refl, refl)
  find_move_mark-Outcome E s e (x ∷ xs) = read-Outcome s x _ (
      read-Outcome s e _
        (elim (Bool-cases (
          leb_ℤ (s.bpfs e).program.seq_id (s.bpfs x).program.seq_id
          && not ((s.bpfs x).program.name == (s.bpfs e).program.name))) [
            | inl here ↦ rw here (pure-Outcome (some x) s (refl, refl))
            | inr other ↦ rw other (find_move_mark-Outcome E s e xs)
          ]))

  close_gap-Outcome :
      (s : State os) (o n : Option Ref) (message : String)
      → Outcome
          (close_gap o n message)
          s
          (λ _ v. v ≡ closed (view s) o n)
          (λ v. v ≡ closed (view s) o n)
  unfolding close_gap
  close_gap-Outcome s none n message = pure-Outcome tt s refl
  close_gap-Outcome s (some b) none message = pure-Outcome tt s refl
  close_gap-Outcome s (some b) (some a) message =
      wrap-Outcome _ _ s (link_bpf_programs-Outcome s b a)

  open_gap-Outcome :
      (s : State os) (o n : Option Ref)
      → Outcome (open_gap o n) s (λ _ v. v ≡ closed (view s) o n) (λ v. v ≡ closed (view s) o n)
  unfolding open_gap
  open_gap-Outcome s (some b) none =
      quiet-Outcome _ s (search (quiet_rules, remove_next_prog_fd-Keeps)) (λ _. refl) refl
  open_gap-Outcome s none n =
      close_gap-Outcome s none n "MoveToLocation - failed LinkBPFPrograms before move"
  open_gap-Outcome s (some b) (some a) =
      close_gap-Outcome s (some b) (some a) "MoveToLocation - failed LinkBPFPrograms before move"

  link_prev-Outcome :
      (s : State os) (o : Option Ref) (e : Ref) (message : String)
      → Outcome
          (link_prev o e message)
          s
          (λ _ v. v ≡ link_behind (view s) o e)
          (λ v. v ≡ link_behind (view s) o e)
  unfolding link_prev
  link_prev-Outcome s none e message = pure-Outcome tt s refl
  link_prev-Outcome s (some b) e message = wrap-Outcome _ _ s (link_bpf_programs-Outcome s b e)

  -- The links of the moved element. A missing predecessor panics.
  link_both-Outcome :
      (s : State os) (o : Option Ref) (e : Ref) (n : Option Ref) (m1 m2 : String)
      → Outcome
          (deref o >>= λ before. wrap m1 (link_bpf_programs before e) >> link_next e n m2)
          s
          (λ _ v. v ≡ link_before (link_behind (view s) o e) e n)
          (λ v. v.configs ≡ s.configs)
  link_both-Outcome s none e n m1 m2 =
      bind-Outcome (λ _ _. ⊥) _ _ _ s (panics-Outcome s refl) (λ _ _ q. absurd q) (λ v q. q)
  link_both-Outcome s (some b) e n m1 m2 = return-Outcome s b _ (
      bind-Outcome _ _ _ _ s (wrap-Outcome _ _ s (link_bpf_programs-Outcome s b e))
        (λ _ t q.
          Outcome-mono _ _ _ _ (λ _ v r. r ∙ ap (λ v. link_before v e n) q)
            (λ v r. ap (λ v. v.configs) (r ∙ ap (λ v. link_before v e n) q) ∙ before-configs _ e n)
            (link_next-Outcome t e n m2))
        (λ v q. ap (λ v. v.configs) q))

  -- The chain is the old one or the new one.
  abbrev pub MovedOrNot : Direction → String → Chain → Chain → View → Type 0
  MovedOrNot d iface l k v =
      (chain_at v.configs d iface ≡ some l) ⊎ (chain_at v.configs d iface ≡ some k)

  closed-configs : (v : View) (o n : Option Ref) → (closed v o n).configs ≡ v.configs
  closed-configs v none n = refl
  closed-configs v (some b) none = refl
  closed-configs v (some b) (some a) = refl

  pub move_in_front-Outcome :
      (s : State os) (e mark : Ref) (l : Chain) (d : Direction) (iface : String)
      → nat_eq e mark ≡ false
      → mem e l ≡ true
      → chain_at s.configs d iface ≡ some l
      → Outcome
          (move_in_front e mark l d iface)
          s
          (λ _ v. v ≡ moved (view s) d iface l e (some mark))
          (MovedOrNot d iface l (moved_chain l e (some mark)))
  unfolding move_in_front move_before
  move_in_front-Outcome s e mark l d iface differs m there =
      rw (differs, m)
        (bind-Outcome _ _ _ _ s (open_gap-Outcome s (prev l e) (next l e))
          (λ _ t q. set_chain-Outcome t d iface _ _ (
            Outcome-mono _ _ _ _
              (λ _ v r.
                r
                ∙ ap
                    (λ w.
                      link_before (link_behind (put_chain w d iface (some k)) (prev k e) e) e
                        (next k e))
                    q)
              (λ v c. inr (ap (λ c. chain_at c d iface) c ∙ chain-put t.configs d iface (some k)))
              (link_both-Outcome _ (prev k e) e (next k e) _ _)))
          (λ v q. inl (
            ap (λ v. chain_at v.configs d iface) q
            ∙ ap (λ c. chain_at c d iface) (closed-configs (view s) (prev l e) (next l e))
            ∙ there)))
    where
      k : Chain
      k = insert_before (remove l e) e mark

  -- The last element has no next program to hand a packet to.
  clear_next-Outcome :
      (s : State os) (e : Ref) (n : Option Ref)
      → Outcome
          (on_option n
            (wrap "failed to remove MoveToBack program fd in map"
              (l3afd.Kf.PinnedMaps.remove_next_prog_fd e))
            (λ after. pure tt))
          s
          (λ _ v. v ≡ view s)
          (λ v. v ≡ view s)
  clear_next-Outcome s e n =
      quiet-Outcome _ s (search (quiet_rules, remove_next_prog_fd-Keeps)) (λ _. refl) refl

  pub move_behind-Outcome :
      (s : State os) (e : Ref) (l : Chain) (d : Direction) (iface : String)
      → Distinct l
      → mem e l ≡ true
      → chain_at s.configs d iface ≡ some l
      → Outcome
          (move_behind e l d iface)
          s
          (λ _ v. v ≡ moved (view s) d iface l e none)
          (MovedOrNot d iface l (moved_chain l e none))
  unfolding move_behind move_to_back
  move_behind-Outcome s e l d iface distinct m there = rw m (
      bind-Outcome _ _ _ _ s (close_gap-Outcome s (prev l e) (next l e) _)
        (λ _ t q. set_chain-Outcome t d iface _ _ (
          bind-Outcome _ _ _ _ _ (link_prev-Outcome _ (prev k e) e _)
            (λ _ u r.
              Outcome-mono _ _ _ _ (λ _ v h. h ∙ r ∙ linked q)
                (λ v h. inr (ap (λ v. chain_at v.configs d iface) (h ∙ r) ∙ here t))
                (clear_next-Outcome u e (next k e)))
            (λ v r. inr (ap (λ v. chain_at v.configs d iface) r ∙ here t))))
        (λ v q. inl (
          ap (λ v. chain_at v.configs d iface) q
          ∙ ap (λ c. chain_at c d iface) (closed-configs (view s) (prev l e) (next l e))
          ∙ there)))
    where
      k : Chain
      k = push_back (remove l e) e

      here :
          (t : State os)
          → chain_at
              (link_behind (put_chain (view t) d iface (some k)) (prev k e) e).configs
              d
              iface
            ≡ some k
      here t =
          ap (λ c. chain_at c d iface)
            (behind-configs (put_chain (view t) d iface (some k)) e (prev k e))
          ∙ chain-put t.configs d iface (some k)

      linked :
          {v : View}
          → v ≡ closed (view s) (prev l e) (next l e)
          → link_behind (put_chain v d iface (some k)) (prev k e) e
            ≡ moved (view s) d iface l e none
      linked q =
          ap (λ w. link_behind (put_chain w d iface (some k)) (prev k e) e) q
          ∙ ap
              (λ o.
                link_before
                  (link_behind (put_chain (closed (view s) (prev l e) (next l e)) d iface (some k))
                    (prev k e) e)
                  e o)
              (sym (next-push (remove l e) e (mem-remove l e distinct)))
