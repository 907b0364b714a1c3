-- ===== src/Kf/Placement/Moving.antt =====
-- What MoveToLocation does to its chain, whatever the system answers.
mod Steps
use l3afd.Prelude.{
  ◌≡◌, refl, ap, ◌∙◌, sym, subst, true, false, ◌&&◌, not, String, Option, none, some, [], ◌∷◌,
  leb_ℤ, ◌==◌, nat_eq, Bool-cases, ◌⊎◌, inl, inr,
}
use l3afd.Os.{Os}
use l3afd.Exec.{deref, ◌>>◌, on_option, wrap, pure, ◌>>=◌}
use l3afd.Kf.ElementList.{
  Ref, Chain, mem, next, prev, remove, insert_before, push_back, move_before, move_to_back,
}
use l3afd.Kf.ElementList.Split.{Distinct}
use l3afd.Kf.ElementList.Related.{Related}
use l3afd.Kf.State.{Direction, State}
use l3afd.Kf.Access.{chain_at}
use l3afd.Kf.Quiet.{quiet_rules}
use l3afd.Kf.View.{
  View, view, InOrder, Linked, AllBelow, IsWellFormed, link_behind, link_before, put_chain,
}
use l3afd.Kf.Outcome.{
  Outcome, Outcome-mono, quiet-Outcome, read-Outcome, bind-Outcome, wrap-Outcome, return-Outcome,
  get_chain-Outcome, set_chain-Outcome, pure-Outcome, panics-Outcome,
}
use l3afd.Kf.PinnedMaps.Quiet.{remove_next_prog_fd-Keeps}
use l3afd.Kf.Placed.Insert.{next-push}
use l3afd.Kf.Placed.Remove.{mem-remove}
use l3afd.Kf.Placed.Move.{
  mark_of, mark_of-differs, NameIsUnique, closed, moved, moved_chain, moved-IsWellFormed,
}
use l3afd.Kf.Linking.{link_bpf_programs}
use l3afd.Kf.Linking.Effects.{chain-put, link_bpf_programs-Outcome}
use l3afd.Kf.Placement.{
  find_move_mark, close_gap, open_gap, link_next, link_prev, move_in_front, move_behind,
  move_to_location,
}
use l3afd.Kf.Placement.Insertion.{before-configs, behind-configs, link_next-Outcome}
pub use Steps.{MovedOrNot}
use l3afd.Kf.Placement.Moving.Steps.{
  find_move_mark-Outcome, move_in_front-Outcome, move_behind-Outcome,
}

module _ ⦃os : Os⦄ where
  place_moved-Outcome :
      (s : State os) (e : Ref) (l : Chain) (d : Direction) (iface : String) (o : Option Ref)
      → mark_of (view s) e l ≡ o
      → NameIsUnique (view s) e l
      → Distinct l
      → mem e l ≡ true
      → chain_at s.configs d iface ≡ some l
      → Outcome
          (on_option o (move_behind e l d iface) (λ mark. move_in_front e mark l d iface))
          s
          (λ _ v. v ≡ moved (view s) d iface l e o)
          (MovedOrNot d iface l (moved_chain l e o))
  unfolding on_option
  place_moved-Outcome s e l d iface none q u distinct m there =
      move_behind-Outcome s e l d iface distinct m there
  place_moved-Outcome s e l d iface (some mark) q u distinct m there =
      move_in_front-Outcome s e mark l d iface (mark_of-differs (view s) e mark l u q) m there

  moved-chain :
      (v : View) (e : Ref) (l : Chain) (d : Direction) (iface : String) (o : Option Ref)
      → chain_at (moved v d iface l e o).configs d iface ≡ some (moved_chain l e o)
  moved-chain v e l d iface o =
      let k = moved_chain l e o in
      let w = put_chain (closed v (prev l e) (next l e)) d iface (some k) in
      ap (λ c. chain_at c d iface)
        (before-configs (link_behind w (prev k e) e) e (next k e) ∙ behind-configs w e (prev k e))
      ∙ chain-put (closed v (prev l e) (next l e)).configs d iface (some k)

  -- Moving an element of a chain to the place of its sequence ID, whatever the system answers. The
  -- chain is as before, or the element stands in front of the first other program whose sequence ID
  -- is not smaller, or at the end. If no error is returned it does, and the chain is well-formed:
  -- provided that the others were in order, that all were linked, no struct stood twice and no
  -- other program has the element's name.
  pub move-keeps_order :
      (s : State os) (e : Ref) (l : Chain) (d : Direction) (iface : String)
      → mem e l ≡ true
      → NameIsUnique (view s) e l
      → chain_at s.configs d iface ≡ some l
      → Related (InOrder (view s)) none (remove l e)
      → Related (Linked (view s)) none l
      → Distinct l
      → AllBelow s.next_ref l
      → Outcome
          (move_to_location e d iface)
          s
          (λ _ v.
            (chain_at v.configs d iface ≡ some (moved_chain l e (mark_of (view s) e l)))
            × IsWellFormed v (moved_chain l e (mark_of (view s) e l)))
          (MovedOrNot d iface l (moved_chain l e (mark_of (view s) e l)))
  unfolding move_to_location on_option
  move-keeps_order s e l d iface m u there sorted linked distinct allocated =
      get_chain-Outcome s d iface _ (
        rw there (
          bind-Outcome _ _ _ _ s (find_move_mark-Outcome _ s e l)
            (λ o t q.
              let same : moved (view t) d iface l e o
                  ≡ moved (view s) d iface l e (mark_of (view s) e l) =
                λ i. moved (q.1 i) d iface l e (q.0 i) in
              Outcome-mono _ _ _ _
                (λ _ v r.
                  subst (λ v. (chain_at v.configs d iface ≡ some k) × IsWellFormed v k)
                    (sym (r ∙ same))
                    (
                      moved-chain (view s) e l d iface (mark_of (view s) e l),
                      moved-IsWellFormed (view s) d iface l e m u sorted linked distinct allocated,
                    ))
                (λ v. subst (λ o. MovedOrNot d iface l (moved_chain l e o) v) q.0)
                (place_moved-Outcome t e l d iface o (ap (λ v. mark_of v e l) q.1 ∙ sym q.0)
                  (subst (λ v. NameIsUnique v e l) (sym q.1) u) distinct m
                  (ap (λ v. chain_at v.configs d iface) q.1 ∙ there)))
            (λ v h. h)))
    where
      k : Chain
      k = moved_chain l e (mark_of (view s) e l)
