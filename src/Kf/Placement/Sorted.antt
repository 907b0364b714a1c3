-- ===== src/Kf/Placement/Sorted.antt =====
-- InsertAndStartBPFProgram keeps a chain in the order of its sequence IDs and linked.
use l3afd.Prelude.{
  ◌≡◌, refl, ◌∙◌, ℤ, suc, ◌<◌, false, String, Option, none, some, [], ◌∷◌, ◌==◌, nat_eq, arith,
  subst, sym,
}
use l3afd.Models.{BpfProgram, disabled}
use l3afd.Os.{Os}
use l3afd.Kf.ElementList.{Ref, Chain, prev, insert_before, push_back}
use l3afd.Kf.ElementList.Split.{nat_eq_refl}
use l3afd.Kf.ElementList.Related.{After, Related}
use l3afd.Kf.State.{Direction, State}
use l3afd.Kf.Access.{direction_of, chain_at}
use l3afd.Kf.View.{
  View, view, InOrder, Linked, AllBelow, IsWellFormed, link_behind, link_before, put_chain,
  alloc_view,
}
use l3afd.Kf.Outcome.{Outcome, Outcome-mono}
use l3afd.Kf.Placed.{position, AllBelow-suc, AllBelow-fresh}
use l3afd.Kf.Placed.Insert.{
  put-IsWellFormed, position-put, next-push, push-IsWellFormed, insert-IsWellFormed,
}
use l3afd.Kf.Placement.{insert_and_start_bpf_program}
use l3afd.Kf.Placement.Insertion.{placed, placed_chain, insert_and_start-Outcome, placed-chain}

Related-below :
    (R S : Ref → Ref → Type 0) (n : Ref) (o : Option Ref) (l : Chain)
    → ((a b : Ref) → a < n → b < n → R a b → S a b)
    → After (λ a b. a < n) o n
    → AllBelow n l
    → Related R o l
    → Related S o l
Related-below R S n o [] f h p q = tt
Related-below R S n none (x ∷ xs) f h p q = (tt, Related-below R S n (some x) xs f p.0 p.1 q.1)
Related-below R S n (some a) (x ∷ xs) f h p q =
    (f a x h p.0 q.0, Related-below R S n (some x) xs f p.0 p.1 q.1)

below-differs : (a n : Ref) → a < n → nat_eq n a ≡ false
below-differs a n h = ground arith

-- A new struct changes nothing for a chain.
pub alloc-IsWellFormed :
    (v : View) (p : BpfProgram) (l : Chain) → IsWellFormed v l → IsWellFormed (alloc_view v p) l
alloc-IsWellFormed v p l w = record {
  sorted =
      Related-below (InOrder v) (InOrder (alloc_view v p)) v.next_ref none l
        (λ a b q r h. rw (below-differs a v.next_ref q, below-differs b v.next_ref r) h) tt
        w.allocated w.sorted;
  linked =
      Related-below (Linked v) (Linked (alloc_view v p)) v.next_ref none l
        (λ a b q r h. rw (below-differs a v.next_ref q, below-differs b v.next_ref r) h) tt
        w.allocated w.linked;
  distinct = w.distinct;
  allocated = AllBelow-suc v.next_ref l w.allocated;
}

pub position-alloc :
    (v : View) (p : BpfProgram) (q : ℤ) (l : Chain)
    → AllBelow v.next_ref l
    → position (alloc_view v p) q l ≡ position v q l
position-alloc v p q [] b = refl
position-alloc v p q (x ∷ xs) b = rw (below-differs x v.next_ref b.0, position-alloc v p q xs b.1)

pub placed-IsWellFormed :
    (v : View) (p : BpfProgram) (d : Direction) (iface : String) (l : Chain) (o : Option Ref)
    → IsWellFormed v l
    → position v p.seq_id l ≡ o
    → IsWellFormed (placed v p d iface l o) (placed_chain v l o)
placed-IsWellFormed v p d iface l none w q =
    let e = suc v.next_ref in
    let n = put_chain (alloc_view (alloc_view v p) p) d iface (some (push_back l e)) in
    let w2 = alloc-IsWellFormed v p l w in
    let wn =
      put-IsWellFormed (alloc_view (alloc_view v p) p) d iface (some (push_back l e)) l
        (alloc-IsWellFormed (alloc_view v p) p l w2) in
    subst
      (λ x.
        IsWellFormed (link_before (link_behind n (prev (push_back l e) e) e) e x) (push_back l e))
      (next-push l e (AllBelow-fresh e l w2.allocated))
      (push-IsWellFormed n l e wn (AllBelow-fresh e l w2.allocated) (omega arith) (
        rw (nat_eq_refl e) (
          position-put (alloc_view (alloc_view v p) p) d iface (some (push_back l e)) p.seq_id l
          ∙ position-alloc (alloc_view v p) p p.seq_id l w2.allocated
          ∙ position-alloc v p p.seq_id l w.allocated
          ∙ q)))
placed-IsWellFormed v p d iface l (some mark) w q =
    let n = put_chain (alloc_view v p) d iface (some (insert_before l v.next_ref mark)) in
    insert-IsWellFormed n l v.next_ref mark
      (put-IsWellFormed (alloc_view v p) d iface _ l (alloc-IsWellFormed v p l w))
      (AllBelow-fresh v.next_ref l w.allocated) (omega arith)
      (rw (nat_eq_refl v.next_ref) (
        position-put (alloc_view v p) d iface (some (insert_before l v.next_ref mark)) p.seq_id l
        ∙ position-alloc v p p.seq_id l w.allocated
        ∙ q))

module _ ⦃os : Os⦄ where
  -- Inserting a program into a well-formed chain, whatever the system answers. The chain afterwards
  -- has one new element, in front of the first program whose sequence ID is not smaller, or at the
  -- end. If no error is returned, the chain is well-formed again: sorted by the sequence IDs,
  -- each program linked behind the one before it, no struct twice. This holds for a program that is
  -- not disabled and a direction that has a list.
  pub insert-keeps_order :
      (s : State os) (p : BpfProgram) (l : Chain) (d : Direction) (iface direction : String)
      → (p.admin_status == disabled) ≡ false
      → direction_of direction ≡ some d
      → chain_at s.configs d iface ≡ some l
      → IsWellFormed (view s) l
      → Outcome
          (insert_and_start_bpf_program (some p) iface direction)
          s
          (λ _ v.
            (chain_at v.configs d iface
              ≡ some (placed_chain (view s) l (position (view s) p.seq_id l)))
            × IsWellFormed v (placed_chain (view s) l (position (view s) p.seq_id l)))
          (λ v.
            chain_at v.configs d iface
            ≡ some (placed_chain (view s) l (position (view s) p.seq_id l)))
  insert-keeps_order s p l d iface direction on dir there w =
      let o = position (view s) p.seq_id l in
      Outcome-mono _ _ _ _
        (λ _ v q.
          subst
            (λ v.
              (chain_at v.configs d iface ≡ some (placed_chain (view s) l o))
              × IsWellFormed v (placed_chain (view s) l o))
            (sym q)
            (
              placed-chain (view s) p d iface l o,
              placed-IsWellFormed (view s) p d iface l o w refl,
            ))
        (λ v q. q)
        (subst
          (λ x.
            Outcome (insert_and_start_bpf_program (some p) iface direction) s
              (λ _ v. v ≡ placed (view s) p d iface l x)
              (λ v. chain_at v.configs d iface ≡ some (placed_chain (view s) l x)))
          (position-alloc (view s) p p.seq_id l w.allocated)
          (insert_and_start-Outcome s p l d iface direction on dir there))
