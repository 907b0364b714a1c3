-- ===== src/Kf/Update/Order.antt =====
-- A new sequence ID for a running program.
use l3afd.Prelude.{
  ◌≡◌, refl, sym, ◌∙◌, subst, true, false, String, Option, none, some, [], ◌∷◌, nat_eq, nat_eq_iff,
  eq_ℤ, ◌==◌, arith, Bool-cases, inl, inr,
}
use l3afd.Models.{BpfProgram}
use l3afd.Os.{Os}
use l3afd.Kf.ElementList.{Ref, Chain, mem, remove}
use l3afd.Kf.ElementList.Related.{After, Related, Related-mono}
use l3afd.Kf.State.{Bpf, Direction, State}
use l3afd.Kf.Access.{chain_at, write_bpf}
use l3afd.Kf.View.{View, view, InOrder, Linked, IsWellFormed}
use l3afd.Kf.Outcome.{
  Outcome, Outcome-mono, read-Outcome, write-Outcome, pure-Outcome, wrap-Outcome,
}
use l3afd.Kf.Placed.Move.{NameIsUnique, mark_of, moved_chain, mem-moved_chain}
use l3afd.Kf.Placed.Remove.{mem-remove, sorted-without}
use l3afd.Kf.Linking.Effects.{field-kept}
use l3afd.Kf.Placement.Moving.{move-keeps_order}
use l3afd.Kf.Update.{change_seq_id}

-- The same structs in the same or another order.
abbrev pub SameMembers : Chain → Chain → Type 0
SameMembers k l = (x : Ref) → mem x k ≡ mem x l

-- Neighbours stay related if the relation changes at one struct only, which is not in the list.
Related-avoid :
    (R S : Ref → Ref → Type 0) (e : Ref) (o : Option Ref) (l : Chain)
    → ((a b : Ref) → nat_eq e a ≡ false → nat_eq e b ≡ false → R a b → S a b)
    → After (λ a b. nat_eq e a ≡ false) o e
    → mem e l ≡ false
    → Related R o l
    → Related S o l
unfolding mem
Related-avoid R S e o [] f h m r = tt
Related-avoid R S e none (x ∷ xs) f h m r = (
  tt,
  Related-avoid R S e (some x) xs f (ground (arith, nat_eq_iff x e, nat_eq_iff e x)) (ground arith)
      r.1,
)
Related-avoid R S e (some a) (x ∷ xs) f h m r =
    let differs : nat_eq e x ≡ false = ground (arith, nat_eq_iff x e, nat_eq_iff e x) in
    (f a x h differs r.0, Related-avoid R S e (some x) xs f differs (ground arith) r.1)

pub NameIsUnique-same :
    (v w : View) (e : Ref) (l : Chain)
    → ((q : Ref) → (w.program q).name ≡ (v.program q).name)
    → NameIsUnique v e l
    → NameIsUnique w e l
NameIsUnique-same v w e [] f u = tt
NameIsUnique-same v w e (x ∷ xs) f u = (
  subst (λ n. (n == (w.program e).name) ≡ nat_eq x e) (sym (f x))
      (subst (λ n. ((v.program x).name == n) ≡ nat_eq x e) (sym (f e)) u.0),
  NameIsUnique-same v w e xs f u.1,
)

module _ ⦃os : Os⦄ where
  -- The state after the new sequence ID is stored.
  abbrev renumbered_struct : State os → BpfProgram → Ref → Bpf
  renumbered_struct s p e =
      let bpf = s.bpfs e in record bpf { program = record (bpf.program) { seq_id = p.seq_id } }

  abbrev renumbered : State os → BpfProgram → Ref → State os
  renumbered s p e = record s { bpfs = write_bpf s.bpfs e (renumbered_struct s p e) }

  renumbered-sorted :
      (s : State os) (p : BpfProgram) (e : Ref) (k : Chain)
      → mem e k ≡ false
      → Related (InOrder (view s)) none k
      → Related (InOrder (view (renumbered s p e))) none k
  renumbered-sorted s p e k m r =
      Related-avoid (InOrder (view s)) (InOrder (view (renumbered s p e))) e none k
        (λ a b q h o. rw (q, h) o) tt m r

  renumbered-Linked :
      (s : State os) (p : BpfProgram) (e : Ref) (l : Chain)
      → Related (Linked (view s)) none l
      → Related (Linked (view (renumbered s p e))) none l
  renumbered-Linked s p e l r =
      Related-mono (Linked (view s)) (Linked (view (renumbered s p e))) none l
        (λ a b m o.
          field-kept (λ c. c.prev_map_name) s.bpfs e b (renumbered_struct s p e) refl
          ∙ o
          ∙ sym (field-kept (λ c. c.program.map_name) s.bpfs e a (renumbered_struct s p e) refl))
        r

  pub change_seq_id-keeps_order :
      (s : State os) (p : BpfProgram) (e : Ref) (l : Chain) (d : Direction) (iface : String)
      → mem e l ≡ true
      → NameIsUnique (view s) e l
      → chain_at s.configs d iface ≡ some l
      → IsWellFormed (view s) l
      → Outcome
          (change_seq_id p e d iface)
          s
          (λ _ v.
            (k : Chain) × (chain_at v.configs d iface ≡ some k)
            × IsWellFormed v k
            × SameMembers k l)
          (λ v. (k : Chain) × (chain_at v.configs d iface ≡ some k) × SameMembers k l)
  unfolding change_seq_id
  change_seq_id-keeps_order s p e l d iface m u there w =
      read-Outcome s e _ (elim (Bool-cases (eq_ℤ (s.bpfs e).program.seq_id p.seq_id)) [
        | inl same ↦ rw same (pure-Outcome tt s (l, there, w, λ x. refl))
        | inr other ↦ rw other (
            write-Outcome s e _ _ (
              wrap-Outcome _ _ _ (
                Outcome-mono _ _ _ _ (λ _ v q. (k, q.0, q.1, members))
                  (λ v q. elim q [ inl old ↦ (l, old, λ x. refl) | inr new ↦ (k, new, members) ])
                  (move-keeps_order t e l d iface m unique there
                    (renumbered-sorted s p e (remove l e) (mem-remove l e w.distinct)
                      (sorted-without (view s) l e m w.sorted))
                    (renumbered-Linked s p e l w.linked) w.distinct w.allocated))))
      ])
    where
      t : State os
      t = renumbered s p e

      unique : NameIsUnique (view t) e l
      unique =
          NameIsUnique-same (view s) (view t) e l
            (λ q. field-kept (λ c. c.program.name) s.bpfs e q (renumbered_struct s p e) refl) u

      k : Chain
      k = moved_chain l e (mark_of (view t) e l)

      members : SameMembers k l
      members x = mem-moved_chain (view t) l e x m unique w.distinct
