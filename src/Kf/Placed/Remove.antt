-- ===== src/Kf/Placed/Remove.antt =====
-- Taking a program out of a chain keeps it well-formed, seen from above.
use l3afd.Prelude.{
  ◌≡◌, refl, sym, ap, ◌∙◌, subst, ≤ℤ_trans, true, false, Option, none, some, [], ◌∷◌, ◌++◌, nat_eq,
  nat_eq_iff, arith, Bool-cases, inl, inr,
}
use l3afd.Kf.ElementList.{Ref, Chain, mem, next, prev, remove, front}
use l3afd.Kf.ElementList.Split.{
  last_or, Distinct, Distinct-split, split_at, prev-split, next-split, remove-split,
}
use l3afd.Kf.ElementList.Related.{
  Related, Related-append, Related-parts, Related-mono, Related-skip,
}
use l3afd.Kf.View.{View, InOrder, Linked, AllBelow, IsWellFormed, link_behind}
use l3afd.Kf.Placed.{
  joined-Linked, joined-before, joined, member_apart, AllBelow-append, AllBelow-parts,
}

-- The element after a gap is linked behind the one before it.
abbrev pub rejoined : View → Chain → Option Ref → View
rejoined v rest none = v
rejoined v rest (some after) = link_behind v (prev rest after) after

-- Linking one element behind its predecessor leaves the rest of a list linked.
behind-Linked :
    (v : View) (l1 l2 : Chain) (n : Ref)
    → Distinct (l1 ++ n ∷ l2)
    → Related (Linked v) none l1
    → Related (Linked v) (some n) l2
    → Related (Linked (link_behind v (last_or none l1) n)) none (l1 ++ n ∷ l2)
unfolding mem
behind-Linked v l1 l2 n d p q =
    let o = last_or none l1 in
    let (f1, f2, d12) = Distinct-split l1 l2 n d in
    Related-append (Linked (joined v o n [])) none l1 (n ∷ l2)
      (Related-mono (Linked v) (Linked (joined v o n [])) none l1
        (λ a b m. joined-Linked v o n a b [] (member_apart n b l1 m f1) refl) p)
      (
        joined-before v o n [] refl,
        Related-mono (Linked v) (Linked (joined v o n [])) (some n) l2
            (λ a b m. joined-Linked v o n a b [] (member_apart n b l2 m f2) refl) q,
      )

behind-sorted :
    (v : View) (o : Option Ref) (n : Ref) (l : Chain)
    → Related (InOrder v) none l
    → Related (InOrder (link_behind v o n)) none l
behind-sorted v none n l p = p
behind-sorted v (some a) n l p = p

behind-below :
    (v : View) (o : Option Ref) (n : Ref) (l : Chain)
    → AllBelow v.next_ref l
    → AllBelow (link_behind v o n).next_ref l
behind-below v none n l p = p
behind-below v (some a) n l p = p

sorted-remove :
    (v : View) (l1 l2 : Chain) (e : Ref)
    → Related (InOrder v) none (l1 ++ e ∷ l2)
    → Related (InOrder v) none (l1 ++ l2)
sorted-remove v l1 l2 e p =
    let (a, b) = Related-parts (InOrder v) none l1 (e ∷ l2) p in
    Related-append (InOrder v) none l1 l2 a (
      Related-skip (InOrder v) (last_or none l1) e l2
        (λ x y z. ≤ℤ_trans (v.program x).seq_id (v.program y).seq_id (v.program z).seq_id) b)

split-IsWellFormed :
    (v : View) (l1 l2 : Chain) (e : Ref)
    → Related (InOrder v) none (l1 ++ l2)
    → Related (Linked v) none (l1 ++ e ∷ l2)
    → Distinct (l1 ++ e ∷ l2)
    → AllBelow v.next_ref (l1 ++ e ∷ l2)
    → IsWellFormed (rejoined v (l1 ++ l2) (front l2)) (l1 ++ l2)
split-IsWellFormed v l1 [] e sorted linked distinct allocated =
    let below = AllBelow-parts v.next_ref l1 (e ∷ []) allocated in
    record {
      sorted = sorted;
      linked =
          Related-append (Linked v) none l1 [] (Related-parts (Linked v) none l1 (e ∷ []) linked).0
            tt;
      distinct = (Distinct-split l1 [] e distinct).2;
      allocated = AllBelow-append v.next_ref l1 [] below.0 tt;
    }
split-IsWellFormed v l1 (n ∷ l2) e sorted linked distinct allocated =
    let below = AllBelow-parts v.next_ref l1 (e ∷ n ∷ l2) allocated in
    let d = (Distinct-split l1 (n ∷ l2) e distinct).2 in
    let links = Related-parts (Linked v) none l1 (e ∷ n ∷ l2) linked in
    let o = last_or none l1 in
    rw (prev-split l1 l2 n (Distinct-split l1 l2 n d).0) (record {
      sorted = behind-sorted v o n (l1 ++ n ∷ l2) sorted;
      linked = behind-Linked v l1 l2 n d links.0 links.1.1.1;
      distinct = d;
      allocated =
          behind-below v o n (l1 ++ n ∷ l2)
            (AllBelow-append v.next_ref l1 (n ∷ l2) below.0 below.1.1);
    })

-- The element may stand anywhere in the order, as after a change of its sequence ID.
pub regroup-IsWellFormed :
    (v : View) (l : Chain) (e : Ref)
    → mem e l ≡ true
    → Related (InOrder v) none (remove l e)
    → Related (Linked v) none l
    → Distinct l
    → AllBelow v.next_ref l
    → IsWellFormed (rejoined v (remove l e) (next l e)) (remove l e)
regroup-IsWellFormed v l e m sorted linked distinct allocated =
    let s = split_at l e m in
    let rest : remove l e ≡ s.before ++ s.after =
      ap (λ l. remove l e) s.split ∙ remove-split s.before s.after e s.fresh in
    let after : next l e ≡ front s.after =
      ap (λ l. next l e) s.split ∙ next-split s.before s.after e s.fresh in
    subst (λ k. IsWellFormed (rejoined v k (next l e)) k) (sym rest)
      (subst (λ o. IsWellFormed (rejoined v (s.before ++ s.after) o) (s.before ++ s.after))
        (sym after)
        (split-IsWellFormed v s.before s.after e
          (subst (λ k. Related (InOrder v) none k) rest sorted)
          (subst (λ k. Related (Linked v) none k) s.split linked) (subst Distinct s.split distinct)
          (subst (AllBelow v.next_ref) s.split allocated)))

pub sorted-without :
    (v : View) (l : Chain) (e : Ref)
    → mem e l ≡ true
    → Related (InOrder v) none l
    → Related (InOrder v) none (remove l e)
sorted-without v l e m p =
    let s = split_at l e m in
    subst (λ k. Related (InOrder v) none k)
      (sym (ap (λ l. remove l e) s.split ∙ remove-split s.before s.after e s.fresh))
      (sorted-remove v s.before s.after e (subst (λ k. Related (InOrder v) none k) s.split p))

pub remove-IsWellFormed :
    (v : View) (l : Chain) (e : Ref)
    → mem e l ≡ true
    → IsWellFormed v l
    → IsWellFormed (rejoined v (remove l e) (next l e)) (remove l e)
remove-IsWellFormed v l e m w =
    regroup-IsWellFormed v l e m (sorted-without v l e m w.sorted) w.linked w.distinct w.allocated

-- The element itself is gone.
pub mem-remove : (l : Chain) (e : Ref) → Distinct l → mem e (remove l e) ≡ false
unfolding mem remove
mem-remove [] e d = refl
mem-remove (x ∷ xs) e d = elim (Bool-cases (nat_eq x e)) [
  | inl here ↦ rw here (ground (arith, nat_eq_iff x e))
  | inr other ↦ rw (other, other) (mem-remove xs e d.1)
]

-- The predecessor of what follows an element, once the element is taken out.
pub prev-remove :
    (l : Chain) (e n : Ref)
    → Distinct l
    → mem e l ≡ true
    → next l e ≡ some n
    → prev (remove l e) n ≡ prev l e
prev-remove l e n d m q =
    let s = split_at l e m in
    let after : some n ≡ front s.after =
      sym q ∙ ap (λ l. next l e) s.split ∙ next-split s.before s.after e s.fresh in
    ap (λ k. prev k n) (ap (λ l. remove l e) s.split ∙ remove-split s.before s.after e s.fresh)
    ∙ headed s.before s.after s.fresh (subst Distinct s.split d) after
    ∙ sym (ap (λ l. prev l e) s.split ∙ prev-split s.before s.after e s.fresh)
  where
    headed :
        (l1 l2 : Chain)
        → mem e l1 ≡ false
        → Distinct (l1 ++ e ∷ l2)
        → some n ≡ front l2
        → prev (l1 ++ l2) n ≡ last_or none l1
    headed l1 [] f d q = absurd (ground arith)
    headed l1 (x ∷ l2) f d q =
        ap
          (λ (o : Option Ref). elim o [
            | none ↦ prev (l1 ++ x ∷ l2) n
            | some a ↦ prev (l1 ++ x ∷ l2) a
          ])
          q
        ∙ prev-split l1 l2 x (Distinct-split l1 l2 x (Distinct-split l1 (x ∷ l2) e d).2).0
