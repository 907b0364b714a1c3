-- ===== src/Kf/Placed/Insert.antt =====
-- Inserting a program by its sequence ID keeps a chain well-formed, seen from above.
use l3afd.Prelude.{
  String, ◌∙◌, ◌≡◌, refl, sym, ap, subst, ◌<◌, ℤ, ◌≤ℤ◌, true, false, Option, none, some, [], ◌∷◌,
  ◌++◌, leb_ℤ, leb_ℤ_iff, ≤ℤ_of_leb_false, nat_eq, nat_eq_iff, arith, Bool-cases, inl, inr,
}
use l3afd.Kf.ElementList.{next, Ref, Chain, mem, insert_before, push_back}
use l3afd.Kf.ElementList.Split.{
  next-split, last_or, Distinct-insert, split_at, insert_before-split, nat_eq_refl,
}
use l3afd.Kf.ElementList.Related.{After, Related, Related-parts}
use l3afd.Kf.State.{Direction}
use l3afd.Kf.View.{put_chain, View, InOrder, Linked, AllBelow, IsWellFormed}
use l3afd.Kf.Placed.{
  relinked, position, relinked-Linked, Related-tail, AllBelow-append, AllBelow-parts,
  relinked-program, relinked-next_ref,
}

append_nil : (l : Chain) → l ++ [] ≡ l
append_nil [] = refl
append_nil (x ∷ xs) = ap (λ k. x ∷ k) (append_nil xs)

-- An element of the right sequence ID between two parts of a chain.
pub place-IsWellFormed :
    (v : View) (l1 l2 : Chain) (e : Ref)
    → IsWellFormed v (l1 ++ l2)
    → mem e (l1 ++ l2) ≡ false
    → e < v.next_ref
    → Related (InOrder v) none (l1 ++ e ∷ l2)
    → IsWellFormed (relinked v (l1 ++ e ∷ l2) e) (l1 ++ e ∷ l2)
place-IsWellFormed v l1 l2 e w f lt sorted =
    let l = l1 ++ e ∷ l2 in
    let below = AllBelow-parts v.next_ref l1 l2 w.allocated in
    let d = Distinct-insert l1 l2 e w.distinct f in
    let links = Related-parts (Linked v) none l1 l2 w.linked in
    record {
      sorted =
          subst (λ p. Related (λ a b. (p a).seq_id ≤ℤ (p b).seq_id) none l)
            (sym (relinked-program v l e)) sorted;
      linked =
          relinked-Linked v l1 l2 e d links.0
            (Related-tail (Linked v) (last_or none l1) l2 links.1);
      distinct = d;
      allocated =
          subst (λ n. AllBelow n l) (sym (relinked-next_ref v l e))
            (AllBelow-append v.next_ref l1 (e ∷ l2) below.0 (lt, below.1));
    }

position-above :
    (v : View) (q : ℤ) (l : Chain) (m : Ref)
    → position v q l ≡ some m
    → leb_ℤ q (v.program m).seq_id ≡ true
position-above v q [] m p = absurd (ground arith)
position-above v q (x ∷ xs) m p = ground (arith, position-above v q xs m)

pub position-mem :
    (v : View) (q : ℤ) (l : Chain) (m : Ref) → position v q l ≡ some m → mem m l ≡ true
unfolding mem
position-mem v q [] m p = absurd (ground arith)
position-mem v q (x ∷ xs) m p = ground (arith, nat_eq_refl x, position-mem v q xs m)

sorted-insert :
    (v : View) (e m : Ref) (o : Option Ref) (l : Chain)
    → After (InOrder v) o e
    → Related (InOrder v) o l
    → position v (v.program e).seq_id l ≡ some m
    → Related (InOrder v) o (insert_before l e m)
unfolding insert_before
sorted-insert v e m o [] a r p = absurd (ground arith)
sorted-insert v e m o (x ∷ xs) a r p =
    elim (Bool-cases (leb_ℤ (v.program e).seq_id (v.program x).seq_id)) [
      | inl here ↦
          let same : nat_eq x m ≡ true = ground (arith, nat_eq_refl x) in
          rw same (a, ((leb_ℤ_iff (v.program e).seq_id (v.program x).seq_id).0 here, r.1))
      | inr other ↦
          let differs : nat_eq x m ≡ false =
            ground (arith, nat_eq_iff x m, position-above v (v.program e).seq_id xs m) in
          rw differs (
            r.0,
            sorted-insert v e m (some x) xs
                (≤ℤ_of_leb_false (v.program e).seq_id (v.program x).seq_id other) r.1
                (ground arith),
          )
    ]

sorted-push :
    (v : View) (e : Ref) (o : Option Ref) (l : Chain)
    → After (InOrder v) o e
    → Related (InOrder v) o l
    → position v (v.program e).seq_id l ≡ none
    → Related (InOrder v) o (l ++ e ∷ [])
sorted-push v e o [] a r p = (a, tt)
sorted-push v e o (x ∷ xs) a r p = (
  r.0,
  sorted-push v e (some x) xs
      (≤ℤ_of_leb_false (v.program e).seq_id (v.program x).seq_id (ground arith)) r.1 (ground arith),
)

-- The chain with the program `e` in it, and the view in which it is linked: `bpf` stands in front of
-- the first program whose sequence ID is not smaller, and `last` at the end where there is none.
abbrev pub inserted : Option Ref → Chain → Ref → Ref → Chain
inserted none l bpf last = push_back l last
inserted (some mark) l bpf last = insert_before l bpf mark

pub push-IsWellFormed :
    (v : View) (l : Chain) (e : Ref)
    → IsWellFormed v l
    → mem e l ≡ false
    → e < v.next_ref
    → position v (v.program e).seq_id l ≡ none
    → IsWellFormed (relinked v (push_back l e) e) (push_back l e)
unfolding push_back
push-IsWellFormed v l e w f lt p =
    place-IsWellFormed v l [] e (subst (λ k. IsWellFormed v k) (sym (append_nil l)) w)
      (subst (λ k. mem e k ≡ false) (sym (append_nil l)) f) lt
      (sorted-push v e none l tt w.sorted p)

pub insert-IsWellFormed :
    (v : View) (l : Chain) (e mark : Ref)
    → IsWellFormed v l
    → mem e l ≡ false
    → e < v.next_ref
    → position v (v.program e).seq_id l ≡ some mark
    → IsWellFormed (relinked v (insert_before l e mark) e) (insert_before l e mark)
insert-IsWellFormed v l e mark w f lt p =
    let s = split_at l mark (position-mem v (v.program e).seq_id l mark p) in
    let there : insert_before l e mark ≡ s.before ++ e ∷ mark ∷ s.after =
      ap (λ l. insert_before l e mark) s.split
      ∙ insert_before-split s.before s.after e mark s.fresh in
    subst (λ k. IsWellFormed (relinked v k e) k) (sym there)
      (place-IsWellFormed v s.before (mark ∷ s.after) e (subst (λ k. IsWellFormed v k) s.split w)
        (subst (λ k. mem e k ≡ false) s.split f) lt
        (subst (λ k. Related (InOrder v) none k) there
          (sorted-insert v e mark none l tt w.sorted p)))

-- The map of the chains is nothing to these.
pub put-IsWellFormed :
    (v : View) (d : Direction) (iface : String) (k : Option Chain) (l : Chain)
    → IsWellFormed v l
    → IsWellFormed (put_chain v d iface k) l
put-IsWellFormed v d iface k l w = record {
  sorted = w.sorted;
  linked = w.linked;
  distinct = w.distinct;
  allocated = w.allocated;
}

pub position-put :
    (v : View) (d : Direction) (iface : String) (k : Option Chain) (q : ℤ) (l : Chain)
    → position (put_chain v d iface k) q l ≡ position v q l
position-put v d iface k q [] = refl
position-put v d iface k q (x ∷ xs) = rw (position-put v d iface k q xs)

pub next-push : (l : Chain) (e : Ref) → mem e l ≡ false → next (push_back l e) e ≡ none
unfolding push_back
next-push l e f = next-split l [] e f
