-- ===== src/Kf/Placed/Move.antt =====
-- Moving a program to the place of its sequence ID, seen from above.
use l3afd.Prelude.{
  ◌≡◌, refl, sym, ap, ◌∙◌, subst, ◌<◌, ℤ, Bool, true, false, ◌&&◌, ◌||◌, not, String, Option, none,
  some, [], ◌∷◌, nat_eq, nat_eq_iff, arith, Bool-cases, inl, inr, leb_ℤ, ◌==◌, if◌then◌else◌,
}
use l3afd.Kf.ElementList.{Ref, Chain, mem, next, prev, remove, insert_before, push_back}
use l3afd.Kf.ElementList.Split.{mem-append, Distinct}
use l3afd.Kf.ElementList.Related.{Related}
use l3afd.Kf.State.{Direction}
use l3afd.Kf.View.{View, InOrder, Linked, AllBelow, IsWellFormed, link_behind, link_view, put_chain}
use l3afd.Kf.Placed.{position, relinked}
use l3afd.Kf.Placed.Insert.{
  position-mem, put-IsWellFormed, position-put, push-IsWellFormed, insert-IsWellFormed,
}
use l3afd.Kf.Placed.Remove.{prev-remove, rejoined, regroup-IsWellFormed, mem-remove}

-- The first other element, by its name, whose sequence ID is not smaller.
abbrev pub mark_of : View → Ref → Chain → Option Ref
mark_of v e [] = none
mark_of v e (x ∷ xs) =
    if leb_ℤ (v.program e).seq_id (v.program x).seq_id
      && not ((v.program x).name == (v.program e).name)
    then some x
    else mark_of v e xs

-- No other program of the chain has the element's name.
abbrev pub NameIsUnique : View → Ref → Chain → Type 0
NameIsUnique v e [] = Unit
NameIsUnique v e (x ∷ xs) =
    (((v.program x).name == (v.program e).name) ≡ nat_eq x e) × NameIsUnique v e xs

-- The neighbours of a moved element are joined.
abbrev pub closed : View → Option Ref → Option Ref → View
closed v none o = v
closed v (some before) none = v
closed v (some before) (some after) = link_view v before after

abbrev pub placed_in : Chain → Ref → Option Ref → Chain
placed_in rest e none = push_back rest e
placed_in rest e (some mark) = insert_before rest e mark

abbrev pub moved_chain : Chain → Ref → Option Ref → Chain
moved_chain l e o = placed_in (remove l e) e o

abbrev pub moved : View → Direction → String → Chain → Ref → Option Ref → View
moved v d iface l e o =
    let k = moved_chain l e o in
    relinked (put_chain (closed v (prev l e) (next l e)) d iface (some k)) k e

pub mark_of-absent :
    (v : View) (e : Ref) (l : Chain)
    → mem e l ≡ false
    → NameIsUnique v e l
    → mark_of v e l ≡ position v (v.program e).seq_id l
unfolding mem
mark_of-absent v e [] m u = refl
mark_of-absent v e (x ∷ xs) m u = ground (arith, mark_of-absent v e xs)

pub mark_of-position :
    (v : View) (e : Ref) (l : Chain)
    → Distinct l
    → NameIsUnique v e l
    → mark_of v e l ≡ position v (v.program e).seq_id (remove l e)
unfolding remove
mark_of-position v e [] d u = refl
mark_of-position v e (x ∷ xs) d u = elim (Bool-cases (nat_eq x e)) [
  | inl here ↦ rw here (ground (arith, mark_of-absent v e xs, nat_eq_iff x e))
  | inr other ↦ rw other (ground (arith, mark_of-position v e xs))
]

pub mark_of-differs :
    (v : View) (e m : Ref) (l : Chain)
    → NameIsUnique v e l
    → mark_of v e l ≡ some m
    → nat_eq e m ≡ false
mark_of-differs v e m [] u p = absurd (ground arith)
mark_of-differs v e m (x ∷ xs) u p =
    ground (arith, mark_of-differs v e m xs, nat_eq_iff x e, nat_eq_iff e m)

closed-rejoined :
    (v : View) (l : Chain) (e : Ref)
    → Distinct l
    → mem e l ≡ true
    → closed v (prev l e) (next l e) ≡ rejoined v (remove l e) (next l e)
closed-rejoined v l e d m = by_next (next l e) refl
  where
    closed-behind : (o : Option Ref) (n : Ref) → closed v o (some n) ≡ link_behind v o n
    closed-behind none n = refl
    closed-behind (some b) n = refl

    closed-none : (o : Option Ref) → closed v o none ≡ v
    closed-none none = refl
    closed-none (some b) = refl

    by_next : (o : Option Ref) → next l e ≡ o → closed v (prev l e) o ≡ rejoined v (remove l e) o
    by_next none q = closed-none (prev l e)
    by_next (some n) q =
        closed-behind (prev l e) n ∙ ap (λ o. link_behind v o n) (sym (prev-remove l e n d m q))

rejoined-program : (v : View) (k : Chain) (o : Option Ref) → (rejoined v k o).program ≡ v.program
rejoined-program v k none = refl
rejoined-program v k (some n) = behind (prev k n)
  where
    behind : (o : Option Ref) → (link_behind v o n).program ≡ v.program
    behind none = refl
    behind (some b) = refl

rejoined-next_ref : (v : View) (k : Chain) (o : Option Ref) → (rejoined v k o).next_ref ≡ v.next_ref
rejoined-next_ref v k none = refl
rejoined-next_ref v k (some n) = behind (prev k n)
  where
    behind : (o : Option Ref) → (link_behind v o n).next_ref ≡ v.next_ref
    behind none = refl
    behind (some b) = refl

position-program :
    (v w : View) (q : ℤ) (l : Chain) → w.program ≡ v.program → position w q l ≡ position v q l
position-program v w q [] p = refl
position-program v w q (x ∷ xs) p = rw (p, position-program v w q xs p)

AllBelow-mem : (n e : Ref) (l : Chain) → AllBelow n l → mem e l ≡ true → e < n
unfolding mem
AllBelow-mem n e [] a m = absurd (ground arith)
AllBelow-mem n e (x ∷ xs) a m = ground (arith, AllBelow-mem n e xs, nat_eq_iff x e)

-- The element goes to the end, or in front of `mark`.
grouped-IsWellFormed :
    (w : View) (rest : Chain) (e : Ref) (o : Option Ref)
    → IsWellFormed w rest
    → mem e rest ≡ false
    → e < w.next_ref
    → position w (w.program e).seq_id rest ≡ o
    → IsWellFormed (relinked w (placed_in rest e o) e) (placed_in rest e o)
grouped-IsWellFormed w rest e none g f b p = push-IsWellFormed w rest e g f b p
grouped-IsWellFormed w rest e (some mark) g f b p = insert-IsWellFormed w rest e mark g f b p

pub moved-IsWellFormed :
    (v : View) (d : Direction) (iface : String) (l : Chain) (e : Ref)
    → mem e l ≡ true
    → NameIsUnique v e l
    → Related (InOrder v) none (remove l e)
    → Related (Linked v) none l
    → Distinct l
    → AllBelow v.next_ref l
    → IsWellFormed (moved v d iface l e (mark_of v e l)) (moved_chain l e (mark_of v e l))
moved-IsWellFormed v d iface l e m u sorted linked distinct allocated =
    let rest = remove l e in
    let o = mark_of v e l in
    let r = rejoined v rest (next l e) in
    let w = put_chain r d iface (some (moved_chain l e o)) in
    let g =
      put-IsWellFormed r d iface (some (moved_chain l e o)) rest
        (regroup-IsWellFormed v l e m sorted linked distinct allocated) in
    rw (closed-rejoined v l e distinct m) (
      grouped-IsWellFormed w rest e o g (mem-remove l e distinct)
        (subst (λ n. e < n) (sym (rejoined-next_ref v rest (next l e)))
          (AllBelow-mem v.next_ref e l allocated m))
        (position-put r d iface (some (moved_chain l e o)) (r.program e).seq_id rest
          ∙ position-program v r (r.program e).seq_id rest (rejoined-program v rest (next l e))
          ∙ ap (λ p. position v (p e).seq_id rest) (rejoined-program v rest (next l e))
          ∙ sym (mark_of-position v e l distinct u)))

mem-insert_before :
    (l : Chain) (e mark x : Ref)
    → mem mark l ≡ true
    → mem x (insert_before l e mark) ≡ (nat_eq e x || mem x l)
unfolding mem insert_before
mem-insert_before [] e mark x m = absurd (ground arith)
mem-insert_before (y ∷ ys) e mark x m = elim (Bool-cases (nat_eq y mark)) [
  | inl here ↦ rw here
  | inr other ↦ ground (arith, mem-insert_before ys e mark x)
]

mem-remove_or :
    (l : Chain) (e x : Ref) → mem e l ≡ true → (nat_eq e x || mem x (remove l e)) ≡ mem x l
unfolding mem remove
mem-remove_or [] e x m = absurd (ground arith)
mem-remove_or (y ∷ ys) e x m = elim (Bool-cases (nat_eq y e)) [
  | inl here ↦ rw here (ground (arith, nat_eq_iff y e))
  | inr other ↦ ground (arith, mem-remove_or ys e x)
]

or_swap : (a b : Bool) → (b || (a || false)) ≡ (a || b)
or_swap a b = ground arith

-- Moving an element loses none and adds none.
pub mem-moved_chain :
    (v : View) (l : Chain) (e x : Ref)
    → mem e l ≡ true
    → NameIsUnique v e l
    → Distinct l
    → mem x (moved_chain l e (mark_of v e l)) ≡ mem x l
unfolding mem push_back
mem-moved_chain v l e x m u d =
    same (mark_of v e l) (sym (mark_of-position v e l d u)) ∙ mem-remove_or l e x m
  where
    same :
        (o : Option Ref)
        → position v (v.program e).seq_id (remove l e) ≡ o
        → mem x (placed_in (remove l e) e o) ≡ (nat_eq e x || mem x (remove l e))
    same none q = mem-append x (remove l e) (e ∷ []) ∙ or_swap (nat_eq e x) (mem x (remove l e))
    same (some mark) q =
        mem-insert_before (remove l e) e mark x
          (position-mem v (v.program e).seq_id (remove l e) mark q)
