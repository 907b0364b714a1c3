-- ===== src/Kf/Update/Inserted.antt =====
-- The programs of a chain after an insertion.
use l3afd.Prelude.{
  ◌≡◌, refl, sym, ap, ◌∙◌, subst, ◌⊎◌, inl, inr, suc, ◌<◌, true, false, ◌||◌, String, Option, none,
  some, [], ◌∷◌, nat_eq, nat_eq_iff, ◌==◌, eq_iff, Bool-cases, arith,
}
use l3afd.Models.{BpfProgram}
use l3afd.Kf.ElementList.{Ref, Chain, mem, next, prev, insert_before, push_back}
use l3afd.Kf.ElementList.Split.{nat_eq_refl, mem-append}
use l3afd.Kf.State.{Direction}
use l3afd.Kf.View.{View, AllBelow, link_behind, link_before, alloc_view, put_chain}
use l3afd.Kf.Placement.Insertion.{placed, placed_chain}
use l3afd.Kf.Update.Same.{named}
use l3afd.Kf.Update.Members.{AreDistinct, Evolves, unnamed}

behind-program : (v : View) (o : Option Ref) (e : Ref) → (link_behind v o e).program ≡ v.program
behind-program v none e = refl
behind-program v (some a) e = refl

before-program : (v : View) (e : Ref) (o : Option Ref) → (link_before v e o).program ≡ v.program
before-program v e none = refl
before-program v e (some a) = refl

-- The struct of the inserted program.
abbrev new_ref : View → Option Ref → Ref
new_ref v none = suc v.next_ref
new_ref v (some mark) = v.next_ref

abbrev alloc_views : View → BpfProgram → Option Ref → View
alloc_views v p none = alloc_view (alloc_view v p) p
alloc_views v p (some mark) = alloc_view v p

placed-program :
    (v : View) (p : BpfProgram) (d : Direction) (iface : String) (l : Chain) (o : Option Ref)
    → (placed v p d iface l o).program ≡ (alloc_views v p o).program
placed-program v p d iface l none =
    behind-program
      (put_chain (alloc_view (alloc_view v p) p) d iface (some (push_back l (suc v.next_ref))))
      (prev (push_back l (suc v.next_ref)) (suc v.next_ref)) (suc v.next_ref)
placed-program v p d iface l (some mark) =
    let k = insert_before l v.next_ref mark in
    before-program _ v.next_ref (next k v.next_ref)
    ∙ behind-program (put_chain (alloc_view v p) d iface (some k)) (prev k v.next_ref) v.next_ref

new-program :
    (v : View) (p : BpfProgram) (o : Option Ref) → (alloc_views v p o).program (new_ref v o) ≡ p
new-program v p none = rw (nat_eq_refl (suc v.next_ref))
new-program v p (some mark) = rw (nat_eq_refl v.next_ref)

old-program :
    (v : View) (p : BpfProgram) (o : Option Ref) (a : Ref)
    → a < v.next_ref
    → (alloc_views v p o).program a ≡ v.program a
old-program v p none a h =
    let x : nat_eq (suc v.next_ref) a ≡ false = ground arith in
    let y : nat_eq v.next_ref a ≡ false = ground arith in rw (x, y)
old-program v p (some mark) a h = let y : nat_eq v.next_ref a ≡ false = ground arith in rw y

inserted-mem :
    (e mark x : Ref) (l : Chain)
    → mem x (insert_before l e mark) ≡ true
    → (nat_eq e x || mem x l) ≡ true
unfolding mem insert_before
inserted-mem e mark x [] m = absurd (ground (arith, m))
inserted-mem e mark x (y ∷ ys) m = elim (Bool-cases (nat_eq y mark)) [
  | inl here ↦ ground (arith, here, m)
  | inr other ↦ ground (arith, other, m, inserted-mem e mark x ys)
]

placed-mem :
    (v : View) (o : Option Ref) (x : Ref) (l : Chain)
    → mem x (placed_chain v l o) ≡ true
    → (nat_eq (new_ref v o) x || mem x l) ≡ true
unfolding mem push_back
placed-mem v none x l m = ground (arith, mem-append x l (suc v.next_ref ∷ []), m)
placed-mem v (some mark) x l m = inserted-mem v.next_ref mark x l m

mem-AllBelow : (n x : Ref) (l : Chain) → AllBelow n l → mem x l ≡ true → x < n
unfolding mem
mem-AllBelow n x [] h m = absurd (ground (arith, m))
mem-AllBelow n x (y ∷ ys) h m = elim (Bool-cases (nat_eq y x)) [
  | inl here ↦ subst (λ r. r < n) ((nat_eq_iff y x).0 here) h.0
  | inr other ↦ mem-AllBelow n x ys h.1 (ground (arith, other, m))
]

-- An element of the chain is the new one, or it is old.
placed-cases :
    (v : View) (p : BpfProgram) (d : Direction) (iface : String) (l : Chain) (o : Option Ref)
    (a : Ref)
    → AllBelow v.next_ref l
    → mem a (placed_chain v l o) ≡ true
    → ((a ≡ new_ref v o) × ((placed v p d iface l o).program a ≡ p))
      ⊎ ((mem a l ≡ true) × ((placed v p d iface l o).program a ≡ v.program a))
placed-cases v p d iface l o a below m =
    let same = placed-program v p d iface l o in
    elim (Bool-cases (nat_eq (new_ref v o) a)) [
      | inl here ↦
          let e = (nat_eq_iff (new_ref v o) a).0 here in
          inl (
            sym e,
            subst (λ r. (placed v p d iface l o).program r ≡ p) e
                (ap (λ (f : Ref → BpfProgram). f (new_ref v o)) same ∙ new-program v p o),
          )
      | inr other ↦
          let m' : mem a l ≡ true = ground (arith, other, placed-mem v o a l m) in
          inr (
            m',
            ap (λ (f : Ref → BpfProgram). f a) same
                ∙ old-program v p o a (mem-AllBelow v.next_ref a l below m'),
          )
    ]

not_both : (x y : String) → x ≡ y → (x == y) ≡ false → ⊥
not_both x y same differ = ground (arith, (eq_iff x y).1 same, differ)

pub placed-AreDistinct :
    (v : View) (p : BpfProgram) (d : Direction) (iface : String) (l : Chain) (o : Option Ref)
    → AllBelow v.next_ref l
    → named v p.name l ≡ none
    → AreDistinct v l
    → AreDistinct (placed v p d iface l o) (placed_chain v l o)
placed-AreDistinct v p d iface l o below none_named distinct a b ma mb same =
    let v' = placed v p d iface l o in
    let equal : (v'.program a).name ≡ (v'.program b).name =
      (eq_iff (v'.program a).name (v'.program b).name).0 same in
    elim (placed-cases v p d iface l o a below ma) [
      | inl new_a ↦ elim (placed-cases v p d iface l o b below mb) [
        | inl new_b ↦ new_a.0 ∙ sym new_b.0
        | inr old_b ↦ absurd (
            not_both (v.program b).name p.name
              (ap (λ (q : BpfProgram). q.name) (sym old_b.1)
                ∙ sym equal
                ∙ ap (λ (q : BpfProgram). q.name) new_a.1)
              (unnamed v p.name l b none_named old_b.0))
      ]
      | inr old_a ↦ elim (placed-cases v p d iface l o b below mb) [
        | inl new_b ↦ absurd (
            not_both (v.program a).name p.name
              (ap (λ (q : BpfProgram). q.name) (sym old_a.1)
                ∙ equal
                ∙ ap (λ (q : BpfProgram). q.name) new_b.1)
              (unnamed v p.name l a none_named old_a.0))
        | inr old_b ↦ distinct a b old_a.0 old_b.0 (
            (eq_iff (v.program a).name (v.program b).name).1 (
              ap (λ (q : BpfProgram). q.name) (sym old_a.1)
              ∙ equal
              ∙ ap (λ (q : BpfProgram). q.name) old_b.1))
      ]
    ]

pub placed-Evolves :
    (v : View) (p : BpfProgram) (d : Direction) (iface : String) (l : Chain) (o : Option Ref)
    → AllBelow v.next_ref l
    → Evolves p.name v l (placed v p d iface l o) (placed_chain v l o)
placed-Evolves v p d iface l o below a m other = elim (placed-cases v p d iface l o a below m) [
  | inl new ↦ absurd (
      not_both ((placed v p d iface l o).program a).name p.name
        (ap (λ (q : BpfProgram). q.name) new.1) other)
  | inr old ↦ old
]
