-- ===== src/Kf/Placed.antt =====
-- Chains that stay well-formed: inserting a program, moving one and taking one out, seen from above.
pub mod Move
pub mod Remove
pub mod Insert
use l3afd.Prelude.{
  ◌∙◌, ◌≡◌, refl, sym, ap, subst, ℕ, suc, ◌<◌, ℤ, ◌≤ℤ◌, Bool, true, false, ◌&&◌, ◌||◌, Option, none,
  some, [], ◌∷◌, ◌++◌, leb_ℤ, leb_ℤ_iff, ≤ℤ_of_leb_false, ≤ℤ_trans, nat_eq, nat_eq_iff,
  if◌then◌else◌, arith, Bool-cases, inl, inr, List, String,
}
use l3afd.Models.{BpfProgram}
use l3afd.Kf.ElementList.{Ref, Chain, front, mem, next, prev, remove, insert_before, push_back}
use l3afd.Kf.ElementList.Split.{
  last_or, Distinct, mem-append, Distinct-insert, Distinct-split, SplitAt, split_at, next-split,
  prev-split, insert_before-split, nat_eq_refl,
}
use l3afd.Kf.ElementList.Related.{
  After, Related, Related-append, Related-parts, Related-mono, Related-skip,
}
use l3afd.Kf.State.{}
use l3afd.Kf.View.{
  View, InOrder, Linked, AllBelow, IsWellFormed, link_view, link_behind, link_before, alloc_view,
}

-- An element is linked behind its predecessor, and its successor behind it.
abbrev pub relinked : View → Chain → Ref → View
relinked v l e = link_before (link_behind v (prev l e) e) e (next l e)

-- The first element whose sequence ID is not smaller.
abbrev pub position : View → ℤ → Chain → Option Ref
position v seq_id [] = none
position v seq_id (e ∷ es) =
    if leb_ℤ seq_id (v.program e).seq_id then some e else position v seq_id es

pub AllBelow-fresh : (n : Ref) (l : Chain) → AllBelow n l → mem n l ≡ false
unfolding mem
AllBelow-fresh n [] p = refl
AllBelow-fresh n (x ∷ xs) p = ground (arith, AllBelow-fresh n xs p.1)

pub AllBelow-suc : (n : Ref) (l : Chain) → AllBelow n l → AllBelow (suc n) l
AllBelow-suc n [] p = tt
AllBelow-suc n (x ∷ xs) p = (omega arith, AllBelow-suc n xs p.1)

pub AllBelow-append :
    (n : Ref) (l1 l2 : Chain) → AllBelow n l1 → AllBelow n l2 → AllBelow n (l1 ++ l2)
AllBelow-append n [] l2 p q = q
AllBelow-append n (x ∷ xs) l2 p q = (p.0, AllBelow-append n xs l2 p.1 q)

pub AllBelow-parts :
    (n : Ref) (l1 l2 : Chain) → AllBelow n (l1 ++ l2) → AllBelow n l1 × AllBelow n l2
AllBelow-parts n [] l2 p = (tt, p)
AllBelow-parts n (x ∷ xs) l2 p = let (a, b) = AllBelow-parts n xs l2 p.1 in ((p.0, a), b)

-- Linking an element behind `o` and before the head of `l`.
abbrev pub joined : View → Option Ref → Ref → Chain → View
joined v o e l = link_before (link_behind v o e) e (front l)

abbrev is_front : Ref → Chain → Bool
is_front b [] = false
is_front b (x ∷ xs) = nat_eq x b

is_front-mem : (b : Ref) (l : Chain) → mem b l ≡ false → is_front b l ≡ false
unfolding mem
is_front-mem b [] p = refl
is_front-mem b (x ∷ xs) p = ground arith

pub joined-Linked :
    (v : View) (o : Option Ref) (e a b : Ref) (l : Chain)
    → nat_eq e b ≡ false
    → is_front b l ≡ false
    → Linked v a b
    → Linked (joined v o e l) a b
joined-Linked v none e a b [] p q r = r
joined-Linked v (some o) e a b [] p q r = rw (p, r)
joined-Linked v none e a b (n ∷ l) p q r = ground (arith, p, q, r)
joined-Linked v (some o) e a b (n ∷ l) p q r = ground (arith, p, q, r)

pub joined-before :
    (v : View) (o : Option Ref) (e : Ref) (l : Chain)
    → mem e l ≡ false
    → After (Linked (joined v o e l)) o e
unfolding mem
joined-before v none e l q = tt
joined-before v (some o) e [] q = rw (nat_eq_refl e)
joined-before v (some o) e (n ∷ l) q = ground (arith, q, nat_eq_refl e)

joined-after :
    (v : View) (o : Option Ref) (e : Ref) (l : Chain)
    → mem e l ≡ false
    → Distinct l
    → Related (Linked v) none l
    → Related (Linked (joined v o e l)) (some e) l
unfolding mem
joined-after v o e [] q d p = tt
joined-after v o e (n ∷ l) q d p = (
  head o,
  Related-mono (Linked v) (Linked (joined v o e (n ∷ l))) (some n) l
      (λ a b m. joined-Linked v o e a b (n ∷ l) (apart b m) (apart_head b m)) p.1,
)
  where
    head : (o : Option Ref) → Linked (joined v o e (n ∷ l)) e n
    head none = rw (nat_eq_refl n)
    head (some o) = rw (nat_eq_refl n)

    apart : (b : Ref) → mem b l ≡ true → nat_eq e b ≡ false
    apart b m = ground (arith, nat_eq_iff e b)

    apart_head : (b : Ref) → mem b l ≡ true → is_front b (n ∷ l) ≡ false
    apart_head b m = ground (arith, nat_eq_iff n b)

pub member_apart : (e b : Ref) (l : Chain) → mem b l ≡ true → mem e l ≡ false → nat_eq e b ≡ false
member_apart e b l p q = ground (arith, nat_eq_iff e b)

pub Distinct-apart :
    (b : Ref) (l1 l2 : Chain) → mem b l1 ≡ true → Distinct (l1 ++ l2) → mem b l2 ≡ false
unfolding mem
Distinct-apart b [] l2 p d = absurd (ground arith)
Distinct-apart b (x ∷ xs) l2 p d = elim (Bool-cases (nat_eq x b)) [
  | inl here ↦ ground (arith, nat_eq_iff x b, mem-append x xs l2)
  | inr other ↦ Distinct-apart b xs l2 (ground arith) d.1
]

pub Distinct-tail : (l1 l2 : Chain) → Distinct (l1 ++ l2) → Distinct l2
Distinct-tail [] l2 d = d
Distinct-tail (x ∷ xs) l2 d = Distinct-tail xs l2 d.1

-- After relinking one element of a list the whole list is linked, if its parts were.
pub relinked-Linked :
    (v : View) (l1 l2 : Chain) (e : Ref)
    → Distinct (l1 ++ e ∷ l2)
    → Related (Linked v) none l1
    → Related (Linked v) none l2
    → Related (Linked (relinked v (l1 ++ e ∷ l2) e)) none (l1 ++ e ∷ l2)
relinked-Linked v l1 l2 e d p q =
    let (f1, f2, d12) = Distinct-split l1 l2 e d in
    rw (prev-split l1 l2 e f1, next-split l1 l2 e f1)
      (Related-append (Linked (joined v (last_or none l1) e l2)) none l1 (e ∷ l2)
        (Related-mono (Linked v) (Linked (joined v (last_or none l1) e l2)) none l1
          (λ a b m.
            joined-Linked v (last_or none l1) e a b l2 (member_apart e b l1 m f1)
              (is_front-mem b l2 (Distinct-apart b l1 l2 m d12)))
          p)
        (
          joined-before v (last_or none l1) e l2 f2,
          joined-after v (last_or none l1) e l2 f2 (Distinct-tail l1 l2 d12) q,
        ))

pub Related-tail :
    (R : Ref → Ref → Type 0) (o : Option Ref) (l : Chain) → Related R o l → Related R none l
Related-tail R o [] p = tt
Related-tail R o (x ∷ xs) p = (tt, p.1)

behind-program : (v : View) (o : Option Ref) (e : Ref) → (link_behind v o e).program ≡ v.program
behind-program v none e = refl
behind-program v (some p) e = refl

before-program : (v : View) (e : Ref) (o : Option Ref) → (link_before v e o).program ≡ v.program
before-program v e none = refl
before-program v e (some n) = refl

pub relinked-program : (v : View) (l : Chain) (e : Ref) → (relinked v l e).program ≡ v.program
relinked-program v l e =
    before-program (link_behind v (prev l e) e) e (next l e) ∙ behind-program v (prev l e) e

behind-next_ref : (v : View) (o : Option Ref) (e : Ref) → (link_behind v o e).next_ref ≡ v.next_ref
behind-next_ref v none e = refl
behind-next_ref v (some p) e = refl

before-next_ref : (v : View) (e : Ref) (o : Option Ref) → (link_before v e o).next_ref ≡ v.next_ref
before-next_ref v e none = refl
before-next_ref v e (some n) = refl

pub relinked-next_ref : (v : View) (l : Chain) (e : Ref) → (relinked v l e).next_ref ≡ v.next_ref
relinked-next_ref v l e =
    before-next_ref (link_behind v (prev l e) e) e (next l e) ∙ behind-next_ref v (prev l e) e
