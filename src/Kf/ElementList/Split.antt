-- ===== src/Kf/ElementList/Split.antt =====
-- The list operations at a list that is split at an element.
use l3afd.Prelude.{
  ◌≡◌, refl, ap, true, false, ◌||◌, Option, none, some, [], ◌∷◌, ◌++◌, arith, nat_eq, nat_eq_iff,
  Bool-cases, inl, inr,
}
use l3afd.Kf.ElementList.{Ref, Chain, front, mem, next, prev_from, prev, remove, insert_before}

-- The last element, or the given one of an empty list.
abbrev pub last_or : Option Ref → Chain → Option Ref
last_or o [] = o
last_or o (x ∷ xs) = last_or (some x) xs

-- No element stands twice.
abbrev pub Distinct : Chain → Type 0
Distinct [] = Unit
Distinct (x ∷ xs) = (mem x xs ≡ false) × Distinct xs

pub nat_eq_refl : (x : Ref) → nat_eq x x ≡ true
nat_eq_refl x = ground arith

pub mem-append : (e : Ref) (xs ys : Chain) → mem e (xs ++ ys) ≡ (mem e xs || mem e ys)
unfolding mem
mem-append e [] ys = refl
mem-append e (x ∷ xs) ys = ground (arith, mem-append e xs ys)

pub next-split : (l1 l2 : Chain) (e : Ref) → mem e l1 ≡ false → next (l1 ++ e ∷ l2) e ≡ front l2
unfolding next mem
next-split [] l2 e h = rw (nat_eq_refl e)
next-split (x ∷ xs) l2 e h = ground (arith, next-split xs l2 e)

pub prev_from-split :
    (o : Option Ref) (l1 l2 : Chain) (e : Ref)
    → mem e l1 ≡ false
    → prev_from o (l1 ++ e ∷ l2) e ≡ last_or o l1
unfolding prev_from mem
prev_from-split o [] l2 e h = rw (nat_eq_refl e)
prev_from-split o (x ∷ xs) l2 e h = ground (arith, prev_from-split (some x) xs l2 e)

pub prev-split :
    (l1 l2 : Chain) (e : Ref) → mem e l1 ≡ false → prev (l1 ++ e ∷ l2) e ≡ last_or none l1
unfolding prev
prev-split l1 l2 e h = prev_from-split none l1 l2 e h

pub remove-split : (l1 l2 : Chain) (e : Ref) → mem e l1 ≡ false → remove (l1 ++ e ∷ l2) e ≡ l1 ++ l2
unfolding remove mem
remove-split [] l2 e h = rw (nat_eq_refl e)
remove-split (x ∷ xs) l2 e h = ground (arith, remove-split xs l2 e)

pub insert_before-split :
    (l1 l2 : Chain) (e mark : Ref)
    → mem mark l1 ≡ false
    → insert_before (l1 ++ mark ∷ l2) e mark ≡ l1 ++ (e ∷ mark ∷ l2)
unfolding insert_before mem
insert_before-split [] l2 e mark h = rw (nat_eq_refl mark)
insert_before-split (x ∷ xs) l2 e mark h = ground (arith, insert_before-split xs l2 e mark)

-- Where an element stands.
pub record SplitAt (l : Chain) (e : Ref) : Type 0 where
  pub before : Chain
  pub after : Chain
  pub split : l ≡ before ++ e ∷ after
  pub fresh : mem e before ≡ false

pub split_at : (l : Chain) (e : Ref) → mem e l ≡ true → SplitAt l e
unfolding mem
split_at [] e h = absurd (ground arith)
split_at (x ∷ xs) e h = elim (Bool-cases (nat_eq x e)) [
  | inl here ↦ record {
    before = [];
    after = xs;
    split = ground (arith, nat_eq_iff x e);
    fresh = refl;
  }
  | inr other ↦
      let s = split_at xs e (ground arith) in
      record {
        before = x ∷ s.before;
        after = s.after;
        split = ap (λ l. x ∷ l) s.split;
        fresh = ground (arith, s.fresh);
      }
]

pub Distinct-split :
    (l1 l2 : Chain) (e : Ref)
    → Distinct (l1 ++ e ∷ l2)
    → (mem e l1 ≡ false) × (mem e l2 ≡ false) × Distinct (l1 ++ l2)
unfolding mem
Distinct-split [] l2 e h = (refl, h.0, h.1)
Distinct-split (x ∷ xs) l2 e h =
    let (a, b, c) = Distinct-split xs l2 e h.1 in
    (
      ground (arith, mem-append x xs (e ∷ l2)),
      b,
      (ground (arith, mem-append x xs (e ∷ l2), mem-append x xs l2), c),
    )

-- A new element keeps the others distinct.
pub Distinct-insert :
    (l1 l2 : Chain) (e : Ref)
    → Distinct (l1 ++ l2)
    → mem e (l1 ++ l2) ≡ false
    → Distinct (l1 ++ e ∷ l2)
unfolding mem
Distinct-insert [] l2 e d h = (h, d)
Distinct-insert (x ∷ xs) l2 e d h = (
  ground (arith, mem-append x xs l2, mem-append x xs (e ∷ l2)),
  Distinct-insert xs l2 e d.1 (ground arith),
)
