-- ===== src/Kf/ElementList/Alone.antt =====
-- Neighbours of a removed element, and an element without neighbours.
use l3afd.Prelude.{
  ◌≡◌, refl, Bool, true, false, not, ◌&&◌, none, some, is_some, [], ◌∷◌, arith, nat_eq, Bool-cases,
  inl, inr,
}
use l3afd.Kf.ElementList.{Ref, Chain, mem, next, prev_from, prev, remove}

-- The list has exactly one element.
abbrev pub is_single : Chain → Bool
is_single [] = false
is_single (x ∷ []) = true
is_single (x ∷ y ∷ l) = false

-- An element that is not in the list has no successor.
pub next-absent : (l : Chain) (e : Ref) → mem e l ≡ false → next l e ≡ none
unfolding next mem
next-absent [] e h = refl
next-absent (x ∷ xs) e h = ground (arith, next-absent xs e)

prev_from-some :
    (y : Ref) (l : Chain) (e : Ref) → mem e l ≡ true → is_some (prev_from (some y) l e) ≡ true
unfolding prev_from mem
prev_from-some y [] e h = absurd (ground arith)
prev_from-some y (x ∷ xs) e h = elim (Bool-cases (nat_eq x e)) [
  | inl here ↦ rw here
  | inr other ↦ rw other (prev_from-some x xs e (ground arith))
]

-- A member has no neighbours exactly where it is the only element.
pub alone-is_single :
    (l : Chain) (e : Ref)
    → mem e l ≡ true
    → (not (is_some (prev l e)) && not (is_some (next l e))) ≡ is_single l
unfolding prev prev_from next mem
alone-is_single [] e h = absurd (ground arith)
alone-is_single (x ∷ []) e h = ground arith
alone-is_single (x ∷ y ∷ l) e h = elim (Bool-cases (nat_eq x e)) [
  | inl here ↦ rw here
  | inr other ↦ ground (arith, prev_from-some x (y ∷ l) e)
]

prev_from-mem :
    (y : Ref) (l : Chain) (e t : Ref)
    → prev_from (some y) l e ≡ some t
    → mem t (y ∷ remove l e) ≡ true
unfolding prev_from mem remove
prev_from-mem y [] e t h = ground arith
prev_from-mem y (x ∷ xs) e t h = ground (arith, prev_from-mem x xs e t)

-- The former predecessor of a removed element is still in the list.
pub prev-mem-remove : (l : Chain) (e t : Ref) → prev l e ≡ some t → mem t (remove l e) ≡ true
unfolding prev prev_from remove mem
prev-mem-remove [] e t h = absurd (ground arith)
prev-mem-remove (x ∷ xs) e t h = ground (arith, prev_from-mem x xs e t)

-- An element without neighbours was the only one.
pub remove-no_neighbours :
    (l : Chain) (e : Ref)
    → mem e l ≡ true
    → is_some (prev l e) ≡ false
    → is_some (next l e) ≡ false
    → remove l e ≡ []
unfolding prev prev_from next remove mem
remove-no_neighbours [] e m p n = refl
remove-no_neighbours (x ∷ []) e m p n = ground arith
remove-no_neighbours (x ∷ y ∷ l) e m p n = elim (Bool-cases (nat_eq x e)) [
  | inl here ↦ absurd (ground arith)
  | inr other ↦ absurd (ground (arith, prev_from-some x (y ∷ l) e))
]
