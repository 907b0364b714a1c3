-- ===== src/Kf/ElementList/Related.antt =====
-- Lists whose neighbours are related: the order of the sequence IDs, and the links by map names.
use l3afd.Prelude.{◌≡◌, true, Option, none, some, [], ◌∷◌, ◌++◌, arith}
use l3afd.Kf.ElementList.{Ref, Chain, mem}
use l3afd.Kf.ElementList.Split.{last_or, nat_eq_refl}

-- `e` may follow `o`.
abbrev pub After : (Ref → Ref → Type 0) → Option Ref → Ref → Type 0
After R none e = Unit
After R (some p) e = R p e

-- The list may follow `o`, and each element its predecessor.
abbrev pub Related : (Ref → Ref → Type 0) → Option Ref → Chain → Type 0
Related R o [] = Unit
Related R o (x ∷ xs) = After R o x × Related R (some x) xs

module _ (R : Ref → Ref → Type 0) where
  pub Related-append :
      (o : Option Ref) (l1 l2 : Chain)
      → Related R o l1
      → Related R (last_or o l1) l2
      → Related R o (l1 ++ l2)
  Related-append o [] l2 p q = q
  Related-append o (x ∷ xs) l2 p q = (p.0, Related-append (some x) xs l2 p.1 q)

  pub Related-parts :
      (o : Option Ref) (l1 l2 : Chain)
      → Related R o (l1 ++ l2)
      → Related R o l1 × Related R (last_or o l1) l2
  Related-parts o [] l2 p = (tt, p)
  Related-parts o (x ∷ xs) l2 p = let (a, b) = Related-parts (some x) xs l2 p.1 in ((p.0, a), b)

-- Neighbours stay related if the relation changes at no element of the list.
pub Related-mono :
    (R S : Ref → Ref → Type 0) (o : Option Ref) (l : Chain)
    → ((a b : Ref) → mem b l ≡ true → R a b → S a b)
    → Related R o l
    → Related S o l
unfolding mem
Related-mono R S o [] f p = tt
Related-mono R S o (x ∷ xs) f p =
    (follow o p.0, Related-mono R S (some x) xs (λ a b m r. f a b (ground arith) r) p.1)
  where
    follow : (o : Option Ref) → After R o x → After S o x
    follow none q = tt
    follow (some a) q = f a x (ground (arith, nat_eq_refl x)) q

-- Taking an element out of a list whose relation is transitive.
pub Related-skip :
    (R : Ref → Ref → Type 0) (o : Option Ref) (e : Ref) (l : Chain)
    → ((a b c : Ref) → R a b → R b c → R a c)
    → Related R o (e ∷ l)
    → Related R o l
Related-skip R o e [] trans p = tt
Related-skip R none e (x ∷ xs) trans p = (tt, p.1.1)
Related-skip R (some a) e (x ∷ xs) trans p = (trans a e x p.0 p.1.0, p.1.1)
