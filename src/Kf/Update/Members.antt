-- ===== src/Kf/Update/Members.antt =====
-- The programs of a chain by their names, and what an update leaves of them.
use l3afd.Prelude.{
  ◌≡◌, sym, ap, ◌∙◌, subst, inl, inr, true, false, String, none, some, [], ◌∷◌, nat_eq, nat_eq_iff,
  ◌==◌, eq_iff, Bool-cases, arith,
}
use l3afd.Models.{BpfProgram}
use l3afd.Kf.ElementList.{Ref, Chain, mem}
use l3afd.Kf.ElementList.Split.{Distinct, nat_eq_refl}
use l3afd.Kf.View.{View}
use l3afd.Kf.About.{SameOthers}
use l3afd.Kf.Update.Order.{SameMembers}
use l3afd.Kf.Update.Same.{named, HasNoName, HasNames}

-- No two elements of the chain have programs of the same name.
abbrev pub AreDistinct : View → Chain → Type 0
AreDistinct v l =
    (a b : Ref)
    → mem a l ≡ true
    → mem b l ≡ true
    → ((v.program a).name == (v.program b).name) ≡ true
    → a ≡ b

-- An element of the new chain has the given name, or is an old one with its old configuration.
abbrev pub Evolves : String → View → Chain → View → Chain → Type 0
Evolves n v l v' l' =
    (a : Ref)
    → mem a l' ≡ true
    → ((v'.program a).name == n) ≡ false
    → (mem a l ≡ true) × (v'.program a ≡ v.program a)

none-HasNoName :
    (v : View) (n : String) (l : Chain)
    → ((a : Ref) → mem a l ≡ true → ((v.program a).name == n) ≡ false)
    → HasNoName v n l
unfolding mem
none-HasNoName v n [] h = tt
none-HasNoName v n (x ∷ xs) h =
    (h x (ground (arith, nat_eq_refl x)), none-HasNoName v n xs (λ a m. h a (ground (arith, m))))

pub AreDistinct-HasNames : (v : View) (l : Chain) → Distinct l → AreDistinct v l → HasNames v l
unfolding mem
AreDistinct-HasNames v [] d h = tt
AreDistinct-HasNames v (x ∷ xs) d h = (
  none-HasNoName v (v.program x).name xs (λ a m.
      elim (Bool-cases ((v.program a).name == (v.program x).name)) [
        | inl same ↦
            let here = h a x (ground (arith, m)) (ground (arith, nat_eq_refl x)) same in
            let m' : mem x xs ≡ true = subst (λ r. mem r xs ≡ true) here m in
            absurd (ground (arith, m', d.0))
        | inr differs ↦ differs
      ]),
  AreDistinct-HasNames v xs d.1 (λ a b p q. h a b (ground (arith, p)) (ground (arith, q))),
)

pub named-name :
    (v : View) (n : String) (l : Chain) (e : Ref)
    → named v n l ≡ some e
    → ((v.program e).name == n) ≡ true
named-name v n [] e h = absurd (ground (arith, h))
named-name v n (x ∷ xs) e h = elim (Bool-cases ((v.program x).name == n)) [
  | inl here ↦
      subst (λ r. ((v.program r).name == n) ≡ true)
        ((nat_eq_iff x e).0 (ground (arith, here, h, nat_eq_iff x e))) here
  | inr other ↦ named-name v n xs e (ground (arith, other, h))
]

pub unnamed :
    (v : View) (n : String) (l : Chain) (a : Ref)
    → named v n l ≡ none
    → mem a l ≡ true
    → ((v.program a).name == n) ≡ false
unfolding mem
unnamed v n [] a h m = absurd (ground (arith, m))
unnamed v n (x ∷ xs) a h m = elim (Bool-cases ((v.program x).name == n)) [
  | inl here ↦ absurd (ground (arith, here, h))
  | inr other ↦ elim (Bool-cases (nat_eq x a)) [
    | inl same ↦ subst (λ r. ((v.program r).name == n) ≡ false) ((nat_eq_iff x a).0 same) other
    | inr differs ↦ unnamed v n xs a (ground (arith, other, h)) (ground (arith, differs, m))
  ]
]

-- A program that was changed under its name.
names-same :
    (v v' : View) (e : Ref) (n : String)
    → (v.program e).name ≡ n
    → SameOthers e n v v'
    → (r : Ref) → (v'.program r).name ≡ (v.program r).name
names-same v v' e n h same r = elim (Bool-cases (nat_eq e r)) [
  | inl here ↦
      subst (λ r. (v'.program r).name ≡ (v.program r).name) ((nat_eq_iff e r).0 here)
        (same.own ∙ sym h)
  | inr differs ↦ ap (λ (p : BpfProgram). p.name) (same.others r differs)
]

pub changed-AreDistinct :
    (v v' : View) (e : Ref) (n : String) (l l' : Chain)
    → (v.program e).name ≡ n
    → SameOthers e n v v'
    → SameMembers l' l
    → AreDistinct v l
    → AreDistinct v' l'
changed-AreDistinct v v' e n l l' h same members d a b p q eq =
    d a b (sym (members a) ∙ p) (sym (members b) ∙ q) (
      subst (λ x. (x == (v.program b).name) ≡ true) (names-same v v' e n h same a)
        (subst (λ y. ((v'.program a).name == y) ≡ true) (names-same v v' e n h same b) eq))

pub changed-Evolves :
    (v v' : View) (e : Ref) (n : String) (l l' : Chain)
    → SameOthers e n v v'
    → SameMembers l' l
    → Evolves n v l v' l'
changed-Evolves v v' e n l l' same members a m other = elim (Bool-cases (nat_eq e a)) [
  | inl here ↦
      let t : ((v'.program a).name == n) ≡ true =
        (eq_iff (v'.program a).name n).1
          (subst (λ r. (v'.program r).name ≡ n) ((nat_eq_iff e a).0 here) same.own) in
      absurd (ground (arith, t, other))
  | inr differs ↦ (sym (members a) ∙ m, same.others a differs)
]
