-- ===== src/Kf/Update/Names.antt =====
-- Programs of a chain with different names.
use l3afd.Prelude.{
  ◌≡◌, refl, sym, ap, ◌∙◌, subst, true, false, String, some, [], ◌∷◌, inl, inr, nat_eq, nat_eq_iff,
  ◌==◌, eq_iff, Bool-cases, arith,
}
use l3afd.Kf.ElementList.{Ref, Chain, mem}
use l3afd.Kf.View.{View}
use l3afd.Kf.Placed.Move.{NameIsUnique}
use l3afd.Kf.Update.Same.{named, HasNoName, HasNames}

no_name-differs :
    (v : View) (n : String) (e : Ref) (l : Chain)
    → HasNoName v n l
    → mem e l ≡ true
    → ((v.program e).name == n) ≡ false
unfolding mem
no_name-differs v n e [] h m = absurd (ground arith)
no_name-differs v n e (x ∷ xs) h m = elim (Bool-cases (nat_eq x e)) [
  | inl here ↦ subst (λ r. ((v.program r).name == n) ≡ false) ((nat_eq_iff x e).0 here) h.0
  | inr differs ↦ no_name-differs v n e xs h.1 (ground arith)
]

no_name-NameIsUnique :
    (v : View) (e : Ref) (l : Chain) → HasNoName v (v.program e).name l → NameIsUnique v e l
no_name-NameIsUnique v e [] h = tt
no_name-NameIsUnique v e (x ∷ xs) h = (
  elim (Bool-cases (nat_eq x e)) [
    | inl here ↦
        ap (λ r. (v.program r).name == (v.program e).name) ((nat_eq_iff x e).0 here)
        ∙ (eq_iff (v.program e).name (v.program e).name).1 refl
        ∙ sym here
    | inr differs ↦ h.0 ∙ sym differs
  ],
  no_name-NameIsUnique v e xs h.1,
)

pub names-NameIsUnique :
    (v : View) (e : Ref) (l : Chain) → HasNames v l → mem e l ≡ true → NameIsUnique v e l
unfolding mem
names-NameIsUnique v e [] h m = tt
names-NameIsUnique v e (x ∷ xs) h m = elim (Bool-cases (nat_eq x e)) [
  | inl here ↦ (
    ap (λ r. (v.program r).name == (v.program e).name) ((nat_eq_iff x e).0 here)
        ∙ (eq_iff (v.program e).name (v.program e).name).1 refl
        ∙ sym here,
    no_name-NameIsUnique v e xs
        (subst (λ r. HasNoName v (v.program r).name xs) ((nat_eq_iff x e).0 here) h.0),
  )
  | inr differs ↦
      let m' : mem e xs ≡ true = ground arith in
      (
        ground (
          arith,
          no_name-differs v (v.program x).name e xs h.0 m',
          eq_iff (v.program x).name (v.program e).name,
          eq_iff (v.program e).name (v.program x).name,
        ),
        names-NameIsUnique v e xs h.1 m',
      )
]

pub named-mem :
    (v : View) (n : String) (l : Chain) (e : Ref) → named v n l ≡ some e → mem e l ≡ true
unfolding mem
named-mem v n [] e p = absurd (ground arith)
named-mem v n (x ∷ xs) e p = ground (arith, nat_eq_iff x e, named-mem v n xs e)
