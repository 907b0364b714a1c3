-- ===== src/Kf/Metrics/Largest.antt =====
-- What `max-rate` publishes: the largest of the latest rates.
use mathlib.Core.List.{reverse, reverse-cons}
use l3afd.Prelude.{
  ◌≡◌, refl, sym, ◌∙◌, ap, subst, ℕ, zero, suc, ◌≤ℤ◌, ℤ, pos, leb_ℤ, some, List, [], ◌∷◌, ◌++◌, map,
  length, length-append, take, if◌then◌else◌, arith,
}
use l3afd.Kf.State.{Sample, unset, float64, int64}
use l3afd.Kf.Metrics.{unset_values, new_ring, next_value, set_current, max_from, max_value}
use l3afd.Kf.Metrics.Window.{push, push_all, window, window-push_all, slide-take}

-- The larger of two numbers.
abbrev max_ℤ : ℤ → ℤ → ℤ
max_ℤ a b = if leb_ℤ b a then a else b

max_ℤ_comm : (a b : ℤ) → max_ℤ a b ≡ max_ℤ b a
max_ℤ_comm a b = ground arith

max_ℤ_assoc : (a b c : ℤ) → max_ℤ (max_ℤ a b) c ≡ max_ℤ a (max_ℤ b c)
max_ℤ_assoc a b c = ground arith

-- The largest of some numbers, and 0 if there is none above it.
abbrev pub largest : List ℤ → ℤ
largest [] = pos 0
largest (d ∷ ds) = max_ℤ d (largest ds)

-- The same of the values of a ring, of which some are not set yet.
abbrev largest_value : List Sample → ℤ
largest_value [] = pos 0
largest_value (unset ∷ xs) = largest_value xs
largest_value (float64 d ∷ xs) = max_ℤ d (largest_value xs)
largest_value (int64 d ∷ xs) = largest_value xs

abbrev AllFloats : List Sample → Type 0
AllFloats [] = Unit
AllFloats (unset ∷ xs) = AllFloats xs
AllFloats (float64 d ∷ xs) = AllFloats xs
AllFloats (int64 d ∷ xs) = ⊥

max_from-largest :
    (m : ℤ) (xs : List Sample)
    → AllFloats xs
    → pos 0 ≤ℤ m
    → max_from m xs ≡ some (max_ℤ m (largest_value xs))
unfolding max_from
max_from-largest m [] h p = ap some (ground (arith, p))
max_from-largest m (unset ∷ xs) h p = max_from-largest m xs h p
max_from-largest m (float64 d ∷ xs) h p =
    max_from-largest (max_ℤ m d) xs h (ground (arith, p))
    ∙ ap some (max_ℤ_assoc m d (largest_value xs))
max_from-largest m (int64 d ∷ xs) h p = absurd h

largest_value_nonneg : (xs : List Sample) → pos 0 ≤ℤ largest_value xs
largest_value_nonneg [] = omega arith
largest_value_nonneg (unset ∷ xs) = largest_value_nonneg xs
largest_value_nonneg (float64 d ∷ xs) = ground (arith, largest_value_nonneg xs)
largest_value_nonneg (int64 d ∷ xs) = largest_value_nonneg xs

largest_value-append :
    (xs ys : List Sample) → largest_value (xs ++ ys) ≡ max_ℤ (largest_value xs) (largest_value ys)
largest_value-append [] ys = ground (arith, largest_value_nonneg ys)
largest_value-append (unset ∷ xs) ys = largest_value-append xs ys
largest_value-append (float64 d ∷ xs) ys =
    ap (λ m. max_ℤ d m) (largest_value-append xs ys)
    ∙ sym (max_ℤ_assoc d (largest_value xs) (largest_value ys))
largest_value-append (int64 d ∷ xs) ys = largest_value-append xs ys

largest_value-reverse : (xs : List Sample) → largest_value (reverse xs) ≡ largest_value xs
largest_value-reverse [] = refl
largest_value-reverse (x ∷ xs) =
    ap largest_value (reverse-cons x xs)
    ∙ (largest_value-append (reverse xs) (x ∷ [])
        ∙ (ap (λ m. max_ℤ m (largest_value (x ∷ []))) (largest_value-reverse xs)
            ∙ (max_ℤ_comm (largest_value xs) (largest_value (x ∷ []))
                ∙ sym (largest_value-append (x ∷ []) xs))))

-- The order of a ring does not matter for its largest value.
largest_value-window : (ring : List Sample) → largest_value (window ring) ≡ largest_value ring
largest_value-window [] = refl
largest_value-window (x ∷ xs) =
    largest_value-append (x ∷ []) (reverse xs)
    ∙ (ap (λ m. max_ℤ (largest_value (x ∷ [])) m) (largest_value-reverse xs)
        ∙ sym (largest_value-append (x ∷ []) xs))

AllFloats-append : (xs ys : List Sample) → AllFloats xs → AllFloats ys → AllFloats (xs ++ ys)
AllFloats-append [] ys h k = k
AllFloats-append (unset ∷ xs) ys h k = AllFloats-append xs ys h k
AllFloats-append (float64 d ∷ xs) ys h k = AllFloats-append xs ys h k
AllFloats-append (int64 d ∷ xs) ys h k = absurd h

push-AllFloats : (d : ℤ) (ring : List Sample) → AllFloats ring → AllFloats (push d ring)
unfolding set_current next_value
push-AllFloats d [] h = tt
push-AllFloats d (x ∷ xs) h = replaced (xs ++ (x ∷ [])) (moved x xs h)
  where
    moved : (x : Sample) (xs : List Sample) → AllFloats (x ∷ xs) → AllFloats (xs ++ (x ∷ []))
    moved unset xs h = AllFloats-append xs (unset ∷ []) h tt
    moved (float64 d) xs h = AllFloats-append xs (float64 d ∷ []) h tt
    moved (int64 d) xs h = absurd h

    replaced : (l : List Sample) → AllFloats l → AllFloats (set_current (float64 d) l)
    replaced [] h = tt
    replaced (unset ∷ l) h = h
    replaced (float64 e ∷ l) h = h
    replaced (int64 e ∷ l) h = absurd h

push_all-AllFloats :
    (ds : List ℤ) (ring : List Sample) → AllFloats ring → AllFloats (push_all ring ds)
push_all-AllFloats [] ring h = h
push_all-AllFloats (d ∷ ds) ring h = push_all-AllFloats ds (push d ring) (push-AllFloats d ring h)

abbrev AllUnset : List Sample → Type 0
AllUnset [] = Unit
AllUnset (unset ∷ xs) = AllUnset xs
AllUnset (float64 d ∷ xs) = ⊥
AllUnset (int64 d ∷ xs) = ⊥

-- Values that are not set do not count.
largest_value-take_unset : (k : ℕ) (w : List Sample) → AllUnset w → largest_value (take k w) ≡ pos 0
largest_value-take_unset zero w h = refl
largest_value-take_unset (suc k) [] h = refl
largest_value-take_unset (suc k) (unset ∷ w) h = largest_value-take_unset k w h
largest_value-take_unset (suc k) (float64 d ∷ w) h = absurd h
largest_value-take_unset (suc k) (int64 d ∷ w) h = absurd h

largest_value-take :
    (k : ℕ) (ds : List ℤ) (w : List Sample)
    → AllUnset w
    → largest_value (take k (map float64 ds ++ w)) ≡ largest (take k ds)
largest_value-take zero [] w h = refl
largest_value-take zero (d ∷ ds) w h = refl
largest_value-take (suc k) [] w h = largest_value-take_unset (suc k) w h
largest_value-take (suc k) (d ∷ ds) w h = ap (λ m. max_ℤ d m) (largest_value-take k ds w h)

AllUnset-snoc : (xs : List Sample) → AllUnset xs → AllUnset (xs ++ (unset ∷ []))
AllUnset-snoc [] h = tt
AllUnset-snoc (unset ∷ xs) h = AllUnset-snoc xs h
AllUnset-snoc (float64 d ∷ xs) h = absurd h
AllUnset-snoc (int64 d ∷ xs) h = absurd h

-- A new ring, seen as a window.
new-window : (n : ℕ) → AllUnset (reverse (unset_values n)) × (length (reverse (unset_values n)) ≡ n)
unfolding unset_values
new-window zero = (tt, refl)
new-window (suc n) =
    let step = reverse-cons unset (unset_values n) in
    (
      subst AllUnset (sym step) (AllUnset-snoc (reverse (unset_values n)) (new-window n).0),
      ap length step
          ∙ (length-append (reverse (unset_values n)) (unset ∷ [])
              ∙ omega (arith, (new-window n).1)),
    )

new-AllFloats : (n : ℕ) → AllFloats (unset_values n)
unfolding unset_values
new-AllFloats zero = tt
new-AllFloats (suc n) = new-AllFloats n

new_ring-suc : (n : ℕ) → new_ring (pos (suc n)) ≡ unset ∷ unset_values n
unfolding new_ring
new_ring-suc n = refl

pushed-window :
    (n : ℕ) (ds : List ℤ)
    → largest_value (push_all (unset ∷ unset_values n) ds) ≡ largest (take (suc n) (reverse ds))
pushed-window n ds =
    let w = reverse (unset_values n) in
    sym (largest_value-window (push_all (unset ∷ unset_values n) ds))
    ∙ (ap largest_value (window-push_all ds (unset ∷ unset_values n) tt)
        ∙ (ap largest_value (slide-take ds unset w)
            ∙ (largest_value-take (suc (length w)) (reverse ds) (unset ∷ w) (new-window n).0
                ∙ ap (λ (k : ℕ). largest (take (suc k) (reverse ds))) (new-window n).1)))

-- After any number of rates the largest value of the ring is the largest of as many of the latest
-- rates as the ring has places.
pub max_value-window :
    (n : ℕ) (ds : List ℤ)
    → max_value (push_all (new_ring (pos (suc n))) ds) ≡ some (largest (take (suc n) (reverse ds)))
unfolding max_value
max_value-window n ds =
    let ring = push_all (unset ∷ unset_values n) ds in
    ap (λ r. max_from (pos 0) (push_all r ds)) (new_ring-suc n)
    ∙ (max_from-largest (pos 0) ring
          (push_all-AllFloats ds (unset ∷ unset_values n) (new-AllFloats n)) (omega arith)
        ∙ ap some
            (above_zero (largest_value ring) (largest_value_nonneg ring) ∙ pushed-window n ds))
  where
    above_zero : (m : ℤ) → pos 0 ≤ℤ m → max_ℤ (pos 0) m ≡ m
    above_zero m h = ground (arith, h)
