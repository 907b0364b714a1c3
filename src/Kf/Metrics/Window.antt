-- ===== src/Kf/Metrics/Window.antt =====
-- The ring of the aggregator `max-rate` as a sliding window.
use mathlib.Core.List.{reverse, reverse-append, reverse-cons, append_assoc, map-append}
use l3afd.Prelude.{
  ◌≡◌, refl, sym, ◌∙◌, ap, ℕ, zero, suc, ◌+◌, ◌<◌, ℤ, List, [], ◌∷◌, ◌++◌, map, length,
  length-append, take, arith,
}
use l3afd.Kf.State.{Sample, float64}
use l3afd.Kf.Metrics.{next_value, set_current}

-- A new value takes the place of the oldest.
abbrev pub push : ℤ → List Sample → List Sample
push d ring = set_current (float64 d) (next_value ring)

abbrev pub push_all : List Sample → List ℤ → List Sample
push_all ring [] = ring
push_all ring (d ∷ ds) = push_all (push d ring) ds

-- The values of a ring, the latest first.
abbrev pub window : List Sample → List Sample
window [] = []
window (x ∷ xs) = x ∷ reverse xs

abbrev drop_last : List Sample → List Sample
drop_last [] = []
drop_last (x ∷ []) = []
drop_last (x ∷ (y ∷ ys)) = x ∷ drop_last (y ∷ ys)

drop_last-snoc : (xs : List Sample) (y : Sample) → drop_last (xs ++ (y ∷ [])) ≡ xs
drop_last-snoc [] y = refl
drop_last-snoc (x ∷ []) y = refl
drop_last-snoc (x ∷ (z ∷ zs)) y = ap (λ l. x ∷ l) (drop_last-snoc (z ∷ zs) y)

window-push :
    (d : ℤ) (x : Sample) (xs : List Sample)
    → window (push d (x ∷ xs)) ≡ float64 d ∷ drop_last (window (x ∷ xs))
unfolding set_current next_value
window-push d x [] = refl
window-push d x (y ∷ ys) =
    ap (λ l. float64 d ∷ l)
      (reverse-append ys (x ∷ [])
        ∙ sym (ap (λ l. drop_last (x ∷ l)) (reverse-cons y ys) ∙ drop_last-snoc (x ∷ reverse ys) y))

-- Pushing into a window instead of a ring.
abbrev pub slide : List Sample → List ℤ → List Sample
slide w [] = w
slide w (d ∷ ds) = slide (float64 d ∷ drop_last w) ds

abbrev pub IsRing : List Sample → Type 0
IsRing [] = ⊥
IsRing (x ∷ xs) = Unit

pub push-IsRing : (d : ℤ) (ring : List Sample) → IsRing ring → IsRing (push d ring)
unfolding set_current next_value
push-IsRing d [] h = absurd h
push-IsRing d (x ∷ []) h = tt
push-IsRing d (x ∷ (y ∷ ys)) h = tt

pub window-push_all :
    (ds : List ℤ) (ring : List Sample)
    → IsRing ring
    → window (push_all ring ds) ≡ slide (window ring) ds
window-push_all [] ring h = refl
window-push_all (d ∷ ds) [] h = absurd h
window-push_all (d ∷ ds) (x ∷ xs) h =
    window-push_all ds (push d (x ∷ xs)) (push-IsRing d (x ∷ xs) h)
    ∙ ap (λ w. slide w ds) (window-push d x xs)

take-drop_last : (n : ℕ) (w : List Sample) → n < length w → take n (drop_last w) ≡ take n w
take-drop_last zero w h = refl
take-drop_last (suc n) [] h = absurd (omega arith)
take-drop_last (suc n) (x ∷ []) h = absurd (omega arith)
take-drop_last (suc n) (x ∷ (y ∷ ys)) h = ap (λ l. x ∷ l) (take-drop_last n (y ∷ ys) (omega arith))

-- Behind a pushed value the last one of the window is never looked at.
take-append_drop_last :
    (n : ℕ) (xs w : List Sample)
    → n < length xs + length w
    → take n (xs ++ drop_last w) ≡ take n (xs ++ w)
take-append_drop_last n [] w h = take-drop_last n w (omega (arith, h))
take-append_drop_last zero (x ∷ xs) w h = refl
take-append_drop_last (suc n) (x ∷ xs) w h =
    ap (λ l. x ∷ l) (take-append_drop_last n xs w (omega (arith, h)))

take-length : (w : List Sample) → take (length w) w ≡ w
take-length [] = refl
take-length (x ∷ xs) = ap (λ l. x ∷ l) (take-length xs)

length-drop_last : (w : List Sample) (x : Sample) → length (drop_last (x ∷ w)) ≡ length w
length-drop_last [] x = refl
length-drop_last (y ∷ w) x = ap suc (length-drop_last w y)

-- A window holds the latest values, and of what it held before as much as there is room for.
pub slide-take :
    (ds : List ℤ) (x : Sample) (w : List Sample)
    → slide (x ∷ w) ds ≡ take (suc (length w)) (map float64 (reverse ds) ++ (x ∷ w))
slide-take [] x w = sym (take-length (x ∷ w))
slide-take (d ∷ ds) x w =
    slide-take ds (float64 d) (drop_last (x ∷ w))
    ∙ (ap (λ (k : ℕ). take (suc k) (map float64 (reverse ds) ++ (float64 d ∷ drop_last (x ∷ w))))
          (length-drop_last w x)
        ∙ (rest ∙ ap (λ l. take (suc (length w)) l) (sym reordered)))
  where
    rest :
        take (suc (length w)) (map float64 (reverse ds) ++ (float64 d ∷ drop_last (x ∷ w)))
        ≡ take (suc (length w)) (map float64 (reverse ds) ++ (float64 d ∷ (x ∷ w)))
    rest =
        ap (λ l. take (suc (length w)) l)
          (sym (append_assoc (map float64 (reverse ds)) (float64 d ∷ []) (drop_last (x ∷ w))))
        ∙ (take-append_drop_last (suc (length w)) (map float64 (reverse ds) ++ (float64 d ∷ []))
              (x ∷ w) (omega (arith, length-append {0} (map float64 (reverse ds)) (float64 d ∷ [])))
            ∙ ap (λ l. take (suc (length w)) l)
                (append_assoc (map float64 (reverse ds)) (float64 d ∷ []) (x ∷ w)))

    reordered :
        map float64 (reverse (d ∷ ds)) ++ (x ∷ w)
        ≡ map float64 (reverse ds) ++ (float64 d ∷ (x ∷ w))
    reordered =
        ap (λ l. map float64 l ++ (x ∷ w)) (reverse-cons d ds)
        ∙ (ap (λ l. l ++ (x ∷ w)) (map-append float64 (reverse ds) (d ∷ []))
            ∙ append_assoc (map float64 (reverse ds)) (float64 d ∷ []) (x ∷ w))
