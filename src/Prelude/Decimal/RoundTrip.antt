-- ===== src/Prelude/Decimal/RoundTrip.antt =====
-- A number that was printed is read back.
use Prim.Native.Nat.{ℕ, zero, suc, ◌+◌, ◌*◌, ◌^◌, ◌/◌, ◌%◌, ◌<◌}
use Prim.Native.Char.{Char, code}
use Prim.Native.String.{String, ◌∷◌}
use mathlib.Core.Path.{◌≡◌, refl, sym, ◌∙◌, ap}
use mathlib.Core.Bool.{true, false}
use mathlib.Core.Option.{some}
use native.Mathlib.Omega.{arith}
use text.Mathlib.TextEquality.{eq_iff}
use mathlib.Core.Logic.{inl, inr}
use l3afd.Prelude.Tests.{Bool-cases, ◌==◌, ltb, nat_eq}
use l3afd.Prelude.Text.{digits}
use l3afd.Prelude.Int.{pos}
use l3afd.Prelude.Decimal.{digit_char, emit, itoa, atoi}

-- The code of a digit.
pub code-digit_char : (d : ℕ) → d < 10 → code (digit_char d) ≡ b'0' + d
code-digit_char zero h = refl
code-digit_char (suc zero) h = refl
code-digit_char (suc (suc zero)) h = refl
code-digit_char (suc (suc (suc zero))) h = refl
code-digit_char (suc (suc (suc (suc zero)))) h = refl
code-digit_char (suc (suc (suc (suc (suc zero))))) h = refl
code-digit_char (suc (suc (suc (suc (suc (suc zero)))))) h = refl
code-digit_char (suc (suc (suc (suc (suc (suc (suc zero))))))) h = refl
code-digit_char (suc (suc (suc (suc (suc (suc (suc (suc zero)))))))) h = refl
code-digit_char (suc (suc (suc (suc (suc (suc (suc (suc (suc zero))))))))) h = refl
code-digit_char (suc (suc (suc (suc (suc (suc (suc (suc (suc (suc d)))))))))) h =
    absurd (omega arith)

digits-step : (k d : ℕ) (s : String) → d < 10 → digits k (digit_char d ∷ s) ≡ digits (k * 10 + d) s
unfolding digits
digits-step k d s h = rw (code-digit_char d h) (ground arith)

digits-emit : (f n : ℕ) (acc : String) → n < f → digits 0 (emit f n acc) ≡ digits n acc
unfolding emit
digits-emit zero n acc h = absurd (omega arith)
digits-emit (suc f) n acc h = elim (Bool-cases (ltb n 10)) [
  | inl small ↦ rw small (
      digits-step 0 (n % 10) acc (omega arith)
      ∙ ap (λ (k : ℕ). digits k acc) (ground (arith, small)))
  | inr large ↦ rw large (
      digits-emit f (n / 10) (digit_char (n % 10) ∷ acc) (ground (arith, large))
      ∙ (digits-step (n / 10) (n % 10) acc (omega arith)
          ∙ ap (λ (k : ℕ). digits k acc) (omega arith)))
]

-- The first character of a printed number is a digit.
emit-first :
    (f n : ℕ) (acc : String)
    → (d : ℕ) × (t : String) × (d < 10) × (emit (suc f) n acc ≡ digit_char d ∷ t)
unfolding emit
emit-first zero n acc = elim (Bool-cases (ltb n 10)) [
  | inl small ↦ (n % 10, acc, omega arith, rw small)
  | inr large ↦ (n % 10, acc, omega arith, rw large)
]
emit-first (suc f) n acc = elim (Bool-cases (ltb n 10)) [
  | inl small ↦ (n % 10, acc, omega arith, rw small)
  | inr large ↦
      let (d, t, bound, e) = emit-first f (n / 10) (digit_char (n % 10) ∷ acc) in
      (d, t, bound, rw large e)
]

atoi-digits :
    (d n : ℕ) (t : String)
    → d < 10
    → n < 2 ^ 63
    → digits 0 (digit_char d ∷ t) ≡ some n
    → atoi (digit_char d ∷ t) ≡ some (pos n)
unfolding atoi
atoi-digits d n t h small e =
    let c = code-digit_char d h in
    let minus : nat_eq (code (digit_char d)) b'-' ≡ false = rw c (ground arith) in
    let plus : nat_eq (code (digit_char d)) b'+' ≡ false = rw c (ground arith) in
    let fits : ltb n (2 ^ 63) ≡ true = ground (arith, small) in rw (minus, plus, e, fits)

digits-nil : (n : ℕ) → digits n "" ≡ some n
unfolding digits
digits-nil n = refl

-- Every number of 63 bits is read back from its print.
pub atoi-itoa : (n : ℕ) → n < 2 ^ 63 → atoi (itoa n) ≡ some (pos n)
unfolding itoa
atoi-itoa n h = printed (emit-first n n "")
  where
    printed :
        (d : ℕ) × (t : String) × (d < 10) × (emit (suc n) n "" ≡ digit_char d ∷ t)
        → atoi (emit (suc n) n "") ≡ some (pos n)
    printed (d, t, bound, e) = rw e (
        atoi-digits d n t bound h
          (ap (digits 0) (sym e) ∙ (digits-emit (suc n) n "" (omega arith) ∙ digits-nil n)))

cons-ne-nil : (c : Char) (t : String) → ((c ∷ t) == "") ≡ false
cons-ne-nil c t = elim (Bool-cases ((c ∷ t) == "")) [
  | inl same ↦ let e : (c ∷ t) ≡ "" = (eq_iff (c ∷ t) "").0 same in cc
  | inr other ↦ other
]

-- No number is printed as nothing.
pub itoa-ne-nil : (n : ℕ) → (itoa n == "") ≡ false
unfolding itoa
itoa-ne-nil n = printed (emit-first n n "")
  where
    printed :
        (d : ℕ) × (t : String) × (d < 10) × (emit (suc n) n "" ≡ digit_char d ∷ t)
        → (emit (suc n) n "" == "") ≡ false
    printed (d, t, bound, e) = rw e (cons-ne-nil (digit_char d) t)
