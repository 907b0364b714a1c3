-- ===== src/Main/Kernel.antt =====
-- Which kernels the daemon accepts.
use Prim.Native.Char.{Char, code}
use Prim.Native.String.{[], ◌∷◌, ◌++◌}
use Prim.Native.String.append
use Prim.Native.Nat.{◌%◌, ◌/◌}
use mathlib.Core.List
use l3afd.Prelude.{
  ◌≡◌, refl, sym, ◌∙◌, ap, ◌⊎◌, ◌↔◌, ℕ, zero, suc, pos, ◌<◌, ◌≤ℤ◌, ◌<ℤ◌, ◌^◌, String, some, Bool,
  true, false, arith, inl, inr, not, ◌&&◌, ℤ, Bool-cases, nat_eq, ltb, leb_ℤ, eq_ℤ, if◌then◌else◌,
}
use l3afd.Prelude.Text.{split}
use l3afd.Prelude.Decimal.{digit_char, emit, itoa}
use l3afd.Prelude.Decimal.RoundTrip.{atoi-itoa, code-digit_char}
use l3afd.Config.{Config}
use l3afd.Os.{Os}
use l3afd.Exec.{Result, ok, err, pure, fail, ◌>>=◌}
use l3afd.Main.{at_least, first_two, check_version}

abbrev NoDot : String → Type 0
NoDot [] = Unit
NoDot (c ∷ s) = (nat_eq (code c) b'.' ≡ false) × NoDot s

emit-NoDot : (f n : ℕ) (acc : String) → NoDot acc → NoDot (emit f n acc)
unfolding emit
emit-NoDot zero n acc h = h
emit-NoDot (suc f) n acc h =
    let d : nat_eq (code (digit_char (n % 10))) b'.' ≡ false =
      rw (code-digit_char (n % 10) (omega arith)) (ground arith) in
    elim (Bool-cases (ltb n 10)) [
      | inl last ↦ rw last (d, h)
      | inr more ↦ rw more (emit-NoDot f (n / 10) (digit_char (n % 10) ∷ acc) (d, h))
    ]

itoa-NoDot : (n : ℕ) → NoDot (itoa n)
unfolding itoa
itoa-NoDot n = emit-NoDot (suc n) n "" tt

split-NoDot :
    (s : String) (dot : Char) (t : String)
    → code dot ≡ b'.'
    → NoDot s
    → split b'.' (s ++ (dot ∷ t)) ≡ List.◌∷◌ s (split b'.' t)
unfolding split
split-NoDot [] dot t e h = rw (append.nil (dot ∷ t), e)
split-NoDot (c ∷ s) dot t e h = rw (append.cons c s (dot ∷ t), h.0, split-NoDot s dot t e h.1)

abbrev dot : Char
dot = "."

-- The version, as the kernel spells it: two numbers and something behind them.
abbrev pub version_text : ℕ → ℕ → String → String
version_text major minor rest = itoa major ++ (dot ∷ (itoa minor ++ (dot ∷ rest)))

-- The minimum is reached, in the order of the major and then of the minor version.
abbrev pub IsReached : Config → ℕ → ℕ → Type 0
IsReached conf major minor =
    (conf.min_kernel_major_ver <ℤ pos major)
    ⊎ ((conf.min_kernel_major_ver ≡ pos major) × (conf.min_kernel_minor_ver ≤ℤ pos minor))

reached :
    (a b : ℤ) (major minor : ℕ)
    → ((if not (leb_ℤ (pos major) a) then true else eq_ℤ (pos major) a && leb_ℤ b (pos minor))
        ≡ true)
      ↔ ((a <ℤ pos major) ⊎ ((a ≡ pos major) × (b ≤ℤ pos minor)))
reached a b major minor = ground arith

at_least_iff :
    (conf : Config) (major minor : ℕ)
    → (at_least conf (pos major) (pos minor) ≡ true) ↔ IsReached conf major minor
at_least_iff conf major minor =
    reached conf.min_kernel_major_ver conf.min_kernel_minor_ver major minor

split-version :
    (major minor : ℕ) (rest : String)
    → first_two (split b'.' (version_text major minor rest)) ≡ some (itoa major, itoa minor)
split-version major minor rest =
    rw
      (
        split-NoDot (itoa major) dot (itoa minor ++ (dot ∷ rest)) refl (itoa-NoDot major),
        split-NoDot (itoa minor) dot rest refl (itoa-NoDot minor),
      )
      refl

module _ ⦃os : Os⦄ where
  checked :
      (conf : Config) (major minor : ℕ) (rest : String) (w : os.World)
      → major < 2 ^ 63
      → minor < 2 ^ 63
      → (check_version conf (version_text major minor rest) w).0 ≡ (
          if at_least conf (pos major) (pos minor) then ok tt else err "expected Kernel version >=")
  unfolding check_version ◌>>=◌ pure fail
  checked conf major minor rest w h k =
      rw (split-version major minor rest, atoi-itoa major h, atoi-itoa minor k)
        (elim (Bool-cases (at_least conf (pos major) (pos minor))) [
          | inl reached ↦ rw reached
          | inr below ↦ rw below
        ])

  -- A kernel whose version names two numbers is accepted exactly where they reach the configured
  -- minimum, in the order of the major and then of the minor version.
  pub check_version-IsReached :
      (conf : Config) (major minor : ℕ) (rest : String) (w : os.World)
      → major < 2 ^ 63
      → minor < 2 ^ 63
      → ((check_version conf (version_text major minor rest) w).0 ≡ ok tt)
        ↔ IsReached conf major minor
  check_version-IsReached conf major minor rest w h k =
      let iff = at_least_iff conf major minor in
      let result = checked conf major minor rest w h k in
      (
        λ accepted. iff.0 (succeeds _ (sym result ∙ accepted)),
        λ enough.
            result
            ∙ ap (λ (b : Bool). if b then ok tt else err "expected Kernel version >=")
                (iff.1 enough),
      )
    where
      succeeds :
          (b : Bool)
          → ◌≡◌ {A = Result (Unit {0})}
              (if b then ok tt else err "expected Kernel version >=")
              (ok tt)
          → b ≡ true
      succeeds true h = refl
      succeeds false h = cc
