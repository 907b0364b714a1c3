-- ===== src/Prelude/Decimal.antt =====
-- What the daemon uses of strconv and fmt for numbers: Itoa, Atoi with its errors, and the words that
-- Sscanf reads.
pub mod RoundTrip
use Prim.Native.Nat.{ℕ, zero, suc, ◌+◌, ◌*◌, ◌-◌, ◌^◌, ◌/◌, ◌%◌}
use Prim.Native.Char.{Char, code}
use Prim.Native.String
use Prim.Native.String.{String, [], ◌∷◌}
use mathlib.Core.Bool.{Bool, true, false, ◌||◌}
use mathlib.Core.Option.{Option, none, some}
use l3afd.Prelude.Tests.{ltb, leb, nat_eq, if◌then◌else◌}
use l3afd.Prelude.Text.{parse_nat, is_space}
use l3afd.Prelude.Int.{ℤ, pos, negsuc}

abbrev pub digit_char : ℕ → Char
digit_char zero = "0"
digit_char (suc zero) = "1"
digit_char (suc (suc zero)) = "2"
digit_char (suc (suc (suc zero))) = "3"
digit_char (suc (suc (suc (suc zero)))) = "4"
digit_char (suc (suc (suc (suc (suc zero))))) = "5"
digit_char (suc (suc (suc (suc (suc (suc zero)))))) = "6"
digit_char (suc (suc (suc (suc (suc (suc (suc zero))))))) = "7"
digit_char (suc (suc (suc (suc (suc (suc (suc (suc zero)))))))) = "8"
digit_char _ = "9"

-- Each round puts the last digit in front; a number has fewer digits than its successor says.
unfoldable pub emit : ℕ → ℕ → String → String
emit zero n acc = acc
emit (suc f) n acc =
    let shown = digit_char (n % 10) ∷ acc in
    let rest = emit f (n / 10) shown in if ltb n 10 then shown else rest

-- strconv.Itoa of a number that is not negative
unfoldable pub itoa : ℕ → String
unfolding emit
itoa n = emit (suc n) n ""

-- strconv.Itoa and `%d` of an int
abbrev pub print_int : ℤ → String
print_int (pos n) = itoa n
print_int (negsuc n) = String.◌++◌ "-" (itoa (n + 1))

abbrev pub at_most_63_bits : Option ℕ → Option ℤ
at_most_63_bits none = none
at_most_63_bits (some n) = if ltb n (2 ^ 63) then some (pos n) else none

abbrev pub negated : Option ℕ → Option ℤ
negated none = none
negated (some zero) = some (pos 0)
negated (some (suc n)) = if ltb n (2 ^ 63) then some (negsuc n) else none

-- strconv.Atoi, with no value where it returns an error
unfoldable pub atoi : String → Option ℤ
unfolding parse_nat
atoi [] = none
atoi (c ∷ s) =
    if nat_eq (code c) b'-'
    then negated (parse_nat s)
    else if nat_eq (code c) b'+'
    then at_most_63_bits (parse_nat s)
    else at_most_63_bits (parse_nat (c ∷ s))
