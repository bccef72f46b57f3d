-- ===== src/Bignum/Print.antt =====
-- `print_bignum` and `print_bignum_aux` of mindy/interp/num.c: the characters that `putchar` gets.
pub mod Laws
use gwydion_2_4_cleanup.Prelude.{
  ℕ, zero, suc, ◌+◌, ◌-◌, List, [], ◌∷◌, ◌++◌, Option, none, some, ltb, if◌then◌else◌,
}
use mathlib.Core.Option
use gwydion_2_4_cleanup.Bignum.Digits.{sign, is_zero}
use gwydion_2_4_cleanup.Bignum.Sum.{negate_bignum}
use gwydion_2_4_cleanup.Bignum.DigitDivision.{divide_by_digit}

unfoldable pub digit_char : ℕ → ℕ
digit_char remainder = if ltb remainder 10 then b'0' + remainder else b'a' + remainder - 10

-- The recursion on the quotient; `none` means that the fuel ran out.
unfoldable pub print_bignum_aux : ℕ → List ℕ → ℕ → Option (List ℕ)
print_bignum_aux zero bignum radix = none
print_bignum_aux (suc fuel) bignum radix =
    let (quotient, remainder) = divide_by_digit bignum radix in
    let before = print_bignum_aux fuel quotient radix in
    if is_zero quotient
    then some (digit_char remainder ∷ [])
    else Option.map (λ cs. cs ++ digit_char remainder ∷ []) before

unfoldable pub print_bignum : ℕ → List ℕ → ℕ → Option (List ℕ)
print_bignum fuel bignum radix =
    if sign bignum
    then Option.map (λ cs. b'-' ∷ cs) (print_bignum_aux fuel (negate_bignum bignum) radix)
    else print_bignum_aux fuel bignum radix
