-- ===== src/Tests/Numbers.antt =====
-- The theorems on mindy/interp/num.c at concrete numbers.
use gwydion_2_4_cleanup.Prelude.{ℕ, ◌≡◌, refl, List, [], ◌∷◌, some, ◌&&◌, ◌||◌, arith}
use gwydion_2_4_cleanup.Prelude.Int.{push, pos, negsuc, ◌+ℤ◌, ◌-ℤ◌, ◌*ℤ◌}
use gwydion_2_4_cleanup.Bignum.Digits.{bignum_int, sign}
use gwydion_2_4_cleanup.Bignum.Normal.{normalize_bignum}
use gwydion_2_4_cleanup.Bignum.Normal.Minimal.{IsBignum, normalize_bignum_lem}
use gwydion_2_4_cleanup.Bignum.Sum.{add_bignums, subtract_bignums}
use gwydion_2_4_cleanup.Bignum.Sum.Laws.{add_bignums_int, subtract_bignums_int}
use gwydion_2_4_cleanup.Bignum.Product.{multiply_bignums}
use gwydion_2_4_cleanup.Bignum.Product.Laws.{multiply_bignums_int}
use gwydion_2_4_cleanup.Bignum.Compare.{compare_bignums}
use gwydion_2_4_cleanup.Bignum.Compare.Laws.{Agrees, compare_bignums-Agrees}
use gwydion_2_4_cleanup.Bignum.DigitDivision.{divide_by_digit}
use gwydion_2_4_cleanup.Bignum.DigitDivision.Laws.{IsQuotient, divide_by_digit_lem}
use gwydion_2_4_cleanup.Bignum.Print.{print_bignum}
use gwydion_2_4_cleanup.Bignum.Print.Laws.{read_int, print_bignum_lem}
use gwydion_2_4_cleanup.Bignum.Make.{make_bignum}
use gwydion_2_4_cleanup.Bignum.Make.Laws.{make_bignum_int}
use gwydion_2_4_cleanup.Bignum.Logic.{xor, ei_logior, ei_logxor, ei_logand, ei_logbitp}
use gwydion_2_4_cleanup.Bignum.Logic.Laws.{logic_bits}
use gwydion_2_4_cleanup.Fixnum.{
  fi_plus, fi_minus, fi_negative, fi_trunc, fi_floor, fi_ceil, max_fixnum,
}
use gwydion_2_4_cleanup.Fixnum.Laws.{Wraps, fixnum_sums-Wraps}
use gwydion_2_4_cleanup.Fixnum.Division.{Gives, fixnum_divisions_lem}

-- 1000, and -2 with a redundant digit.
abbrev thousand : List ℕ
thousand = 232 ∷ 3 ∷ []

abbrev minus_two : List ℕ
minus_two = 254 ∷ 255 ∷ []

thousand-IsBignum : IsBignum thousand
thousand-IsBignum = record {
  bytes = (omega arith, (omega arith, tt));
  minimal = λ h. omega (arith, h);
}

minus_three-IsBignum : IsBignum (253 ∷ [])
minus_three-IsBignum = record { bytes = (omega arith, tt); minimal = tt }

multiply_bignums_int_example :
    bignum_int (multiply_bignums thousand minus_two) ≡ bignum_int thousand *ℤ bignum_int minus_two
multiply_bignums_int_example =
    multiply_bignums_int 232 (3 ∷ []) 254 (255 ∷ []) (omega arith, (omega arith, tt))
      (omega arith, (omega arith, tt))

add_bignums_int_example :
    bignum_int (add_bignums thousand minus_two) ≡ bignum_int thousand +ℤ bignum_int minus_two
add_bignums_int_example =
    add_bignums_int thousand minus_two (omega arith, (omega arith, tt))
      (omega arith, (omega arith, tt))

subtract_bignums_int_example :
    bignum_int (subtract_bignums thousand minus_two) ≡ bignum_int thousand -ℤ bignum_int minus_two
subtract_bignums_int_example =
    subtract_bignums_int thousand minus_two (omega arith, (omega arith, tt))
      (omega arith, (omega arith, tt))

normalize_bignum_lem_example :
    (bignum_int (normalize_bignum minus_two) ≡ bignum_int minus_two)
    × IsBignum (normalize_bignum minus_two)
normalize_bignum_lem_example = normalize_bignum_lem 254 (255 ∷ []) (omega arith, (omega arith, tt))

compare_bignums-Agrees_example :
    Agrees (compare_bignums thousand (253 ∷ [])) (bignum_int thousand) (bignum_int (253 ∷ []))
compare_bignums-Agrees_example =
    compare_bignums-Agrees thousand (253 ∷ []) thousand-IsBignum minus_three-IsBignum

thousand_int : bignum_int thousand ≡ pos 1000
unfolding bignum_int sign push
thousand_int = refl

minus_three_int : bignum_int (253 ∷ []) ≡ negsuc 2
unfolding bignum_int sign push
minus_three_int = refl

divide_by_digit_lem_example : IsQuotient 1000 7 (divide_by_digit thousand 7)
divide_by_digit_lem_example =
    divide_by_digit_lem 232 (3 ∷ []) 1000 7 (omega arith, (omega arith, tt)) thousand_int
      (omega arith)

print_bignum_lem_example :
    (cs : List ℕ) × (print_bignum 3 (253 ∷ []) 10 ≡ some cs)
    × (read_int 10 cs ≡ bignum_int (253 ∷ []))
print_bignum_lem_example =
    print_bignum_lem 10 2 (253 ∷ []) (omega arith) (omega arith) minus_three-IsBignum
      (rw minus_three_int (omega arith))

make_bignum_int_example :
    (x : List ℕ) × (make_bignum (negsuc 999) ≡ some x) × (bignum_int x ≡ negsuc 999) × IsBignum x
make_bignum_int_example = make_bignum_int (negsuc 999) (omega arith, omega arith)

logic_bits_example :
    (ei_logbitp (pos 9) (ei_logior thousand minus_two)
      ≡ ei_logbitp (pos 9) thousand || ei_logbitp (pos 9) minus_two)
    × (ei_logbitp (pos 9) (ei_logxor thousand minus_two)
        ≡ xor (ei_logbitp (pos 9) thousand) (ei_logbitp (pos 9) minus_two))
    × (ei_logbitp (pos 9) (ei_logand thousand minus_two)
        ≡ ei_logbitp (pos 9) thousand && ei_logbitp (pos 9) minus_two)
logic_bits_example = logic_bits thousand minus_two (pos 9)

fixnum_sums-Wraps_example :
    Wraps (max_fixnum +ℤ pos 1) (fi_plus max_fixnum (pos 1))
    × Wraps (max_fixnum -ℤ pos 1) (fi_minus max_fixnum (pos 1))
    × Wraps (pos 0 -ℤ max_fixnum) (fi_negative max_fixnum)
fixnum_sums-Wraps_example =
    fixnum_sums-Wraps max_fixnum (pos 1) (omega arith, omega arith) (omega arith, omega arith)

fixnum_divisions_lem_example :
    Gives (fi_trunc (negsuc 6) (pos 2)) (negsuc 6) (pos 2) (negsuc 6)
    × Gives (fi_floor (negsuc 6) (pos 2)) (negsuc 6) (pos 2) (pos 2)
    × Gives (fi_ceil (negsuc 6) (pos 2)) (negsuc 6) (pos 2) (pos 0 -ℤ pos 2)
fixnum_divisions_lem_example =
    fixnum_divisions_lem (negsuc 6) (pos 2) (omega arith, omega arith) (λ h. cc)
