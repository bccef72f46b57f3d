-- ===== src/Bignum/Compare.antt =====
-- `compare_bignums` of mindy/interp/num.c.
pub mod Laws
use gwydion_2_4_cleanup.Prelude.{ℕ, zero, suc, List, [], ◌∷◌, ltb, if◌then◌else◌, length}
use gwydion_2_4_cleanup.Prelude.Int.{ℤ, pos, negsuc, sub_ℕ}
use gwydion_2_4_cleanup.Bignum.Digits.{sign}

-- A round of the loop, once the digits above have been compared: the first difference is returned.
unfoldable pub compare_digit : ℤ → ℕ → ℕ → ℤ
compare_digit (pos zero) x y = sub_ℕ x y
compare_digit (pos (suc n)) x y = pos (suc n)
compare_digit (negsuc n) x y = negsuc n

-- The loop from the top digit down, over two numbers of one length.
unfoldable pub compare_digits : List ℕ → List ℕ → ℤ
compare_digits [] ys = pos 0
compare_digits (x ∷ xs) [] = pos 0
compare_digits (x ∷ xs) (y ∷ ys) = compare_digit (compare_digits xs ys) x y

unfoldable pub compare_bignums : List ℕ → List ℕ → ℤ
compare_bignums x y =
    if sign x
    then (if sign y
        then (if ltb (length y) (length x)
            then negsuc 0
            else (if ltb (length x) (length y) then pos 1 else compare_digits x y))
        else negsuc 0)
    else (if sign y
        then pos 1
        else (if ltb (length y) (length x)
            then pos 1
            else (if ltb (length x) (length y) then negsuc 0 else compare_digits x y)))
