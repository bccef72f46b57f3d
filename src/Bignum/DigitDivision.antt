-- ===== src/Bignum/DigitDivision.antt =====
-- `divide_by_digit` of mindy/interp/num.c.
pub mod Laws
use gwydion_2_4_cleanup.Prelude.{ℕ, ◌+◌, ◌*◌, ◌%◌, ◌/◌, List, [], ◌∷◌}
use gwydion_2_4_cleanup.Bignum.Normal.{normalize_bignum}

-- The loop from the top digit down: the quotient's digits, and `r`. A digit is stored as a byte.
unfoldable pub divide_loop : ℕ → List ℕ → List ℕ × ℕ
divide_loop divisor [] = ([], 0)
divide_loop divisor (d ∷ ds) =
    let (qs, r) = divide_loop divisor ds in
    (((r * 256 + d) / divisor % 256) ∷ qs, (r * 256 + d) % divisor)

unfoldable pub divide_by_digit : List ℕ → ℕ → List ℕ × ℕ
divide_by_digit dividend divisor =
    let (qs, r) = divide_loop divisor dividend in (normalize_bignum qs, r)
