-- ===== src/Bignum/Product.antt =====
-- `multiply_bignums` of mindy/interp/num.c.
pub mod Laws
use gwydion_2_4_cleanup.Prelude.{ℕ, zero, suc, ◌+◌, ◌*◌, ◌%◌, ◌/◌, List, [], ◌∷◌, length, replicate}
use gwydion_2_4_cleanup.Bignum.Digits.{pad}
use gwydion_2_4_cleanup.Bignum.Normal.{normalize_bignum}

-- The two inner loops: `digit` times the first number, padded, is added to the result from its
-- digit `i` on, as far as the result goes.
unfoldable pub multiply_row : ℕ → List ℕ → ℕ → List ℕ → ℕ → List ℕ
multiply_row pad1 xs digit [] carry = []
multiply_row pad1 [] digit (r ∷ rs) carry =
    ((pad1 * digit + r + carry) % 256)
    ∷ multiply_row pad1 [] digit rs ((pad1 * digit + r + carry) / 256)
multiply_row pad1 (x ∷ xs) digit (r ∷ rs) carry =
    ((x * digit + r + carry) % 256) ∷ multiply_row pad1 xs digit rs ((x * digit + r + carry) / 256)

-- The digit `i` of the second number, and the digits behind it: its pad goes on without end.
unfoldable pub digit_at : ℕ → List ℕ → ℕ
digit_at pad2 [] = pad2
digit_at pad2 (y ∷ ys) = y

unfoldable pub digits_behind : List ℕ → List ℕ
digits_behind [] = []
digits_behind (y ∷ ys) = ys

-- The two outer loops, with `n` rounds left, on the part of the result that they still change.
unfoldable pub multiply_rows : ℕ → ℕ → ℕ → List ℕ → List ℕ → List ℕ → List ℕ
multiply_rows zero pad1 pad2 xs ys result = []
multiply_rows (suc n) pad1 pad2 xs ys result =
    elim (multiply_row pad1 xs (digit_at pad2 ys) result 0) [
      | [] ↦ []
      | r ∷ rs ↦ r ∷ multiply_rows n pad1 pad2 xs (digits_behind ys) rs
    ]

unfoldable pub multiply_bignums : List ℕ → List ℕ → List ℕ
multiply_bignums x y =
    let total = length x + length y in
    normalize_bignum (multiply_rows total (pad x) (pad y) x y (replicate total 0))
