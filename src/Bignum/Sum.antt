-- ===== src/Bignum/Sum.antt =====
-- `add_bignums`, `subtract_bignums` and `negate_bignum` of mindy/interp/num.c.
pub mod Laws
use gwydion_2_4_cleanup.Prelude.{ℕ, ◌+◌, ◌-◌, ◌%◌, ◌/◌, List, [], ◌∷◌}
use gwydion_2_4_cleanup.Bignum.Digits.{pad}
use gwydion_2_4_cleanup.Bignum.Normal.{normalize_bignum}

-- The loops of `add_bignums` and the digit that is stored behind them: both numbers while both
-- last, then the longer one against the pad of the other.
unfoldable pub add_loop : ℕ → ℕ → List ℕ → List ℕ → ℕ → List ℕ
add_loop pad1 pad2 [] [] carry = ((pad1 + pad2 + carry) % 256) ∷ []
add_loop pad1 pad2 [] (y ∷ ys) carry =
    ((pad1 + y + carry) % 256) ∷ add_loop pad1 pad2 [] ys ((pad1 + y + carry) / 256)
add_loop pad1 pad2 (x ∷ xs) [] carry =
    ((x + pad2 + carry) % 256) ∷ add_loop pad1 pad2 xs [] ((x + pad2 + carry) / 256)
add_loop pad1 pad2 (x ∷ xs) (y ∷ ys) carry =
    ((x + y + carry) % 256) ∷ add_loop pad1 pad2 xs ys ((x + y + carry) / 256)

unfoldable pub add_bignums : List ℕ → List ℕ → List ℕ
add_bignums x y = normalize_bignum (add_loop (pad x) (pad y) x y 0)

-- `a - b - borrow`, which may be negative: 512 more, so that it is not, and as even in `>> 8`.
abbrev pub difference : ℕ → ℕ → ℕ → ℕ
difference a b borrow = a + 512 - b - borrow

-- The loops of `subtract_bignums`.
unfoldable pub subtract_loop : ℕ → ℕ → List ℕ → List ℕ → ℕ → List ℕ
subtract_loop pad1 pad2 [] [] borrow = (difference pad1 pad2 borrow % 256) ∷ []
subtract_loop pad1 pad2 [] (y ∷ ys) borrow =
    (difference pad1 y borrow % 256)
    ∷ subtract_loop pad1 pad2 [] ys (difference pad1 y borrow / 256 % 2)
subtract_loop pad1 pad2 (x ∷ xs) [] borrow =
    (difference x pad2 borrow % 256)
    ∷ subtract_loop pad1 pad2 xs [] (difference x pad2 borrow / 256 % 2)
subtract_loop pad1 pad2 (x ∷ xs) (y ∷ ys) borrow =
    (difference x y borrow % 256) ∷ subtract_loop pad1 pad2 xs ys (difference x y borrow / 256 % 2)

unfoldable pub subtract_bignums : List ℕ → List ℕ → List ℕ
subtract_bignums x y = normalize_bignum (subtract_loop (pad x) (pad y) x y 0)

-- The loop of `negate_bignum` and the digit stored behind it.
unfoldable pub negate_loop : ℕ → List ℕ → ℕ → List ℕ
negate_loop pad [] borrow = (difference 0 pad borrow % 256) ∷ []
negate_loop pad (d ∷ ds) borrow =
    (difference 0 d borrow % 256) ∷ negate_loop pad ds (difference 0 d borrow / 256 % 2)

unfoldable pub negate_bignum : List ℕ → List ℕ
negate_bignum x = normalize_bignum (negate_loop (pad x) x 0)
