-- ===== src/Bignum/Logic/Bits.antt =====
-- The bits of digits and of normalized bignums, for the logical operations of mindy/interp/num.c.
use gwydion_2_4_cleanup.Prelude.{
  ℕ, zero, suc, ◌+◌, ◌-◌, ◌*◌, ◌^◌, ◌%◌, ◌/◌, ◌<◌, ◌≡◌, refl, ap, ◌∙◌, Bool, true, false, ◌==◌,
  arith,
}
use native.Mathlib.Nat.{pow-suc, one-le-pow}
use gwydion_2_4_cleanup.Bignum.Digits.{sign_bit, pad_of}
use gwydion_2_4_cleanup.Bignum.Logic.{bit, bit_value, bitwise}

low_bit : (b : Bool) (r : ℕ) → ((bit_value b + 2 * r) % 2 == 1) ≡ b
low_bit true r = ground arith
low_bit false r = ground arith

high_bits : (b : Bool) (r : ℕ) → (bit_value b + 2 * r) / 2 ≡ r
high_bits true r = omega arith
high_bits false r = omega arith

pub bit-bitwise :
    (f : Bool → Bool → Bool) (n k a b : ℕ) → k < n → bit k (bitwise f n a b) ≡ f (bit k a) (bit k b)
unfolding bit bitwise
bit-bitwise f zero k a b h = absurd (omega arith)
bit-bitwise f (suc n) zero a b h =
    low_bit (f (a % 2 == 1) (b % 2 == 1)) (bitwise f n (a / 2) (b / 2))
bit-bitwise f (suc n) (suc k) a b h =
    ap (bit k) (high_bits (f (a % 2 == 1) (b % 2 == 1)) (bitwise f n (a / 2) (b / 2)))
    ∙ bit-bitwise f n k (a / 2) (b / 2) (omega arith)

pub bit-sign : (d : ℕ) → bit 7 d ≡ sign_bit d
unfolding bit
bit-sign d = ground arith

bit-zero : (k : ℕ) → bit k 0 ≡ false
unfolding bit
bit-zero zero = refl
bit-zero (suc k) = bit-zero k

bit_of_ones : (n k : ℕ) → k < n → bit k (2 ^ n - 1) ≡ true
unfolding bit
bit_of_ones zero k h = absurd (omega arith)
bit_of_ones (suc n) zero h = ground (arith, pow-suc 2 n, one-le-pow n 2 (omega arith))
bit_of_ones (suc n) (suc k) h =
    let half : (2 ^ suc n - 1) / 2 ≡ 2 ^ n - 1 =
      omega (arith, pow-suc 2 n, one-le-pow n 2 (omega arith)) in
    ap (bit k) half ∙ bit_of_ones n k (omega arith)

pub bit-pad : (k : ℕ) (s : Bool) → k < 8 → bit k (pad_of s) ≡ s
bit-pad k true h = bit_of_ones 8 k h
bit-pad k false h = bit-zero k
