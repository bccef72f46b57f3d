-- ===== src/Bignum/Make.antt =====
-- `make_bignum` and `bignum_value` of mindy/interp/num.c: from and to a C `long`, of eight bytes.
pub mod Laws
use gwydion_2_4_cleanup.Prelude.{
  ℕ, zero, suc, ◌+◌, ◌-◌, ◌*◌, ◌%◌, ◌/◌, ◌^◌, List, [], ◌∷◌, Bool, true, false, Option, none, some,
  ltb, eqb, ◌&&◌, if◌then◌else◌,
}
use mathlib.Core.Option
use gwydion_2_4_cleanup.Prelude.Int.{ℤ, pos, negsuc, eqb_ℤ}
use gwydion_2_4_cleanup.Bignum.Digits.{sign_bit, sign, ext_int}

-- `value & DIGIT_MASK` and `value >>= DIGIT_BITS` in two's complement.
unfoldable pub low_byte : ℤ → ℕ
low_byte (pos n) = n % 256
low_byte (negsuc n) = 255 - n % 256

unfoldable pub shift_byte : ℤ → ℤ
shift_byte (pos n) = pos (n / 256)
shift_byte (negsuc n) = negsuc (n / 256)

-- The two loops, which differ in `negative`; `room` is the number of digits that are left in the
-- buffer, and `none` a write behind it.
unfoldable pub make_loop : ℕ → Bool → ℤ → Option (List ℕ)
make_loop zero negative value = none
make_loop (suc room) negative value =
    let digit = low_byte value in
    let rest = make_loop room negative (shift_byte value) in
    if eqb_ℤ (shift_byte value) (ext_int negative []) && eqb (sign_bit digit) negative
    then some (digit ∷ [])
    else Option.map (λ ds. digit ∷ ds) rest

-- `sizeof(long) / sizeof(digit_t)`.
abbrev pub long_digits : ℕ
long_digits = 8

abbrev pub is_negative : ℤ → Bool
is_negative (pos n) = false
is_negative (negsuc n) = true

unfoldable pub make_bignum : ℤ → Option (List ℕ)
make_bignum value = make_loop long_digits (is_negative value) value

-- The loop of `bignum_value` on the 64 bits of `res`, whose low byte is clear after the shift.
unfoldable pub value_bits : ℕ → List ℕ → ℕ
value_bits res [] = res
value_bits res (d ∷ ds) = value_bits res ds * 256 % 2 ^ 64 + d

-- The `long` of 64 bits.
abbrev pub long_of_bits : ℕ → ℤ
long_of_bits w = if ltb w (2 ^ 63) then pos w else negsuc (2 ^ 64 - w - 1)

unfoldable pub bignum_value : List ℕ → ℤ
bignum_value ds = long_of_bits (value_bits (if sign ds then 2 ^ 64 - 1 else 0) ds)
