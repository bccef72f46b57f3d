-- ===== src/Bignum/Digits.antt =====
-- The digits of a bignum (mindy/interp/num.c and num.h), and the integer that they stand for.
-- A bignum is the list of its digits, the lowest first; `length` is the list's length.
use gwydion_2_4_cleanup.Prelude.{
  ℕ, ◌/◌, ◌%◌, ◌<◌, ◌≡◌, refl, List, [], ◌∷◌, ◌++◌, Bool, true, false, if◌then◌else◌, ◌==◌,
}
use gwydion_2_4_cleanup.Prelude.Int.{ℤ, pos, negsuc, push}

-- `DIGIT_MASK`: digits are bytes.
abbrev pub digit_mask : ℕ
digit_mask = 255

-- `d & SIGN_MASK`, as a truth value.
abbrev pub sign_bit : ℕ → Bool
sign_bit d = d / 128 % 2 == 1

-- `digits[length - 1]`.
unfoldable pub top_digit : List ℕ → ℕ
top_digit [] = 0
top_digit (d ∷ []) = d
top_digit (d ∷ e ∷ ds) = top_digit (e ∷ ds)

-- `SIGN`.
unfoldable pub sign : List ℕ → Bool
unfolding top_digit
sign ds = sign_bit (top_digit ds)

abbrev pub pad_of : Bool → ℕ
pad_of s = if s then digit_mask else 0

-- `PAD`.
unfoldable pub pad : List ℕ → ℕ
pad ds = pad_of (sign ds)

-- `ZEROP`.
unfoldable pub is_zero : List ℕ → Bool
is_zero (d ∷ []) = d == 0
is_zero _ = false

abbrev pub IsBytes : List ℕ → Type 0
IsBytes [] = Unit
IsBytes (d ∷ ds) = (d < 256) × IsBytes ds

-- The digits, then the pad without end, as an integer in two's complement.
abbrev pub ext_int : Bool → List ℕ → ℤ
ext_int s [] = if s then negsuc 0 else pos 0
ext_int s (d ∷ ds) = push d (ext_int s ds)

-- The integer that a bignum stands for.
unfoldable pub bignum_int : List ℕ → ℤ
bignum_int ds = ext_int (sign ds) ds

pub bignum_int-cons :
    (d e : ℕ) (ds : List ℕ) → bignum_int (d ∷ e ∷ ds) ≡ push d (bignum_int (e ∷ ds))
unfolding bignum_int sign
bignum_int-cons d e ds = refl

-- A digit that repeats the sign adds nothing.
pub ext_int-pad : (s : Bool) → push (pad_of s) (ext_int s []) ≡ ext_int s []
unfolding push
ext_int-pad true = refl
ext_int-pad false = refl

pub sign-append : (ds : List ℕ) (d : ℕ) → sign (ds ++ d ∷ []) ≡ sign_bit d
unfolding sign
sign-append [] d = refl
sign-append (c ∷ []) d = refl
sign-append (c ∷ e ∷ ds) d = sign-append (e ∷ ds) d

pub ext_int-append_pad : (s : Bool) (ds : List ℕ) → ext_int s (ds ++ pad_of s ∷ []) ≡ ext_int s ds
ext_int-append_pad s [] = ext_int-pad s
ext_int-append_pad s (d ∷ ds) = rw (ext_int-append_pad s ds)

pub sign_bit-pad_of : (s : Bool) → sign_bit (pad_of s) ≡ s
sign_bit-pad_of true = refl
sign_bit-pad_of false = refl

pub IsBytes-append : (ds es : List ℕ) → IsBytes ds → IsBytes es → IsBytes (ds ++ es)
IsBytes-append [] es h k = k
IsBytes-append (d ∷ ds) es h k = (h.0, IsBytes-append ds es h.1 k)

pub bignum_int_lem : (ds : List ℕ) → bignum_int ds ≡ ext_int (sign ds) ds
unfolding bignum_int
bignum_int_lem ds = refl

pub pad_lem : (ds : List ℕ) → pad ds ≡ pad_of (sign ds)
unfolding pad
pad_lem ds = refl

pub sign-single : (d : ℕ) → sign (d ∷ []) ≡ sign_bit d
unfolding sign
sign-single d = refl

pub sign-cons : (d e : ℕ) (ds : List ℕ) → sign (d ∷ e ∷ ds) ≡ sign (e ∷ ds)
unfolding sign
sign-cons d e ds = refl

pub bignum_int-single : (d : ℕ) → bignum_int (d ∷ []) ≡ push d (ext_int (sign_bit d) [])
unfolding bignum_int sign
bignum_int-single d = refl
