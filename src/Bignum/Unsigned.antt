-- ===== src/Bignum/Unsigned.antt =====
-- Digits read without a sign, and the range of a number of a given length.
use gwydion_2_4_cleanup.Prelude.{
  ℕ, ◌+◌, ◌*◌, ◌^◌, ◌≤◌, ◌<◌, ◌≡◌, List, [], ◌∷◌, Bool, true, false, arith, length, if◌then◌else◌,
  refl,
}
use native.Mathlib.Nat.{pow-suc}
use gwydion_2_4_cleanup.Prelude.Int.{push, push_parts, one_part, pos_part, neg_part}
use gwydion_2_4_cleanup.Bignum.Digits.{
  ext_int, bignum_int, bignum_int-single, bignum_int-cons, IsBytes,
}

-- The digits as a number without a sign.
abbrev pub nat_of : List ℕ → ℕ
nat_of [] = 0
nat_of (d ∷ ds) = d + 256 * nat_of ds

pub nat_of-lt : (ds : List ℕ) → IsBytes ds → nat_of ds < 256 ^ length ds
nat_of-lt [] h = omega arith
nat_of-lt (d ∷ ds) h = omega (arith, nat_of-lt ds h.1, pow-suc 256 (length ds))

pub ext_int-nat_of :
    (s : Bool) (ds : List ℕ)
    → pos_part (ext_int s ds) + (if s then 256 ^ length ds else 0)
      ≡ neg_part (ext_int s ds) + nat_of ds
ext_int-nat_of true [] = refl
ext_int-nat_of false [] = refl
ext_int-nat_of true (d ∷ ds) =
    omega (arith, ext_int-nat_of true ds, push_parts d (ext_int true ds), pow-suc 256 (length ds))
ext_int-nat_of false (d ∷ ds) =
    omega (arith, ext_int-nat_of false ds, push_parts d (ext_int false ds))

-- A number of `k + 1` digits lies between -128 * 256 ^ k and 128 * 256 ^ k.
pub bignum_int_range :
    (d : ℕ) (ds : List ℕ)
    → IsBytes (d ∷ ds)
    → (neg_part (bignum_int (d ∷ ds)) ≤ 128 * 256 ^ length ds)
      × (pos_part (bignum_int (d ∷ ds)) < 128 * 256 ^ length ds)
bignum_int_range d [] h = rw (bignum_int-single d) (unfold push in ground arith)
bignum_int_range d (e ∷ ds) h =
    let r = bignum_int_range e ds h.1 in
    rw (bignum_int-cons d e ds) (
      omega (
        arith,
        r,
        push_parts d (bignum_int (e ∷ ds)),
        one_part (push d (bignum_int (e ∷ ds))),
        one_part (bignum_int (e ∷ ds)),
        pow-suc 256 (length ds),
      ))
