-- ===== src/Bignum/DigitDivision/Laws.antt =====
-- `divide_by_digit` of mindy/interp/num.c divides a number that is not negative.
use gwydion_2_4_cleanup.Prelude.{
  ℕ, ◌+◌, ◌*◌, ◌%◌, ◌/◌, ◌≤◌, ◌<◌, ◌≡◌, refl, List, [], ◌∷◌, Bool, false, arith, ap, ◌∙◌, sym,
  Bool-cases, inl, inr, ◌==◌,
}
use native.Mathlib.Nat.{div-lt_iff_lt-mul, div-le_self, div-add-mod', mod-eq_of_lt, div-eq_of_lt-le}
use gwydion_2_4_cleanup.Prelude.Int.{pos, push_parts, pos_part, neg_part, eq_of_parts}
use gwydion_2_4_cleanup.Bignum.Digits.{
  ext_int, bignum_int, bignum_int_lem, sign_bit, sign, sign-single, sign-cons, is_zero, IsBytes,
}
use gwydion_2_4_cleanup.Bignum.Unsigned.{nat_of, ext_int-nat_of}
use gwydion_2_4_cleanup.Bignum.Normal.{normalize_bignum_int}
use gwydion_2_4_cleanup.Bignum.Normal.Minimal.{IsBignum, normalize_bignum-IsBignum}
use gwydion_2_4_cleanup.Bignum.Compare.Laws.{sign_neg, longer_pos}
use gwydion_2_4_cleanup.Bignum.DigitDivision.{divide_loop, divide_by_digit}

-- Without a sign bit the integer is the digits' number.
pub bignum_int-nat_of : (ds : List ℕ) → sign ds ≡ false → bignum_int ds ≡ pos (nat_of ds)
bignum_int-nat_of ds h =
    bignum_int_lem ds
    ∙ rw h
        (eq_of_parts (ext_int false ds) (pos (nat_of ds)) (omega (arith, ext_int-nat_of false ds)))

pub sign_of_pos : (ds : List ℕ) (n : ℕ) → IsBytes ds → bignum_int ds ≡ pos n → sign ds ≡ false
sign_of_pos ds n h e = elim (Bool-cases (sign ds)) [
  | inl s ↦
      absurd (omega (arith, sign_neg ds h, ap neg_part (sym (rw s at (bignum_int_lem ds)) ∙ e)))
  | inr s ↦ s
]

quotient-lt : (t y : ℕ) → t < 256 * y → t / y < 256
quotient-lt t y h = (div-lt_iff_lt-mul (omega arith)).1 h

low_sign : (d q : ℕ) → d < 256 → sign_bit d ≡ false → q ≤ d → sign_bit (q % 256) ≡ false
low_sign d q h s l = ground arith

module _ (y : ℕ) (y_pos : 0 < y) where
  divide_loop_lem :
      (ds : List ℕ)
      → IsBytes ds
      → (nat_of (divide_loop y ds).0 * y + (divide_loop y ds).1 ≡ nat_of ds)
        × ((divide_loop y ds).1 < y)
        × IsBytes (divide_loop y ds).0
  unfolding divide_loop
  divide_loop_lem [] h = (omega arith, y_pos, tt)
  divide_loop_lem (d ∷ ds) h =
      let (e, l, b) = divide_loop_lem ds h.1 in
      let t = (divide_loop y ds).1 * 256 + d in
      let small : t / y < 256 = quotient-lt t y (omega arith) in
      (
        omega (arith, e, small, div-add-mod' t y, ap (λ (u : ℕ). u * y) (mod-eq_of_lt small)),
        omega arith,
        (omega arith, b),
      )

  sign-divide_loop :
      (ds : List ℕ) → IsBytes ds → sign ds ≡ false → sign (divide_loop y ds).0 ≡ false
  unfolding divide_loop
  sign-divide_loop [] h s = unfold sign in refl
  sign-divide_loop (d ∷ []) h s =
      sign-single _
      ∙ low_sign d _ h.0 (sym (sign-single d) ∙ s) (omega (arith, div-le_self (0 * 256 + d) y))
  sign-divide_loop (d ∷ e ∷ ds) h s =
      sign-cons _ _ _ ∙ sign-divide_loop (e ∷ ds) h.1 (sym (sign-cons d e ds) ∙ s)

-- What `divide_by_digit` promises of `n` divided by `y`.
pub record IsQuotient (n y : ℕ) (result : List ℕ × ℕ) : Type 0 where
  pub quotient : bignum_int result.0 ≡ pos (n / y)
  pub remainder : result.1 ≡ n % y
  pub normal : IsBignum result.0

divide_unique : (q y r n : ℕ) → q * y + r ≡ n → r < y → (q ≡ n / y) × (r ≡ n % y)
divide_unique q y r n e l =
    let quotient : n / y ≡ q = div-eq_of_lt-le y (omega arith) (omega arith) in
    (sym quotient, omega (arith, div-add-mod' n y, ap (λ (t : ℕ). t * y) quotient))

-- A bignum of bytes that is not negative, divided by a positive number: the quotient, with no
-- redundant digit, and the remainder are those of the integer.
pub divide_by_digit_lem :
    (d : ℕ) (ds : List ℕ) (n y : ℕ)
    → IsBytes (d ∷ ds)
    → bignum_int (d ∷ ds) ≡ pos n
    → 0 < y
    → IsQuotient n y (divide_by_digit (d ∷ ds) y)
unfolding divide_by_digit
divide_by_digit_lem d ds n y h e y_pos =
    let (value, small, bytes) = divide_loop_lem y y_pos (d ∷ ds) h in
    let positive = sign_of_pos (d ∷ ds) n h e in
    let number : nat_of (d ∷ ds) ≡ n =
      ap pos_part (sym (bignum_int-nat_of (d ∷ ds) positive) ∙ e) in
    let (q, r) = divide_unique _ y _ n (value ∙ number) small in
    record {
      quotient =
          normalize_bignum_int _
          ∙ bignum_int-nat_of _ (sign-divide_loop y y_pos (d ∷ ds) h positive)
          ∙ ap pos q;
      remainder = r;
      normal = unfold divide_loop in normalize_bignum-IsBignum _ _ bytes;
    }

-- The test `ZEROP` on a result is the test that its integer is 0.
pub is_zero_lem : (x : List ℕ) (n : ℕ) → IsBignum x → bignum_int x ≡ pos n → is_zero x ≡ n == 0
unfolding is_zero
is_zero_lem [] n h e = absurd h.minimal
is_zero_lem (d ∷ []) n h e =
    let number : d + 256 * 0 ≡ n =
      ap pos_part (sym (bignum_int-nat_of (d ∷ []) (sign_of_pos (d ∷ []) n h.bytes e)) ∙ e) in
    ground arith
is_zero_lem (d ∷ c ∷ ds) n h e =
    let s = sign_of_pos (d ∷ c ∷ ds) n h.bytes e in
    let value : ext_int false (d ∷ c ∷ ds) ≡ pos n =
      ap (λ (b : Bool). ext_int b (d ∷ c ∷ ds)) (sym s) ∙ sym (bignum_int_lem (d ∷ c ∷ ds)) ∙ e in
    let above =
      longer_pos (d ∷ c ∷ ds) 0 [] h.minimal (omega arith) h.bytes (omega arith) s
        (sign-single 0) in
    let positive : 0 < n = omega (arith, push_parts, above, ap pos_part value, ap neg_part value) in
    ground arith
