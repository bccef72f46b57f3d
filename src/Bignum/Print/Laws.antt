-- ===== src/Bignum/Print/Laws.antt =====
-- What `print_bignum` of mindy/interp/num.c prints is the number in its radix.
use gwydion_2_4_cleanup.Prelude.{
  ℕ, zero, suc, ◌+◌, ◌-◌, ◌*◌, ◌^◌, ◌%◌, ◌/◌, ◌≤◌, ◌<◌, ◌≡◌, refl, List, [], ◌∷◌, ◌++◌, true, false,
  Option, some, ltb, arith, ap, ◌∙◌, sym, Bool-cases, inl, inr, if◌then◌else◌, ◌==◌,
}
use mathlib.Core.Option
use native.Mathlib.Nat.{div-add-mod', div-eq_of_lt, div-lt_iff_lt-mul, mul-le-mul_left, pow-suc}
use gwydion_2_4_cleanup.Prelude.Int.{
  ℤ, pos, pos_part, neg_part, int_laws, one_part, ◌<ℤ◌, ◌≤ℤ◌, ◌-ℤ◌,
}
use gwydion_2_4_cleanup.Bignum.Digits.{bignum_int, bignum_int_lem, sign, IsBytes}
use gwydion_2_4_cleanup.Bignum.Normal.Minimal.{IsBignum}
use gwydion_2_4_cleanup.Bignum.Sum.Laws.{negate_bignum_int, sums-IsBignum}
use gwydion_2_4_cleanup.Bignum.Sum.{negate_bignum}
use gwydion_2_4_cleanup.Bignum.Compare.Laws.{sign_neg, sign_pos}
use gwydion_2_4_cleanup.Bignum.DigitDivision.Laws.{divide_by_digit_lem, is_zero_lem}
use gwydion_2_4_cleanup.Bignum.Print.{digit_char, print_bignum_aux, print_bignum}

-- The value of a digit's character, up to base 36.
abbrev pub char_value : ℕ → ℕ
char_value c = if ltb c b'a' then c - b'0' else c - b'a' + 10

-- The number that characters in a radix stand for, read from the left.
abbrev pub read_from : ℕ → ℕ → List ℕ → ℕ
read_from radix n [] = n
read_from radix n (c ∷ cs) = read_from radix (n * radix + char_value c) cs

-- `c` is a digit of the radix.
abbrev IsDigit : ℕ → ℕ → Type 0
IsDigit radix c = (char_value c < radix) × (digit_char (char_value c) ≡ c)

abbrev pub AreDigits : ℕ → List ℕ → Type 0
AreDigits radix [] = Unit
AreDigits radix (c ∷ cs) = IsDigit radix c × AreDigits radix cs

read_from-append :
    (radix n : ℕ) (cs : List ℕ) (c : ℕ)
    → read_from radix n (cs ++ c ∷ []) ≡ read_from radix n cs * radix + char_value c
read_from-append radix n [] c = refl
read_from-append radix n (d ∷ cs) c = read_from-append radix (n * radix + char_value d) cs c

AreDigits-append :
    (radix : ℕ) (cs : List ℕ) (c : ℕ)
    → AreDigits radix cs
    → IsDigit radix c
    → AreDigits radix (cs ++ c ∷ [])
AreDigits-append radix [] c h l = (l, tt)
AreDigits-append radix (d ∷ cs) c h l = (h.0, AreDigits-append radix cs c h.1 l)

char_value-digit_char : (r : ℕ) → r < 36 → char_value (digit_char r) ≡ r
unfolding digit_char
char_value-digit_char r h = ground arith

-- The printed form of `n`.
pub record IsPrinted (radix n : ℕ) (result : Option (List ℕ)) : Type 0 where
  pub text : List ℕ
  pub returns : result ≡ some text
  pub reads : read_from radix 0 text ≡ n
  pub digits : AreDigits radix text

quotient-lt : (n radix k : ℕ) → 2 ≤ radix → n < 2 ^ suc k → n / radix < 2 ^ k
quotient-lt n radix k low l =
    (div-lt_iff_lt-mul (omega arith)).1 (omega (arith, pow-suc 2 k, mul-le-mul_left (2 ^ k) low))

module _ (radix : ℕ) (low : 2 ≤ radix) (high : radix ≤ 36) where
  digit-lt : (n : ℕ) → n % radix < 36
  digit-lt n = omega arith

  is_digit : (n r : ℕ) → r ≡ n % radix → IsDigit radix (digit_char r)
  is_digit n r e =
      let value : char_value (digit_char r) ≡ r = char_value-digit_char r (omega arith) in
      (omega (arith, value), ap digit_char value)

  one_digit :
      (n r : ℕ) → r ≡ n % radix → n / radix ≡ 0 → IsPrinted radix n (some (digit_char r ∷ []))
  one_digit n r e z =
      let value : char_value (digit_char r) ≡ n % radix =
        rw e (char_value-digit_char (n % radix) (digit-lt n)) in
      record {
        text = digit_char r ∷ [];
        returns = refl;
        reads = omega (arith, value, div-add-mod' n radix, ap (λ (t : ℕ). t * radix) z);
        digits = (is_digit n r e, tt);
      }

  more_digits :
      (n r : ℕ) (before : Option (List ℕ))
      → r ≡ n % radix
      → IsPrinted radix (n / radix) before
      → IsPrinted radix n (Option.map (λ cs. cs ++ digit_char r ∷ []) before)
  more_digits n r before e p =
      let value : char_value (digit_char r) ≡ n % radix =
        rw e (char_value-digit_char (n % radix) (digit-lt n)) in
      record {
        text = p.text ++ digit_char r ∷ [];
        returns = rw p.returns refl;
        reads =
            read_from-append radix 0 p.text (digit_char r)
            ∙ omega (arith, value, div-add-mod' n radix, ap (λ (t : ℕ). t * radix) p.reads);
        digits = AreDigits-append radix p.text (digit_char r) p.digits (is_digit n r e);
      }

  print_bignum_aux_lem :
      (fuel n : ℕ) (x : List ℕ)
      → IsBignum x
      → bignum_int x ≡ pos n
      → n < 2 ^ fuel
      → IsPrinted radix n (print_bignum_aux (suc fuel) x radix)
  unfolding print_bignum_aux
  print_bignum_aux_lem fuel n [] h e l = absurd h.minimal
  print_bignum_aux_lem zero n (d ∷ ds) h e l =
      let q = divide_by_digit_lem d ds n radix h.bytes e (omega arith) in
      let z : n / radix ≡ 0 = div-eq_of_lt (omega arith) in
      rw (is_zero_lem _ (n / radix) q.normal q.quotient, z) (one_digit n _ q.remainder z)
  print_bignum_aux_lem (suc fuel) n (d ∷ ds) h e l =
      let q = divide_by_digit_lem d ds n radix h.bytes e (omega arith) in
      let test = is_zero_lem _ (n / radix) q.normal q.quotient in
      elim (Bool-cases (n / radix == 0)) [
        | inl z ↦ rw (test, z) (one_digit n _ q.remainder (ground arith))
        | inr z ↦
            rw (test, z)
              (more_digits n _ _ q.remainder (
                print_bignum_aux_lem fuel (n / radix) _ q.normal q.quotient
                  (quotient-lt n radix fuel low l)))
      ]

-- What the characters stand for, with a sign in front or none.
abbrev pub read_int : ℕ → List ℕ → ℤ
read_int radix [] = pos 0
read_int radix (c ∷ cs) =
    if c == b'-' then pos 0 -ℤ pos (read_from radix 0 cs) else pos (read_from radix 0 (c ∷ cs))

digit_char-ge : (r : ℕ) → b'0' ≤ digit_char r
unfolding digit_char
digit_char-ge r = ground arith

read_int-digits :
    (radix : ℕ) (cs : List ℕ) → AreDigits radix cs → read_int radix cs ≡ pos (read_from radix 0 cs)
read_int-digits radix [] h = refl
read_int-digits radix (c ∷ cs) h = ground (arith, digit_char-ge (char_value c), h.0.1)

negative : (v : ℤ) → v <ℤ pos 0 → pos 0 -ℤ v ≡ pos (neg_part v)
negative v h = omega (int_laws, one_part v)

negative' : (v : ℤ) → v <ℤ pos 0 → pos 0 -ℤ pos (neg_part v) ≡ v
negative' v h = omega (int_laws, one_part v)

positive : (v : ℤ) → pos 0 ≤ℤ v → v ≡ pos (pos_part v)
positive v h = omega (int_laws, one_part v)

below : (x : List ℕ) → sign x ≡ true → IsBytes x → bignum_int x <ℤ pos 0
below x s h = rw (bignum_int_lem x, s) (sign_neg x h)

above : (x : List ℕ) → sign x ≡ false → pos 0 ≤ℤ bignum_int x
above x s = rw (bignum_int_lem x, s) (sign_pos x)

-- `print_bignum` prints, in a radix from 2 to 36, characters that read back as the integer. Its
-- recursion is as deep as the magnitude has bits, at most.
pub print_bignum_lem :
    (radix fuel : ℕ) (x : List ℕ)
    → 2 ≤ radix
    → radix ≤ 36
    → IsBignum x
    → pos_part (bignum_int x) + neg_part (bignum_int x) < 2 ^ fuel
    → (cs : List ℕ) × (print_bignum (suc fuel) x radix ≡ some cs)
      × (read_int radix cs ≡ bignum_int x)
unfolding print_bignum
print_bignum_lem radix fuel x low high h l = elim (Bool-cases (sign x)) [
  | inl s ↦
      let value : bignum_int (negate_bignum x) ≡ pos (neg_part (bignum_int x)) =
        negate_bignum_int x h.bytes ∙ negative (bignum_int x) (below x s h.bytes) in
      let p =
        print_bignum_aux_lem radix low high fuel (neg_part (bignum_int x)) (negate_bignum x)
          (sums-IsBignum x x).2 value (omega arith) in
      rw s (
        b'-' ∷ p.text,
        rw p.returns refl,
        rw p.reads (negative' (bignum_int x) (below x s h.bytes)),
      )
  | inr s ↦
      let value = positive (bignum_int x) (above x s) in
      let p =
        print_bignum_aux_lem radix low high fuel (pos_part (bignum_int x)) x h value
          (omega arith) in
      rw s (p.text, p.returns, read_int-digits radix p.text p.digits ∙ ap pos p.reads ∙ sym value)
]
