-- ===== src/Bignum/Compare/Laws.antt =====
-- `compare_bignums` of mindy/interp/num.c orders bignums as their integers are ordered.
use gwydion_2_4_cleanup.Prelude.{
  ℕ, zero, suc, ◌<◌, ◌≡◌, refl, List, [], ◌∷◌, Bool, true, false, arith, ap, length, ◌≢◌,
  Bool-cases, inl, inr, ltb, ltb→lt, if◌then◌else◌, ap₂,
}
use gwydion_2_4_cleanup.Prelude.Int.{
  ℤ, pos, negsuc, ◌≤ℤ◌, ◌<ℤ◌, push, push_parts, int_laws, sub_ℕ, pos_part, neg_part,
}
use gwydion_2_4_cleanup.Bignum.Digits.{
  sign, ext_int, ext_int-pad, bignum_int, bignum_int_lem, IsBytes,
}
use gwydion_2_4_cleanup.Bignum.Normal.Minimal.{IsMinimal, IsBignum}
use gwydion_2_4_cleanup.Bignum.Compare.{compare_digit, compare_digits, compare_bignums}

-- The sign of `r` tells how `a` and `b` are ordered.
pub record Agrees (r a b : ℤ) : Type 0 where
  pub less : r <ℤ pos 0 → a <ℤ b
  pub equal : r ≡ pos 0 → a ≡ b
  pub greater : pos 0 <ℤ r → b <ℤ a

push_lt : (d e : ℕ) (u v : ℤ) → d < 256 → u <ℤ v → push d u <ℤ push e v
push_lt d e u v h l = omega (int_laws, push_parts)

sub_ℕ-Agrees : (x y : ℕ) → Agrees (sub_ℕ x y) (pos x) (pos y)
sub_ℕ-Agrees x y = record {
  less = λ l. ground arith;
  equal = λ q. ground arith;
  greater = λ l. ground arith;
}

compare_digit-Agrees :
    (r : ℤ) (x y : ℕ) (u v : ℤ)
    → x < 256
    → y < 256
    → Agrees r u v
    → Agrees (compare_digit r x y) (push x u) (push y v)
unfolding compare_digit
compare_digit-Agrees (pos zero) x y u v hx hy h =
    let e : u ≡ v = h.equal refl in
    let d = sub_ℕ-Agrees x y in
    rw e record {
      less = λ l. omega (arith, push_parts x v, push_parts y v, d.less l);
      equal = λ q. omega (int_laws, push_parts, ap pos_part (d.equal q));
      greater = λ l. omega (arith, push_parts x v, push_parts y v, d.greater l);
    }
compare_digit-Agrees (pos (suc n)) x y u v hx hy h = record {
  less = λ l. absurd (omega arith);
  equal = λ q. absurd (omega (arith, ap pos_part q));
  greater = λ l. push_lt y x v u hy (h.greater l);
}
compare_digit-Agrees (negsuc n) x y u v hx hy h = record {
  less = λ l. push_lt x y u v hx (h.less l);
  equal = λ q. absurd (omega (arith, ap neg_part q));
  greater = λ l. absurd (omega arith);
}

compare_digits-Agrees :
    (s : Bool) (xs ys : List ℕ)
    → length xs ≡ length ys
    → IsBytes xs
    → IsBytes ys
    → Agrees (compare_digits xs ys) (ext_int s xs) (ext_int s ys)
unfolding compare_digits
compare_digits-Agrees s [] [] e hx hy = record {
  less = λ l. absurd (omega arith);
  equal = λ q. refl;
  greater = λ l. absurd (omega arith);
}
compare_digits-Agrees s [] (y ∷ ys) e hx hy = absurd (omega arith)
compare_digits-Agrees s (x ∷ xs) [] e hx hy = absurd (omega arith)
compare_digits-Agrees s (x ∷ xs) (y ∷ ys) e hx hy =
    compare_digit-Agrees _ x y _ _ hx.0 hy.0 (compare_digits-Agrees s xs ys (omega arith) hx.1 hy.1)

-- Of two numbers that are not negative, the longer one is greater if it is minimal.
pub longer_pos :
    (xs : List ℕ) (y : ℕ) (ys : List ℕ)
    → IsMinimal xs
    → length (y ∷ ys) < length xs
    → IsBytes xs
    → IsBytes (y ∷ ys)
    → sign xs ≡ false
    → sign (y ∷ ys) ≡ false
    → ext_int false (y ∷ ys) <ℤ ext_int false xs
unfolding sign
longer_pos [] y ys m l hx hy sx sy = absurd m
longer_pos (x ∷ []) y ys m l hx hy sx sy = absurd (omega arith)
longer_pos (x ∷ e ∷ []) y [] m l hx hy sx sy = unfold push in ground arith
longer_pos (x ∷ e ∷ []) y (z ∷ zs) m l hx hy sx sy = absurd (omega arith)
longer_pos (x ∷ e ∷ f ∷ fs) y [] m l hx hy sx sy = push_lt y x (pos 0) _ hy.0 (
    rw (ext_int-pad false) at
      (longer_pos (e ∷ f ∷ fs) 0 [] m (omega arith) hx.1 (omega arith) sx refl))
longer_pos (x ∷ e ∷ f ∷ fs) y (z ∷ zs) m l hx hy sx sy =
    push_lt y x _ _ hy.0 (longer_pos (e ∷ f ∷ fs) z zs m (omega arith) hx.1 hy.1 sx sy)

-- Of two negative numbers, the longer one is less if it is minimal.
longer_neg :
    (xs : List ℕ) (y : ℕ) (ys : List ℕ)
    → IsMinimal xs
    → length (y ∷ ys) < length xs
    → IsBytes xs
    → IsBytes (y ∷ ys)
    → sign xs ≡ true
    → sign (y ∷ ys) ≡ true
    → ext_int true xs <ℤ ext_int true (y ∷ ys)
unfolding sign
longer_neg [] y ys m l hx hy sx sy = absurd m
longer_neg (x ∷ []) y ys m l hx hy sx sy = absurd (omega arith)
longer_neg (x ∷ e ∷ []) y [] m l hx hy sx sy = unfold push in ground arith
longer_neg (x ∷ e ∷ []) y (z ∷ zs) m l hx hy sx sy = absurd (omega arith)
longer_neg (x ∷ e ∷ f ∷ fs) y [] m l hx hy sx sy = push_lt x y _ (negsuc 0) hx.0 (
    rw (ext_int-pad true) at
      (longer_neg (e ∷ f ∷ fs) 255 [] m (omega arith) hx.1 (omega arith) sx refl))
longer_neg (x ∷ e ∷ f ∷ fs) y (z ∷ zs) m l hx hy sx sy =
    push_lt x y _ _ hx.0 (longer_neg (e ∷ f ∷ fs) z zs m (omega arith) hx.1 hy.1 sx sy)

-- The sign bit is the integer's sign.
pub sign_pos : (xs : List ℕ) → pos 0 ≤ℤ ext_int false xs
sign_pos [] = omega arith
sign_pos (x ∷ xs) = omega (arith, push_parts, sign_pos xs)

pub sign_neg : (xs : List ℕ) → IsBytes xs → ext_int true xs <ℤ pos 0
sign_neg [] h = omega arith
sign_neg (x ∷ xs) h = omega (arith, push_parts, sign_neg xs h.1)

module _ (x y : List ℕ) (hx : IsBignum x) (hy : IsBignum y) where
  same_length :
      (s : Bool) → length x ≡ length y → Agrees (compare_digits x y) (ext_int s x) (ext_int s y)
  same_length s e = compare_digits-Agrees s x y e hx.bytes hy.bytes

Agrees-less : (a b : ℤ) → a <ℤ b → Agrees (negsuc 0) a b
Agrees-less a b h = record {
  less = λ l. h;
  equal = λ q. absurd (omega (arith, ap neg_part q));
  greater = λ l. absurd (omega arith);
}

Agrees-greater : (a b : ℤ) → b <ℤ a → Agrees (pos 1) a b
Agrees-greater a b h = record {
  less = λ l. absurd (omega arith);
  equal = λ q. absurd (omega (arith, ap pos_part q));
  greater = λ l. h;
}

-- With two minimal numbers of one sign `s`, the lengths decide, unless they are equal.
longer :
    (s : Bool) (xs ys : List ℕ)
    → IsBignum xs
    → IsBignum ys
    → sign xs ≡ s
    → sign ys ≡ s
    → length ys < length xs
    → if s then ext_int s xs <ℤ ext_int s ys else ext_int s ys <ℤ ext_int s xs
longer s xs [] hx hy sx sy l = absurd hy.minimal
longer true xs (y ∷ ys) hx hy sx sy l = longer_neg xs y ys hx.minimal l hx.bytes hy.bytes sx sy
longer false xs (y ∷ ys) hx hy sx sy l = longer_pos xs y ys hx.minimal l hx.bytes hy.bytes sx sy

module _ (x y : List ℕ) (hx : IsBignum x) (hy : IsBignum y) where
  both_pos :
      sign x ≡ false
      → sign y ≡ false
      → Agrees
          (if ltb (length y) (length x)
            then pos 1
            else (if ltb (length x) (length y) then negsuc 0 else compare_digits x y))
          (ext_int false x)
          (ext_int false y)
  both_pos sx sy = elim (Bool-cases (ltb (length y) (length x))) [
    | inl l ↦ rw l (Agrees-greater _ _ (longer false x y hx hy sx sy (ltb→lt _ _ l)))
    | inr l ↦ rw l (elim (Bool-cases (ltb (length x) (length y))) [
      | inl k ↦ rw k (Agrees-less _ _ (longer false y x hy hx sy sx (ltb→lt _ _ k)))
      | inr k ↦ rw k (same_length x y hx hy false (ground arith))
    ])
  ]

  both_neg :
      sign x ≡ true
      → sign y ≡ true
      → Agrees
          (if ltb (length y) (length x)
            then negsuc 0
            else (if ltb (length x) (length y) then pos 1 else compare_digits x y))
          (ext_int true x)
          (ext_int true y)
  both_neg sx sy = elim (Bool-cases (ltb (length y) (length x))) [
    | inl l ↦ rw l (Agrees-less _ _ (longer true x y hx hy sx sy (ltb→lt _ _ l)))
    | inr l ↦ rw l (elim (Bool-cases (ltb (length x) (length y))) [
      | inl k ↦ rw k (Agrees-greater _ _ (longer true y x hy hx sy sx (ltb→lt _ _ k)))
      | inr k ↦ rw k (same_length x y hx hy true (ground arith))
    ])
  ]

-- `compare_bignums` is negative, zero or positive as the first integer is less than the second,
-- equal to it or greater.
pub compare_bignums-Agrees :
    (x y : List ℕ)
    → IsBignum x
    → IsBignum y
    → Agrees (compare_bignums x y) (bignum_int x) (bignum_int y)
unfolding compare_bignums
compare_bignums-Agrees x y hx hy =
    rw (bignum_int_lem x, bignum_int_lem y)
      (elim (Bool-cases (sign x)) [
        | inl sx ↦ elim (Bool-cases (sign y)) [
          | inl sy ↦ rw (sx, sy) (both_neg x y hx hy sx sy)
          | inr sy ↦ rw (sx, sy) (Agrees-less _ _ (omega (arith, sign_neg x hx.bytes, sign_pos y)))
        ]
        | inr sx ↦ elim (Bool-cases (sign y)) [
          | inl sy ↦
              rw (sx, sy) (Agrees-greater _ _ (omega (arith, sign_pos x, sign_neg y hy.bytes)))
          | inr sy ↦ rw (sx, sy) (both_pos x y hx hy sx sy)
        ]
      ])

sub_ℕ-eq-zero : (x y : ℕ) → sub_ℕ x y ≡ pos 0 → x ≡ y
sub_ℕ-eq-zero x y h = ground arith

compare_digit-eq-zero : (r : ℤ) (x y : ℕ) → compare_digit r x y ≡ pos 0 → (r ≡ pos 0) × (x ≡ y)
unfolding compare_digit
compare_digit-eq-zero (pos zero) x y h = (refl, sub_ℕ-eq-zero x y h)
compare_digit-eq-zero (pos (suc n)) x y h = absurd (omega (arith, ap pos_part h))
compare_digit-eq-zero (negsuc n) x y h = absurd (omega (arith, ap neg_part h))

compare_digits-eq-zero : (x y : List ℕ) → length x ≡ length y → compare_digits x y ≡ pos 0 → x ≡ y
unfolding compare_digits
compare_digits-eq-zero [] [] e h = refl
compare_digits-eq-zero [] (y ∷ ys) e h = absurd (omega arith)
compare_digits-eq-zero (x ∷ xs) [] e h = absurd (omega arith)
compare_digits-eq-zero (x ∷ xs) (y ∷ ys) e h =
    let (above, low) = compare_digit-eq-zero (compare_digits xs ys) x y h in
    ap₂ ◌∷◌ low (compare_digits-eq-zero xs ys (omega arith) above)

length_order :
    (m n : ℕ) (r : ℤ) (a b : ℤ)
    → a ≢ pos 0
    → b ≢ pos 0
    → (if ltb n m then a else (if ltb m n then b else r)) ≡ pos 0
    → (m ≡ n) × (r ≡ pos 0)
length_order m n r a b na nb h = ground arith

negsuc-ne-zero : (n : ℕ) → negsuc n ≢ pos 0
negsuc-ne-zero n h = cc

one-ne-zero : pos 1 ≢ pos 0
one-ne-zero h = omega (arith, ap pos_part h)

-- Only equal digits compare as 0.
pub compare_bignums-eq-zero : (x y : List ℕ) → compare_bignums x y ≡ pos 0 → x ≡ y
unfolding compare_bignums
compare_bignums-eq-zero x y h = elim (Bool-cases (sign x)) [
  | inl sx ↦ elim (Bool-cases (sign y)) [
    | inl sy ↦
        let (e, c) =
          length_order (length x) (length y) _ _ _ (negsuc-ne-zero 0) one-ne-zero
            (rw (sx, sy) at h) in
        compare_digits-eq-zero x y e c
    | inr sy ↦ absurd (negsuc-ne-zero 0 (rw (sx, sy) at h))
  ]
  | inr sx ↦ elim (Bool-cases (sign y)) [
    | inl sy ↦ absurd (one-ne-zero (rw (sx, sy) at h))
    | inr sy ↦
        let (e, c) =
          length_order (length x) (length y) _ _ _ one-ne-zero (negsuc-ne-zero 0)
            (rw (sx, sy) at h) in
        compare_digits-eq-zero x y e c
  ]
]

compare_digits_refl : (x : List ℕ) → compare_digits x x ≡ pos 0
unfolding compare_digits compare_digit
compare_digits_refl [] = refl
compare_digits_refl (x ∷ xs) = rw (compare_digits_refl xs) (ground arith)

pub compare_bignums_refl : (x : List ℕ) → compare_bignums x x ≡ pos 0
unfolding compare_bignums
compare_bignums_refl x = ground (arith, compare_digits_refl x)
