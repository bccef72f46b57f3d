-- ===== src/Bignum/Sum/Laws.antt =====
-- The sums, differences and negations of mindy/interp/num.c are those of the integers.
use gwydion_2_4_cleanup.Prelude.{
  ℕ, ◌+◌, ◌%◌, ◌/◌, ◌≤◌, ◌<◌, ◌≡◌, refl, List, [], ◌∷◌, Bool, false, arith, ◌∙◌, ap,
}
use gwydion_2_4_cleanup.Prelude.Int.{ℤ, pos, ◌+ℤ◌, ◌-ℤ◌, push, push_parts, int_laws}
use gwydion_2_4_cleanup.Bignum.Digits.{
  pad, pad_of, sign, ext_int, bignum_int, bignum_int-cons, IsBytes, ext_int-pad, bignum_int_lem,
  pad_lem,
}
use gwydion_2_4_cleanup.Bignum.Normal.{normalize_bignum, normalize_bignum_int}
use gwydion_2_4_cleanup.Bignum.Normal.Minimal.{IsBignum, normalize_bignum-IsBignum}
use gwydion_2_4_cleanup.Bignum.Sum.{
  add_loop, add_bignums, subtract_loop, subtract_bignums, negate_loop, negate_bignum, difference,
}

abbrev IsStored : List ℕ → Type 0
IsStored ds = (e : ℕ) × (es : List ℕ) × (ds ≡ e ∷ es)

bignum_int-push : (d : ℕ) (ds : List ℕ) → IsStored ds → bignum_int (d ∷ ds) ≡ push d (bignum_int ds)
bignum_int-push d ds (e, es, h) = rw h (bignum_int-cons d e es)

-- A loop stores at least one digit.
add_loop-IsStored : (p q : ℕ) (xs ys : List ℕ) (c : ℕ) → IsStored (add_loop p q xs ys c)
unfolding add_loop
add_loop-IsStored p q [] [] c = (_, _, refl)
add_loop-IsStored p q [] (y ∷ ys) c = (_, _, refl)
add_loop-IsStored p q (x ∷ xs) [] c = (_, _, refl)
add_loop-IsStored p q (x ∷ xs) (y ∷ ys) c = (_, _, refl)

subtract_loop-IsStored : (p q : ℕ) (xs ys : List ℕ) (c : ℕ) → IsStored (subtract_loop p q xs ys c)
unfolding subtract_loop
subtract_loop-IsStored p q [] [] c = (_, _, refl)
subtract_loop-IsStored p q [] (y ∷ ys) c = (_, _, refl)
subtract_loop-IsStored p q (x ∷ xs) [] c = (_, _, refl)
subtract_loop-IsStored p q (x ∷ xs) (y ∷ ys) c = (_, _, refl)

negate_loop-IsStored : (p : ℕ) (xs : List ℕ) (c : ℕ) → IsStored (negate_loop p xs c)
unfolding negate_loop
negate_loop-IsStored p [] c = (_, _, refl)
negate_loop-IsStored p (x ∷ xs) c = (_, _, refl)

-- One round of a loop, on the integers.
add_round :
    (a b c : ℕ) (u v : ℤ) (rest : List ℕ)
    → IsStored rest
    → bignum_int rest ≡ u +ℤ v +ℤ pos ((a + b + c) / 256)
    → bignum_int (((a + b + c) % 256) ∷ rest) ≡ push a u +ℤ push b v +ℤ pos c
add_round a b c u v rest n e = bignum_int-push _ rest n ∙ rw e (omega (int_laws, push_parts))

subtract_round :
    (a b c : ℕ) (u v : ℤ) (rest : List ℕ)
    → a < 256
    → b < 256
    → c ≤ 1
    → IsStored rest
    → bignum_int rest ≡ u -ℤ v -ℤ pos (difference a b c / 256 % 2)
    → bignum_int ((difference a b c % 256) ∷ rest) ≡ push a u -ℤ push b v -ℤ pos c
subtract_round a b c u v rest ha hb hc n e =
    bignum_int-push _ rest n ∙ rw e (omega (int_laws, push_parts))

pad_of-lt : (s : Bool) → pad_of s < 256
pad_of-lt s = ground arith

module _ (s t : Bool) where
  add_loop_int :
      (xs ys : List ℕ) (c : ℕ)
      → c ≤ 1
      → IsBytes xs
      → IsBytes ys
      → bignum_int (add_loop (pad_of s) (pad_of t) xs ys c) ≡ ext_int s xs +ℤ ext_int t ys +ℤ pos c
  unfolding add_loop
  add_loop_int [] [] c h hx hy = unfold bignum_int sign push ◌+ℤ◌ in ground arith
  add_loop_int [] (y ∷ ys) c h hx hy =
      (add_round (pad_of s) y c _ (ext_int t ys) _ (add_loop-IsStored _ _ [] ys _)
          (add_loop_int [] ys ((pad_of s + y + c) / 256) (omega (arith, pad_of-lt s)) tt hy.1)
        ∙ ap (λ (z : ℤ). z +ℤ push y (ext_int t ys) +ℤ pos c) (ext_int-pad s))
  add_loop_int (x ∷ xs) [] c h hx hy =
      (add_round x (pad_of t) c (ext_int s xs) _ _ (add_loop-IsStored _ _ xs [] _)
          (add_loop_int xs [] ((x + pad_of t + c) / 256) (omega (arith, pad_of-lt t)) hx.1 tt)
        ∙ ap (λ (z : ℤ). push x (ext_int s xs) +ℤ z +ℤ pos c) (ext_int-pad t))
  add_loop_int (x ∷ xs) (y ∷ ys) c h hx hy =
      add_round x y c (ext_int s xs) (ext_int t ys) _ (add_loop-IsStored _ _ xs ys _)
        (add_loop_int xs ys ((x + y + c) / 256) (omega arith) hx.1 hy.1)

  subtract_loop_int :
      (xs ys : List ℕ) (c : ℕ)
      → c ≤ 1
      → IsBytes xs
      → IsBytes ys
      → bignum_int (subtract_loop (pad_of s) (pad_of t) xs ys c)
        ≡ ext_int s xs -ℤ ext_int t ys -ℤ pos c
  unfolding subtract_loop
  subtract_loop_int [] [] c h hx hy = unfold bignum_int sign push ◌-ℤ◌ in ground arith
  subtract_loop_int [] (y ∷ ys) c h hx hy =
      (subtract_round (pad_of s) y c _ (ext_int t ys) _ (pad_of-lt s) hy.0 h
          (subtract_loop-IsStored _ _ [] ys _)
          (subtract_loop_int [] ys (difference (pad_of s) y c / 256 % 2) (omega arith) tt hy.1)
        ∙ ap (λ (z : ℤ). z -ℤ push y (ext_int t ys) -ℤ pos c) (ext_int-pad s))
  subtract_loop_int (x ∷ xs) [] c h hx hy =
      (subtract_round x (pad_of t) c (ext_int s xs) _ _ hx.0 (pad_of-lt t) h
          (subtract_loop-IsStored _ _ xs [] _)
          (subtract_loop_int xs [] (difference x (pad_of t) c / 256 % 2) (omega arith) hx.1 tt)
        ∙ ap (λ (z : ℤ). push x (ext_int s xs) -ℤ z -ℤ pos c) (ext_int-pad t))
  subtract_loop_int (x ∷ xs) (y ∷ ys) c h hx hy =
      subtract_round x y c (ext_int s xs) (ext_int t ys) _ hx.0 hy.0 h
        (subtract_loop-IsStored _ _ xs ys _)
        (subtract_loop_int xs ys (difference x y c / 256 % 2) (omega arith) hx.1 hy.1)

-- Negation is subtraction from nothing but pads of 0.
negate_loop-eq : (p c : ℕ) (xs : List ℕ) → negate_loop p xs c ≡ subtract_loop 0 p [] xs c
unfolding negate_loop subtract_loop
negate_loop-eq p c [] = refl
negate_loop-eq p c (x ∷ xs) = rw (negate_loop-eq p (difference 0 x c / 256 % 2) xs)

-- The sum of two lists of bytes as bignums stands for the sum of their integers: no carry is lost
-- at the top, whatever the lengths and signs.
pub add_bignums_int :
    (x y : List ℕ)
    → IsBytes x
    → IsBytes y
    → bignum_int (add_bignums x y) ≡ bignum_int x +ℤ bignum_int y
unfolding add_bignums
add_bignums_int x y hx hy =
    normalize_bignum_int _
    ∙ rw (pad_lem x, pad_lem y, bignum_int_lem x, bignum_int_lem y)
        (add_loop_int (sign x) (sign y) x y 0 (omega arith) hx hy ∙ omega int_laws)

-- The difference of two lists of bytes as bignums stands for the difference of their integers.
pub subtract_bignums_int :
    (x y : List ℕ)
    → IsBytes x
    → IsBytes y
    → bignum_int (subtract_bignums x y) ≡ bignum_int x -ℤ bignum_int y
unfolding subtract_bignums
subtract_bignums_int x y hx hy =
    normalize_bignum_int _
    ∙ rw (pad_lem x, pad_lem y, bignum_int_lem x, bignum_int_lem y)
        (subtract_loop_int (sign x) (sign y) x y 0 (omega arith) hx hy ∙ omega int_laws)

-- The negation of a bignum stands for its integer's negation, that of the least one of a length too.
pub negate_bignum_int :
    (x : List ℕ) → IsBytes x → bignum_int (negate_bignum x) ≡ pos 0 -ℤ bignum_int x
unfolding negate_bignum
negate_bignum_int x hx =
    normalize_bignum_int _
    ∙ rw (pad_lem x, negate_loop-eq (pad_of (sign x)) 0 x, bignum_int_lem x)
        (subtract_loop_int false (sign x) [] x 0 (omega arith) tt hx ∙ omega int_laws)

add_loop-IsBytes : (p q : ℕ) (xs ys : List ℕ) (c : ℕ) → IsBytes (add_loop p q xs ys c)
unfolding add_loop
add_loop-IsBytes p q [] [] c = (omega arith, tt)
add_loop-IsBytes p q [] (y ∷ ys) c = (omega arith, add_loop-IsBytes p q [] ys _)
add_loop-IsBytes p q (x ∷ xs) [] c = (omega arith, add_loop-IsBytes p q xs [] _)
add_loop-IsBytes p q (x ∷ xs) (y ∷ ys) c = (omega arith, add_loop-IsBytes p q xs ys _)

subtract_loop-IsBytes : (p q : ℕ) (xs ys : List ℕ) (c : ℕ) → IsBytes (subtract_loop p q xs ys c)
unfolding subtract_loop
subtract_loop-IsBytes p q [] [] c = (omega arith, tt)
subtract_loop-IsBytes p q [] (y ∷ ys) c = (omega arith, subtract_loop-IsBytes p q [] ys _)
subtract_loop-IsBytes p q (x ∷ xs) [] c = (omega arith, subtract_loop-IsBytes p q xs [] _)
subtract_loop-IsBytes p q (x ∷ xs) (y ∷ ys) c = (omega arith, subtract_loop-IsBytes p q xs ys _)

stored-IsBignum : (ds : List ℕ) → IsStored ds → IsBytes ds → IsBignum (normalize_bignum ds)
stored-IsBignum [] (e, es, q) h = cc
stored-IsBignum (d ∷ ds) n h = normalize_bignum-IsBignum d ds h

-- Sums, differences and negations are bytes with no redundant digit, whatever the operands are.
pub sums-IsBignum :
    (x y : List ℕ)
    → IsBignum (add_bignums x y) × IsBignum (subtract_bignums x y) × IsBignum (negate_bignum x)
unfolding add_bignums subtract_bignums negate_bignum
sums-IsBignum x y = (
  stored-IsBignum _ (add_loop-IsStored _ _ x y 0) (add_loop-IsBytes _ _ x y 0),
  stored-IsBignum _ (subtract_loop-IsStored _ _ x y 0) (subtract_loop-IsBytes _ _ x y 0),
  rw (negate_loop-eq (pad x) 0 x) (
      stored-IsBignum _ (subtract_loop-IsStored 0 (pad x) [] x 0)
        (subtract_loop-IsBytes 0 (pad x) [] x 0)),
)
