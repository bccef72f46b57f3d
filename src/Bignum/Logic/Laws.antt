-- ===== src/Bignum/Logic/Laws.antt =====
-- What the logical operations on extended integers of mindy/interp/num.c do to bits and values.
use gwydion_2_4_cleanup.Prelude.{
  ℕ, zero, suc, ◌%◌, ◌/◌, ◌<◌, ◌≤◌, ◌≡◌, refl, sym, ap, ap₂, ◌∙◌, List, [], ◌∷◌, map, Bool, true,
  false, ◌&&◌, ◌||◌, not, inl, inr, leb, length, get_or, Bool-cases, arith,
}
use gwydion_2_4_cleanup.Prelude.Int.{ℤ, pos, negsuc, push_parts, int_laws, ◌-ℤ◌}
use gwydion_2_4_cleanup.Bignum.Digits.{
  sign, sign_bit, pad_of, pad_lem, IsBytes, ext_int, bignum_int, bignum_int_lem, sign-single,
  sign-cons, sign_bit-pad_of,
}
use gwydion_2_4_cleanup.Bignum.Normal.{normalize_bignum, normalize_bignum_int}
use gwydion_2_4_cleanup.Bignum.Normal.Padding.{get_or-normalize_bignum}
use gwydion_2_4_cleanup.Bignum.Logic.{
  bit, bitwise, logic_loop, xor, ei_logior, ei_logxor, ei_logand, ei_lognot, ei_logbitp, complement,
}
use gwydion_2_4_cleanup.Bignum.Logic.Bits.{bit-bitwise, bit-sign, bit-pad}

get_or-past : (ds : List ℕ) (i : ℕ) (p : ℕ) → length ds ≤ i → get_or ds i p ≡ p
get_or-past [] i p h = refl
get_or-past (d ∷ ds) zero p h = absurd (omega arith)
get_or-past (d ∷ ds) (suc i) p h = get_or-past ds i p (omega arith)

get_or-within : (ds : List ℕ) (i : ℕ) (p q : ℕ) → i < length ds → get_or ds i p ≡ get_or ds i q
get_or-within [] i p q h = absurd (omega arith)
get_or-within (d ∷ ds) zero p q h = refl
get_or-within (d ∷ ds) (suc i) p q h = get_or-within ds i p q (omega arith)

get_or-default :
    (ds : List ℕ) (i k p q : ℕ) → bit k p ≡ bit k q → bit k (get_or ds i p) ≡ bit k (get_or ds i q)
get_or-default [] i k p q h = h
get_or-default (d ∷ ds) zero k p q h = refl
get_or-default (d ∷ ds) (suc i) k p q h = get_or-default ds i k p q h

-- A bit of a number is that of its digits with the pad above them.
ei_logbitp_lem :
    (i : ℕ) (x : List ℕ) → ei_logbitp (pos i) x ≡ bit (i % 8) (get_or x (i / 8) (pad_of (sign x)))
unfolding ei_logbitp
ei_logbitp_lem i x = elim (Bool-cases (leb (length x) (i / 8))) [
  | inl e ↦ rw e (
      sym (
        ap (bit (i % 8)) (get_or-past x (i / 8) (pad_of (sign x)) (ground arith))
        ∙ bit-pad (i % 8) (sign x) (omega arith)))
  | inr e ↦ rw e (ap (bit (i % 8)) (get_or-within x (i / 8) 0 (pad_of (sign x)) (ground arith)))
]

-- The sign after the digits `ds`, where it was `s` before them.
sign_after : Bool → List ℕ → Bool
sign_after s [] = s
sign_after s (d ∷ ds) = sign_after (sign_bit d) ds

sign_after_lem : (d : ℕ) (ds : List ℕ) → sign (d ∷ ds) ≡ sign_after (sign_bit d) ds
unfolding sign_after
sign_after_lem d [] = sign-single d
sign_after_lem d (e ∷ ds) = sign-cons d e ds ∙ sign_after_lem e ds

module _ (f : Bool → Bool → Bool) where
  sign_bit-bitwise : (a b : ℕ) → sign_bit (bitwise f 8 a b) ≡ f (sign_bit a) (sign_bit b)
  sign_bit-bitwise a b =
      sym (bit-sign (bitwise f 8 a b))
      ∙ bit-bitwise f 8 7 a b (omega arith)
      ∙ ap₂ f (bit-sign a) (bit-sign b)

  get_or-logic_loop :
      (p q : ℕ) (xs ys : List ℕ) (i k : ℕ)
      → k < 8
      → bit k (get_or (logic_loop f p q xs ys) i (bitwise f 8 p q))
        ≡ f (bit k (get_or xs i p)) (bit k (get_or ys i q))
  unfolding logic_loop
  get_or-logic_loop p q [] [] i k h = bit-bitwise f 8 k p q h
  get_or-logic_loop p q [] (y ∷ ys) zero k h = bit-bitwise f 8 k p y h
  get_or-logic_loop p q [] (y ∷ ys) (suc i) k h = get_or-logic_loop p q [] ys i k h
  get_or-logic_loop p q (x ∷ xs) [] zero k h = bit-bitwise f 8 k x q h
  get_or-logic_loop p q (x ∷ xs) [] (suc i) k h = get_or-logic_loop p q xs [] i k h
  get_or-logic_loop p q (x ∷ xs) (y ∷ ys) zero k h = bit-bitwise f 8 k x y h
  get_or-logic_loop p q (x ∷ xs) (y ∷ ys) (suc i) k h = get_or-logic_loop p q xs ys i k h

  sign_after-logic_loop :
      (p q : ℕ) (s t : Bool) (xs ys : List ℕ)
      → sign_after s xs ≡ sign_bit p
      → sign_after t ys ≡ sign_bit q
      → sign_after (f s t) (logic_loop f p q xs ys) ≡ f (sign_bit p) (sign_bit q)
  unfolding logic_loop sign_after
  sign_after-logic_loop p q s t [] [] h k = ap₂ f h k
  sign_after-logic_loop p q s t [] (y ∷ ys) h k =
      ap (λ (u : Bool). sign_after u (logic_loop f p q [] ys)) (sign_bit-bitwise p y)
      ∙ sign_after-logic_loop p q (sign_bit p) (sign_bit y) [] ys refl k
  sign_after-logic_loop p q s t (x ∷ xs) [] h k =
      ap (λ (u : Bool). sign_after u (logic_loop f p q xs [])) (sign_bit-bitwise x q)
      ∙ sign_after-logic_loop p q (sign_bit x) (sign_bit q) xs [] h refl
  sign_after-logic_loop p q s t (x ∷ xs) (y ∷ ys) h k =
      ap (λ (u : Bool). sign_after u (logic_loop f p q xs ys)) (sign_bit-bitwise x y)
      ∙ sign_after-logic_loop p q (sign_bit x) (sign_bit y) xs ys h k

  -- The pad is of the sign that the digits end with.
  sign_after-pad : (ds : List ℕ) → sign_after false ds ≡ sign_bit (pad_of (sign ds))
  unfolding sign_after sign
  sign_after-pad [] = refl
  sign_after-pad (d ∷ ds) = sym (sign_after_lem d ds) ∙ sym (sign_bit-pad_of (sign (d ∷ ds)))

  sign_after-sign : (ds : List ℕ) → sign_after false ds ≡ sign ds
  unfolding sign_after sign
  sign_after-sign [] = refl
  sign_after-sign (d ∷ ds) = sym (sign_after_lem d ds)

  module _ (keeps_false : f false false ≡ false) (x y : List ℕ) where
    abbrev looped : List ℕ
    looped = logic_loop f (pad_of (sign x)) (pad_of (sign y)) x y

    sign-logic_loop : sign looped ≡ f (sign x) (sign y)
    sign-logic_loop =
        sym (sign_after-sign looped)
        ∙ ap (λ (u : Bool). sign_after u looped) (sym keeps_false)
        ∙ sign_after-logic_loop (pad_of (sign x)) (pad_of (sign y)) false false x y
            (sign_after-pad x) (sign_after-pad y)
        ∙ ap₂ f (sign_bit-pad_of (sign x)) (sign_bit-pad_of (sign y))

    pads :
        (k : ℕ)
        → k < 8
        → bit k (pad_of (sign looped)) ≡ bit k (bitwise f 8 (pad_of (sign x)) (pad_of (sign y)))
    pads k h =
        bit-pad k (sign looped) h
        ∙ sign-logic_loop
        ∙ sym (
            bit-bitwise f 8 k (pad_of (sign x)) (pad_of (sign y)) h
            ∙ ap₂ f (bit-pad k (sign x) h) (bit-pad k (sign y) h))

    logic_bit :
        (i : ℕ)
        → ei_logbitp (pos i) (normalize_bignum looped)
          ≡ f (ei_logbitp (pos i) x) (ei_logbitp (pos i) y)
    logic_bit i =
        ei_logbitp_lem i (normalize_bignum looped)
        ∙ ap (bit (i % 8)) (get_or-normalize_bignum looped (i / 8))
        ∙ get_or-default looped (i / 8) (i % 8) (pad_of (sign looped))
            (bitwise f 8 (pad_of (sign x)) (pad_of (sign y))) (pads (i % 8) (omega arith))
        ∙ get_or-logic_loop (pad_of (sign x)) (pad_of (sign y)) x y (i / 8) (i % 8) (omega arith)
        ∙ sym (ap₂ f (ei_logbitp_lem i x) (ei_logbitp_lem i y))

-- A bit of the inclusive or, the exclusive or and the conjunction of two extended integers is that
-- of their bits, at every index and for all lengths and signs; past the digits a bit is the sign,
-- and at a negative index it is 0.
pub logic_bits :
    (x y : List ℕ) (i : ℤ)
    → (ei_logbitp i (ei_logior x y) ≡ ei_logbitp i x || ei_logbitp i y)
      × (ei_logbitp i (ei_logxor x y) ≡ xor (ei_logbitp i x) (ei_logbitp i y))
      × (ei_logbitp i (ei_logand x y) ≡ ei_logbitp i x && ei_logbitp i y)
unfolding ei_logior ei_logxor ei_logand
logic_bits x y (pos i) =
    rw (pad_lem x, pad_lem y)
      (
        logic_bit (λ a b. a || b) refl x y i,
        logic_bit xor refl x y i,
        logic_bit (λ a b. a && b) refl x y i,
      )
logic_bits x y (negsuc i) = unfold ei_logbitp in (refl, refl, refl)

ext_int-complement :
    (s : Bool) (ds : List ℕ)
    → IsBytes ds
    → ext_int (not s) (map complement ds) ≡ negsuc 0 -ℤ ext_int s ds
ext_int-complement true [] h = unfold ◌-ℤ◌ in refl
ext_int-complement false [] h = unfold ◌-ℤ◌ in refl
ext_int-complement s (d ∷ ds) h =
    rw (ext_int-complement s ds h.1) (omega (int_laws, push_parts, h.0))

sign-complement :
    (d : ℕ) (ds : List ℕ) → IsBytes (d ∷ ds) → sign (map complement (d ∷ ds)) ≡ not (sign (d ∷ ds))
sign-complement d [] h = sign-single (complement d) ∙ rw (sign-single d) (ground (arith, h.0))
sign-complement d (e ∷ ds) h =
    sign-cons (complement d) (complement e) (map complement ds)
    ∙ sign-complement e ds h.1
    ∙ ap not (sym (sign-cons d e ds))

-- The complement of an extended integer, which has a digit at least, stands for -1 less its integer.
pub ei_lognot_int :
    (d : ℕ) (ds : List ℕ)
    → IsBytes (d ∷ ds)
    → bignum_int (ei_lognot (d ∷ ds)) ≡ negsuc 0 -ℤ bignum_int (d ∷ ds)
unfolding ei_lognot
ei_lognot_int d ds h =
    normalize_bignum_int _
    ∙ bignum_int_lem (map complement (d ∷ ds))
    ∙ ap (λ (s : Bool). ext_int s (map complement (d ∷ ds))) (sign-complement d ds h)
    ∙ ext_int-complement (sign (d ∷ ds)) (d ∷ ds) h
    ∙ ap (λ (z : ℤ). negsuc 0 -ℤ z) (sym (bignum_int_lem (d ∷ ds)))
