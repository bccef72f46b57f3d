-- ===== src/Bignum/Make/Laws.antt =====
-- `make_bignum` stays within its buffer, and it and `bignum_value` are inverse on a `long`.
use gwydion_2_4_cleanup.Prelude.{
  ℕ, zero, suc, ◌+◌, ◌-◌, ◌*◌, ◌/◌, ◌^◌, ◌≤◌, ◌<◌, ◌≡◌, refl, List, [], ◌∷◌, Bool, true, false,
  arith, ◌∙◌, sym, ap, Option, some, Bool-cases, inl, inr, eqb, ◌&&◌, if◌then◌else◌,
}
use mathlib.Core.Option
use native.Mathlib.Nat.{pow-suc, one-le-pow}
use gwydion_2_4_cleanup.Prelude.Int.{ℤ, pos, negsuc, push, push_parts, pos_part, neg_part, eqb_ℤ}
use gwydion_2_4_cleanup.Bignum.Digits.{
  sign_bit, sign, ext_int, ext_int-pad, bignum_int, bignum_int-cons, bignum_int_lem,
  bignum_int-single, sign-single, sign-cons, sign_bit-pad_of, IsBytes,
}
use gwydion_2_4_cleanup.Bignum.Normal.Minimal.{IsMinimal, IsBignum}
use gwydion_2_4_cleanup.Bignum.Make.{
  low_byte, shift_byte, make_loop, make_bignum, is_negative, value_bits, long_of_bits, bignum_value,
}

-- `v` is an integer of `k + 1` bytes in two's complement.
abbrev pub Fits : ℕ → ℤ → Type 0
Fits k v = (neg_part v ≤ 128 * 256 ^ k) × (pos_part v < 128 * 256 ^ k)

push-low_byte : (v : ℤ) → push (low_byte v) (shift_byte v) ≡ v
unfolding low_byte shift_byte push
push-low_byte v = ground arith

low_byte-lt : (v : ℤ) → low_byte v < 256
unfolding low_byte
low_byte-lt v = ground arith

shift_byte-Fits : (k : ℕ) (v : ℤ) → Fits (suc k) v → Fits k (shift_byte v)
unfolding shift_byte
shift_byte-Fits k (pos n) h = omega (arith, pow-suc 256 k)
shift_byte-Fits k (negsuc n) h = omega (arith, pow-suc 256 k, one-le-pow k 256)

is_negative-shift_byte : (v : ℤ) → is_negative (shift_byte v) ≡ is_negative v
unfolding shift_byte
is_negative-shift_byte (pos n) = refl
is_negative-shift_byte (negsuc n) = refl

-- What the loop leaves: it stops at the first digit that ends the number.
pub record IsMade (negative : Bool) (v : ℤ) (result : Option (List ℕ)) : Type 0 where
  pub digit : ℕ
  pub above : List ℕ
  pub returns : result ≡ some (digit ∷ above)
  pub value : bignum_int (digit ∷ above) ≡ v
  pub sign_is : sign (digit ∷ above) ≡ negative
  pub bytes : IsBytes (digit ∷ above)
  pub minimal : IsMinimal (digit ∷ above)

stop_lem :
    (negative : Bool) (v : ℤ)
    → is_negative v ≡ negative
    → Fits 0 v
    → (eqb_ℤ (shift_byte v) (ext_int negative []) && eqb (sign_bit (low_byte v)) negative) ≡ true
unfolding shift_byte low_byte
stop_lem negative (pos n) e h = ground arith
stop_lem negative (negsuc n) e h = ground arith

eqb_ℤ-eq : (a b : ℤ) → eqb_ℤ a b ≡ true → a ≡ b
eqb_ℤ-eq a b h = ground arith

test_refl : (u : ℤ) (b : Bool) → (eqb_ℤ u u && eqb b b) ≡ true
test_refl u b = ground arith

both : (a b : Bool) → (a && b) ≡ true → (a ≡ true) × (b ≡ true)
both a b h = ground arith

eqb-true : (a b : Bool) → eqb a b ≡ true → a ≡ b
eqb-true a b h = ground arith

module _ (negative : Bool) (v : ℤ) where
  -- The test of the loops.
  abbrev stops : Bool
  stops = eqb_ℤ (shift_byte v) (ext_int negative []) && eqb (sign_bit (low_byte v)) negative

  stops-IsMade : stops ≡ true → IsMade negative v (some (low_byte v ∷ []))
  stops-IsMade h =
      let (e, f) = both _ _ h in
      let sign_eq : sign_bit (low_byte v) ≡ negative = eqb-true _ _ f in
      record {
        digit = low_byte v;
        above = [];
        returns = refl;
        value =
            bignum_int-single (low_byte v)
            ∙ rw (sign_eq, ← eqb_ℤ-eq (shift_byte v) (ext_int negative []) e) (push-low_byte v);
        sign_is = sign-single (low_byte v) ∙ sign_eq;
        bytes = (low_byte-lt v, tt);
        minimal = tt;
      }

  goes_on-IsMinimal :
      (e : ℕ) (es : List ℕ)
      → stops ≡ false
      → bignum_int (e ∷ es) ≡ shift_byte v
      → sign (e ∷ es) ≡ negative
      → IsMinimal (e ∷ es)
      → IsMinimal (low_byte v ∷ e ∷ es)
  goes_on-IsMinimal e [] h q s m = λ r.
      let bit : sign_bit (low_byte v) ≡ negative =
        sym (sign_bit-pad_of (sign_bit (low_byte v)))
        ∙ ap sign_bit (sym r)
        ∙ sym (sign-single e)
        ∙ s in
      let above : shift_byte v ≡ ext_int negative [] =
        sym q
        ∙ bignum_int-single e
        ∙ rw (r, sign_bit-pad_of (sign_bit (low_byte v)), bit) (ext_int-pad negative) in
      let stopped : stops ≡ true = rw (above, bit) (test_refl (ext_int negative []) negative) in cc
  goes_on-IsMinimal e (f ∷ fs) h q s m = m

  goes_on-IsMade :
      (rest : Option (List ℕ))
      → stops ≡ false
      → IsMade negative (shift_byte v) rest
      → IsMade negative v (Option.map (λ ds. low_byte v ∷ ds) rest)
  goes_on-IsMade rest h m = record {
    digit = low_byte v;
    above = m.digit ∷ m.above;
    returns = rw m.returns refl;
    value = bignum_int-cons _ _ _ ∙ rw m.value (push-low_byte v);
    sign_is = sign-cons _ _ _ ∙ m.sign_is;
    bytes = (low_byte-lt v, m.bytes);
    minimal = goes_on-IsMinimal m.digit m.above h m.value m.sign_is m.minimal;
  }

make_loop-IsMade :
    (k : ℕ) (negative : Bool) (v : ℤ)
    → is_negative v ≡ negative
    → Fits k v
    → IsMade negative v (make_loop (suc k) negative v)
unfolding make_loop
make_loop-IsMade zero negative v e h =
    rw (stop_lem negative v e h) (stops-IsMade negative v (stop_lem negative v e h))
make_loop-IsMade (suc k) negative v e h = elim (Bool-cases (stops negative v)) [
  | inl t ↦ rw t (stops-IsMade negative v t)
  | inr t ↦ rw t (
      goes_on-IsMade negative v _ t (
        make_loop-IsMade k negative (shift_byte v) (is_negative-shift_byte v ∙ e)
          (shift_byte-Fits k v h)))
]

-- `make_bignum` never writes behind the eight digits that it allocates, and its result stands for
-- the `long`, in bytes with no redundant digit.
pub make_bignum_int :
    (v : ℤ) → Fits 7 v → (x : List ℕ) × (make_bignum v ≡ some x) × (bignum_int x ≡ v) × IsBignum x
unfolding make_bignum
make_bignum_int v h =
    let m = make_loop-IsMade 7 (is_negative v) v refl h in
    (m.digit ∷ m.above, m.returns, m.value, record { bytes = m.bytes; minimal = m.minimal })

-- The bits that the loop of `bignum_value` computes are the integer's, modulo 2 ^ 64.
value_bits_int :
    (s : Bool) (ds : List ℕ)
    → IsBytes ds
    → (a b : ℕ) × (pos_part (ext_int s ds) + 2 ^ 64 * a
        ≡ neg_part (ext_int s ds) + value_bits (if s then 2 ^ 64 - 1 else 0) ds + 2 ^ 64 * b)
unfolding value_bits
value_bits_int true [] h = (1, 0, refl)
value_bits_int false [] h = (0, 0, refl)
value_bits_int s (d ∷ ds) h =
    let (a, b, e) = value_bits_int s ds h.1 in
    let w = value_bits (if s then 2 ^ 64 - 1 else 0) ds in
    (256 * a, 256 * b + w * 256 / 2 ^ 64, omega (arith, push_parts d (ext_int s ds)))

value_bits-lt :
    (s : Bool) (ds : List ℕ) → IsBytes ds → value_bits (if s then 2 ^ 64 - 1 else 0) ds < 2 ^ 64
unfolding value_bits
value_bits-lt true [] h = omega arith
value_bits-lt false [] h = omega arith
value_bits-lt s (d ∷ ds) h = omega arith

long_of_bits_lem :
    (w a b : ℕ) (v : ℤ)
    → w < 2 ^ 64
    → Fits 7 v
    → pos_part v + 2 ^ 64 * a ≡ neg_part v + w + 2 ^ 64 * b
    → long_of_bits w ≡ v
long_of_bits_lem w a b v hw h e = ground arith

-- `bignum_value` gives back the integer of every bignum that a `long` can hold.
pub bignum_value_int :
    (x : List ℕ) → IsBytes x → Fits 7 (bignum_int x) → bignum_value x ≡ bignum_int x
unfolding bignum_value
bignum_value_int x hx h =
    let (a, b, e) = value_bits_int (sign x) x hx in
    long_of_bits_lem _ a b (bignum_int x) (value_bits-lt (sign x) x hx) h (rw (bignum_int_lem x) e)

-- `bignum_value` gives back each `long` from the bignum that `make_bignum` makes of it.
pub bignum_value-make_bignum : (v : ℤ) → Fits 7 v → Option.map bignum_value (make_bignum v) ≡ some v
bignum_value-make_bignum v h =
    let (x, e, q, n) = make_bignum_int v h in
    rw e (ap some (bignum_value_int x n.bytes (rw q h) ∙ q))
