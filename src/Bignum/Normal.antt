-- ===== src/Bignum/Normal.antt =====
-- `normalize_bignum` of mindy/interp/num.c: redundant copies of the sign are dropped at the top.
pub mod Minimal
pub mod Padding
use gwydion_2_4_cleanup.Prelude.{
  ℕ, ◌+◌, ◌%◌, ◌/◌, ◌<◌, ◌≡◌, refl, List, [], ◌∷◌, ◌++◌, Bool, true, false, arith, if◌then◌else◌,
  ◌==◌, eqb, Bool-cases, inl, inr, ◌≢◌, ap, ◌∙◌, sym, ==_iff,
}
use gwydion_2_4_cleanup.Prelude.Int.{ℤ, push}
use gwydion_2_4_cleanup.Bignum.Digits.{
  sign_bit, sign, top_digit, pad_of, IsBytes, ext_int, bignum_int, ext_int-pad, ext_int-append_pad,
  sign-append, sign_bit-pad_of,
}

-- The loop's test at one digit, given the digits that are kept above it.
keep_above : ℕ → ℕ → List ℕ → List ℕ
keep_above useless d [] = if d == useless then [] else d ∷ []
keep_above useless d (e ∷ es) = d ∷ e ∷ es

-- The loop's `ptr--`: the digits above the lowest, less the run of `useless` ones at the top.
unfoldable pub strip : ℕ → List ℕ → List ℕ
unfolding keep_above
strip useless [] = []
strip useless (d ∷ ds) = keep_above useless d (strip useless ds)

-- The digits up to `ptr`; the loop stops at the lowest digit.
unfoldable pub down_to_ptr : ℕ → List ℕ → List ℕ
unfolding strip
down_to_ptr useless [] = []
down_to_ptr useless (d ∷ ds) = d ∷ strip useless ds

-- Where the sign of `*ptr` is not the number's, the digit above it, which is `useless`, is kept.
unfoldable pub restore_sign : ℕ → List ℕ → List ℕ
restore_sign useless kept =
    if eqb (sign kept) (sign_bit useless) then kept else kept ++ useless ∷ []

unfoldable pub normalize_bignum : List ℕ → List ℕ
normalize_bignum ds = restore_sign (pad_of (sign ds)) (down_to_ptr (pad_of (sign ds)) ds)

keep_above_int :
    (s : Bool) (d : ℕ) (es : List ℕ)
    → ext_int s (keep_above (pad_of s) d es) ≡ push d (ext_int s es)
unfolding keep_above
keep_above_int s d [] = elim (Bool-cases (d == pad_of s)) [
  | inl e ↦ rw e (sym (rw ((==_iff d (pad_of s)).0 e) (ext_int-pad s)))
  | inr e ↦ rw e refl
]
keep_above_int s d (e ∷ es) = refl

strip_int : (s : Bool) (ds : List ℕ) → ext_int s (strip (pad_of s) ds) ≡ ext_int s ds
unfolding strip
strip_int s [] = refl
strip_int s (d ∷ ds) = rw (keep_above_int s d (strip (pad_of s) ds)) (ap (push d) (strip_int s ds))

down_to_ptr_int : (s : Bool) (ds : List ℕ) → ext_int s (down_to_ptr (pad_of s) ds) ≡ ext_int s ds
unfolding down_to_ptr
down_to_ptr_int s [] = refl
down_to_ptr_int s (d ∷ ds) = ap (push d) (strip_int s ds)

eqb-true : (a b : Bool) → eqb a b ≡ true → a ≡ b
eqb-true a b h = ground arith

module _ (s : Bool) (kept : List ℕ) where
  restore_sign-sign : sign (restore_sign (pad_of s) kept) ≡ s
  unfolding restore_sign
  restore_sign-sign = elim (Bool-cases (eqb (sign kept) (sign_bit (pad_of s)))) [
    | inl e ↦ rw e (eqb-true _ _ e ∙ sign_bit-pad_of s)
    | inr e ↦ rw e (sign-append kept (pad_of s) ∙ sign_bit-pad_of s)
  ]

  restore_sign_int : ext_int s (restore_sign (pad_of s) kept) ≡ ext_int s kept
  unfolding restore_sign
  restore_sign_int = elim (Bool-cases (eqb (sign kept) (sign_bit (pad_of s)))) [
    | inl e ↦ rw e refl
    | inr e ↦ rw e (ext_int-append_pad s kept)
  ]

pub sign-normalize_bignum : (ds : List ℕ) → sign (normalize_bignum ds) ≡ sign ds
unfolding normalize_bignum
sign-normalize_bignum ds = restore_sign-sign (sign ds) _

pub normalize_bignum_int : (ds : List ℕ) → bignum_int (normalize_bignum ds) ≡ bignum_int ds
unfolding bignum_int
normalize_bignum_int ds =
    rw (sign-normalize_bignum ds)
      (unfold normalize_bignum in restore_sign_int (sign ds) _ ∙ down_to_ptr_int (sign ds) ds)
