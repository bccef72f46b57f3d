-- ===== src/Bignum/Normal/Padding.antt =====
-- The digits of what `normalize_bignum` of mindy/interp/num.c leaves, with the pad above them.
use gwydion_2_4_cleanup.Prelude.{
  ℕ, zero, suc, ◌≡◌, refl, sym, ◌∙◌, List, [], ◌∷◌, ◌++◌, inl, inr, ◌==◌, eqb, get_or, Bool-cases,
  ==_iff,
}
use gwydion_2_4_cleanup.Bignum.Digits.{sign, sign_bit, pad_of}
use gwydion_2_4_cleanup.Bignum.Normal.{
  normalize_bignum, restore_sign, down_to_ptr, strip, keep_above, sign-normalize_bignum,
}

get_or-keep_above :
    (u d i : ℕ) (es ds : List ℕ)
    → ((j : ℕ) → get_or es j u ≡ get_or ds j u)
    → get_or (keep_above u d es) i u ≡ get_or (d ∷ ds) i u
unfolding keep_above
get_or-keep_above u d zero [] ds h = elim (Bool-cases (d == u)) [
  | inl e ↦ rw e (sym ((==_iff d u).0 e))
  | inr e ↦ rw e refl
]
get_or-keep_above u d (suc j) [] ds h = elim (Bool-cases (d == u)) [
  | inl e ↦ rw e (h j)
  | inr e ↦ rw e (h j)
]
get_or-keep_above u d zero (e ∷ es) ds h = refl
get_or-keep_above u d (suc j) (e ∷ es) ds h = h j

get_or-strip : (u : ℕ) (ds : List ℕ) (i : ℕ) → get_or (strip u ds) i u ≡ get_or ds i u
unfolding strip
get_or-strip u [] i = refl
get_or-strip u (d ∷ ds) i = get_or-keep_above u d i (strip u ds) ds (get_or-strip u ds)

get_or-down_to_ptr : (u : ℕ) (ds : List ℕ) (i : ℕ) → get_or (down_to_ptr u ds) i u ≡ get_or ds i u
unfolding down_to_ptr
get_or-down_to_ptr u [] i = refl
get_or-down_to_ptr u (d ∷ ds) zero = refl
get_or-down_to_ptr u (d ∷ ds) (suc i) = get_or-strip u ds i

get_or-append : (u : ℕ) (ds : List ℕ) (i : ℕ) → get_or (ds ++ u ∷ []) i u ≡ get_or ds i u
get_or-append u [] zero = refl
get_or-append u [] (suc i) = refl
get_or-append u (d ∷ ds) zero = refl
get_or-append u (d ∷ ds) (suc i) = get_or-append u ds i

get_or-restore_sign : (u : ℕ) (ds : List ℕ) (i : ℕ) → get_or (restore_sign u ds) i u ≡ get_or ds i u
unfolding restore_sign
get_or-restore_sign u ds i = elim (Bool-cases (eqb (sign ds) (sign_bit u))) [
  | inl e ↦ rw e refl
  | inr e ↦ rw e (get_or-append u ds i)
]

-- No digit changes, where the digits past the end are the pad.
pub get_or-normalize_bignum :
    (ds : List ℕ) (i : ℕ)
    → get_or (normalize_bignum ds) i (pad_of (sign (normalize_bignum ds)))
      ≡ get_or ds i (pad_of (sign ds))
get_or-normalize_bignum ds i = rw (sign-normalize_bignum ds) (
    unfold normalize_bignum in
    get_or-restore_sign (pad_of (sign ds)) (down_to_ptr (pad_of (sign ds)) ds) i
    ∙ get_or-down_to_ptr (pad_of (sign ds)) ds i)
