-- ===== src/Bignum/Normal/Minimal.antt =====
-- The result of `normalize_bignum` has no redundant digit, and an integer has one such form.
use gwydion_2_4_cleanup.Prelude.{
  ℕ, ◌<◌, ◌≡◌, List, [], ◌∷◌, ◌++◌, Bool, false, arith, ◌==◌, eqb, Bool-cases, inl, inr, ◌≢◌, ap,
  ◌∙◌, sym,
}
use gwydion_2_4_cleanup.Bignum.Digits.{
  sign_bit, sign, pad_of, IsBytes, bignum_int, IsBytes-append, sign_bit-pad_of,
}
use gwydion_2_4_cleanup.Bignum.Normal.{
  keep_above, strip, down_to_ptr, restore_sign, normalize_bignum, eqb-true, normalize_bignum_int,
}

-- At least one digit, and the top one does not just repeat the sign of the one below it.
abbrev pub IsMinimal : List ℕ → Type 0
IsMinimal [] = ⊥
IsMinimal (d ∷ []) = Unit
IsMinimal (d ∷ e ∷ []) = e ≢ pad_of (sign_bit d)
IsMinimal (d ∷ e ∷ f ∷ fs) = IsMinimal (e ∷ f ∷ fs)

-- A bignum as the routines leave it.
pub record IsBignum (x : List ℕ) : Type 0 where
  pub bytes : IsBytes x
  pub minimal : IsMinimal x

abbrev NoTop : ℕ → List ℕ → Type 0
NoTop u [] = Unit
NoTop u (d ∷ []) = d ≢ u
NoTop u (d ∷ e ∷ es) = NoTop u (e ∷ es)

keep_above-NoTop : (u d : ℕ) (es : List ℕ) → NoTop u es → NoTop u (keep_above u d es)
unfolding keep_above
keep_above-NoTop u d [] h = elim (Bool-cases (d == u)) [
  | inl e ↦ rw e tt
  | inr e ↦ rw e (ground arith)
]
keep_above-NoTop u d (e ∷ []) h = h
keep_above-NoTop u d (e ∷ f ∷ fs) h = h

strip-NoTop : (u : ℕ) (ds : List ℕ) → NoTop u (strip u ds)
unfolding strip
strip-NoTop u [] = tt
strip-NoTop u (d ∷ ds) = keep_above-NoTop u d (strip u ds) (strip-NoTop u ds)

pad_of-sign_bit : (s : Bool) (d e : ℕ) → e ≢ pad_of s → sign_bit e ≡ s → e ≢ pad_of (sign_bit d)
pad_of-sign_bit s d e ne h q =
    ne (q ∙ ap pad_of (sym (sign_bit-pad_of (sign_bit d)) ∙ ap sign_bit (sym q) ∙ h))

NoTop-IsMinimal :
    (s : Bool) (d : ℕ) (es : List ℕ) → NoTop (pad_of s) es → sign (d ∷ es) ≡ s → IsMinimal (d ∷ es)
unfolding sign
NoTop-IsMinimal s d [] n h = tt
NoTop-IsMinimal s d (e ∷ []) n h = pad_of-sign_bit s d e n h
NoTop-IsMinimal s d (e ∷ f ∷ fs) n h = NoTop-IsMinimal s e (f ∷ fs) n h

append-IsMinimal :
    (s : Bool) (d : ℕ) (es : List ℕ)
    → eqb (sign (d ∷ es)) s ≡ false
    → IsMinimal (d ∷ es ++ pad_of s ∷ [])
unfolding sign
append-IsMinimal s d [] h = λ q. ground arith
append-IsMinimal s d (e ∷ []) h = append-IsMinimal s e [] h
append-IsMinimal s d (e ∷ f ∷ fs) h = append-IsMinimal s e (f ∷ fs) h

restore_sign-IsMinimal :
    (s : Bool) (d : ℕ) (es : List ℕ)
    → NoTop (pad_of s) es
    → IsMinimal (restore_sign (pad_of s) (d ∷ es))
unfolding restore_sign
restore_sign-IsMinimal s d es n = elim (Bool-cases (eqb (sign (d ∷ es)) (sign_bit (pad_of s)))) [
  | inl e ↦ rw e (NoTop-IsMinimal s d es n (eqb-true _ _ e ∙ sign_bit-pad_of s))
  | inr e ↦ rw e (append-IsMinimal s d es (rw sign_bit-pad_of at e))
]

pub normalize_bignum-IsMinimal : (d : ℕ) (ds : List ℕ) → IsMinimal (normalize_bignum (d ∷ ds))
unfolding normalize_bignum down_to_ptr
normalize_bignum-IsMinimal d ds =
    restore_sign-IsMinimal (sign (d ∷ ds)) d (strip (pad_of (sign (d ∷ ds))) ds)
      (strip-NoTop (pad_of (sign (d ∷ ds))) ds)

keep_above-IsBytes : (u d : ℕ) (es : List ℕ) → d < 256 → IsBytes es → IsBytes (keep_above u d es)
unfolding keep_above
keep_above-IsBytes u d [] h k = ground arith
keep_above-IsBytes u d (e ∷ es) h k = (h, k)

strip-IsBytes : (u : ℕ) (ds : List ℕ) → IsBytes ds → IsBytes (strip u ds)
unfolding strip
strip-IsBytes u [] h = tt
strip-IsBytes u (d ∷ ds) h = keep_above-IsBytes u d (strip u ds) h.0 (strip-IsBytes u ds h.1)

down_to_ptr-IsBytes : (u : ℕ) (ds : List ℕ) → IsBytes ds → IsBytes (down_to_ptr u ds)
unfolding down_to_ptr
down_to_ptr-IsBytes u [] h = tt
down_to_ptr-IsBytes u (d ∷ ds) h = (h.0, strip-IsBytes u ds h.1)

pad_of-lt : (s : Bool) → pad_of s < 256
pad_of-lt s = ground arith

restore_sign-IsBytes : (s : Bool) (ds : List ℕ) → IsBytes ds → IsBytes (restore_sign (pad_of s) ds)
unfolding restore_sign
restore_sign-IsBytes s ds h = elim (Bool-cases (eqb (sign ds) (sign_bit (pad_of s)))) [
  | inl e ↦ rw e h
  | inr e ↦ rw e (IsBytes-append ds (pad_of s ∷ []) h (pad_of-lt s, tt))
]

pub normalize_bignum-IsBytes : (ds : List ℕ) → IsBytes ds → IsBytes (normalize_bignum ds)
unfolding normalize_bignum
normalize_bignum-IsBytes ds h =
    restore_sign-IsBytes (sign ds) _ (down_to_ptr-IsBytes (pad_of (sign ds)) ds h)

pub normalize_bignum-IsBignum :
    (d : ℕ) (ds : List ℕ) → IsBytes (d ∷ ds) → IsBignum (normalize_bignum (d ∷ ds))
normalize_bignum-IsBignum d ds h = record {
  bytes = normalize_bignum-IsBytes (d ∷ ds) h;
  minimal = normalize_bignum-IsMinimal d ds;
}

-- Normalizing leaves the integer as it is, and bytes as they are a bignum with no redundant digit.
pub normalize_bignum_lem :
    (d : ℕ) (ds : List ℕ)
    → IsBytes (d ∷ ds)
    → (bignum_int (normalize_bignum (d ∷ ds)) ≡ bignum_int (d ∷ ds))
      × IsBignum (normalize_bignum (d ∷ ds))
normalize_bignum_lem d ds h = (normalize_bignum_int (d ∷ ds), normalize_bignum-IsBignum d ds h)
