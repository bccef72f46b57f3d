-- ===== src/Fixnum/Division.antt =====
-- The divisions of fixnums in mindy/interp/num.c.
use gwydion_2_4_cleanup.Prelude.{
  ℕ, zero, suc, ◌+◌, ◌*◌, ◌%◌, ◌/◌, ◌<◌, ◌≡◌, ◌≢◌, ◌⊎◌, inl, inr, refl, arith, Bool, false, not,
  ◌&&◌, if◌then◌else◌, eqb, Bool-cases, ap, Option, some,
}
use native.Mathlib.Nat.{div-add-mod'}
use gwydion_2_4_cleanup.Prelude.Int.{
  ℤ, pos, negsuc, pos_part, neg_part, eqb_ℤ, int_laws, *ℤ_parts, +ℤ_parts, -ℤ_parts, ◌≤ℤ◌, ◌+ℤ◌,
  ◌-ℤ◌, ◌*ℤ◌,
}
use gwydion_2_4_cleanup.Fixnum.{
  minus, divide_fixnums, fi_trunc, fi_floor, fi_ceil, IsFixnum, make_fixnum, magnitude, is_negative,
  quot, rem, trunc_pair, floor_pair, ceil_pair, signs_differ,
}
use gwydion_2_4_cleanup.Fixnum.Laws.{make_fixnum_lem}

-- `q` and `r` divide `x` by `y`.
abbrev Divides : ℤ → ℤ → ℤ → ℤ → Type 0
Divides x y q r =
    pos_part x + (pos_part q * neg_part y + neg_part q * pos_part y) + neg_part r
    ≡ neg_part x + (pos_part q * pos_part y + neg_part q * neg_part y) + pos_part r

-- `r` is 0, or `r` and `v` are of one sign.
abbrev pub SameSign : ℤ → ℤ → Type 0
SameSign r v = (pos 0 ≤ℤ r) × (pos 0 ≤ℤ v) ⊎ (r ≤ℤ pos 0) × (v ≤ℤ pos 0)

minus_lem : (n : ℕ) → (pos_part (minus n) ≡ 0) × (neg_part (minus n) ≡ n)
unfolding minus
minus_lem zero = (refl, refl)
minus_lem (suc n) = (refl, refl)

pub magnitude-minus : (n : ℕ) → magnitude (minus n) ≡ n
magnitude-minus n = omega (arith, minus_lem n)

-- The parts of the quotient and of the remainder, by the signs.
quot_parts :
    (x y : ℤ)
    → let n = magnitude x / magnitude y in
      let same = eqb (is_negative x) (is_negative y) in
      (pos_part (quot x y) ≡ (if same then n else 0))
      × (neg_part (quot x y) ≡ (if same then 0 else n))
unfolding quot
quot_parts (pos a) (pos b) = (refl, refl)
quot_parts (pos a) (negsuc b) = minus_lem _
quot_parts (negsuc a) (pos b) = minus_lem _
quot_parts (negsuc a) (negsuc b) = (refl, refl)

rem_parts :
    (x y : ℤ)
    → let n = magnitude x % magnitude y in
      (pos_part (rem x y) ≡ (if is_negative x then 0 else n))
      × (neg_part (rem x y) ≡ (if is_negative x then n else 0))
unfolding rem
rem_parts (pos a) y = (refl, refl)
rem_parts (negsuc a) y = minus_lem _

quot_products :
    (x y : ℤ)
    → let n = magnitude x / magnitude y in
      let same = eqb (is_negative x) (is_negative y) in
      (n * magnitude y + magnitude x % magnitude y ≡ magnitude x)
      × (pos_part (quot x y) * pos_part y ≡ (if same then n else 0) * pos_part y)
      × (pos_part (quot x y) * neg_part y ≡ (if same then n else 0) * neg_part y)
      × (neg_part (quot x y) * pos_part y ≡ (if same then 0 else n) * pos_part y)
      × (neg_part (quot x y) * neg_part y ≡ (if same then 0 else n) * neg_part y)
quot_products x y = (
  div-add-mod' (magnitude x) (magnitude y),
  ap (λ (t : ℕ). t * pos_part y) (quot_parts x y).0,
  ap (λ (t : ℕ). t * neg_part y) (quot_parts x y).0,
  ap (λ (t : ℕ). t * pos_part y) (quot_parts x y).1,
  ap (λ (t : ℕ). t * neg_part y) (quot_parts x y).1,
)

quot-rem : (x y : ℤ) → Divides x y (quot x y) (rem x y)
quot-rem (pos a) (pos b) = omega (arith, quot_products (pos a) (pos b), rem_parts (pos a) (pos b))
quot-rem (pos a) (negsuc b) =
    omega (arith, quot_products (pos a) (negsuc b), rem_parts (pos a) (negsuc b))
quot-rem (negsuc a) (pos b) =
    omega (arith, quot_products (negsuc a) (pos b), rem_parts (negsuc a) (pos b))
quot-rem (negsuc a) (negsuc b) =
    omega (arith, quot_products (negsuc a) (negsuc b), rem_parts (negsuc a) (negsuc b))

rem-lt : (x y : ℤ) → y ≢ pos 0 → magnitude (rem x y) < magnitude y
rem-lt x (pos zero) h = absurd (h refl)
rem-lt (pos a) (pos (suc b)) h = omega (arith, rem_parts (pos a) (pos (suc b)))
rem-lt (pos a) (negsuc b) h = omega (arith, rem_parts (pos a) (negsuc b))
rem-lt (negsuc a) (pos (suc b)) h = omega (arith, rem_parts (negsuc a) (pos (suc b)))
rem-lt (negsuc a) (negsuc b) h = omega (arith, rem_parts (negsuc a) (negsuc b))

-- The sign of the remainder is the dividend's.
abbrev FromSign : Bool → ℤ → Type 0
FromSign negative r = if negative then r ≤ℤ pos 0 else pos 0 ≤ℤ r

rem_sign : (x y : ℤ) → FromSign (is_negative x) (rem x y)
rem_sign (pos a) y = omega (arith, rem_parts (pos a) y)
rem_sign (negsuc a) y = omega (arith, rem_parts (negsuc a) y)

no_adjustment :
    (r x : ℤ) → FromSign (is_negative x) r → not (eqb_ℤ r (pos 0)) && signs_differ r x ≡ false
no_adjustment (pos r) (pos x) h = ground arith
no_adjustment (pos r) (negsuc x) h = ground arith
no_adjustment (negsuc r) (pos x) h = ground arith
no_adjustment (negsuc r) (negsuc x) h = ground arith

same_sign : (r x : ℤ) → FromSign (is_negative x) r → SameSign r x
same_sign r (pos x) h = inl (h, omega arith)
same_sign r (negsuc x) h = inr (h, omega arith)

remainder-IsFixnum : (r y : ℤ) → magnitude r < magnitude y → IsFixnum y → IsFixnum r
remainder-IsFixnum (pos r) (pos y) l h = omega arith
remainder-IsFixnum (pos r) (negsuc y) l h = omega arith
remainder-IsFixnum (negsuc r) (pos y) l h = omega arith
remainder-IsFixnum (negsuc r) (negsuc y) l h = omega arith

Divides-down : (x y q r : ℤ) → Divides x y q r → Divides x y (q -ℤ pos 1) (r +ℤ y)
Divides-down x y q r h = omega (
  int_laws,
  h,
  ap (λ (t : ℕ). pos_part y * t) (-ℤ_parts q (pos 1)),
  ap (λ (t : ℕ). neg_part y * t) (-ℤ_parts q (pos 1)),
)

Divides-up : (x y q r : ℤ) → Divides x y q r → Divides x y (q +ℤ pos 1) (r -ℤ y)
Divides-up x y q r h = omega (
  int_laws,
  h,
  ap (λ (t : ℕ). pos_part y * t) (+ℤ_parts q (pos 1)),
  ap (λ (t : ℕ). neg_part y * t) (+ℤ_parts q (pos 1)),
)

Divides-eq : (x y q r : ℤ) → Divides x y q r → x ≡ q *ℤ y +ℤ r
Divides-eq x y q r h = omega (int_laws, h, *ℤ_parts q y)

-- A quotient and a remainder that is smaller than the divisor and has the sign of `v`.
pub record IsDivision (x y v : ℤ) (result : ℤ × ℤ) : Type 0 where
  pub equation : x ≡ result.0 *ℤ y +ℤ result.1
  pub smaller : magnitude result.1 < magnitude y
  pub signed : SameSign result.1 v

trunc_pair-IsDivision : (x y : ℤ) → y ≢ pos 0 → IsDivision x y x (trunc_pair x y)
unfolding trunc_pair
trunc_pair-IsDivision x y h = rw (no_adjustment (rem x y) x (rem_sign x y)) record {
  equation = Divides-eq x y (quot x y) (rem x y) (quot-rem x y);
  smaller = rem-lt x y h;
  signed = same_sign (rem x y) x (rem_sign x y);
}

floor_adjusted :
    (x y q r : ℤ)
    → Divides x y q r
    → magnitude r < magnitude y
    → IsDivision x y y
        (if not (eqb_ℤ r (pos 0)) && signs_differ r y then (q -ℤ pos 1, r +ℤ y) else (q, r))
floor_adjusted x y q r d l = elim (Bool-cases (not (eqb_ℤ r (pos 0)) && signs_differ r y)) [
  | inl e ↦ rw e record {
    equation = Divides-eq x y (q -ℤ pos 1) (r +ℤ y) (Divides-down x y q r d);
    smaller = unfold ◌+ℤ◌ in ground arith;
    signed = unfold ◌+ℤ◌ in ground arith;
  }
  | inr e ↦ rw e record { equation = Divides-eq x y q r d; smaller = l; signed = ground arith }
]

floor_pair-IsDivision : (x y : ℤ) → y ≢ pos 0 → IsDivision x y y (floor_pair x y)
unfolding floor_pair
floor_pair-IsDivision x y h = floor_adjusted x y (quot x y) (rem x y) (quot-rem x y) (rem-lt x y h)

ceil_adjusted :
    (x y q r : ℤ)
    → Divides x y q r
    → magnitude r < magnitude y
    → IsDivision x y
        (pos 0 -ℤ y)
        (if not (eqb_ℤ r (pos 0)) && not (signs_differ r y) then (q +ℤ pos 1, r -ℤ y) else (q, r))
ceil_adjusted x y q r d l = elim (Bool-cases (not (eqb_ℤ r (pos 0)) && not (signs_differ r y))) [
  | inl e ↦ rw e record {
    equation = Divides-eq x y (q +ℤ pos 1) (r -ℤ y) (Divides-up x y q r d);
    smaller = unfold ◌-ℤ◌ in ground arith;
    signed = unfold ◌-ℤ◌ in ground arith;
  }
  | inr e ↦
      rw e record {
        equation = Divides-eq x y q r d;
        smaller = l;
        signed = unfold ◌-ℤ◌ in ground arith;
      }
]

ceil_pair-IsDivision : (x y : ℤ) → y ≢ pos 0 → IsDivision x y (pos 0 -ℤ y) (ceil_pair x y)
unfolding ceil_pair
ceil_pair-IsDivision x y h = ceil_adjusted x y (quot x y) (rem x y) (quot-rem x y) (rem-lt x y h)

-- What a division of fixnums gives: the exact quotient made a fixnum, and the exact remainder.
abbrev pub Gives : Option (ℤ × ℤ) → ℤ → ℤ → ℤ → Type 0
Gives result x y v =
    (q : ℤ) × (r : ℤ) × (result ≡ some (make_fixnum q, r)) × IsDivision x y v (q, r)

eqb_ℤ-neq : (y : ℤ) → y ≢ pos 0 → eqb_ℤ y (pos 0) ≡ false
eqb_ℤ-neq (pos zero) h = absurd (h refl)
eqb_ℤ-neq (pos (suc n)) h = ground arith
eqb_ℤ-neq (negsuc n) h = ground arith

divide_fixnums_lem :
    (pair_of : ℤ → ℤ → ℤ × ℤ) (x y v : ℤ)
    → IsFixnum y
    → y ≢ pos 0
    → IsDivision x y v (pair_of x y)
    → Gives (divide_fixnums pair_of x y) x y v
unfolding divide_fixnums
divide_fixnums_lem pair_of x y v fits h d =
    let exact : make_fixnum (pair_of x y).1 ≡ (pair_of x y).1 =
      make_fixnum_lem (pair_of x y).1 (remainder-IsFixnum (pair_of x y).1 y d.smaller fits) in
    ((pair_of x y).0, (pair_of x y).1, rw (eqb_ℤ-neq y h, exact) refl, d)

-- Dividing fixnums by a fixnum that is not 0: `truncate`, `floor` and `ceiling` give `q` made a
-- fixnum and `r`, where the dividend is `q` times the divisor plus `r`, `r` is smaller than the
-- divisor in magnitude, and `r`, if not 0, has the sign of the dividend, the sign of the divisor
-- and the opposite of that.
pub fixnum_divisions_lem :
    (x y : ℤ)
    → IsFixnum y
    → y ≢ pos 0
    → Gives (fi_trunc x y) x y x × Gives (fi_floor x y) x y y × Gives (fi_ceil x y) x y (pos 0 -ℤ y)
unfolding fi_trunc fi_floor fi_ceil
fixnum_divisions_lem x y fits h = (
  divide_fixnums_lem trunc_pair x y x fits h (trunc_pair-IsDivision x y h),
  divide_fixnums_lem floor_pair x y y fits h (floor_pair-IsDivision x y h),
  divide_fixnums_lem ceil_pair x y (pos 0 -ℤ y) fits h (ceil_pair-IsDivision x y h),
)
