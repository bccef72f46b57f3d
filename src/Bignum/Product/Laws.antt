-- ===== src/Bignum/Product/Laws.antt =====
-- `multiply_bignums` of mindy/interp/num.c gives the product of the integers, whatever the signs.
use gwydion_2_4_cleanup.Prelude.{
  ℕ, zero, suc, ◌+◌, ◌*◌, ◌^◌, ◌%◌, ◌/◌, ◌≤◌, ◌<◌, ◌≡◌, refl, List, [], ◌∷◌, Bool, true, false,
  length, replicate, length-replicate, dec_lt, arith, ap, ◌∙◌, subst, if◌then◌else◌,
}
use Prim.Native.Nat.add
use native.Mathlib.Nat.{pow-suc, mul-le-mul}
use gwydion_2_4_cleanup.Prelude.Int.{
  ℤ, push, push_parts, pos_part, neg_part, pos, negsuc, eq_of_parts, *ℤ_parts, ◌*ℤ◌,
}
use gwydion_2_4_cleanup.Bignum.Digits.{
  pad_lem, pad_of, ext_int, ext_int-pad, bignum_int, bignum_int_lem, sign, IsBytes,
}
use gwydion_2_4_cleanup.Bignum.Unsigned.{nat_of, ext_int-nat_of, bignum_int_range}
use gwydion_2_4_cleanup.Bignum.Normal.{normalize_bignum_int}
use gwydion_2_4_cleanup.Bignum.Product.{
  multiply_row, digit_at, digits_behind, multiply_rows, multiply_bignums,
}

-- `n` is `m + d * v + c` modulo `q`.
abbrev Congruent : ℕ → ℕ → ℕ → ℤ → ℕ → ℕ → Type 0
Congruent q n m v d c =
    (a : ℕ) × (b : ℕ) × (n + d * neg_part v + q * a ≡ m + d * pos_part v + c + q * b)

pow-suc256 : (n : ℕ) → 256 ^ suc n ≡ 256 * 256 ^ n
pow-suc256 n = omega (arith, pow-suc 256 n)

row_step :
    (q d x r c n m : ℕ) (v : ℤ)
    → Congruent q n m v d ((x * d + r + c) / 256)
    → Congruent (256 * q) ((x * d + r + c) % 256 + 256 * n) (r + 256 * m) (push x v) d c
row_step q d x r c n m v (a, b, e) =
    (a, b, omega (arith, e, ap (λ (t : ℕ). d * t) (push_parts x v)))

module _ (s : Bool) where
  multiply_row_lem :
      (xs : List ℕ) (d : ℕ) (rs : List ℕ) (c : ℕ)
      → Congruent
          (256 ^ length rs)
          (nat_of (multiply_row (pad_of s) xs d rs c))
          (nat_of rs)
          (ext_int s xs)
          d
          c
  unfolding multiply_row
  multiply_row_lem xs d [] c =
      (d * pos_part (ext_int s xs) + c, d * neg_part (ext_int s xs), omega arith)
  multiply_row_lem [] d (r ∷ rs) c =
      let t = pad_of s * d + r + c in
      rw (pow-suc256 (length rs)) (
        subst
          (λ v.
            Congruent (256 * 256 ^ length rs)
              (t % 256 + 256 * nat_of (multiply_row (pad_of s) [] d rs (t / 256)))
              (r + 256 * nat_of rs) v d c)
          (ext_int-pad s)
          (row_step (256 ^ length rs) d (pad_of s) r c _ (nat_of rs) (ext_int s [])
            (multiply_row_lem [] d rs (t / 256))))
  multiply_row_lem (x ∷ xs) d (r ∷ rs) c = rw (pow-suc256 (length rs)) (
      row_step (256 ^ length rs) d x r c _ (nat_of rs) (ext_int s xs)
        (multiply_row_lem xs d rs ((x * d + r + c) / 256)))

  length-multiply_row :
      (xs : List ℕ) (d : ℕ) (rs : List ℕ) (c : ℕ)
      → length (multiply_row (pad_of s) xs d rs c) ≡ length rs
  unfolding multiply_row
  length-multiply_row xs d [] c = refl
  length-multiply_row [] d (r ∷ rs) c = ap suc (length-multiply_row [] d rs _)
  length-multiply_row (x ∷ xs) d (r ∷ rs) c = ap suc (length-multiply_row xs d rs _)

digit_at_lem :
    (t : Bool) (ys : List ℕ)
    → push (digit_at (pad_of t) ys) (ext_int t (digits_behind ys)) ≡ ext_int t ys
unfolding digit_at digits_behind
digit_at_lem t [] = ext_int-pad t
digit_at_lem t (y ∷ ys) = refl

-- `n` is `m + u * v` modulo `q`.
abbrev IsProduct : ℕ → ℕ → ℕ → ℤ → ℤ → Type 0
IsProduct q n m u v =
    (a : ℕ) × (b : ℕ) × (n + (pos_part u * neg_part v + neg_part u * pos_part v) + q * a
      ≡ m + (pos_part u * pos_part v + neg_part u * neg_part v) + q * b)

rows_step :
    (q d r n m k : ℕ) (u v : ℤ)
    → Congruent (256 * q) (r + 256 * m) k u d 0
    → IsProduct q n m u v
    → IsProduct (256 * q) (r + 256 * n) k u (push d v)
rows_step q d r n m k u v (a, b, e) (a', b', e') = (
  a + a',
  b + b',
  omega (
    arith,
    e,
    e',
    ap (λ (t : ℕ). pos_part u * t) (push_parts d v),
    ap (λ (t : ℕ). neg_part u * t) (push_parts d v),
  ),
)

multiply_row-IsBytes :
    (p : ℕ) (xs : List ℕ) (d : ℕ) (rs : List ℕ) (c : ℕ) → IsBytes (multiply_row p xs d rs c)
unfolding multiply_row
multiply_row-IsBytes p xs d [] c = tt
multiply_row-IsBytes p [] d (r ∷ rs) c = (omega arith, multiply_row-IsBytes p [] d rs _)
multiply_row-IsBytes p (x ∷ xs) d (r ∷ rs) c = (omega arith, multiply_row-IsBytes p xs d rs _)

length-suc :
    (n : ℕ) (l : List ℕ)
    → length l ≡ suc n
    → (r : ℕ) × (rs : List ℕ) × (l ≡ r ∷ rs) × (length rs ≡ n)
length-suc n [] e = absurd (omega arith)
length-suc n (r ∷ rs) e = (r, rs, refl, omega arith)

multiply_rows-suc :
    (n p q : ℕ) (xs ys rs : List ℕ) (r : ℕ) (rs' : List ℕ)
    → multiply_row p xs (digit_at q ys) rs 0 ≡ r ∷ rs'
    → multiply_rows (suc n) p q xs ys rs ≡ r ∷ multiply_rows n p q xs (digits_behind ys) rs'
unfolding multiply_rows
multiply_rows-suc n p q xs ys rs r rs' e = rw (e, multiply_rows)

module _ (s t : Bool) (xs : List ℕ) where
  multiply_rows_lem :
      (n : ℕ) (ys rs : List ℕ)
      → length rs ≡ n
      → IsProduct
          (256 ^ n)
          (nat_of (multiply_rows n (pad_of s) (pad_of t) xs ys rs))
          (nat_of rs)
          (ext_int s xs)
          (ext_int t ys)
  multiply_rows_lem zero ys [] e =
      let u = ext_int s xs in
      let v = ext_int t ys in
      (
        pos_part u * pos_part v + neg_part u * neg_part v,
        pos_part u * neg_part v + neg_part u * pos_part v,
        unfold multiply_rows in omega arith,
      )
  multiply_rows_lem zero ys (r ∷ rs) e = absurd (omega arith)
  multiply_rows_lem (suc n) ys rs e =
      let d = digit_at (pad_of t) ys in
      let (r, rs', row, len) =
        length-suc n (multiply_row (pad_of s) xs d rs 0) (length-multiply_row s xs d rs 0 ∙ e) in
      let step = rw (row, e, pow-suc256 n) at (multiply_row_lem s xs d rs 0) in
      rw
        (
          multiply_rows-suc n (pad_of s) (pad_of t) xs ys rs r rs' row,
          ← digit_at_lem t ys,
          pow-suc256 n,
        )
        (rows_step (256 ^ n) d r _ (nat_of rs') (nat_of rs) (ext_int s xs) _ step
          (multiply_rows_lem n (digits_behind ys) rs' len))

  multiply_rows-IsBytes :
      (n : ℕ) (ys rs : List ℕ)
      → length rs ≡ n
      → IsBytes (multiply_rows n (pad_of s) (pad_of t) xs ys rs)
  multiply_rows-IsBytes zero ys rs e = unfold multiply_rows in tt
  multiply_rows-IsBytes (suc n) ys rs e =
      let d = digit_at (pad_of t) ys in
      let (r, rs', row, len) =
        length-suc n (multiply_row (pad_of s) xs d rs 0) (length-multiply_row s xs d rs 0 ∙ e) in
      let bytes = rw row at (multiply_row-IsBytes (pad_of s) xs d rs 0) in
      rw (multiply_rows-suc n (pad_of s) (pad_of t) xs ys rs r rs' row)
        (bytes.0, multiply_rows-IsBytes n (digits_behind ys) rs' len)

  length-multiply_rows :
      (n : ℕ) (ys rs : List ℕ)
      → length rs ≡ n
      → length (multiply_rows n (pad_of s) (pad_of t) xs ys rs) ≡ n
  length-multiply_rows zero ys rs e = unfold multiply_rows in refl
  length-multiply_rows (suc n) ys rs e =
      let d = digit_at (pad_of t) ys in
      let (r, rs', row, len) =
        length-suc n (multiply_row (pad_of s) xs d rs 0) (length-multiply_row s xs d rs 0 ∙ e) in
      rw (multiply_rows-suc n (pad_of s) (pad_of t) xs ys rs r rs' row)
        (ap suc (length-multiply_rows n (digits_behind ys) rs' len))

nat_of-replicate : (n : ℕ) → nat_of (replicate n 0) ≡ 0
nat_of-replicate zero = refl
nat_of-replicate (suc n) = omega (arith, nat_of-replicate n)

-- Two numbers that are congruent and less than the modulus apart are equal.
cancel_multiple : (q a b x y : ℕ) → x + q * a ≡ y + q * b → x < y + q → y < x + q → x ≡ y
cancel_multiple q a b x y e h k = elim (dec_lt a b) [
  | yes l ↦ absurd (omega (arith, e, below a b l))
  | no l ↦ elim (dec_lt b a) [
    | yes m ↦ absurd (omega (arith, e, below b a m))
    | no m ↦ let same : a ≡ b = omega arith in omega (arith, e, ap (λ (t : ℕ). q * t) same)
  ]
]
  where
    below : (i j : ℕ) → i < j → q * i + q ≤ q * j
    below i j l = grind arith

mul-le : (p q a b : ℕ) → a ≤ 128 * p → b ≤ 128 * q → a * b ≤ 16384 * (p * q)
mul-le p q a b h k = omega (arith, mul-le-mul h k)

abbrev bit : Bool → ℕ
bit s = if s then 1 else 0

if-bit : (s : Bool) (m : ℕ) → (if s then m else 0) ≡ m * bit s
if-bit true m = omega arith
if-bit false m = omega arith

-- The product is at most a quarter of the range that its digits give.
product_bound :
    (p q : ℕ) (u v : ℤ)
    → (neg_part u ≤ 128 * p) × (pos_part u < 128 * p)
    → (neg_part v ≤ 128 * q) × (pos_part v < 128 * q)
    → (pos_part u * pos_part v + neg_part u * neg_part v ≤ 16384 * (p * q))
      × (pos_part u * neg_part v + neg_part u * pos_part v ≤ 16384 * (p * q))
product_bound p q (pos i) (pos j) hu hv = omega (arith, mul-le p q i j (omega arith) (omega arith))
product_bound p q (pos i) (negsuc j) hu hv =
    omega (arith, mul-le p q i (suc j) (omega arith) (omega arith))
product_bound p q (negsuc i) (pos j) hu hv =
    omega (arith, mul-le p q (suc i) j (omega arith) (omega arith))
product_bound p q (negsuc i) (negsuc j) hu hv =
    omega (arith, mul-le p q (suc i) (suc j) (omega arith) (omega arith))

product_fits :
    (p q : ℕ) (u v : ℤ) (n : ℕ) (s : Bool) (w : ℤ)
    → (neg_part u ≤ 128 * p) × (pos_part u < 128 * p)
    → (neg_part v ≤ 128 * q) × (pos_part v < 128 * q)
    → (neg_part w ≤ 32768 * (p * q)) × (pos_part w < 32768 * (p * q))
    → IsProduct (65536 * (p * q)) n 0 u v
    → pos_part w + (if s then 65536 * (p * q) else 0) ≡ neg_part w + n
    → w ≡ u *ℤ v
product_fits p q u v n s w hu hv hw (a, b, h) e =
    let x = pos_part w + (pos_part u * neg_part v + neg_part u * pos_part v) in
    let y = neg_part w + (pos_part u * pos_part v + neg_part u * neg_part v) in
    let bound = product_bound p q u v hu hv in
    let same : x ≡ y =
      cancel_multiple (65536 * (p * q)) (a + bit s) b x y
        (omega (arith, e, h, if-bit s (65536 * (p * q)))) (omega (arith, bound))
        (omega (arith, bound)) in
    eq_of_parts w (u *ℤ v) (omega (arith, same, *ℤ_parts u v))

pow-add : (i j : ℕ) → 256 ^ (i + j) ≡ 256 ^ i * 256 ^ j
pow-add zero j = rw add.zero (omega arith)
pow-add (suc i) j = rw (add.suc, pow-suc256 (i + j), pow-suc256 i, pow-add i j) (omega arith)

-- Digits that hold the product modulo their range hold the product.
bignum_int-product :
    (i j : ℕ) (l : List ℕ) (u v : ℤ)
    → length l ≡ suc (suc (i + j))
    → IsBytes l
    → IsProduct (256 ^ length l) (nat_of l) 0 u v
    → (neg_part u ≤ 128 * 256 ^ i) × (pos_part u < 128 * 256 ^ i)
    → (neg_part v ≤ 128 * 256 ^ j) × (pos_part v < 128 * 256 ^ j)
    → bignum_int l ≡ u *ℤ v
bignum_int-product i j [] u v e h m hu hv = absurd (omega arith)
bignum_int-product i j (r ∷ rs) u v e h m hu hv =
    let range = bignum_int_range r rs h in
    let wide : 256 ^ length (r ∷ rs) ≡ 65536 * (256 ^ i * 256 ^ j) = omega (
      arith,
      ap (λ (t : ℕ). 256 ^ t) e,
      pow-suc256 (suc (i + j)),
      pow-suc256 (i + j),
      pow-add i j,
    ) in
    let range' : (neg_part (bignum_int (r ∷ rs)) ≤ 32768 * (256 ^ i * 256 ^ j))
        × (pos_part (bignum_int (r ∷ rs)) < 32768 * (256 ^ i * 256 ^ j)) =
      omega (arith, range, wide, pow-suc256 (length rs)) in
    product_fits (256 ^ i) (256 ^ j) u v (nat_of (r ∷ rs)) (sign (r ∷ rs)) (bignum_int (r ∷ rs)) hu
      hv range' (rw wide at m)
      (rw (bignum_int_lem (r ∷ rs), ← wide) (ext_int-nat_of (sign (r ∷ rs)) (r ∷ rs)))

-- The product of two bignums, each of a byte at least, stands for the product of their integers,
-- whatever the lengths and signs.
pub multiply_bignums_int :
    (x : ℕ) (xs : List ℕ) (y : ℕ) (ys : List ℕ)
    → IsBytes (x ∷ xs)
    → IsBytes (y ∷ ys)
    → bignum_int (multiply_bignums (x ∷ xs) (y ∷ ys)) ≡ bignum_int (x ∷ xs) *ℤ bignum_int (y ∷ ys)
unfolding multiply_bignums
multiply_bignums_int x xs y ys hx hy =
    let n = suc (length xs) + suc (length ys) in
    let zeros : List ℕ = replicate n 0 in
    let s = sign (x ∷ xs) in
    let t = sign (y ∷ ys) in
    let rows = multiply_rows n (pad_of s) (pad_of t) (x ∷ xs) (y ∷ ys) zeros in
    let len : length rows ≡ n =
      length-multiply_rows s t (x ∷ xs) n (y ∷ ys) zeros (length-replicate n 0) in
    normalize_bignum_int _
    ∙ rw (pad_lem (x ∷ xs), pad_lem (y ∷ ys))
        (bignum_int-product (length xs) (length ys) rows _ _ (len ∙ omega arith)
          (multiply_rows-IsBytes s t (x ∷ xs) n (y ∷ ys) zeros (length-replicate n 0))
          (rw (len, bignum_int_lem (x ∷ xs), bignum_int_lem (y ∷ ys))
            (rw (nat_of-replicate n) at
              (multiply_rows_lem s t (x ∷ xs) n (y ∷ ys) zeros (length-replicate n 0))))
          (bignum_int_range x xs hx) (bignum_int_range y ys hy))
