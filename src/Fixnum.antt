-- ===== src/Fixnum.antt =====
-- Fixed integers, mindy/interp/num.h and num.c ("Dylan Routines -- Fixed Integers"). A fixnum is
-- the integer that `fixnum_value` gives; a `long` is of 64 bits.
pub mod Laws
pub mod Division
use gwydion_2_4_cleanup.Prelude.{
  ℕ, zero, suc, ◌+◌, ◌-◌, ◌%◌, ◌/◌, ◌*◌, ◌^◌, Option, none, some, Bool, true, false, ◌&&◌, ◌||◌,
  not, ltb, eqb, if◌then◌else◌, ◌==◌,
}
use gwydion_2_4_cleanup.Prelude.Int.{
  ℤ, pos, negsuc, pos_part, neg_part, sub_ℕ, ltb_ℤ, eqb_ℤ, ◌+ℤ◌, ◌-ℤ◌, ◌*ℤ◌, ◌≤ℤ◌,
}

-- `MIN_FIXNUM` and `MAX_FIXNUM`: a `long` less the tag bit.
abbrev pub min_fixnum : ℤ
min_fixnum = negsuc (2 ^ 62 - 1)

abbrev pub max_fixnum : ℤ
max_fixnum = pos (2 ^ 62 - 1)

-- `make_fixnum`, then `fixnum_value`: the tag costs a bit at the top.
unfoldable pub make_fixnum : ℤ → ℤ
make_fixnum v =
    let bits : ℕ = elim v [ pos n ↦ n % 2 ^ 63 | negsuc n ↦ 2 ^ 63 - 1 - n % 2 ^ 63 ] in
    if ltb bits (2 ^ 62) then pos bits else negsuc (2 ^ 63 - 1 - bits)

-- What a fixnum can be.
abbrev pub IsFixnum : ℤ → Type 0
IsFixnum n = (min_fixnum ≤ℤ n) × (n ≤ℤ max_fixnum)

unfoldable pub fi_negative : ℤ → ℤ
fi_negative x = make_fixnum (pos 0 -ℤ x)

unfoldable pub fi_plus : ℤ → ℤ → ℤ
fi_plus x y = make_fixnum (x +ℤ y)

unfoldable pub fi_minus : ℤ → ℤ → ℤ
fi_minus x y = make_fixnum (x -ℤ y)

unfoldable pub fi_times : ℤ → ℤ → ℤ
fi_times x y = make_fixnum (x *ℤ y)

-- `~` in two's complement.
unfoldable pub fi_lognot : ℤ → ℤ
fi_lognot (pos n) = make_fixnum (negsuc n)
fi_lognot (negsuc n) = make_fixnum (pos n)

abbrev pub magnitude : ℤ → ℕ
magnitude v = pos_part v + neg_part v

abbrev pub is_negative : ℤ → Bool
is_negative (pos n) = false
is_negative (negsuc n) = true

-- The integer `-n`.
unfoldable pub minus : ℕ → ℤ
minus zero = pos 0
minus (suc n) = negsuc n

-- C's `x / y` and `x % y`, which round towards 0.
unfoldable pub quot : ℤ → ℤ → ℤ
quot x y =
    let q = magnitude x / magnitude y in
    if eqb (is_negative x) (is_negative y) then pos q else minus q

unfoldable pub rem : ℤ → ℤ → ℤ
rem x y = let r = magnitude x % magnitude y in if is_negative x then minus r else pos r

abbrev pub is_odd : ℤ → Bool
is_odd v = magnitude v % 2 == 1

-- `(r ^ x) < 0`: the signs differ.
abbrev pub signs_differ : ℤ → ℤ → Bool
signs_differ r x = not (eqb (is_negative r) (is_negative x))

-- The quotient and the remainder before they are made fixnums.
unfoldable pub trunc_pair : ℤ → ℤ → ℤ × ℤ
trunc_pair x y =
    let q = quot x y in
    let r = rem x y in
    if not (eqb_ℤ r (pos 0)) && signs_differ r x then (q +ℤ pos 1, r -ℤ y) else (q, r)

unfoldable pub floor_pair : ℤ → ℤ → ℤ × ℤ
floor_pair x y =
    let q = quot x y in
    let r = rem x y in
    if not (eqb_ℤ r (pos 0)) && signs_differ r y then (q -ℤ pos 1, r +ℤ y) else (q, r)

unfoldable pub ceil_pair : ℤ → ℤ → ℤ × ℤ
ceil_pair x y =
    let q = quot x y in
    let r = rem x y in
    if not (eqb_ℤ r (pos 0)) && not (signs_differ r y) then (q +ℤ pos 1, r -ℤ y) else (q, r)

-- `r > limit || (r == limit && (q & 1))`, and the same below `-limit`.
abbrev pub too_large : ℤ → ℤ → ℤ → Bool
too_large r limit q = ltb_ℤ limit r || eqb_ℤ r limit && is_odd q

abbrev pub too_small : ℤ → ℤ → ℤ → Bool
too_small r limit q = ltb_ℤ r (pos 0 -ℤ limit) || eqb_ℤ r (pos 0 -ℤ limit) && is_odd q

unfoldable pub round_pair : ℤ → ℤ → ℤ × ℤ
round_pair x y =
    let q = quot x y in
    let r = rem x y in
    let limit = pos (magnitude y / 2) in
    if eqb_ℤ r (pos 0)
    then (q, r)
    else (if ltb_ℤ (pos 0) y
        then (if too_large r limit q
            then (q +ℤ pos 1, r -ℤ y)
            else (if too_small r limit q then (q -ℤ pos 1, r +ℤ y) else (q, r)))
        else (if too_large r limit q
            then (q -ℤ pos 1, r +ℤ y)
            else (if too_small r limit q then (q +ℤ pos 1, r -ℤ y) else (q, r))))

-- The four functions; `none` is the error "Division by zero".
unfoldable pub divide_fixnums : (ℤ → ℤ → ℤ × ℤ) → ℤ → ℤ → Option (ℤ × ℤ)
divide_fixnums pair_of x y =
    if eqb_ℤ y (pos 0)
    then none
    else (let (q, r) = pair_of x y in some (make_fixnum q, make_fixnum r))

unfoldable pub fi_trunc : ℤ → ℤ → Option (ℤ × ℤ)
fi_trunc = divide_fixnums trunc_pair

unfoldable pub fi_floor : ℤ → ℤ → Option (ℤ × ℤ)
fi_floor = divide_fixnums floor_pair

unfoldable pub fi_ceil : ℤ → ℤ → Option (ℤ × ℤ)
fi_ceil = divide_fixnums ceil_pair

unfoldable pub fi_round : ℤ → ℤ → Option (ℤ × ℤ)
fi_round = divide_fixnums round_pair
