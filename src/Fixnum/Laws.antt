-- ===== src/Fixnum/Laws.antt =====
-- Making a fixnum of a `long` (mindy/interp/num.h), and the sums of mindy/interp/num.c.
use gwydion_2_4_cleanup.Prelude.{◌-◌, ◌^◌, ◌≡◌, arith}
use gwydion_2_4_cleanup.Prelude.Int.{ℤ, pos, negsuc, int_laws, ◌≤ℤ◌, ◌<ℤ◌, ◌+ℤ◌, ◌-ℤ◌}
use gwydion_2_4_cleanup.Fixnum.{
  IsFixnum, min_fixnum, max_fixnum, make_fixnum, fi_plus, fi_minus, fi_negative,
}

pub make_fixnum_lem : (n : ℤ) → IsFixnum n → make_fixnum n ≡ n
unfolding make_fixnum
make_fixnum_lem (pos n) h = ground arith
make_fixnum_lem (negsuc n) h = ground arith

-- A `long` of 64 bits that is no fixnum loses the bit that the tag takes.
pub make_fixnum_above :
    (v : ℤ) → max_fixnum <ℤ v → v <ℤ pos (2 ^ 63) → make_fixnum v ≡ v -ℤ pos (2 ^ 63)
unfolding make_fixnum ◌-ℤ◌
make_fixnum_above (pos n) h k = ground arith
make_fixnum_above (negsuc n) h k = ground arith

make_fixnum_below :
    (v : ℤ) → v <ℤ min_fixnum → negsuc (2 ^ 63 - 1) ≤ℤ v → make_fixnum v ≡ v +ℤ pos (2 ^ 63)
unfolding make_fixnum ◌+ℤ◌
make_fixnum_below (pos n) h k = ground arith
make_fixnum_below (negsuc n) h k = ground arith

-- What `f` gives where the exact result is `v`: `v` if it is a fixnum, else `v` wrapped by 2 ^ 63.
abbrev pub Wraps : ℤ → ℤ → Type 0
Wraps v result =
    (IsFixnum v → result ≡ v)
    × (max_fixnum <ℤ v → result ≡ v -ℤ pos (2 ^ 63))
    × (v <ℤ min_fixnum → result ≡ v +ℤ pos (2 ^ 63))

make_fixnum-Wraps : (v : ℤ) → negsuc (2 ^ 63 - 1) ≤ℤ v → v <ℤ pos (2 ^ 63) → Wraps v (make_fixnum v)
make_fixnum-Wraps v h k =
    (make_fixnum_lem v, λ l. make_fixnum_above v l k, λ l. make_fixnum_below v l h)

-- The sum, the difference and the negation of fixnums are exact where they are fixnums, and wrap
-- where they are not: nothing goes over to the extended integers, and no error is raised.
pub fixnum_sums-Wraps :
    (x y : ℤ)
    → IsFixnum x
    → IsFixnum y
    → Wraps (x +ℤ y) (fi_plus x y)
      × Wraps (x -ℤ y) (fi_minus x y)
      × Wraps (pos 0 -ℤ x) (fi_negative x)
unfolding fi_plus fi_minus fi_negative
fixnum_sums-Wraps x y hx hy = (
  make_fixnum-Wraps (x +ℤ y) (omega int_laws) (omega int_laws),
  make_fixnum-Wraps (x -ℤ y) (omega int_laws) (omega int_laws),
  make_fixnum-Wraps (pos 0 -ℤ x) (omega int_laws) (omega int_laws),
)
