-- ===== src/Types/Limited.antt =====
-- Limited integers of mindy/interp/type.c: `limited_fixnum`, `limited_bignum`, and the routines
-- that merge, intersect and restrict them. `none` is #f, as an argument and as a result.
pub mod Laws
use gwydion_2_4_cleanup.Prelude.{
  ℕ, ◌-◌, ◌%◌, ◌^◌, List, Option, none, some, Bool, true, false, ◌&&◌, ◌||◌, not, ltb,
  if◌then◌else◌,
}
use mathlib.Core.Option
use gwydion_2_4_cleanup.Prelude.Int.{ℤ, pos, negsuc, ltb_ℤ, eqb_ℤ, ◌+ℤ◌, ◌-ℤ◌}
use gwydion_2_4_cleanup.Fixnum.{min_fixnum, max_fixnum, make_fixnum}
use gwydion_2_4_cleanup.Bignum.Compare.{compare_bignums}
use gwydion_2_4_cleanup.Bignum.Sum.{add_bignums, subtract_bignums}
use gwydion_2_4_cleanup.Types.World.{Ty, class, lim_fixnum, lim_bignum, World}
use gwydion_2_4_cleanup.Types.Instance.{compare_bound, bound_compare}

abbrev pub min_of : ℤ → ℤ → ℤ
min_of a b = if ltb_ℤ a b then a else b

abbrev pub max_of : ℤ → ℤ → ℤ
max_of a b = if ltb_ℤ b a then a else b

-- Two bounds, neither of them #f, of which the first is below the second.
unfoldable pub bounds_apart : Option (List ℕ) → Option (List ℕ) → Bool
bounds_apart (some max) (some min) = ltb_ℤ (compare_bignums max min) (pos 0)
bounds_apart _ _ = false

module _ (w : World) where
  unfoldable pub limited_fixnum : Option ℤ → Option ℤ → Ty
  limited_fixnum min max =
      let low = Option.get_or min min_fixnum in
      let high = Option.get_or max max_fixnum in
      if not (eqb_ℤ low min_fixnum) || not (eqb_ℤ high max_fixnum)
      then lim_fixnum low high
      else class w.fixnum_class

  unfoldable pub limited_bignum : Option (List ℕ) → Option (List ℕ) → Ty
  limited_bignum none none = class w.bignum_class
  limited_bignum min max = lim_bignum min max

  unfoldable pub merge_limited_fixnums : ℤ → ℤ → ℤ → ℤ → Option Ty
  merge_limited_fixnums min1 max1 min2 max2 =
      if ltb_ℤ max1 (min2 -ℤ pos 1)
      then none
      else (if ltb_ℤ max2 (min1 -ℤ pos 1)
          then none
          else some (limited_fixnum (some (min_of min1 min2)) (some (max_of max1 max2))))

  unfoldable pub intersect_limited_fixnums : ℤ → ℤ → ℤ → ℤ → Option Ty
  intersect_limited_fixnums min1 max1 min2 max2 =
      if ltb_ℤ max1 min2
      then none
      else (if ltb_ℤ max2 min1
          then none
          else some (
              limited_fixnum (some (if ltb_ℤ min1 min2 then min2 else min1))
                (some (if ltb_ℤ max2 max1 then max2 else max1))))

  -- The bounds of `lim1` where it is a limited fixnum type, else those of every fixnum.
  abbrev pub bounds_of : Ty → ℤ × ℤ
  bounds_of (lim_fixnum min max) = (min, max)
  bounds_of t = (min_fixnum, max_fixnum)

  unfoldable pub restrict_limited_fixnums : ℤ → Ty → ℤ → ℤ → Ty
  restrict_limited_fixnums val lim1 min2 max2 =
      let (min1, max1) = bounds_of lim1 in
      limited_fixnum
        (some (if ltb_ℤ min2 val && ltb_ℤ min1 max2 then make_fixnum (max2 +ℤ pos 1) else min1))
        (some (if ltb_ℤ val max2 && ltb_ℤ min2 max1 then make_fixnum (min2 -ℤ pos 1) else max1))

  -- The choice of the lower bound in `intersect_limited_bignums`.
  unfoldable pub higher_min : Option (List ℕ) → Option (List ℕ) → Option (List ℕ)
  higher_min none min2 = min2
  higher_min (some min1) min2 =
      if ltb_ℤ (compare_bound w min1 min2) (pos 0) then min2 else some min1

  unfoldable pub lower_max : Option (List ℕ) → Option (List ℕ) → Option (List ℕ)
  lower_max none max2 = max2
  lower_max (some max1) max2 = if ltb_ℤ (pos 0) (compare_bound w max1 max2) then max2 else some max1

  unfoldable pub intersect_limited_bignums :
      Option (List ℕ) → Option (List ℕ) → Option (List ℕ) → Option (List ℕ) → Option Ty
  intersect_limited_bignums min1 max1 min2 max2 =
      if bounds_apart max1 min2
      then none
      else (if bounds_apart max2 min1
          then none
          else some (limited_bignum (higher_min min1 min2) (lower_max max1 max2)))
