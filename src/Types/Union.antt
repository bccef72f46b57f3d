-- ===== src/Types/Union.antt =====
-- `type_union` of mindy/interp/type.c with what it calls, and `restrict_type`.
pub mod Laws
pub mod Total
use gwydion_2_4_cleanup.Prelude.{
  ℕ, zero, suc, ◌+◌, List, [], ◌∷◌, Option, none, some, Bool, true, false, ◌&&◌, ◌||◌,
  if◌then◌else◌,
}
use gwydion_2_4_cleanup.Prelude.Int.{ℤ, pos, ltb_ℤ}
use gwydion_2_4_cleanup.Bignum.Compare.{compare_bignums}
use gwydion_2_4_cleanup.Bignum.Sum.{subtract_bignums}
use gwydion_2_4_cleanup.Types.World.{
  Obj, fixnum, bignum, ratio, class_obj, instance_of, Ty, singleton, class, subclass, lim_fixnum,
  lim_bignum, union, none_of, Tys, nil, pair, World, object_class,
}
use gwydion_2_4_cleanup.Types.Subtype.{subtypep}
use gwydion_2_4_cleanup.Types.Limited.{limited_fixnum, limited_bignum, merge_limited_fixnums}

-- `restrict_type`. A none-of type is extended in place: this is what it then holds.
unfoldable pub restrict_type : Ty → Ty → Ty
restrict_type exclude (none_of base excluded) = none_of base (pair exclude excluded)
restrict_type exclude type = none_of type (pair exclude nil)

-- The test that two bounds of limited bignums leave a number between them.
unfoldable pub bounds_gap : Option (List ℕ) → Option (List ℕ) → Bool
bounds_gap (some max) (some min) =
    ltb_ℤ (compare_bignums max (subtract_bignums min (1 ∷ []))) (pos 0)
bounds_gap _ _ = false

-- `*prev = list1(type)`, at the end.
unfoldable pub put_last : Ty → Tys → Tys
put_last type nil = pair type nil
put_last type (pair t rest) = pair t (put_last type rest)

module _ (w : World) where
  -- The choices of the bounds in `merge_limited_bignums`, by the addresses.
  unfoldable pub first_bound : Option (List ℕ) → Option (List ℕ) → Option (List ℕ)
  first_bound (some min1) (some min2) = some (if w.below min1 min2 then min1 else min2)
  first_bound _ _ = none

  unfoldable pub last_bound : Option (List ℕ) → Option (List ℕ) → Option (List ℕ)
  last_bound (some max1) (some max2) = some (if w.below max2 max1 then max1 else max2)
  last_bound _ _ = none

  unfoldable pub merge_limited_bignums :
      Option (List ℕ) → Option (List ℕ) → Option (List ℕ) → Option (List ℕ) → Option Ty
  merge_limited_bignums min1 max1 min2 max2 =
      if bounds_gap max1 min2 || bounds_gap max2 min1
      then none
      else some (limited_bignum w (first_bound min1 min2) (last_bound max1 max2))

  unfoldable pub canonicalize_union_member : Ty → Ty
  canonicalize_union_member (singleton (fixnum n)) = limited_fixnum w (some n) (some n)
  canonicalize_union_member (singleton (bignum x)) = limited_bignum w (some x) (some x)
  canonicalize_union_member (singleton object) =
      if w.is_boolean object then class (object_class w object) else singleton object
  canonicalize_union_member type = type

  -- The last two tests of `merge_members`.
  unfoldable pub merge_subtypes : Ty → Ty → Option Ty
  merge_subtypes type1 type2 =
      if subtypep w type1 type2
      then some type2
      else (if subtypep w type2 type1 then some type1 else none)

  unfoldable pub merge_members : Ty → Ty → Option Ty
  merge_members (lim_fixnum min1 max1) (lim_fixnum min2 max2) =
      merge_limited_fixnums w min1 max1 min2 max2
  merge_members (lim_bignum min1 max1) (lim_bignum min2 max2) =
      merge_limited_bignums min1 max1 min2 max2
  merge_members type1 type2 = merge_subtypes type1 type2

  -- The `do` loop of `merge_with_union`: the first member that merges with the type, as the merged
  -- type and the other members, in their order.
  unfoldable pub merge_one : Ty → Tys → Option (Ty × Tys)
  merge_one type nil = none
  merge_one type (pair member remaining) = elim (merge_members type member) [
    | some merged ↦ some (merged, remaining)
    | none ↦ elim (merge_one type remaining) [
      | some (merged, members) ↦ some (merged, pair member members)
      | none ↦ none
    ]
  ]

  -- `merge_with_union`: on fuel, one for each `goto again`.
  unfoldable pub merge_with_union : ℕ → Ty → Tys → Option Ty
  merge_with_union zero type members = none
  merge_with_union (suc n) type nil = some type
  merge_with_union (suc n) type (pair t rest) = elim (merge_one type (pair t rest)) [
    | some (merged, members) ↦ merge_with_union n merged members
    | none ↦ some (union (put_last type (pair t rest)))
  ]

  abbrev pub size : Tys → ℕ
  size nil = 0
  size (pair t rest) = suc (size rest)

  -- `type_union` where neither type is a union.
  unfoldable pub union_of_two : Ty → Ty → Ty
  union_of_two type1 type2 =
      let t1 = canonicalize_union_member type1 in
      let t2 = canonicalize_union_member type2 in
      elim (merge_members t1 t2) [ some merged ↦ merged | none ↦ union (pair t1 (pair t2 nil)) ]

  -- `type_union` of any type and one that is no union.
  unfoldable pub union_with : Ty → Ty → Option Ty
  union_with (union members) type2 =
      merge_with_union (suc (size members)) (canonicalize_union_member type2) members
  union_with type1 type2 = some (union_of_two type1 type2)

  -- The whole of `type_union`, and `merge_unions` from its second union on, on fuel: one for each
  -- call.
  unfoldable mutual
    pub type_union : ℕ → Ty → Ty → Option Ty
    type_union zero type1 type2 = none
    type_union (suc n) (union members1) (union members2) = merge_unions n members1 (union members2)
    type_union (suc n) (union members1) type2 = union_with (union members1) type2
    type_union (suc n) type1 (union members2) = union_with (union members2) type1
    type_union (suc n) type1 type2 = union_with type1 type2

    pub merge_unions : ℕ → Tys → Ty → Option Ty
    merge_unions zero members result = none
    merge_unions (suc n) nil result = some result
    merge_unions (suc n) (pair t remaining) result = elim (type_union n result t) [
      | some merged ↦ merge_unions n remaining merged
      | none ↦ none
    ]
