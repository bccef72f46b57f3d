-- ===== src/Types/Instance.antt =====
-- `idp` of mindy/interp/num.c, and `instancep` of mindy/interp/type.c.
pub mod Laws
use gwydion_2_4_cleanup.Prelude.{
  ℕ, List, Option, none, some, Bool, true, false, ◌&&◌, ◌||◌, not, ◌==◌,
}
use gwydion_2_4_cleanup.Prelude.Int.{ℤ, pos, ltb_ℤ, eqb_ℤ}
use gwydion_2_4_cleanup.Bignum.Compare.{compare_bignums}
use gwydion_2_4_cleanup.Types.World.{
  Obj, fixnum, bignum, ratio, class_obj, instance_of, Ty, singleton, class, subclass, lim_fixnum,
  lim_bignum, union, none_of, Tys, nil, pair, World, memq, object_class,
}

-- `idp`. Two bignums or ratios may be one without being the same object.
unfoldable pub idp : Obj → Obj → Bool
idp (fixnum m) (fixnum n) = eqb_ℤ m n
idp (bignum x) (bignum y) = eqb_ℤ (compare_bignums x y) (pos 0)
idp (ratio m n) (ratio i j) = idp m i && idp n j
idp (class_obj c) (class_obj d) = c == d
idp (instance_of c a) (instance_of d b) = c == d && a == b
idp _ _ = false

module _ (w : World) where
  -- `class_class_subtypep`, of classes that have been initialized: a class with #f for its list, for
  -- which the source calls `error`, is not in the `World`.
  unfoldable pub class_class_subtypep : ℕ → ℕ → Bool
  class_class_subtypep class1 class2 = memq class2 (w.cpl class1)

  -- `subtypep` of two classes, which first tests whether they are one.
  unfoldable pub class_subtypep : ℕ → ℕ → Bool
  class_subtypep class1 class2 = class1 == class2 || class_class_subtypep class1 class2

  -- `class_instancep`; its cache holds results of this same call.
  unfoldable pub class_instancep : Obj → ℕ → Bool
  class_instancep thing c = class_subtypep (object_class w thing) c

  -- `subtypep(thing, of)` for a thing that is an instance of <class>, and so a class.
  unfoldable pub thing_subtypep : Obj → ℕ → Bool
  thing_subtypep (class_obj c) of = class_subtypep c of
  thing_subtypep _ of = false

  unfoldable pub subclass_instancep : Obj → ℕ → Bool
  subclass_instancep thing of = class_instancep thing w.class_class && thing_subtypep thing of

  unfoldable pub limfix_instancep : Obj → ℤ → ℤ → Bool
  limfix_instancep (fixnum n) min max = not (ltb_ℤ n min) && not (ltb_ℤ max n)
  limfix_instancep _ min max = false

  -- `compare_bignums(thing, min)`, where `min` may be #f.
  unfoldable pub compare_bound : List ℕ → Option (List ℕ) → ℤ
  compare_bound x none = w.stray_compare x
  compare_bound x (some y) = compare_bignums x y

  unfoldable pub bound_compare : Option (List ℕ) → List ℕ → ℤ
  bound_compare none x = w.stray_compare x
  bound_compare (some y) x = compare_bignums y x

  unfoldable pub limbig_instancep : Obj → Option (List ℕ) → Option (List ℕ) → Bool
  limbig_instancep (bignum x) min max =
      not (ltb_ℤ (compare_bound x min) (pos 0)) && not (ltb_ℤ (bound_compare max x) (pos 0))
  limbig_instancep _ min max = false

  unfoldable mutual
    pub instancep : Obj → Ty → Bool
    instancep thing (singleton object) = idp thing object
    instancep thing (class c) = class_instancep thing c
    instancep thing (subclass of) = subclass_instancep thing of
    instancep thing (lim_fixnum min max) = limfix_instancep thing min max
    instancep thing (lim_bignum min max) = limbig_instancep thing min max
    instancep thing (union members) = union_instancep thing members
    instancep thing (none_of base exclude) =
        instancep thing base && not (union_instancep thing exclude)

    -- The loop of `union_instancep`, and of `none_of_instancep` with the answers turned round.
    pub union_instancep : Obj → Tys → Bool
    union_instancep thing nil = false
    union_instancep thing (pair t rest) = instancep thing t || union_instancep thing rest
