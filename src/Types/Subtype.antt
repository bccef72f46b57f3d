-- ===== src/Types/Subtype.antt =====
-- `subtypep` of mindy/interp/type.c.
pub mod Laws
pub mod Sound
pub mod Bignums
use gwydion_2_4_cleanup.Prelude.{ℕ, List, Option, none, some, Bool, true, false, ◌&&◌, ◌||◌, not}
use gwydion_2_4_cleanup.Prelude.Int.{ℤ, pos, ltb_ℤ}
use gwydion_2_4_cleanup.Bignum.Compare.{compare_bignums}
use gwydion_2_4_cleanup.Types.World.{
  Obj, class_obj, Ty, singleton, class, subclass, lim_fixnum, lim_bignum, union, none_of, Tys, nil,
  pair, World, object_class,
}
use gwydion_2_4_cleanup.Types.Instance.{idp, class_class_subtypep, class_subtypep, instancep}

unfoldable pub limfix_limfix_subtypep : ℤ → ℤ → ℤ → ℤ → Bool
limfix_limfix_subtypep min1 max1 min2 max2 = not (ltb_ℤ min1 min2) && not (ltb_ℤ max2 max1)

-- The test of the lower bounds in `limbig_limbig_subtypep`.
unfoldable pub min_subtypep : Option (List ℕ) → Option (List ℕ) → Bool
min_subtypep none none = true
min_subtypep none (some min2) = false
min_subtypep (some min1) none = false
min_subtypep (some min1) (some min2) = not (ltb_ℤ (compare_bignums min2 min1) (pos 0))

-- The test of the upper bounds.
unfoldable pub max_subtypep : Option (List ℕ) → Option (List ℕ) → Bool
max_subtypep none none = true
max_subtypep none (some max2) = false
max_subtypep (some max1) none = false
max_subtypep (some max1) (some max2) = not (ltb_ℤ (pos 0) (compare_bignums max2 max1))

unfoldable pub limbig_limbig_subtypep :
    Option (List ℕ) → Option (List ℕ) → Option (List ℕ) → Option (List ℕ) → Bool
limbig_limbig_subtypep min1 max1 min2 max2 = min_subtypep min1 min2 && max_subtypep max1 max2

module _ (w : World) where
  -- `SING(t)->object`.
  unfoldable pub sing_object : Ty → Obj
  sing_object (singleton object) = object
  sing_object (subclass of) = class_obj of
  sing_object t = w.stray_object t

  -- The loop of `lim_noneof_subtypep`: an excluded object that is in `type`.
  unfoldable pub excludes_from : Ty → Tys → Bool
  excludes_from type nil = false
  excludes_from type (pair t rest) = instancep w (sing_object t) type || excludes_from type rest

  -- The rows of `subtypep` between types that are neither unions nor none-of types.
  unfoldable pub atom_subtypep : Ty → Ty → Bool
  atom_subtypep (singleton object) (singleton object2) = idp object object2
  atom_subtypep (singleton object) t = instancep w object t
  atom_subtypep (class c) (class d) = class_class_subtypep w c d
  atom_subtypep (class c) t = false
  atom_subtypep (subclass of) (subclass of2) = class_subtypep w of of2
  atom_subtypep (subclass of) (class d) = class_subtypep w (object_class w (class_obj of)) d
  atom_subtypep (subclass of) t = false
  atom_subtypep (lim_fixnum min max) (class d) = class_subtypep w w.fixnum_class d
  atom_subtypep (lim_fixnum min max) (lim_fixnum min2 max2) =
      limfix_limfix_subtypep min max min2 max2
  atom_subtypep (lim_fixnum min max) t = false
  atom_subtypep (lim_bignum min max) (class d) = class_subtypep w w.bignum_class d
  atom_subtypep (lim_bignum min max) (lim_bignum min2 max2) =
      limbig_limbig_subtypep min max min2 max2
  atom_subtypep (lim_bignum min max) t = false
  atom_subtypep t u = false

  -- The rows against a none-of type; `inside` tells whether the type is a subtype of the base.
  unfoldable pub atom_noneof_subtypep : Ty → Ty → Tys → Bool → Bool
  atom_noneof_subtypep (singleton object) base exclude inside =
      instancep w object (none_of base exclude)
  atom_noneof_subtypep (lim_fixnum min max) base exclude inside =
      inside && not (excludes_from (lim_fixnum min max) exclude)
  atom_noneof_subtypep (lim_bignum min max) base exclude inside =
      inside && not (excludes_from (lim_bignum min max) exclude)
  atom_noneof_subtypep t base exclude inside = false

  -- `subtypep` where the first type is neither a union nor a none-of type.
  unfoldable mutual
    pub subtypep_right : Ty → Ty → Bool
    subtypep_right type1 (union members) = type_union_subtypep type1 members
    subtypep_right type1 (none_of base exclude) =
        atom_noneof_subtypep type1 base exclude (w.same type1 base || subtypep_right type1 base)
    subtypep_right type1 (singleton object) = atom_subtypep type1 (singleton object)
    subtypep_right type1 (class c) = atom_subtypep type1 (class c)
    subtypep_right type1 (subclass of) = atom_subtypep type1 (subclass of)
    subtypep_right type1 (lim_fixnum min max) = atom_subtypep type1 (lim_fixnum min max)
    subtypep_right type1 (lim_bignum min max) = atom_subtypep type1 (lim_bignum min max)

    pub type_union_subtypep : Ty → Tys → Bool
    type_union_subtypep type1 nil = false
    type_union_subtypep type1 (pair t rest) =
        (w.same type1 t || subtypep_right type1 t) || type_union_subtypep type1 rest

  -- The whole of `subtypep`: first the test for one object, then the row of the first type.
  unfoldable mutual
    pub subtypep : Ty → Ty → Bool
    subtypep (union members) type2 =
        w.same (union members) type2 || union_type_subtypep members type2
    subtypep (none_of base exclude) type2 =
        w.same (none_of base exclude) type2 || subtypep base type2
    subtypep (singleton object) type2 =
        w.same (singleton object) type2 || subtypep_right (singleton object) type2
    subtypep (class c) type2 = w.same (class c) type2 || subtypep_right (class c) type2
    subtypep (subclass of) type2 = w.same (subclass of) type2 || subtypep_right (subclass of) type2
    subtypep (lim_fixnum min max) type2 =
        w.same (lim_fixnum min max) type2 || subtypep_right (lim_fixnum min max) type2
    subtypep (lim_bignum min max) type2 =
        w.same (lim_bignum min max) type2 || subtypep_right (lim_bignum min max) type2

    pub union_type_subtypep : Tys → Ty → Bool
    union_type_subtypep nil type2 = true
    union_type_subtypep (pair t rest) type2 = subtypep t type2 && union_type_subtypep rest type2
