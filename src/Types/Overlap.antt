-- ===== src/Types/Overlap.antt =====
-- `overlapp` of mindy/interp/type.c.
pub mod Laws
use gwydion_2_4_cleanup.Prelude.{
  ℕ, List, [], ◌∷◌, Option, none, some, Bool, true, false, ◌&&◌, ◌||◌, not,
}
use gwydion_2_4_cleanup.Prelude.Int.{ℤ, ltb_ℤ}
use gwydion_2_4_cleanup.Types.World.{
  Obj, class_obj, Ty, singleton, class, subclass, lim_fixnum, lim_bignum, union, none_of, Tys, nil,
  pair, World,
}
use gwydion_2_4_cleanup.Types.Instance.{idp, class_subtypep, instancep}
use gwydion_2_4_cleanup.Types.Limited.{bounds_apart}

unfoldable pub limfix_limfix_overlapp : ℤ → ℤ → ℤ → ℤ → Bool
limfix_limfix_overlapp min1 max1 min2 max2 = not (ltb_ℤ max1 min2) && not (ltb_ℤ max2 min1)

unfoldable pub limbig_limbig_overlapp :
    Option (List ℕ) → Option (List ℕ) → Option (List ℕ) → Option (List ℕ) → Bool
limbig_limbig_overlapp min1 max1 min2 max2 =
    not (bounds_apart max1 min2) && not (bounds_apart max2 min1)

module _ (w : World) where
  -- The loop of `class_class_overlapp`.
  unfoldable pub any_subtypep : List ℕ → ℕ → Bool
  any_subtypep [] class2 = false
  any_subtypep (c ∷ rest) class2 = class_subtypep w c class2 || any_subtypep rest class2

  unfoldable pub class_class_overlapp : ℕ → ℕ → Bool
  class_class_overlapp class1 class2 =
      class_subtypep w class1 class2 || any_subtypep (w.all_subclasses class1) class2

  -- The loop of `subclass_type_overlapp`.
  unfoldable pub any_instancep : List ℕ → Ty → Bool
  any_instancep [] type = false
  any_instancep (c ∷ rest) type = instancep w (class_obj c) type || any_instancep rest type

  unfoldable pub subclass_type_overlapp : ℕ → Ty → Bool
  subclass_type_overlapp of type =
      instancep w (class_obj of) type || any_instancep (w.all_subclasses of) type

  -- `overlapp_table` against a class, in the second place.
  unfoldable mutual
    pub overlapp_class : Ty → ℕ → Bool
    overlapp_class (singleton object) c = instancep w object (class c)
    overlapp_class (class d) c = class_class_overlapp d c
    overlapp_class (subclass of) c = subclass_type_overlapp of (class c)
    overlapp_class (lim_fixnum min max) c = class_class_overlapp c w.fixnum_class
    overlapp_class (lim_bignum min max) c = class_class_overlapp c w.bignum_class
    overlapp_class (union members) c = union_overlapp_class members c
    overlapp_class (none_of base exclude) c = overlapp_class base c

    pub union_overlapp_class : Tys → ℕ → Bool
    union_overlapp_class nil c = false
    union_overlapp_class (pair t rest) c = overlapp_class t c || union_overlapp_class rest c

  -- The row of a limited integer type against another one, `never_subtypep` between the two kinds.
  unfoldable pub lim_lim_overlapp : Ty → Ty → Bool
  lim_lim_overlapp (lim_fixnum min1 max1) (lim_fixnum min2 max2) =
      limfix_limfix_overlapp min1 max1 min2 max2
  lim_lim_overlapp (lim_bignum min1 max1) (lim_bignum min2 max2) =
      limbig_limbig_overlapp min1 max1 min2 max2
  lim_lim_overlapp t u = false

  -- `limfix_class_overlapp` and `limbig_class_overlapp`.
  unfoldable pub lim_class_overlapp : Ty → ℕ → Bool
  lim_class_overlapp (lim_fixnum min max) c = class_class_overlapp c w.fixnum_class
  lim_class_overlapp t c = class_class_overlapp c w.bignum_class

  -- `overlapp_table` against a limited integer type `lim`, in the second place.
  unfoldable mutual
    pub overlapp_lim : Ty → Ty → Bool
    overlapp_lim (singleton object) lim = instancep w object lim
    overlapp_lim (class c) lim = lim_class_overlapp lim c
    overlapp_lim (subclass of) lim = subclass_type_overlapp of lim
    overlapp_lim (lim_fixnum min max) lim = lim_lim_overlapp (lim_fixnum min max) lim
    overlapp_lim (lim_bignum min max) lim = lim_lim_overlapp (lim_bignum min max) lim
    overlapp_lim (union members) lim = union_overlapp_lim members lim
    overlapp_lim (none_of base exclude) lim = overlapp_lim base lim

    pub union_overlapp_lim : Tys → Ty → Bool
    union_overlapp_lim nil lim = false
    union_overlapp_lim (pair t rest) lim = overlapp_lim t lim || union_overlapp_lim rest lim

  -- The row of a limited integer type: `lim_type_overlapp` turns the two types round.
  unfoldable pub lim_type_overlapp : Ty → Ty → Bool
  lim_type_overlapp lim (class c) = lim_class_overlapp lim c
  lim_type_overlapp lim (subclass of) = false
  lim_type_overlapp lim (lim_fixnum min max) = lim_lim_overlapp lim (lim_fixnum min max)
  lim_type_overlapp lim (lim_bignum min max) = lim_lim_overlapp lim (lim_bignum min max)
  lim_type_overlapp lim t = overlapp_lim t lim

  -- The row of a class: `class_type_overlapp` turns the two types round.
  unfoldable pub class_type_overlapp : ℕ → Ty → Bool
  class_type_overlapp c (class d) = class_class_overlapp c d
  class_type_overlapp c t = overlapp_class t c

  unfoldable pub sing_type_overlapp : Obj → Ty → Bool
  sing_type_overlapp object (singleton object2) = idp object object2
  sing_type_overlapp object t = instancep w object t

  unfoldable mutual
    pub overlapp : Ty → Ty → Bool
    overlapp (singleton object) type2 = sing_type_overlapp object type2
    overlapp (class c) type2 = class_type_overlapp c type2
    overlapp (subclass of) type2 = subclass_type_overlapp of type2
    overlapp (lim_fixnum min max) type2 = lim_type_overlapp (lim_fixnum min max) type2
    overlapp (lim_bignum min max) type2 = lim_type_overlapp (lim_bignum min max) type2
    overlapp (union members) type2 = union_type_overlapp members type2
    overlapp (none_of base exclude) type2 = overlapp base type2

    pub union_type_overlapp : Tys → Ty → Bool
    union_type_overlapp nil type2 = false
    union_type_overlapp (pair t rest) type2 = overlapp t type2 || union_type_overlapp rest type2
