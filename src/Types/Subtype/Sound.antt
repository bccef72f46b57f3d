-- ===== src/Types/Subtype/Sound.antt =====
-- `subtypep` of mindy/interp/type.c says yes only where every instance is kept.
use gwydion_2_4_cleanup.Prelude.{◌≡◌, Bool, true, ◌&&◌, ◌||◌, arith}
use gwydion_2_4_cleanup.Types.World.{
  Obj, Ty, singleton, class, subclass, lim_fixnum, lim_bignum, union, none_of, Tys, nil, pair,
  World, IsHierarchy,
}
use gwydion_2_4_cleanup.Types.Instance.{instancep, union_instancep}
use gwydion_2_4_cleanup.Types.Subtype.{subtypep_right, subtypep, union_type_subtypep}
use gwydion_2_4_cleanup.Types.Subtype.Laws.{
  Regular, AreRegular, ExcludesObjects, or_case, and_true, same_instancep, subtypep_right_sound,
}

both_left : (a b : Bool) → (a && b) ≡ true → a ≡ true
both_left a b h = ground arith

module _ (w : World) (h : IsHierarchy w) where
  -- A yes to the test for one object, or of the row, keeps an instance.
  row_sound :
      (x : Obj) (t u : Ty)
      → Regular w t
      → ExcludesObjects u
      → (w.same t u || subtypep_right w t u) ≡ true
      → instancep w x t ≡ true
      → instancep w x u ≡ true
  row_sound x t u n a =
      or_case (w.same t u) (subtypep_right w t u) (same_instancep w h x t u)
        (subtypep_right_sound w h x t u n a)

  mutual
    unfolding subtypep instancep

    sound :
        (x : Obj) (t u : Ty)
        → Regular w t
        → ExcludesObjects u
        → subtypep w t u ≡ true
        → instancep w x t ≡ true
        → instancep w x u ≡ true
    sound x (union members) u n a =
        or_case (w.same (union members) u) (union_type_subtypep w members u)
          (same_instancep w h x (union members) u) (union_sound x members u n a)
    sound x (none_of base exclude) u n a =
        or_case (w.same (none_of base exclude) u) (subtypep w base u)
          (same_instancep w h x (none_of base exclude) u)
          (λ e q. sound x base u n a e (both_left _ _ q))
    sound x (singleton o) u n a = row_sound x (singleton o) u n a
    sound x (class c) u n a = row_sound x (class c) u n a
    sound x (subclass c) u n a = row_sound x (subclass c) u n a
    sound x (lim_fixnum i j) u n a = row_sound x (lim_fixnum i j) u n a
    sound x (lim_bignum i j) u n a = row_sound x (lim_bignum i j) u n a

    union_sound :
        (x : Obj) (members : Tys) (u : Ty)
        → AreRegular w members
        → ExcludesObjects u
        → union_type_subtypep w members u ≡ true
        → union_instancep w x members ≡ true
        → instancep w x u ≡ true
    union_sound x nil u n a e q = cc
    union_sound x (pair t rest) u n a e q =
        or_case (instancep w x t) (union_instancep w x rest)
          (λ p (r : subtypep w t u ≡ true). sound x t u n.0 a r p)
          (λ p r. union_sound x rest u n.1 a (and_true (subtypep w t u) _ e).1 p) q
          (and_true _ (union_type_subtypep w rest u) e).0

  -- Where `subtypep` says that one type is a subtype of another, each instance of the first is an
  -- instance of the second, provided that the second excludes only single objects, and that the
  -- first is or holds no limited bignum type, and a subclass type only of a class such that the
  -- classes of the classes below it are below its own class.
  pub subtypep_sound :
      (x : Obj) (t u : Ty)
      → Regular w t
      → ExcludesObjects u
      → subtypep w t u ≡ true
      → instancep w x t ≡ true
      → instancep w x u ≡ true
  subtypep_sound = sound
