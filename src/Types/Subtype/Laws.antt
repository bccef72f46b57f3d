-- ===== src/Types/Subtype/Laws.antt =====
-- `subtypep` of mindy/interp/type.c against `instancep`.
use gwydion_2_4_cleanup.Prelude.{
  ℕ, ◌≡◌, refl, ◌==◌, Bool, true, false, ◌&&◌, ◌||◌, not, arith, ◌⊎◌, ◌≢◌, inl, inr, Bool-cases,
  ◌∙◌, sym, subst,
}
use gwydion_2_4_cleanup.Prelude.Int.{ℤ}
use gwydion_2_4_cleanup.Types.World.{
  Obj, fixnum, class_obj, Ty, singleton, class, subclass, lim_fixnum, lim_bignum, union, none_of,
  Tys, nil, pair, World, object_class, IsHierarchy, memq,
}
use gwydion_2_4_cleanup.Types.Instance.{
  idp, class_class_subtypep, class_subtypep, class_instancep, thing_subtypep, subclass_instancep,
  limfix_instancep, instancep, union_instancep,
}
use gwydion_2_4_cleanup.Types.Instance.Laws.{idp-eq}
use gwydion_2_4_cleanup.Types.Subtype.{
  limfix_limfix_subtypep, sing_object, excludes_from, atom_subtypep, atom_noneof_subtypep,
  subtypep_right, type_union_subtypep,
}

-- What a type takes no part in where `subtypep` is wrong: a limited bignum on the left.
abbrev mutual
  pub NoLimBignum : Ty → Type 0
  NoLimBignum (lim_bignum min max) = ⊥
  NoLimBignum (union members) = NoLimBignums members
  NoLimBignum (none_of base exclude) = NoLimBignum base
  NoLimBignum (singleton o) = Unit
  NoLimBignum (class c) = Unit
  NoLimBignum (subclass c) = Unit
  NoLimBignum (lim_fixnum a b) = Unit

  pub NoLimBignums : Tys → Type 0
  NoLimBignums nil = Unit
  NoLimBignums (pair t rest) = NoLimBignum t × NoLimBignums rest

-- The classes of `c` and of the classes below it are as `subtypep` takes them to be: the class of a
-- class below `c` is below the class of `c`. (A static class below a class that is not static is not
-- like that.)
abbrev pub Follows : World → ℕ → Type 0
Follows w c =
    (i : ℕ)
    → memq c (w.cpl i) ≡ true
    → memq (w.class_of_class c) (w.cpl (w.class_of_class i)) ≡ true

-- A type that is or holds no limited bignum type, and subclass types only of such classes.
abbrev mutual
  pub Regular : World → Ty → Type 0
  Regular w (lim_bignum min max) = ⊥
  Regular w (union members) = AreRegular w members
  Regular w (none_of base exclude) = Regular w base
  Regular w (singleton o) = Unit
  Regular w (class c) = Unit
  Regular w (subclass c) = Follows w c
  Regular w (lim_fixnum a b) = Unit

  pub AreRegular : World → Tys → Type 0
  AreRegular w nil = Unit
  AreRegular w (pair t rest) = Regular w t × AreRegular w rest

abbrev pub AllSingletons : Tys → Type 0
AllSingletons nil = Unit
AllSingletons (pair (singleton o) rest) = AllSingletons rest
AllSingletons (pair _ rest) = ⊥

-- Only single objects are excluded, as the comment on `restrict_type` says.
abbrev mutual
  pub ExcludesObjects : Ty → Type 0
  ExcludesObjects (lim_bignum min max) = Unit
  ExcludesObjects (union members) = ExcludeObjects members
  ExcludesObjects (none_of base exclude) = ExcludesObjects base × AllSingletons exclude
  ExcludesObjects (singleton o) = Unit
  ExcludesObjects (class c) = Unit
  ExcludesObjects (subclass c) = Unit
  ExcludesObjects (lim_fixnum a b) = Unit

  pub ExcludeObjects : Tys → Type 0
  ExcludeObjects nil = Unit
  ExcludeObjects (pair t rest) = ExcludesObjects t × ExcludeObjects rest

or_true : (a b : Bool) → (a || b) ≡ true → (a ≡ true) ⊎ (b ≡ true)
or_true a b h = ground arith

pub and_true : (a b : Bool) → (a && b) ≡ true → (a ≡ true) × (b ≡ true)
and_true a b h = ground arith

pub or_left : (a b : Bool) → a ≡ true → (a || b) ≡ true
or_left a b h = ground arith

pub or_right : (a b : Bool) → b ≡ true → (a || b) ≡ true
or_right a b h = ground arith

or_false : (a b : Bool) → (a || b) ≡ false → b ≡ false
or_false a b h = ground arith

not-true : (a : Bool) → not a ≡ true → a ≡ false
not-true a h = ground arith

true-ne-false : true ≢ false
true-ne-false h = cc

-- What follows from each of two tests follows from their disjunction.
pub or_case :
    {P Q : Type 0} (a b : Bool) → (a ≡ true → P → Q) → (b ≡ true → P → Q) → (a || b) ≡ true → P → Q
or_case true b f g e = f refl
or_case false b f g e = g e

module _ (w : World) (h : IsHierarchy w) where
  pub class_subtypep-memq : (c d : ℕ) → class_subtypep w c d ≡ true → memq d (w.cpl c) ≡ true
  unfolding class_subtypep class_class_subtypep
  class_subtypep-memq c d e = ground (arith, h.cpl_self c)

  pub memq-class_subtypep : (c d : ℕ) → memq d (w.cpl c) ≡ true → class_subtypep w c d ≡ true
  unfolding class_subtypep class_class_subtypep
  memq-class_subtypep c d e = ground arith

  class_subtypep_trans :
      (c d e : ℕ)
      → class_subtypep w c d ≡ true
      → class_subtypep w d e ≡ true
      → class_subtypep w c e ≡ true
  class_subtypep_trans c d e p q =
      memq-class_subtypep c e
        (h.cpl_trans c d e (class_subtypep-memq c d p) (class_subtypep-memq d e q))

  limfix_sound :
      (x : Obj) (a b c d : ℤ)
      → limfix_limfix_subtypep a b c d ≡ true
      → limfix_instancep w x a b ≡ true
      → limfix_instancep w x c d ≡ true
  unfolding limfix_limfix_subtypep limfix_instancep
  limfix_sound (fixnum n) a b c d p q = ground arith
  limfix_sound _ a b c d p q = cc

  subclass_sound :
      (x : Obj) (c d : ℕ)
      → class_subtypep w c d ≡ true
      → subclass_instancep w x c ≡ true
      → subclass_instancep w x d ≡ true
  unfolding subclass_instancep thing_subtypep
  subclass_sound (class_obj i) c d p q = ground (arith, class_subtypep_trans i c d)
  subclass_sound _ c d p q = ground arith

  metaclass_sound :
      (x : Obj) (c d : ℕ)
      → Follows w c
      → class_subtypep w (object_class w (class_obj c)) d ≡ true
      → subclass_instancep w x c ≡ true
      → class_instancep w x d ≡ true
  unfolding subclass_instancep thing_subtypep class_instancep object_class
  metaclass_sound (class_obj i) c d f p q = ground (
    arith,
    class_subtypep-memq i c,
    f i,
    memq-class_subtypep (w.class_of_class i) (w.class_of_class c),
    class_subtypep_trans (w.class_of_class i) (w.class_of_class c) d,
  )
  metaclass_sound _ c d f p q = ground arith

  limfix_class_sound :
      (x : Obj) (a b : ℤ) (d : ℕ)
      → class_subtypep w w.fixnum_class d ≡ true
      → limfix_instancep w x a b ≡ true
      → class_instancep w x d ≡ true
  unfolding limfix_instancep class_instancep object_class
  limfix_class_sound (fixnum n) a b d p q = p
  limfix_class_sound _ a b d p q = cc

  class_sound :
      (x : Obj) (c d : ℕ)
      → class_class_subtypep w c d ≡ true
      → class_instancep w x c ≡ true
      → class_instancep w x d ≡ true
  unfolding class_instancep
  class_sound x c d p q =
      class_subtypep_trans (object_class w x) c d q (unfold class_subtypep in or_right (c == d) _ p)

  atom_subtypep_sound :
      (x : Obj) (t u : Ty)
      → Regular w t
      → atom_subtypep w t u ≡ true
      → instancep w x t ≡ true
      → instancep w x u ≡ true
  unfolding atom_subtypep instancep
  atom_subtypep_sound x (singleton o) (singleton o2) n p q = rw (idp-eq x o q) p
  atom_subtypep_sound x (singleton o) u n p q = rw (idp-eq x o q) p
  atom_subtypep_sound x (class c) (class d) n p q = class_sound x c d p q
  atom_subtypep_sound x (subclass c) (subclass d) n p q = subclass_sound x c d p q
  atom_subtypep_sound x (subclass c) (class d) n p q = metaclass_sound x c d n p q
  atom_subtypep_sound x (lim_fixnum a b) (class d) n p q = limfix_class_sound x a b d p q
  atom_subtypep_sound x (lim_fixnum a b) (lim_fixnum c d) n p q = limfix_sound x a b c d p q
  atom_subtypep_sound x (lim_bignum a b) u n p q = absurd n
  atom_subtypep_sound x t u n p q = cc

  excludes_from_sound :
      (x : Obj) (t : Ty) (exclude : Tys)
      → AllSingletons exclude
      → instancep w x t ≡ true
      → excludes_from w t exclude ≡ false
      → union_instancep w x exclude ≡ false
  unfolding excludes_from sing_object instancep
  excludes_from_sound x t nil a q e = refl
  excludes_from_sound x t (pair (singleton o) rest) a q e = elim (Bool-cases (idp x o)) [
    | inl same ↦ absurd (
        true-ne-false (
          sym (
            or_left (instancep w o t) (excludes_from w t rest)
              (subst (λ (y : Obj). instancep w y t ≡ true) (idp-eq x o same) q))
          ∙ e))
    | inr other ↦ rw other (excludes_from_sound x t rest a q (or_false _ _ e))
  ]
  excludes_from_sound x t (pair _ rest) a q e = absurd a

  instancep-none_of :
      (x : Obj) (base : Ty) (exclude : Tys)
      → instancep w x (none_of base exclude)
        ≡ (instancep w x base && not (union_instancep w x exclude))
  unfolding instancep
  instancep-none_of x base exclude = refl

  atom_noneof_sound :
      (x : Obj) (t base : Ty) (exclude : Tys) (inside : Bool)
      → Regular w t
      → AllSingletons exclude
      → (inside ≡ true → instancep w x t ≡ true → instancep w x base ≡ true)
      → atom_noneof_subtypep w t base exclude inside ≡ true
      → instancep w x t ≡ true
      → instancep w x (none_of base exclude) ≡ true
  unfolding atom_noneof_subtypep
  atom_noneof_sound x (singleton o) base exclude inside n a rec p q =
      rw (idp-eq x o (unfold instancep in q)) p
  atom_noneof_sound x (lim_fixnum i j) base exclude inside n a rec p q =
      let (inside_true, free) = and_true _ _ p in
      let in_base = rec inside_true q in
      let not_excluded = excludes_from_sound x (lim_fixnum i j) exclude a q (not-true _ free) in
      ground (arith, instancep-none_of x base exclude)
  atom_noneof_sound x (lim_bignum i j) base exclude inside n a rec p q = absurd n
  atom_noneof_sound x t base exclude inside n a rec p q = cc

  pub same_instancep :
      (x : Obj) (t u : Ty) → w.same t u ≡ true → instancep w x t ≡ true → instancep w x u ≡ true
  same_instancep x t u e q = subst (λ (v : Ty). instancep w x v ≡ true) (h.same_sound t u e) q

  mutual
    unfolding subtypep_right instancep

    pub subtypep_right_sound :
        (x : Obj) (t u : Ty)
        → Regular w t
        → ExcludesObjects u
        → subtypep_right w t u ≡ true
        → instancep w x t ≡ true
        → instancep w x u ≡ true
    subtypep_right_sound x t (union members) n a p q = type_union_sound x t members n a p q
    subtypep_right_sound x t (none_of base exclude) n a p q =
        atom_noneof_sound x t base exclude _ n a.1
          (λ inside r.
            or_case (w.same t base) (subtypep_right w t base) (same_instancep x t base)
              (λ e. subtypep_right_sound x t base n a.0 e) inside r)
          p q
    subtypep_right_sound x t (singleton o) n a p q = atom_subtypep_sound x t (singleton o) n p q
    subtypep_right_sound x t (class c) n a p q = atom_subtypep_sound x t (class c) n p q
    subtypep_right_sound x t (subclass c) n a p q = atom_subtypep_sound x t (subclass c) n p q
    subtypep_right_sound x t (lim_fixnum i j) n a p q =
        atom_subtypep_sound x t (lim_fixnum i j) n p q
    subtypep_right_sound x t (lim_bignum i j) n a p q =
        atom_subtypep_sound x t (lim_bignum i j) n p q

    type_union_sound :
        (x : Obj) (t : Ty) (members : Tys)
        → Regular w t
        → ExcludeObjects members
        → type_union_subtypep w t members ≡ true
        → instancep w x t ≡ true
        → union_instancep w x members ≡ true
    type_union_sound x t nil n a p q = cc
    type_union_sound x t (pair u rest) n a p q =
        or_case (w.same t u || subtypep_right w t u) (type_union_subtypep w t rest)
          (λ e r. or_left _ _ (
            or_case (w.same t u) (subtypep_right w t u) (same_instancep x t u)
              (λ f. subtypep_right_sound x t u n a.0 f) e r))
          (λ e r. or_right (instancep w x u) _ (type_union_sound x t rest n a.1 e r)) p q
