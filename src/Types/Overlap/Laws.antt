-- ===== src/Types/Overlap/Laws.antt =====
-- `overlapp` of mindy/interp/type.c misses no common instance.
use gwydion_2_4_cleanup.Prelude.{
  ℕ, Option, List, [], ◌∷◌, ◌≡◌, true, not, arith, ◌==◌, inl, inr, sym, subst,
}
use gwydion_2_4_cleanup.Prelude.Int.{ℤ}
use gwydion_2_4_cleanup.Types.World.{
  Obj, fixnum, bignum, class_obj, Ty, singleton, class, subclass, lim_fixnum, lim_bignum, union,
  none_of, Tys, nil, pair, World, IsHierarchy, memq, object_class,
}
use gwydion_2_4_cleanup.Types.Instance.{
  idp, class_subtypep, class_instancep, thing_subtypep, subclass_instancep, limfix_instancep,
  limbig_instancep, instancep, union_instancep,
}
use gwydion_2_4_cleanup.Types.Instance.Laws.{idp-eq}
use gwydion_2_4_cleanup.Types.Subtype.Laws.{
  NoLimBignum, NoLimBignums, or_case, and_true, or_left, or_right, class_subtypep-memq,
  memq-class_subtypep,
}
use gwydion_2_4_cleanup.Types.Overlap.{
  limfix_limfix_overlapp, any_subtypep, class_class_overlapp, any_instancep, subclass_type_overlapp,
  overlapp_class, lim_lim_overlapp, lim_class_overlapp, overlapp_lim, lim_type_overlapp,
  class_type_overlapp, sing_type_overlapp, overlapp, union_overlapp_class, union_overlapp_lim,
  union_type_overlapp,
}

==-eq : (a b : ℕ) → (a == b) ≡ true → a ≡ b
==-eq a b h = ground arith

module _ (w : World) (h : IsHierarchy w) where
  any_subtypep_lem :
      (k d : ℕ) (cs : List ℕ)
      → memq k cs ≡ true
      → class_subtypep w k d ≡ true
      → any_subtypep w cs d ≡ true
  unfolding any_subtypep memq
  any_subtypep_lem k d [] m e = cc
  any_subtypep_lem k d (c ∷ cs) m e =
      or_case (c == k) (memq k cs)
        (λ q (r : class_subtypep w k d ≡ true).
          or_left _ _ (subst (λ (i : ℕ). class_subtypep w i d ≡ true) (sym (==-eq c k q)) r))
        (λ q r. or_right (class_subtypep w c d) _ (any_subtypep_lem k d cs q r)) m e

  -- Two classes with a common subclass.
  class_class_complete :
      (k c d : ℕ)
      → class_subtypep w k c ≡ true
      → class_subtypep w k d ≡ true
      → class_class_overlapp w c d ≡ true
  unfolding class_class_overlapp
  class_class_complete k c d p q = elim (h.subclasses_all c k (class_subtypep-memq w h k c p)) [
    | inl e ↦ or_left _ _ (subst (λ (i : ℕ). class_subtypep w i d ≡ true) (sym e) q)
    | inr m ↦ or_right (class_subtypep w c d) _ (any_subtypep_lem k d (w.all_subclasses c) m q)
  ]

  instances_overlap :
      (x : Obj) (c d : ℕ)
      → class_instancep w x c ≡ true
      → class_instancep w x d ≡ true
      → class_class_overlapp w c d ≡ true
  unfolding class_instancep
  instances_overlap x c d p q = class_class_complete (object_class w x) c d p q

  any_instancep_lem :
      (k : ℕ) (t : Ty) (cs : List ℕ)
      → memq k cs ≡ true
      → instancep w (class_obj k) t ≡ true
      → any_instancep w cs t ≡ true
  unfolding any_instancep memq
  any_instancep_lem k t [] m e = cc
  any_instancep_lem k t (c ∷ cs) m e =
      or_case (c == k) (memq k cs)
        (λ q (r : instancep w (class_obj k) t ≡ true).
          or_left _ _ (subst (λ (i : ℕ). instancep w (class_obj i) t ≡ true) (sym (==-eq c k q)) r))
        (λ q r. or_right (instancep w (class_obj c) t) _ (any_instancep_lem k t cs q r)) m e

  subclass_complete :
      (x : Obj) (of : ℕ) (u : Ty)
      → subclass_instancep w x of ≡ true
      → instancep w x u ≡ true
      → subclass_type_overlapp w of u ≡ true
  unfolding subclass_instancep thing_subtypep subclass_type_overlapp
  subclass_complete (class_obj k) of u p q =
      elim (h.subclasses_all of k (class_subtypep-memq w h k of (and_true _ _ p).1)) [
        | inl e ↦ or_left _ _ (subst (λ (i : ℕ). instancep w (class_obj i) u ≡ true) (sym e) q)
        | inr m ↦
            or_right (instancep w (class_obj of) u) _
              (any_instancep_lem k u (w.all_subclasses of) m q)
      ]
  subclass_complete _ of u p q = ground arith

  fixnum_class_complete :
      (x : Obj) (a b : ℤ) (c : ℕ)
      → limfix_instancep w x a b ≡ true
      → class_instancep w x c ≡ true
      → class_class_overlapp w c w.fixnum_class ≡ true
  unfolding limfix_instancep class_instancep object_class
  fixnum_class_complete (fixnum n) a b c p q =
      class_class_complete w.fixnum_class c w.fixnum_class q
        (memq-class_subtypep w h w.fixnum_class w.fixnum_class (h.cpl_self w.fixnum_class))
  fixnum_class_complete _ a b c p q = cc

  bignum_class_complete :
      (x : Obj) (a b : Option (List ℕ)) (c : ℕ)
      → limbig_instancep w x a b ≡ true
      → class_instancep w x c ≡ true
      → class_class_overlapp w c w.bignum_class ≡ true
  unfolding limbig_instancep class_instancep object_class
  bignum_class_complete (bignum ds) a b c p q =
      class_class_complete w.bignum_class c w.bignum_class q
        (memq-class_subtypep w h w.bignum_class w.bignum_class (h.cpl_self w.bignum_class))
  bignum_class_complete _ a b c p q = cc

  mutual
    unfolding overlapp_class instancep

    overlapp_class_complete :
        (x : Obj) (t : Ty) (c : ℕ)
        → instancep w x t ≡ true
        → class_instancep w x c ≡ true
        → overlapp_class w t c ≡ true
    overlapp_class_complete x (singleton o) c p q =
        subst (λ (y : Obj). class_instancep w y c ≡ true) (idp-eq x o p) q
    overlapp_class_complete x (class d) c p q = instances_overlap x d c p q
    overlapp_class_complete x (subclass of) c p q = subclass_complete x of (class c) p q
    overlapp_class_complete x (lim_fixnum a b) c p q = fixnum_class_complete x a b c p q
    overlapp_class_complete x (lim_bignum a b) c p q = bignum_class_complete x a b c p q
    overlapp_class_complete x (union members) c p q = union_class_complete x members c p q
    overlapp_class_complete x (none_of base exclude) c p q =
        overlapp_class_complete x base c (and_true _ (not (union_instancep w x exclude)) p).0 q

    union_class_complete :
        (x : Obj) (members : Tys) (c : ℕ)
        → union_instancep w x members ≡ true
        → class_instancep w x c ≡ true
        → union_overlapp_class w members c ≡ true
    union_class_complete x nil c p q = cc
    union_class_complete x (pair t rest) c p q =
        or_case (instancep w x t) (union_instancep w x rest)
          (λ e (r : class_instancep w x c ≡ true).
            or_left _ (union_overlapp_class w rest c) (overlapp_class_complete x t c e r))
          (λ e r. or_right (overlapp_class w t c) _ (union_class_complete x rest c e r)) p q

  limfix_limfix_complete :
      (x : Obj) (a b c d : ℤ)
      → limfix_instancep w x a b ≡ true
      → limfix_instancep w x c d ≡ true
      → limfix_limfix_overlapp a b c d ≡ true
  unfolding limfix_instancep limfix_limfix_overlapp
  limfix_limfix_complete (fixnum n) a b c d p q = ground arith
  limfix_limfix_complete _ a b c d p q = cc

  not_fixnum_and_bignum :
      (x : Obj) (a b : ℤ) (c d : Option (List ℕ))
      → limfix_instancep w x a b ≡ true
      → limbig_instancep w x c d ≡ true
      → ⊥
  unfolding limfix_instancep limbig_instancep
  not_fixnum_and_bignum (fixnum n) a b c d p q = cc
  not_fixnum_and_bignum _ a b c d p q = cc

  not_fixnum_and_class :
      (x : Obj) (a b : ℤ) (of : ℕ)
      → limfix_instancep w x a b ≡ true
      → subclass_instancep w x of ≡ true
      → ⊥
  unfolding limfix_instancep subclass_instancep thing_subtypep
  not_fixnum_and_class (fixnum n) a b of p q = ground arith
  not_fixnum_and_class _ a b of p q = cc

  mutual
    unfolding overlapp_lim instancep lim_lim_overlapp lim_class_overlapp

    overlapp_lim_complete :
        (x : Obj) (t : Ty) (a b : ℤ)
        → instancep w x t ≡ true
        → limfix_instancep w x a b ≡ true
        → overlapp_lim w t (lim_fixnum a b) ≡ true
    overlapp_lim_complete x (singleton o) a b p q =
        subst (λ (y : Obj). limfix_instancep w y a b ≡ true) (idp-eq x o p) q
    overlapp_lim_complete x (class d) a b p q = fixnum_class_complete x a b d q p
    overlapp_lim_complete x (subclass of) a b p q = absurd (not_fixnum_and_class x a b of q p)
    overlapp_lim_complete x (lim_fixnum c d) a b p q = limfix_limfix_complete x c d a b p q
    overlapp_lim_complete x (lim_bignum c d) a b p q = absurd (not_fixnum_and_bignum x a b c d q p)
    overlapp_lim_complete x (union members) a b p q = union_lim_complete x members a b p q
    overlapp_lim_complete x (none_of base exclude) a b p q =
        overlapp_lim_complete x base a b (and_true _ (not (union_instancep w x exclude)) p).0 q

    union_lim_complete :
        (x : Obj) (members : Tys) (a b : ℤ)
        → union_instancep w x members ≡ true
        → limfix_instancep w x a b ≡ true
        → union_overlapp_lim w members (lim_fixnum a b) ≡ true
    union_lim_complete x nil a b p q = cc
    union_lim_complete x (pair t rest) a b p q =
        or_case (instancep w x t) (union_instancep w x rest)
          (λ e (r : limfix_instancep w x a b ≡ true).
            or_left _ (union_overlapp_lim w rest (lim_fixnum a b))
              (overlapp_lim_complete x t a b e r))
          (λ e r.
            or_right (overlapp_lim w t (lim_fixnum a b)) _ (union_lim_complete x rest a b e r))
          p q

  lim_row_complete :
      (x : Obj) (a b : ℤ) (u : Ty)
      → limfix_instancep w x a b ≡ true
      → instancep w x u ≡ true
      → lim_type_overlapp w (lim_fixnum a b) u ≡ true
  unfolding lim_type_overlapp lim_class_overlapp lim_lim_overlapp instancep
  lim_row_complete x a b (class c) p q = fixnum_class_complete x a b c p q
  lim_row_complete x a b (subclass of) p q = absurd (not_fixnum_and_class x a b of p q)
  lim_row_complete x a b (lim_fixnum c d) p q = limfix_limfix_complete x a b c d p q
  lim_row_complete x a b (lim_bignum c d) p q = absurd (not_fixnum_and_bignum x a b c d p q)
  lim_row_complete x a b u p q = overlapp_lim_complete x u a b q p

  class_row_complete :
      (x : Obj) (c : ℕ) (u : Ty)
      → class_instancep w x c ≡ true
      → instancep w x u ≡ true
      → class_type_overlapp w c u ≡ true
  unfolding class_type_overlapp instancep
  class_row_complete x c (class d) p q = instances_overlap x c d p q
  class_row_complete x c u p q = overlapp_class_complete x u c q p

  sing_row_complete :
      (x o : Obj) (u : Ty)
      → idp x o ≡ true
      → instancep w x u ≡ true
      → sing_type_overlapp w o u ≡ true
  unfolding sing_type_overlapp instancep
  sing_row_complete x o (singleton o2) p q = subst (λ (y : Obj). idp y o2 ≡ true) (idp-eq x o p) q
  sing_row_complete x o u p q = subst (λ (y : Obj). instancep w y u ≡ true) (idp-eq x o p) q

  mutual
    unfolding overlapp instancep

    complete :
        (x : Obj) (t u : Ty)
        → NoLimBignum t
        → instancep w x t ≡ true
        → instancep w x u ≡ true
        → overlapp w t u ≡ true
    complete x (singleton o) u n p q = sing_row_complete x o u p q
    complete x (class c) u n p q = class_row_complete x c u p q
    complete x (subclass of) u n p q = subclass_complete x of u p q
    complete x (lim_fixnum a b) u n p q = lim_row_complete x a b u p q
    complete x (lim_bignum a b) u n p q = absurd n
    complete x (union members) u n p q = union_complete x members u n p q
    complete x (none_of base exclude) u n p q =
        complete x base u n (and_true _ (not (union_instancep w x exclude)) p).0 q

    union_complete :
        (x : Obj) (members : Tys) (u : Ty)
        → NoLimBignums members
        → union_instancep w x members ≡ true
        → instancep w x u ≡ true
        → union_type_overlapp w members u ≡ true
    union_complete x nil u n p q = cc
    union_complete x (pair t rest) u n p q =
        or_case (instancep w x t) (union_instancep w x rest)
          (λ e (r : instancep w x u ≡ true).
            or_left _ (union_type_overlapp w rest u) (complete x t u n.0 e r))
          (λ e r. or_right (overlapp w t u) _ (union_complete x rest u n.1 e r)) p q

  -- Where an object is an instance of two types, `overlapp` says that they overlap, provided that
  -- the first type is or holds no limited bignum type.
  pub overlapp_complete :
      (x : Obj) (t u : Ty)
      → NoLimBignum t
      → instancep w x t ≡ true
      → instancep w x u ≡ true
      → overlapp w t u ≡ true
  overlapp_complete = complete
