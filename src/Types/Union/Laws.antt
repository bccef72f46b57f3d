-- ===== src/Types/Union/Laws.antt =====
-- `type_union` of mindy/interp/type.c against `instancep`.
use gwydion_2_4_cleanup.Prelude.{
  ℕ, zero, suc, ◌<◌, ◌≡◌, refl, ap, ◌⊎◌, inl, inr, Option, none, some, true, not, ◌||◌, Bool-cases,
  arith,
}
use gwydion_2_4_cleanup.Prelude.Int.{ℤ, pos, ltb_ℤ, eqb_ℤ, ◌-ℤ◌}
use gwydion_2_4_cleanup.Fixnum.{min_fixnum, max_fixnum}
use gwydion_2_4_cleanup.Types.World.{
  Obj, fixnum, bignum, ratio, class_obj, instance_of, Ty, singleton, class, subclass, lim_fixnum,
  lim_bignum, union, none_of, Tys, nil, pair, World, object_class, IsHierarchy,
}
use gwydion_2_4_cleanup.Types.Instance.{
  class_subtypep, class_instancep, limfix_instancep, instancep, union_instancep,
}
use gwydion_2_4_cleanup.Types.Subtype.{subtypep}
use gwydion_2_4_cleanup.Types.Subtype.Laws.{
  Follows, Regular, ExcludesObjects, AllSingletons, or_left,
}
use gwydion_2_4_cleanup.Types.Subtype.Sound.{subtypep_sound}
use gwydion_2_4_cleanup.Types.Limited.{limited_fixnum, merge_limited_fixnums, min_of, max_of}
use gwydion_2_4_cleanup.Types.Union.{
  put_last, merge_subtypes, merge_members, merge_one, merge_with_union, size,
}

-- A member of a union: no union itself, nor a bignum or a range of bignums, nor the subclasses of
-- a class with others than `Follows` says, and excluding only objects.
abbrev pub IsMember : World → Ty → Type 0
IsMember w (singleton (bignum x)) = ⊥
IsMember w (singleton o) = Unit
IsMember w (class c) = Unit
IsMember w (subclass c) = Follows w c
IsMember w (lim_fixnum min max) = Unit
IsMember w (lim_bignum min max) = ⊥
IsMember w (union members) = ⊥
IsMember w (none_of base exclude) = Regular w base × ExcludesObjects base × AllSingletons exclude

abbrev pub AreMembers : World → Tys → Type 0
AreMembers w nil = Unit
AreMembers w (pair t rest) = IsMember w t × AreMembers w rest

-- What `type_union` is applied to: a member, or a union of members.
abbrev pub IsUnionable : World → Ty → Type 0
IsUnionable w (union members) = AreMembers w members
IsUnionable w (singleton o) = IsMember w (singleton o)
IsUnionable w (none_of base exclude) = IsMember w (none_of base exclude)
IsUnionable w (subclass c) = Follows w c
IsUnionable w (lim_bignum min max) = ⊥
IsUnionable w t = Unit

IsMember-Regular : (w : World) (t : Ty) → IsMember w t → Regular w t
IsMember-Regular w (singleton o) h = tt
IsMember-Regular w (class c) h = tt
IsMember-Regular w (subclass c) h = h
IsMember-Regular w (lim_fixnum min max) h = tt
IsMember-Regular w (lim_bignum min max) h = h
IsMember-Regular w (union members) h = absurd h
IsMember-Regular w (none_of base exclude) h = h.0

IsMember-ExcludesObjects : (w : World) (t : Ty) → IsMember w t → ExcludesObjects t
IsMember-ExcludesObjects w (singleton o) h = tt
IsMember-ExcludesObjects w (class c) h = tt
IsMember-ExcludesObjects w (subclass c) h = tt
IsMember-ExcludesObjects w (lim_fixnum min max) h = tt
IsMember-ExcludesObjects w (lim_bignum min max) h = tt
IsMember-ExcludesObjects w (union members) h = absurd h
IsMember-ExcludesObjects w (none_of base exclude) h = (h.1, h.2)

module _ (w : World) (h : IsHierarchy w) where
  pub limited_fixnum-IsMember : (min max : ℤ) → IsMember w (limited_fixnum w (some min) (some max))
  unfolding limited_fixnum
  limited_fixnum-IsMember min max =
      elim (Bool-cases (not (eqb_ℤ min min_fixnum) || not (eqb_ℤ max max_fixnum))) [
        | inl e ↦ rw e tt
        | inr e ↦ rw e tt
      ]

  pub limited_fixnum_holds :
      (n min max : ℤ)
      → limfix_instancep w (fixnum n) min max ≡ true
      → instancep w (fixnum n) (limited_fixnum w (some min) (some max)) ≡ true
  unfolding limited_fixnum instancep limfix_instancep class_instancep class_subtypep object_class
  limited_fixnum_holds n min max e = ground arith

  -- `Keeps P x t` : an instance of `t` is the merged type's.
  abbrev pub Keeps : Option Ty → Ty → Ty → Type 0
  Keeps none t u = Unit
  Keeps (some merged) t u =
      IsMember w merged
      × ((x : Obj)
          → (instancep w x t ≡ true) ⊎ (instancep w x u ≡ true)
          → instancep w x merged ≡ true)

  ranges_hold :
      (a b c d : ℤ) (x : Obj)
      → (instancep w x (lim_fixnum a b) ≡ true) ⊎ (instancep w x (lim_fixnum c d) ≡ true)
      → instancep w x (limited_fixnum w (some (min_of a c)) (some (max_of b d))) ≡ true
  unfolding instancep limfix_instancep
  ranges_hold a b c d (fixnum n) e = limited_fixnum_holds n (min_of a c) (max_of b d) (ground arith)
  ranges_hold a b c d (bignum n) (inl e) = cc
  ranges_hold a b c d (bignum n) (inr e) = cc
  ranges_hold a b c d (ratio n m) (inl e) = cc
  ranges_hold a b c d (ratio n m) (inr e) = cc
  ranges_hold a b c d (class_obj n) (inl e) = cc
  ranges_hold a b c d (class_obj n) (inr e) = cc
  ranges_hold a b c d (instance_of n m) (inl e) = cc
  ranges_hold a b c d (instance_of n m) (inr e) = cc

  merge_fixnums-Keeps :
      (a b c d : ℤ) → Keeps (merge_limited_fixnums w a b c d) (lim_fixnum a b) (lim_fixnum c d)
  unfolding merge_limited_fixnums
  merge_fixnums-Keeps a b c d = elim (Bool-cases (ltb_ℤ b (c -ℤ pos 1))) [
    | inl p ↦ rw p tt
    | inr p ↦ rw p (elim (Bool-cases (ltb_ℤ d (a -ℤ pos 1))) [
      | inl q ↦ rw q tt
      | inr q ↦ rw q (limited_fixnum-IsMember (min_of a c) (max_of b d), ranges_hold a b c d)
    ])
  ]

  merge_subtypes-Keeps : (t u : Ty) → IsMember w t → IsMember w u → Keeps (merge_subtypes w t u) t u
  unfolding merge_subtypes
  merge_subtypes-Keeps t u mt mu = elim (Bool-cases (subtypep w t u)) [
    | inl e ↦ rw e (
      mu,
      λ x. elim [
        | inl p ↦
            subtypep_sound w h x t u (IsMember-Regular w t mt) (IsMember-ExcludesObjects w u mu) e p
        | inr p ↦ p
      ],
    )
    | inr e ↦ rw e (elim (Bool-cases (subtypep w u t)) [
      | inl f ↦ rw f (
        mt,
        λ x. elim [
          | inl p ↦ p
          | inr p ↦
              subtypep_sound w h x u t (IsMember-Regular w u mu) (IsMember-ExcludesObjects w t mt) f
                p
        ],
      )
      | inr f ↦ rw f tt
    ])
  ]

  pub merge_members-Keeps :
      (t u : Ty) → IsMember w t → IsMember w u → Keeps (merge_members w t u) t u
  unfolding merge_members
  merge_members-Keeps (lim_fixnum a b) (lim_fixnum c d) mt mu = merge_fixnums-Keeps a b c d
  merge_members-Keeps (lim_bignum a b) (lim_bignum c d) mt mu = absurd mt
  merge_members-Keeps t u mt mu = merge_subtypes-Keeps t u mt mu

  -- What the loop gives: a member, the other members, and all the instances.
  abbrev KeepsOne : Option (Ty × Tys) → Ty → Tys → Type 0
  KeepsOne none t members = Unit
  KeepsOne (some (merged, rest)) t members =
      IsMember w merged
      × AreMembers w rest
      × (suc (size w rest) ≡ size w members)
      × ((x : Obj)
          → (instancep w x t ≡ true) ⊎ (union_instancep w x members ≡ true)
          → (instancep w x merged ≡ true) ⊎ (union_instancep w x rest ≡ true))

  either :
      (x : Obj) (t : Ty) (rest : Tys)
      → union_instancep w x (pair t rest) ≡ true
      → (instancep w x t ≡ true) ⊎ (union_instancep w x rest ≡ true)
  unfolding union_instancep
  either x t rest e = ground arith

  onto :
      (x : Obj) (u merged : Ty) (members : Tys)
      → (instancep w x merged ≡ true) ⊎ (union_instancep w x members ≡ true)
      → (instancep w x merged ≡ true) ⊎ (union_instancep w x (pair u members) ≡ true)
  unfolding union_instancep
  onto x u merged members e = ground arith

  put_last_keeps :
      (x : Obj) (t : Ty) (members : Tys)
      → (instancep w x t ≡ true) ⊎ (union_instancep w x members ≡ true)
      → union_instancep w x (put_last t members) ≡ true
  unfolding union_instancep put_last
  put_last_keeps x t nil e = ground arith
  put_last_keeps x t (pair u rest) e = ground (arith, put_last_keeps x t rest)

  put_last-AreMembers :
      (t : Ty) (members : Tys)
      → IsMember w t
      → AreMembers w members
      → AreMembers w (put_last t members)
  unfolding put_last
  put_last-AreMembers t nil m a = (m, tt)
  put_last-AreMembers t (pair u rest) m a = (a.0, put_last-AreMembers t rest m a.1)

  one_step :
      (t u : Ty) (rest : Tys) (r : Option Ty) (s : Option (Ty × Tys))
      → IsMember w u
      → AreMembers w rest
      → Keeps r t u
      → KeepsOne s t rest
      → KeepsOne
          (elim r [
            | some merged ↦ some (merged, rest)
            | none ↦ elim s [ some (merged, members) ↦ some (merged, pair u members) | none ↦ none ]
          ])
          t
          (pair u rest)
  one_step t u rest (some merged) s mu ar (m, k) ks = (
    m,
    ar,
    refl,
    λ x. elim [
      | inl p ↦ inl (k x (inl p))
      | inr p ↦ elim (either x u rest p) [ inl q ↦ inl (k x (inr q)) | inr q ↦ inr q ]
    ],
  )
  one_step t u rest none none mu ar k ks = tt
  one_step t u rest none (some (merged, members)) mu ar k (m, am, e, ks) = (
    m,
    (mu, am),
    ap suc e,
    λ x. elim [
      | inl p ↦ onto x u merged members (ks x (inl p))
      | inr p ↦ elim (either x u rest p) [
        | inl q ↦ inr (unfold union_instancep in or_left _ _ q)
        | inr q ↦ onto x u merged members (ks x (inr q))
      ]
    ],
  )

  merge_one_keeps :
      (t : Ty) (members : Tys)
      → IsMember w t
      → AreMembers w members
      → KeepsOne (merge_one w t members) t members
  unfolding merge_one
  merge_one_keeps t nil m a = tt
  merge_one_keeps t (pair u rest) m a =
      one_step t u rest (merge_members w t u) (merge_one w t rest) a.0 a.1
        (merge_members-Keeps t u m a.0) (merge_one_keeps t rest m a.1)

  -- A result, which is a type that `type_union` may be applied to again, with all the wanted
  -- instances.
  abbrev pub Joins : Option Ty → (Obj → Type 0) → Type 0
  Joins result Wanted =
      (r : Ty) × (result ≡ some r)
      × IsUnionable w r
      × ((x : Obj) → Wanted x → instancep w x r ≡ true)

  pub IsMember-IsUnionable : (t : Ty) → IsMember w t → IsUnionable w t
  IsMember-IsUnionable (singleton o) m = m
  IsMember-IsUnionable (class c) m = tt
  IsMember-IsUnionable (subclass c) m = m
  IsMember-IsUnionable (lim_fixnum a b) m = tt
  IsMember-IsUnionable (lim_bignum a b) m = m
  IsMember-IsUnionable (union members) m = absurd m
  IsMember-IsUnionable (none_of base exclude) m = m

  abbrev InEither : Ty → Tys → Obj → Type 0
  InEither t members x = (instancep w x t ≡ true) ⊎ (union_instancep w x members ≡ true)

  in_nothing : (x : Obj) (t : Ty) → InEither t nil x → instancep w x t ≡ true
  unfolding union_instancep
  in_nothing x t (inl p) = p
  in_nothing x t (inr p) = cc

  with_union_step :
      (n : ℕ) (t : Ty) (members : Tys) (s : Option (Ty × Tys))
      → IsMember w t
      → AreMembers w members
      → size w members < suc n
      → KeepsOne s t members
      → ((u : Ty) (rest : Tys)
          → IsMember w u
          → AreMembers w rest
          → size w rest < n
          → Joins (merge_with_union w n u rest) (InEither u rest))
      → Joins
          (elim s [
            | some (merged, rest) ↦ merge_with_union w n merged rest
            | none ↦ some (union (put_last t members))
          ])
          (InEither t members)
  with_union_step n t members none m a l k ih = (
    union (put_last t members),
    refl,
    put_last-AreMembers t members m a,
    λ x p. unfold instancep in put_last_keeps x t members p,
  )
  with_union_step n t members (some (merged, rest)) m a l (mm, am, e, k) ih =
      let (r, eq, u, f) = ih merged rest mm am (omega (arith, e)) in (r, eq, u, λ x p. f x (k x p))

  pub merge_with_union_keeps :
      (n : ℕ) (t : Ty) (members : Tys)
      → IsMember w t
      → AreMembers w members
      → size w members < n
      → Joins (merge_with_union w n t members) (InEither t members)
  unfolding merge_with_union
  merge_with_union_keeps zero t members m a l = absurd (omega arith)
  merge_with_union_keeps (suc n) t nil m a l =
      (t, refl, IsMember-IsUnionable t m, λ x p. in_nothing x t p)
  merge_with_union_keeps (suc n) t (pair u rest) m a l =
      with_union_step n t (pair u rest) (merge_one w t (pair u rest)) m a l
        (merge_one_keeps t (pair u rest) m a) (merge_with_union_keeps n)
