-- ===== src/Types/Union/Total.antt =====
-- `type_union` of mindy/interp/type.c gives a type with all the instances of both.
use gwydion_2_4_cleanup.Prelude.{
  ℕ, zero, suc, ◌+◌, ◌<◌, ◌≤◌, ◌≡◌, refl, sym, subst, ◌⊎◌, inl, inr, Option, none, some, true,
  if◌then◌else◌, Bool-cases, arith,
}
use gwydion_2_4_cleanup.Prelude.Int.{ℤ}
use gwydion_2_4_cleanup.Types.World.{
  Obj, fixnum, bignum, ratio, class_obj, instance_of, Ty, singleton, class, subclass, lim_fixnum,
  lim_bignum, union, none_of, Tys, nil, pair, World, object_class, IsHierarchy,
}
use gwydion_2_4_cleanup.Types.Instance.{
  class_subtypep, class_instancep, limfix_instancep, instancep, union_instancep,
}
use gwydion_2_4_cleanup.Types.Instance.Laws.{idp-eq}
use gwydion_2_4_cleanup.Types.Limited.{limited_fixnum}
use gwydion_2_4_cleanup.Types.Union.{
  canonicalize_union_member, merge_members, size, union_of_two, union_with, type_union,
  merge_unions,
}
use gwydion_2_4_cleanup.Types.Union.Laws.{
  IsMember, AreMembers, IsUnionable, Keeps, Joins, IsMember-IsUnionable, merge_members-Keeps,
  merge_with_union_keeps, limited_fixnum-IsMember, limited_fixnum_holds,
}

module _ (w : World) (h : IsHierarchy w) where
  -- `c` is the canonical form of a member.
  abbrev Canonical : Ty → Ty → Type 0
  Canonical t c = IsMember w c × ((x : Obj) → instancep w x t ≡ true → instancep w x c ≡ true)

  boolean_case :
      (o : Obj)
      → IsMember w (singleton o)
      → Canonical (singleton o) (if w.is_boolean o then class (object_class w o) else singleton o)
  unfolding instancep class_instancep class_subtypep
  boolean_case o m = elim (Bool-cases (w.is_boolean o)) [
    | inl e ↦ rw e (
      tt,
      λ x p.
          subst (λ (y : Obj). class_subtypep w (object_class w y) (object_class w o) ≡ true)
            (sym (idp-eq x o p)) (ground arith),
    )
    | inr e ↦ rw e (m, λ x p. p)
  ]

  fixnum_case : (n : ℤ) → Canonical (singleton (fixnum n)) (limited_fixnum w (some n) (some n))
  fixnum_case n = (
    limited_fixnum-IsMember w h n n,
    λ x p.
        subst (λ (y : Obj). instancep w y (limited_fixnum w (some n) (some n)) ≡ true)
          (sym (idp-eq x (fixnum n) (unfold instancep in p)))
          (limited_fixnum_holds w h n n n (unfold limfix_instancep in ground arith)),
  )

  canonicalize_lem : (t : Ty) → IsMember w t → Canonical t (canonicalize_union_member w t)
  unfolding canonicalize_union_member
  canonicalize_lem (singleton (fixnum n)) m = fixnum_case n
  canonicalize_lem (singleton (bignum x)) m = absurd m
  canonicalize_lem (singleton (ratio a b)) m = boolean_case (ratio a b) m
  canonicalize_lem (singleton (class_obj c)) m = boolean_case (class_obj c) m
  canonicalize_lem (singleton (instance_of c a)) m = boolean_case (instance_of c a) m
  canonicalize_lem (class c) m = (m, λ x p. p)
  canonicalize_lem (subclass c) m = (m, λ x p. p)
  canonicalize_lem (lim_fixnum a b) m = (m, λ x p. p)
  canonicalize_lem (lim_bignum a b) m = (m, λ x p. p)
  canonicalize_lem (union members) m = (m, λ x p. p)
  canonicalize_lem (none_of base exclude) m = (m, λ x p. p)

  abbrev Either : Ty → Ty → Obj → Type 0
  Either t u x = (instancep w x t ≡ true) ⊎ (instancep w x u ≡ true)

  two_step :
      (t u : Ty) (s : Option Ty)
      → IsMember w t
      → IsMember w u
      → Keeps w h s t u
      → IsUnionable w (elim s [ some merged ↦ merged | none ↦ union (pair t (pair u nil)) ])
        × ((x : Obj)
            → Either t u x
            → instancep w x (elim s [ some merged ↦ merged | none ↦ union (pair t (pair u nil)) ])
              ≡ true)
  unfolding instancep
  two_step t u (some merged) mt mu (m, k) = (IsMember-IsUnionable w h merged m, k)
  two_step t u none mt mu k = ((mt, (mu, tt)), λ x p. ground arith)

  union_of_two_lem :
      (t u : Ty)
      → IsMember w t
      → IsMember w u
      → IsUnionable w (union_of_two w t u)
        × ((x : Obj) → Either t u x → instancep w x (union_of_two w t u) ≡ true)
  unfolding union_of_two
  union_of_two_lem t u mt mu =
      let (ct, kt) = canonicalize_lem t mt in
      let (cu, ku) = canonicalize_lem u mu in
      let (m, k) =
        two_step (canonicalize_union_member w t) (canonicalize_union_member w u)
          (merge_members w (canonicalize_union_member w t) (canonicalize_union_member w u)) ct cu
          (merge_members-Keeps w h (canonicalize_union_member w t) (canonicalize_union_member w u)
            ct cu) in
      (m, λ x. elim [ inl p ↦ k x (inl (kt x p)) | inr p ↦ k x (inr (ku x p)) ])

  both_members :
      (t u : Ty) → IsMember w t → IsMember w u → Joins w h (some (union_of_two w t u)) (Either t u)
  both_members t u mt mu =
      let (m, k) = union_of_two_lem t u mt mu in (union_of_two w t u, refl, m, k)

  union_with_lem :
      (t u : Ty) → IsUnionable w t → IsMember w u → Joins w h (union_with w t u) (Either t u)
  unfolding union_with
  union_with_lem (union members) u a mu =
      let (cu, ku) = canonicalize_lem u mu in
      let (r, e, m, k) =
        merge_with_union_keeps w h (suc (size w members)) (canonicalize_union_member w u) members cu
          a (omega arith) in
      (
        r,
        e,
        m,
        λ x. elim [ inl p ↦ k x (inr (unfold instancep in p)) | inr p ↦ k x (inl (ku x p)) ],
      )
  union_with_lem (singleton o) u a mu = both_members (singleton o) u a mu
  union_with_lem (class c) u a mu = both_members (class c) u tt mu
  union_with_lem (subclass c) u a mu = both_members (subclass c) u a mu
  union_with_lem (lim_fixnum i j) u a mu = both_members (lim_fixnum i j) u tt mu
  union_with_lem (lim_bignum i j) u a mu = absurd a
  union_with_lem (none_of base exclude) u a mu = both_members (none_of base exclude) u a mu

  with_member :
      (n : ℕ) (t u : Ty)
      → IsUnionable w t
      → IsMember w u
      → type_union w (suc n) t u ≡ union_with w t u
  unfolding type_union
  with_member n t (union members) a m = absurd m
  with_member n (singleton o) u a m = refl
  with_member n (class c) u a m = refl
  with_member n (subclass c) u a m = refl
  with_member n (lim_fixnum i j) u a m = refl
  with_member n (lim_bignum i j) u a m = absurd a
  with_member n (union members) u a m = refl
  with_member n (none_of base exclude) u a m = refl

  add_member :
      (n : ℕ) (t u : Ty)
      → IsUnionable w t
      → IsMember w u
      → Joins w h (type_union w (suc n) t u) (Either t u)
  add_member n t u a m =
      subst (λ (o : Option Ty). Joins w h o (Either t u)) (sym (with_member n t u a m))
        (union_with_lem t u a m)

  in_members :
      (x : Obj) (t u : Ty) (rest : Tys)
      → (union_instancep w x (pair t rest) ≡ true) ⊎ (instancep w x u ≡ true)
      → (union_instancep w x rest ≡ true) ⊎ Either u t x
  unfolding union_instancep
  in_members x t u rest e = ground arith

  merge_unions_lem :
      (n : ℕ) (members : Tys) (u : Ty)
      → AreMembers w members
      → IsUnionable w u
      → size w members < n
      → Joins w h
          (merge_unions w n members u)
          (λ x. (union_instancep w x members ≡ true) ⊎ (instancep w x u ≡ true))
  unfolding merge_unions
  merge_unions_lem zero members u a b l = absurd (omega arith)
  merge_unions_lem (suc n) nil u a b l =
      (u, refl, b, λ x. elim [ inl p ↦ unfold union_instancep in cc | inr p ↦ p ])
  merge_unions_lem (suc zero) (pair t rest) u a b l = absurd (omega arith)
  merge_unions_lem (suc (suc n)) (pair t rest) u a b l =
      let (r, e, c, k) = add_member n u t b a.0 in
      let (s, f, d, j) = merge_unions_lem (suc n) rest r a.1 c (omega arith) in
      (
        s,
        rw e f,
        d,
        λ x p. elim (in_members x t u rest p) [ inl q ↦ j x (inl q) | inr q ↦ j x (inr (k x q)) ],
      )

  abbrev pub member_count : Ty → ℕ
  member_count (union members) = size w members
  member_count t = 0

  swap : (t u : Ty) (o : Option Ty) → Joins w h o (Either u t) → Joins w h o (Either t u)
  swap t u o (r, e, c, k) = (r, e, c, λ x. elim [ inl p ↦ k x (inr p) | inr p ↦ k x (inl p) ])

  union_member :
      (n : ℕ) (t : Ty) (members : Tys)
      → IsMember w t
      → type_union w (suc n) t (union members) ≡ union_with w (union members) t
  unfolding type_union
  union_member n (union members) ms m = absurd m
  union_member n t ms m = refl

  before_union :
      (n : ℕ) (t : Ty) (members : Tys)
      → IsMember w t
      → AreMembers w members
      → Joins w h (type_union w (suc n) t (union members)) (Either t (union members))
  before_union n t members m a =
      subst (λ (o : Option Ty). Joins w h o (Either t (union members)))
        (sym (union_member n t members m))
        (swap t (union members) (union_with w (union members) t)
          (union_with_lem (union members) t a m))

  -- `type_union` of two types, each a member or a union of members, gives a type with every
  -- instance of either, which it may be applied to again: with fuel for two calls and one for each
  -- member of the first union. (A member is no bignum and holds no range of bignums, excludes only
  -- single objects, and is a subclass type only of a class such that the classes of the classes
  -- below it are below its own class.)
  pub type_union_lem :
      (n : ℕ) (t u : Ty)
      → IsUnionable w t
      → IsUnionable w u
      → member_count t + 2 ≤ n
      → Joins w h (type_union w n t u) (Either t u)
  type_union_lem zero t u a b l = absurd (omega arith)
  type_union_lem (suc n) (union members) (union members2) a b l =
      unfold type_union instancep in merge_unions_lem n members (union members2) a b (omega arith)
  type_union_lem (suc n) t (singleton o) a b l = add_member n t (singleton o) a b
  type_union_lem (suc n) t (class c) a b l = add_member n t (class c) a tt
  type_union_lem (suc n) t (subclass c) a b l = add_member n t (subclass c) a b
  type_union_lem (suc n) t (lim_fixnum i j) a b l = add_member n t (lim_fixnum i j) a tt
  type_union_lem (suc n) t (lim_bignum i j) a b l = absurd b
  type_union_lem (suc n) t (none_of base exclude) a b l = add_member n t (none_of base exclude) a b
  type_union_lem (suc n) (singleton o) (union members) a b l =
      before_union n (singleton o) members a b
  type_union_lem (suc n) (class c) (union members) a b l = before_union n (class c) members tt b
  type_union_lem (suc n) (subclass c) (union members) a b l =
      before_union n (subclass c) members a b
  type_union_lem (suc n) (lim_fixnum i j) (union members) a b l =
      before_union n (lim_fixnum i j) members tt b
  type_union_lem (suc n) (lim_bignum i j) (union members) a b l = absurd a
  type_union_lem (suc n) (none_of base exclude) (union members) a b l =
      before_union n (none_of base exclude) members a b
