-- ===== src/Types/World.antt =====
-- What mindy/interp/type.c works on: objects, types and the class hierarchy.
use gwydion_2_4_cleanup.Prelude.{ℕ, List, [], ◌∷◌, ◌≡◌, Option, ◌⊎◌, Bool, true, false, ◌==◌, ◌||◌}
use gwydion_2_4_cleanup.Prelude.Int.{ℤ}

-- Objects. Classes are known by a number. An `instance` is any other object: its class and its
-- address. (The floats, which `idp` compares by value, are not modelled.)
pub data Obj : Type 0 where
  fixnum : ℤ → Obj
  bignum : List ℕ → Obj
  ratio : Obj → Obj → Obj
  class_obj : ℕ → Obj
  instance_of : ℕ → ℕ → Obj

-- `enum type_Id` and the structures `singleton`, `class`, `subclass`, `lim_int`, `union_type` and
-- `none_of_type`. A bound of a limited bignum is `none` for #f.
mutual
  pub data Ty : Type 0 where
    singleton : Obj → Ty
    class : ℕ → Ty
    subclass : ℕ → Ty
    lim_fixnum : ℤ → ℤ → Ty
    lim_bignum : Option (List ℕ) → Option (List ℕ) → Ty
    union : Tys → Ty
    none_of : Ty → Tys → Ty

  pub data Tys : Type 0 where
    nil : Tys
    pair : Ty → Tys → Tys

-- The running system, as far as types depend on it. Its fields stand for what other files set up
-- and for what C leaves open.
pub record World : Type 0 where
  pub fixnum_class : ℕ
  pub bignum_class : ℕ
  pub ratio_class : ℕ
  pub class_class : ℕ
  pub class_of_class : ℕ → ℕ
  pub cpl : ℕ → List ℕ
  pub all_subclasses : ℕ → List ℕ
  -- The test that two types are one object in memory.
  pub same : Ty → Ty → Bool
  -- The test that a bignum stands at a lower address than another.
  pub below : List ℕ → List ℕ → Bool
  -- The test that an object is #t or #f.
  pub is_boolean : Obj → Bool
  -- What `compare_bignums` makes of #f, which is no bignum.
  pub stray_compare : List ℕ → ℤ
  -- What `SING(t)->object` reads of a type that is no singleton.
  pub stray_object : Ty → Obj

-- `memq`, on classes.
unfoldable pub memq : ℕ → List ℕ → Bool
memq c [] = false
memq c (d ∷ ds) = d == c || memq c ds

module _ (w : World) where
  -- `object_class`.
  unfoldable pub object_class : Obj → ℕ
  object_class (fixnum n) = w.fixnum_class
  object_class (bignum ds) = w.bignum_class
  object_class (ratio n d) = w.ratio_class
  object_class (class_obj c) = w.class_of_class c
  object_class (instance_of c a) = c

  -- What is asked of the class precedence lists, of the lists of subclasses, and of types at one
  -- address. Every class has a list.
  pub record IsHierarchy : Type 0 where
    pub cpl_self : (c : ℕ) → memq c (w.cpl c) ≡ true
    pub cpl_trans :
        (c d e : ℕ) → memq d (w.cpl c) ≡ true → memq e (w.cpl d) ≡ true → memq e (w.cpl c) ≡ true
    pub subclasses_all :
        (c d : ℕ) → memq c (w.cpl d) ≡ true → (c ≡ d) ⊎ (memq d (w.all_subclasses c) ≡ true)
    pub same_sound : (t u : Ty) → w.same t u ≡ true → t ≡ u
