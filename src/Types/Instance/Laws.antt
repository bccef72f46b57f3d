-- ===== src/Types/Instance/Laws.antt =====
-- `idp` tells the objects apart, and so does not separate what a type holds.
use gwydion_2_4_cleanup.Prelude.{ℕ, ◌≡◌, refl, Bool, true, ◌&&◌, arith, ap₂, ap, ◌==◌}
use gwydion_2_4_cleanup.Prelude.Int.{ℤ, eqb_ℤ}
use gwydion_2_4_cleanup.Bignum.Compare.Laws.{compare_bignums-eq-zero, compare_bignums_refl}
use gwydion_2_4_cleanup.Types.World.{Obj, fixnum, bignum, ratio, class_obj, instance_of}
use gwydion_2_4_cleanup.Types.Instance.{idp}

eqb_ℤ-eq : (a b : ℤ) → eqb_ℤ a b ≡ true → a ≡ b
eqb_ℤ-eq a b h = ground arith

both : (a b : Bool) → (a && b) ≡ true → (a ≡ true) × (b ≡ true)
both a b h = ground arith

==-eq : (a b : ℕ) → (a == b) ≡ true → a ≡ b
==-eq a b h = ground arith

-- Objects that are `idp` are equal: their digits, parts, class or address are the same.
pub idp-eq : (x y : Obj) → idp x y ≡ true → x ≡ y
unfolding idp
idp-eq (fixnum m) (fixnum n) h = ap fixnum (eqb_ℤ-eq m n h)
idp-eq (bignum x) (bignum y) h = ap bignum (compare_bignums-eq-zero x y (eqb_ℤ-eq _ _ h))
idp-eq (ratio m n) (ratio i j) h =
    let (p, q) = both _ _ h in ap₂ ratio (idp-eq m i p) (idp-eq n j q)
idp-eq (class_obj c) (class_obj d) h = ap class_obj (==-eq c d h)
idp-eq (instance_of c a) (instance_of d b) h =
    let (p, q) = both _ _ h in ap₂ instance_of (==-eq c d p) (==-eq a b q)
idp-eq _ _ h = cc

pub idp_refl : (x : Obj) → idp x x ≡ true
unfolding idp
idp_refl (fixnum m) = ground arith
idp_refl (bignum x) = rw (compare_bignums_refl x) refl
idp_refl (ratio m n) = rw (idp_refl m, idp_refl n) refl
idp_refl (class_obj c) = ground arith
idp_refl (instance_of c a) = ground arith
