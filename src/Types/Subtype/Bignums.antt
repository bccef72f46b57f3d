-- ===== src/Types/Subtype/Bignums.antt =====
-- `limbig_limbig_subtypep` of mindy/interp/type.c compares the bounds the wrong way round.
use gwydion_2_4_cleanup.Prelude.{List, ℕ, some, ◌≡◌, true, false, arith, ap, Bool-cases, inl, inr}
use gwydion_2_4_cleanup.Prelude.Int.{ℤ, pos, ltb_ℤ, eq_of_parts, pos_part, neg_part, ◌<ℤ◌, ◌≤ℤ◌}
use gwydion_2_4_cleanup.Bignum.Digits.{bignum_int}
use gwydion_2_4_cleanup.Bignum.Normal.Minimal.{IsBignum}
use gwydion_2_4_cleanup.Bignum.Compare.Laws.{Agrees, compare_bignums-Agrees, compare_bignums_refl}
use gwydion_2_4_cleanup.Types.World.{bignum, World}
use gwydion_2_4_cleanup.Types.Instance.{limbig_instancep, compare_bound, bound_compare}
use gwydion_2_4_cleanup.Types.Subtype.{limbig_limbig_subtypep, min_subtypep, max_subtypep}

test : (r u v : ℤ) → Agrees r u v → u <ℤ v → ltb_ℤ r (pos 0) ≡ true
test r u v h l = elim (Bool-cases (ltb_ℤ r (pos 0))) [
  | inl e ↦ e
  | inr e ↦ elim (Bool-cases (ltb_ℤ (pos 0) r)) [
    | inl f ↦ absurd (omega (arith, l, h.greater (ground arith)))
    | inr f ↦
        let q = h.equal (eq_of_parts r (pos 0) (ground arith)) in
        absurd (omega (arith, l, ap pos_part q, ap neg_part q))
  ]
]

test' : (r u v : ℤ) → Agrees r u v → v ≤ℤ u → ltb_ℤ r (pos 0) ≡ false
test' r u v h l = elim (Bool-cases (ltb_ℤ r (pos 0))) [
  | inl e ↦ absurd (omega (arith, l, h.less (ground arith)))
  | inr e ↦ e
]

test_above : (r u v : ℤ) → Agrees r u v → v <ℤ u → ltb_ℤ r (pos 0) ≡ false
test_above r u v h l = test' r u v h (omega arith)

-- For bignums a < b ≤ c: the type of a to c is taken for a subtype of that of b to c, though `a` is
-- an instance of the first and not of the second.
pub limbig_limbig_subtypep_inverted :
    (w : World) (a b c : List ℕ)
    → IsBignum a
    → IsBignum b
    → IsBignum c
    → bignum_int a <ℤ bignum_int b
    → bignum_int b ≤ℤ bignum_int c
    → (limbig_limbig_subtypep (some a) (some c) (some b) (some c) ≡ true)
      × (limbig_instancep w (bignum a) (some a) (some c) ≡ true)
      × (limbig_instancep w (bignum a) (some b) (some c) ≡ false)
unfolding limbig_limbig_subtypep min_subtypep max_subtypep limbig_instancep compare_bound
    bound_compare
limbig_limbig_subtypep_inverted w a b c ha hb hc l m =
    let ba = compare_bignums-Agrees b a hb ha in
    let ab = compare_bignums-Agrees a b ha hb in
    let ca = compare_bignums-Agrees c a hc ha in
    (
      ground (arith, test_above _ _ _ ba l, compare_bignums_refl c),
      ground (arith, compare_bignums_refl a, test' _ _ _ ca (omega arith)),
      ground (arith, test _ _ _ ab l),
    )
