-- ===== src/Types/Limited/Laws.antt =====
-- Limited integers of mindy/interp/type.c as sets of fixnums.
use gwydion_2_4_cleanup.Prelude.{
  ◌+◌, ◌≤◌, ◌≡◌, Option, none, some, true, false, ◌&&◌, arith, ◌↔◌, ◌≢◌, ◌⊎◌, Bool-cases, inl, inr,
  if◌then◌else◌,
}
use gwydion_2_4_cleanup.Prelude.Int.{
  ℤ, pos, ltb_ℤ, ◌≤ℤ◌, ◌<ℤ◌, ◌+ℤ◌, ◌-ℤ◌, int_laws, eq_of_parts, pos_part, neg_part,
}
use gwydion_2_4_cleanup.Fixnum.{IsFixnum}
use gwydion_2_4_cleanup.Fixnum.Laws.{make_fixnum_lem}
use gwydion_2_4_cleanup.Types.World.{fixnum, Ty, lim_fixnum, World, object_class}
use gwydion_2_4_cleanup.Types.Instance.{
  instancep, class_instancep, class_subtypep, limfix_instancep,
}
use gwydion_2_4_cleanup.Types.Limited.{
  min_of, max_of, limited_fixnum, merge_limited_fixnums, intersect_limited_fixnums,
  restrict_limited_fixnums,
}

-- `n` lies between two bounds.
abbrev pub Between : ℤ → ℤ → ℤ → Type 0
Between min n max = (min ≤ℤ n) × (n ≤ℤ max)

-- `n` lies below or above the bounds.
abbrev pub Outside : ℤ → ℤ → ℤ → Type 0
Outside min n max = (n <ℤ min) ⊎ (max <ℤ n)

apart : (max min : ℤ) → ltb_ℤ max (min -ℤ pos 1) ≡ true → max +ℤ pos 1 <ℤ min
unfolding ◌+ℤ◌ ◌-ℤ◌
apart max min h = ground arith

touch :
    (max min : ℤ)
    → ltb_ℤ max (min -ℤ pos 1) ≡ false
    → pos_part min + neg_part max ≤ pos_part max + neg_part min + 1
unfolding ◌+ℤ◌ ◌-ℤ◌
touch max min h = ground arith

-- Ranges that meet or touch cover the range from the lower end to the higher one.
covers :
    (min1 max1 min2 max2 n : ℤ)
    → min1 ≤ℤ max1
    → min2 ≤ℤ max2
    → pos_part min2 + neg_part max1 ≤ pos_part max1 + neg_part min2 + 1
    → pos_part min1 + neg_part max2 ≤ pos_part max2 + neg_part min1 + 1
    → Between (min_of min1 min2) n (max_of max1 max2) ↔ (Between min1 n max1 ⊎ Between min2 n max2)
covers min1 max1 min2 max2 n p q s t = ground arith

ne_lt : (a b : ℤ) → a ≢ b → (a <ℤ b) ⊎ (b <ℤ a)
ne_lt a b h = elim (Bool-cases (ltb_ℤ a b)) [
  | inl l ↦ inl (ground arith)
  | inr l ↦ elim (Bool-cases (ltb_ℤ b a)) [
    | inl m ↦ inr (ground arith)
    | inr m ↦ absurd (h (eq_of_parts a b (ground arith)))
  ]
]

both_lt : (a b c d : ℤ) → (ltb_ℤ a b && ltb_ℤ c d) ≡ true → (a <ℤ b) × (c <ℤ d)
both_lt a b c d h = ground arith

not_both : (a b c d : ℤ) → (ltb_ℤ a b && ltb_ℤ c d) ≡ false → (b ≤ℤ a) ⊎ (d ≤ℤ c)
not_both a b c d h = ground arith

module _ (w : World) where
  -- The instances of a limited fixnum type among the fixnums are those between its bounds.
  limited_fixnum_iff :
      (n min max : ℤ)
      → IsFixnum n
      → (instancep w (fixnum n) (limited_fixnum w (some min) (some max)) ≡ true) ↔ Between min n max
  unfolding limited_fixnum instancep limfix_instancep class_instancep class_subtypep object_class
  limited_fixnum_iff n min max h = ground arith

  -- What an intersection says of a fixnum `n`, of which `wanted` holds if it is to be kept.
  abbrev pub Holds : ℤ → Type 0 → Option Ty → Type 0
  Holds n wanted none = ¬ wanted
  Holds n wanted (some t) = (instancep w (fixnum n) t ≡ true) ↔ wanted

  -- `intersect_limited_fixnums` of two ranges is #f only where no fixnum lies in both, and else a
  -- type with the fixnums that lie in both.
  pub intersect_limited_fixnums_lem :
      (min1 max1 min2 max2 n : ℤ)
      → IsFixnum n
      → Holds n
          (Between min1 n max1 × Between min2 n max2)
          (intersect_limited_fixnums w min1 max1 min2 max2)
  intersect_limited_fixnums_lem min1 max1 min2 max2 n h = elim (Bool-cases (ltb_ℤ max1 min2)) [
    | inl a ↦ unfold intersect_limited_fixnums in rw a (λ k. ground arith)
    | inr a ↦ elim (Bool-cases (ltb_ℤ max2 min1)) [
      | inl b ↦ unfold intersect_limited_fixnums in rw (a, b) (λ k. ground arith)
      | inr b ↦
          unfold intersect_limited_fixnums in
          rw (a, b)
            (ground (
              arith,
              limited_fixnum_iff n (if ltb_ℤ min1 min2 then min2 else min1)
                  (if ltb_ℤ max2 max1 then max2 else max1) h,
            ))
    ]
  ]

  abbrev pub Merges : ℤ → Type 0 → Type 0 → Option Ty → Type 0
  Merges n wanted apart none = apart
  Merges n wanted apart (some t) = (instancep w (fixnum n) t ≡ true) ↔ wanted

  -- `merge_limited_fixnums` of two ranges that are not empty: a type of the fixnums that lie in
  -- either, or #f, and then the ranges neither meet nor touch.
  pub merge_limited_fixnums_lem :
      (min1 max1 min2 max2 n : ℤ)
      → min1 ≤ℤ max1
      → min2 ≤ℤ max2
      → IsFixnum n
      → Merges n
          (Between min1 n max1 ⊎ Between min2 n max2)
          ((max1 +ℤ pos 1 <ℤ min2) ⊎ (max2 +ℤ pos 1 <ℤ min1))
          (merge_limited_fixnums w min1 max1 min2 max2)
  merge_limited_fixnums_lem min1 max1 min2 max2 n p q h =
      elim (Bool-cases (ltb_ℤ max1 (min2 -ℤ pos 1))) [
        | inl a ↦ unfold merge_limited_fixnums in rw a (inl (apart max1 min2 a))
        | inr a ↦ elim (Bool-cases (ltb_ℤ max2 (min1 -ℤ pos 1))) [
          | inl b ↦ unfold merge_limited_fixnums in rw (a, b) (inr (apart max2 min1 b))
          | inr b ↦
              unfold merge_limited_fixnums in
              rw (a, b)
                (let (into, from) = limited_fixnum_iff n (min_of min1 min2) (max_of max1 max2) h in
                  let (split, join) =
                    covers min1 max1 min2 max2 n p q (touch max1 min2 a) (touch max2 min1 b) in
                  (λ e. split (into e), λ e. from (join e)))
        ]
      ]

  in_result :
      {P : Type 0} (val n low high : ℤ)
      → IsFixnum val
      → IsFixnum n
      → Between low val high
      → (Between low n high → P)
      → (instancep w (fixnum val) (limited_fixnum w (some low) (some high)) ≡ true)
        × (instancep w (fixnum n) (limited_fixnum w (some low) (some high)) ≡ true → P)
  in_result val n low high fv fn b f =
      ((limited_fixnum_iff val low high fv).1 b, λ e. f ((limited_fixnum_iff n low high fn).0 e))

  -- `restrict_limited_fixnums`, for a value of the first range that the second does not hold: the
  -- result holds the value, only fixnums of the first range, and none of the second, provided that
  -- neither range begins with the fixnum that the other ends with.
  pub restrict_limited_fixnums_lem :
      (val min1 max1 min2 max2 n : ℤ)
      → IsFixnum min1
      → IsFixnum max1
      → Between min1 val max1
      → Outside min2 val max2
      → min2 ≤ℤ max2
      → min1 ≢ max2
      → max1 ≢ min2
      → IsFixnum n
      → (instancep w (fixnum val) (restrict_limited_fixnums w val (lim_fixnum min1 max1) min2 max2)
          ≡ true)
        × (instancep w (fixnum n) (restrict_limited_fixnums w val (lim_fixnum min1 max1) min2 max2)
              ≡ true
            → Between min1 n max1 × Outside min2 n max2)
  restrict_limited_fixnums_lem val min1 max1 min2 max2 n f1 f2 v out r e1 e2 h =
      let fv : IsFixnum val = omega arith in
      let d1 = ne_lt min1 max2 e1 in
      let d2 = ne_lt max1 min2 e2 in
      elim (Bool-cases (ltb_ℤ min2 val && ltb_ℤ min1 max2)) [
        | inl a ↦
            let (a1, a2) = both_lt min2 val min1 max2 a in
            elim (Bool-cases (ltb_ℤ val max2 && ltb_ℤ min2 max1)) [
              | inl b ↦ absurd (omega (arith, both_lt val max2 min2 max1 b))
              | inr b ↦
                  unfold restrict_limited_fixnums in
                  rw (a, b, make_fixnum_lem (max2 +ℤ pos 1) (omega int_laws))
                    (in_result val n (max2 +ℤ pos 1) max1 fv h (omega int_laws)
                      (λ i. (omega int_laws, inr (omega int_laws))))
            ]
        | inr a ↦ elim (Bool-cases (ltb_ℤ val max2 && ltb_ℤ min2 max1)) [
          | inl b ↦
              let (b1, b2) = both_lt val max2 min2 max1 b in
              unfold restrict_limited_fixnums in
              rw (a, b, make_fixnum_lem (min2 -ℤ pos 1) (omega int_laws))
                (in_result val n min1 (min2 -ℤ pos 1) fv h (omega int_laws)
                  (λ i. (omega int_laws, inl (omega int_laws))))
          | inr b ↦
              let a' = not_both min2 val min1 max2 a in
              let b' = not_both val max2 min2 max1 b in
              unfold restrict_limited_fixnums in
              rw (a, b) (in_result val n min1 max1 fv h v (λ i. (i, ground arith)))
        ]
      ]

  -- Where the first range begins with the fixnum `m` that the second ends with, and the value lies
  -- above it, the result still holds `m`, which the second range holds too.
  pub restrict_limited_fixnums_end :
      (val m max1 min2 : ℤ)
      → IsFixnum m
      → IsFixnum max1
      → m <ℤ val
      → val ≤ℤ max1
      → min2 ≤ℤ m
      → (instancep w (fixnum m) (restrict_limited_fixnums w val (lim_fixnum m max1) min2 m) ≡ true)
        × Between min2 m m
  restrict_limited_fixnums_end val m max1 min2 f1 f2 l k r =
      let a : (ltb_ℤ min2 val && ltb_ℤ m m) ≡ false = ground arith in
      let b : (ltb_ℤ val m && ltb_ℤ min2 max1) ≡ false = ground arith in
      (
        unfold restrict_limited_fixnums in
            rw (a, b) ((limited_fixnum_iff m m max1 f1).1 (omega arith)),
        omega arith,
      )
