-- ===== src/Tests/Kinds.antt =====
-- The theorems on mindy/interp/type.c at concrete types, in a small hierarchy.
use gwydion_2_4_cleanup.Prelude.{
  ℕ, ◌≤◌, ◌<◌, ◌≡◌, ◌≢◌, ◌⊎◌, inl, inr, refl, List, [], ◌∷◌, some, true, false, ◌&&◌, leb,
  if◌then◌else◌, arith, ◌==◌,
}
use gwydion_2_4_cleanup.Prelude.Int.{push, pos, ◌+ℤ◌, ◌≤ℤ◌, ◌<ℤ◌}
use gwydion_2_4_cleanup.Bignum.Digits.{bignum_int, sign}
use gwydion_2_4_cleanup.Bignum.Normal.Minimal.{IsBignum}
use gwydion_2_4_cleanup.Types.World.{
  fixnum, bignum, Ty, singleton, lim_fixnum, union, nil, pair, World, memq, IsHierarchy,
}
use gwydion_2_4_cleanup.Types.Instance.{idp, instancep, limfix_instancep, limbig_instancep}
use gwydion_2_4_cleanup.Types.Subtype.{
  subtypep, subtypep_right, atom_subtypep, limfix_limfix_subtypep, limbig_limbig_subtypep,
}
use gwydion_2_4_cleanup.Types.Subtype.Sound.{subtypep_sound}
use gwydion_2_4_cleanup.Types.Subtype.Bignums.{limbig_limbig_subtypep_inverted}
use gwydion_2_4_cleanup.Types.Overlap.{overlapp}
use gwydion_2_4_cleanup.Types.Overlap.Laws.{overlapp_complete}
use gwydion_2_4_cleanup.Types.Limited.{
  intersect_limited_fixnums, merge_limited_fixnums, restrict_limited_fixnums,
}
use gwydion_2_4_cleanup.Types.Limited.Laws.{
  Between, Outside, Holds, Merges, intersect_limited_fixnums_lem, merge_limited_fixnums_lem,
  restrict_limited_fixnums_lem,
}
use gwydion_2_4_cleanup.Types.Union.{type_union}
use gwydion_2_4_cleanup.Types.Union.Laws.{Joins}
use gwydion_2_4_cleanup.Types.Union.Total.{type_union_lem}

-- <object> is 0, and <fixed-integer>, <extended-integer>, <ratio> and <class> are 1 to 4 below it.
abbrev cpl_of : ℕ → List ℕ
cpl_of c = if leb 1 c && leb c 4 then c ∷ 0 ∷ [] else c ∷ []

abbrev subclasses_of : ℕ → List ℕ
subclasses_of c = if c == 0 then 1 ∷ 2 ∷ 3 ∷ 4 ∷ [] else []

abbrev numbers : World
numbers = record {
  fixnum_class = 1;
  bignum_class = 2;
  ratio_class = 3;
  class_class = 4;
  class_of_class = λ c. 4;
  cpl = cpl_of;
  all_subclasses = subclasses_of;
  same = λ t u. false;
  below = λ x y. false;
  is_boolean = λ x. false;
  stray_compare = λ x. pos 0;
  stray_object = λ t. fixnum (pos 0);
}

memq-cpl_of : (c d : ℕ) → memq d (cpl_of c) ≡ true → (c ≡ d) ⊎ ((d ≡ 0) × (1 ≤ c) × (c ≤ 4))
unfolding memq
memq-cpl_of c d h = ground arith

cpl_of-memq : (c d : ℕ) → (c ≡ d) ⊎ ((d ≡ 0) × (1 ≤ c) × (c ≤ 4)) → memq d (cpl_of c) ≡ true
unfolding memq
cpl_of-memq c d h = ground arith

in_subclasses : (c d : ℕ) → c ≡ 0 → 1 ≤ d → d ≤ 4 → memq d (subclasses_of c) ≡ true
unfolding memq
in_subclasses c d e h k = ground arith

numbers-IsHierarchy : IsHierarchy numbers
numbers-IsHierarchy = record {
  cpl_self = λ c. cpl_of-memq c c (inl refl);
  cpl_trans = λ c d e p q.
      cpl_of-memq c e (let a = memq-cpl_of c d p in let b = memq-cpl_of d e q in ground arith);
  subclasses_all = λ c d p. elim (memq-cpl_of d c p) [
    | inl e ↦ inl (ground arith)
    | inr e ↦ inr (in_subclasses c d e.0 (omega arith) (omega arith))
  ];
  same_sound = λ t u e. cc;
}

-- Both members lie between 0 and 9.
abbrev digits : Ty
digits = lim_fixnum (pos 0) (pos 9)

abbrev some_digits : Ty
some_digits = union (pair (singleton (fixnum (pos 3))) (pair (lim_fixnum (pos 5) (pos 7)) nil))

zero_ne_five : pos 0 ≢ pos 5
zero_ne_five e = cc

nine_ne_two : pos 9 ≢ pos 2
nine_ne_two e = cc

three_is : idp (fixnum (pos 3)) (fixnum (pos 3)) ≡ true
unfolding idp
three_is = refl

digits_subtypep : subtypep numbers some_digits digits ≡ true
unfolding subtypep subtypep_right atom_subtypep limfix_limfix_subtypep instancep limfix_instancep
digits_subtypep = refl

six_in_some : instancep numbers (fixnum (pos 6)) some_digits ≡ true
unfolding instancep limfix_instancep idp
six_in_some = refl

six_in_digits : instancep numbers (fixnum (pos 6)) digits ≡ true
unfolding instancep limfix_instancep
six_in_digits = refl

subtypep_sound_example : instancep numbers (fixnum (pos 6)) digits ≡ true
subtypep_sound_example =
    subtypep_sound numbers numbers-IsHierarchy (fixnum (pos 6)) some_digits digits (tt, (tt, tt)) tt
      digits_subtypep six_in_some

overlapp_complete_example : overlapp numbers some_digits digits ≡ true
overlapp_complete_example =
    overlapp_complete numbers numbers-IsHierarchy (fixnum (pos 6)) some_digits digits (tt, (tt, tt))
      six_in_some six_in_digits

intersect_limited_fixnums_lem_example :
    Holds numbers
      (pos 5)
      (Between (pos 0) (pos 5) (pos 9) × Between (pos 4) (pos 5) (pos 12))
      (intersect_limited_fixnums numbers (pos 0) (pos 9) (pos 4) (pos 12))
intersect_limited_fixnums_lem_example =
    intersect_limited_fixnums_lem numbers (pos 0) (pos 9) (pos 4) (pos 12) (pos 5)
      (omega arith, omega arith)

merge_limited_fixnums_lem_example :
    Merges numbers
      (pos 10)
      (Between (pos 0) (pos 10) (pos 9) ⊎ Between (pos 10) (pos 10) (pos 12))
      ((pos 9 +ℤ pos 1 <ℤ pos 10) ⊎ (pos 12 +ℤ pos 1 <ℤ pos 0))
      (merge_limited_fixnums numbers (pos 0) (pos 9) (pos 10) (pos 12))
merge_limited_fixnums_lem_example =
    merge_limited_fixnums_lem numbers (pos 0) (pos 9) (pos 10) (pos 12) (pos 10) (omega arith)
      (omega arith) (omega arith, omega arith)

restrict_limited_fixnums_lem_example :
    (instancep numbers
        (fixnum (pos 8))
        (restrict_limited_fixnums numbers (pos 8) digits (pos 2) (pos 5))
      ≡ true)
    × (instancep numbers
            (fixnum (pos 4))
            (restrict_limited_fixnums numbers (pos 8) digits (pos 2) (pos 5))
          ≡ true
        → Between (pos 0) (pos 4) (pos 9) × Outside (pos 2) (pos 4) (pos 5))
restrict_limited_fixnums_lem_example =
    restrict_limited_fixnums_lem numbers (pos 8) (pos 0) (pos 9) (pos 2) (pos 5) (pos 4)
      (omega arith, omega arith) (omega arith, omega arith) (omega arith, omega arith)
      (inr (omega arith)) (omega arith) (λ e. zero_ne_five e) (λ e. nine_ne_two e)
      (omega arith, omega arith)

one_digit-IsBignum : (d : ℕ) → d < 256 → IsBignum (d ∷ [])
one_digit-IsBignum d h = record { bytes = (h, tt); minimal = tt }

bignum_order :
    (bignum_int (1 ∷ []) <ℤ bignum_int (2 ∷ [])) × (bignum_int (2 ∷ []) ≤ℤ bignum_int (7 ∷ []))
unfolding bignum_int sign push
bignum_order = (omega arith, omega arith)

limbig_limbig_subtypep_inverted_example :
    (limbig_limbig_subtypep (some (1 ∷ [])) (some (7 ∷ [])) (some (2 ∷ [])) (some (7 ∷ [])) ≡ true)
    × (limbig_instancep numbers (bignum (1 ∷ [])) (some (1 ∷ [])) (some (7 ∷ [])) ≡ true)
    × (limbig_instancep numbers (bignum (1 ∷ [])) (some (2 ∷ [])) (some (7 ∷ [])) ≡ false)
limbig_limbig_subtypep_inverted_example =
    limbig_limbig_subtypep_inverted numbers (1 ∷ []) (2 ∷ []) (7 ∷ [])
      (one_digit-IsBignum 1 (omega arith)) (one_digit-IsBignum 2 (omega arith))
      (one_digit-IsBignum 7 (omega arith)) bignum_order.0 bignum_order.1

type_union_lem_example :
    Joins numbers numbers-IsHierarchy
      (type_union numbers 4 some_digits (lim_fixnum (pos 8) (pos 9)))
      (λ x.
        (instancep numbers x some_digits ≡ true)
        ⊎ (instancep numbers x (lim_fixnum (pos 8) (pos 9)) ≡ true))
type_union_lem_example =
    type_union_lem numbers numbers-IsHierarchy 4 some_digits (lim_fixnum (pos 8) (pos 9))
      (tt, (tt, tt)) tt (omega arith)
