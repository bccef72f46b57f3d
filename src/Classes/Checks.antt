-- ===== src/Classes/Checks.antt =====
-- The first loop of `setup_class_supers` of mindy/interp/class.c.
use gwydion_2_4_cleanup.Prelude.{
  ℕ, ◌≡◌, refl, sym, ap, subst, ◌∙◌, ◌⊎◌, inl, inr, List, [], ◌∷◌, Bool, true, false, not, ◌||◌,
  ◌&&◌, ◌==◌, ==_iff, Bool-cases, arith,
}
use gwydion_2_4_cleanup.Classes.Sums.{count_self}
use gwydion_2_4_cleanup.Classes.Order.{In}
use gwydion_2_4_cleanup.Classes.Invariant.{Ready}
use gwydion_2_4_cleanup.Classes.Setup.{Class, Metaclasses, is_set, check_supers}
use gwydion_2_4_cleanup.Classes.{Outcome, ok, dylan_error}

or_none : (a : Bool) → (a || false) ≡ a
or_none true = refl
or_none false = refl

or_or : (a b c : Bool) → ((a || b) || c) ≡ (a || (b || c))
or_or true b c = refl
or_or false b c = refl

module _ (classes : ℕ → Class) (class : ℕ) where
  -- `super` is sealed, and of another library.
  abbrev pub refuses : ℕ → Bool
  refuses super =
      (classes super).sealed_p && not ((classes super).library == (classes class).library)

  abbrev pub any_static : Metaclasses → List ℕ → Bool
  any_static meta [] = false
  any_static meta (s ∷ ss) = (classes s).metaclass == meta.static_class || any_static meta ss

  abbrev pub Fit : List ℕ → Type 0
  Fit supers = (s : ℕ) → In s supers → (refuses s ≡ false) × Ready classes s

  abbrev pub Unfit : List ℕ → Type 0
  Unfit supers =
      (s : ℕ) × In s supers × ((refuses s ≡ true) ⊎ (is_set (classes s).superclasses ≡ false))

  Fit-cons : (s : ℕ) (ss : List ℕ) → refuses s ≡ false → Ready classes s → Fit ss → Fit (s ∷ ss)
  Fit-cons s ss e r f c i = elim (Bool-cases (c == s)) [
    | inl q ↦
        subst (λ (y : ℕ). (refuses y ≡ false) × Ready classes y) (sym ((==_iff c s).0 q)) (e, r)
    | inr q ↦ f c (rw q at i)
  ]

  Unfit-cons : (s : ℕ) (ss : List ℕ) → Unfit ss → Unfit (s ∷ ss)
  Unfit-cons s ss (t, i, e) = (t, ground (arith, i), e)

  abbrev pub Checked : Metaclasses → List ℕ → Bool → Outcome {0} Bool → Type 0
  Checked meta supers some_static outcome =
      ((outcome ≡ ok (some_static || any_static meta supers)) × Fit supers)
      ⊎ ((outcome ≡ dylan_error) × Unfit supers)

  pub check_supers_lem :
      (meta : Metaclasses) (supers : List ℕ) (some_static : Bool)
      → Checked meta supers some_static (check_supers meta classes class supers some_static)
  unfolding check_supers
  check_supers_lem meta [] some_static =
      inl (sym (ap (λ (b : Bool). ok b) (or_none some_static)), λ s i. absurd (omega (arith, i)))
  check_supers_lem meta (s ∷ ss) some_static = elim (Bool-cases (refuses s)) [
    | inl e ↦ inr (rw (e, check_supers) refl, (s, count_self s ss, inl e))
    | inr e ↦ elim (Bool-cases (is_set (classes s).superclasses)) [
      | inr r ↦ inr (rw (e, r, check_supers) refl, (s, count_self s ss, inr r))
      | inl r ↦
          elim (check_supers_lem meta ss
            (some_static || (classes s).metaclass == meta.static_class)) [
              | inl (q, f) ↦ inl (
                rw (e, r, check_supers)
                    (q
                      ∙ ap (λ (b : Bool). ok b)
                          (or_or some_static ((classes s).metaclass == meta.static_class)
                            (any_static meta ss))),
                Fit-cons s ss e r f,
              )
              | inr (q, u) ↦ inr (rw (e, r, check_supers) q, Unfit-cons s ss u)
            ]
    ]
  ]
