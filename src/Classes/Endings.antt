-- ===== src/Classes/Endings.antt =====
-- How `setup_class_supers` of mindy/interp/class.c ends, by its argument and the classes before it.
use gwydion_2_4_cleanup.Prelude.{
  ℕ, suc, ◌<◌, ◌≡◌, ◌≢◌, refl, sym, subst, ◌⊎◌, inl, inr, List, [], ◌∷◌, Bool, true, false, ◌==◌,
  ==_iff, update, Bool-cases, arith,
}
use mathlib.Core.Path.{fun_ext}
use gwydion_2_4_cleanup.Classes.Sums.{count_self}
use gwydion_2_4_cleanup.Classes.Order.{In, IsCpl}
use gwydion_2_4_cleanup.Classes.Precedence.{Ends, slow_compute_cpl_lem}
use gwydion_2_4_cleanup.Classes.Hierarchies.{IsCpl-same, IsCpl-none, IsCpl-one}
use gwydion_2_4_cleanup.Classes.Invariant.{
  Ready, IsClasses, ranks, next_rank, next_falls, other, Entered-IsClasses,
}
use gwydion_2_4_cleanup.Classes.Checks.{Fit, Unfit, any_static, Checked, check_supers_lem}
use gwydion_2_4_cleanup.Classes.Entering.{
  set_superclasses-set, Alike, Alike-same, become_static-Alike, entered, entered-Entered,
  set_superclasses-supers, set_superclasses-cpl,
}
use gwydion_2_4_cleanup.Classes.Setup.{
  Class, Metaclasses, is_set, supers_in, compute_cpl, check_supers, become_static, set_superclasses,
  enter, set_supers, after_check, setup_class_supers,
}
use gwydion_2_4_cleanup.Classes.{slow_compute_cpl, Outcome, ok, dylan_error, lost}

module _ (rank : ℕ → ℕ) (classes : ℕ → Class) (w : IsClasses rank classes) (class : ℕ)
    (fresh : is_set (classes class).superclasses ≡ false) where
  -- The hierarchy with the class.
  abbrev pub hierarchy : List ℕ → ℕ → List ℕ
  hierarchy supers = update (supers_in classes) class supers

  hierarchy_self : (supers : List ℕ) → hierarchy supers class ≡ supers
  hierarchy_self supers = rw ((==_iff class class).1 refl) refl

  -- `compute_cpl` with its shorter ways.
  compute_cpl-Ends :
      (supers : List ℕ) (fuel : ℕ) (start : ℕ → Class)
      → ((s : ℕ) → In s supers → Ready classes s)
      → suc (ranks rank supers) < fuel
      → Alike classes start
      → Ends
          (hierarchy supers)
          class
          (compute_cpl fuel (set_superclasses class supers start) class supers)
  unfolding compute_cpl
  compute_cpl-Ends [] fuel start above l a = inl (
    class ∷ [],
    refl,
    IsCpl-none (hierarchy []) (next_rank rank class [])
        (next_falls rank classes w class fresh [] above) class (hierarchy_self []),
  )
  compute_cpl-Ends (s ∷ []) fuel start above l a =
      let r : Ready classes s = above s (count_self s []) in
      let p : IsCpl (hierarchy (s ∷ [])) s (classes s).cpl =
        IsCpl-same (supers_in classes) (hierarchy (s ∷ [])) (Ready classes) w.closed
          (λ c q. rw (other rank classes w class fresh (s ∷ []) above c q) refl) s (classes s).cpl r
          (w.lists s r) in
      inl (
        class ∷ (set_superclasses class (s ∷ []) start s).cpl,
        refl,
        subst (λ (cs : List ℕ). IsCpl (hierarchy (s ∷ [])) class (class ∷ cs))
            (sym (set_superclasses-cpl class (s ∷ []) classes start a s))
            (IsCpl-one (hierarchy (s ∷ [])) (next_rank rank class (s ∷ []))
              (next_falls rank classes w class fresh (s ∷ []) above) class s (classes s).cpl
              (hierarchy_self (s ∷ [])) p),
      )
  compute_cpl-Ends (s ∷ t ∷ ss) fuel start above l a =
      let same : hierarchy (s ∷ t ∷ ss) ≡ supers_in (set_superclasses class (s ∷ t ∷ ss) start) =
        fun_ext (λ c. sym (set_superclasses-supers class (s ∷ t ∷ ss) classes start a c)) in
      let here : next_rank rank class (s ∷ t ∷ ss) class ≡ suc (ranks rank (s ∷ t ∷ ss)) =
        rw ((==_iff class class).1 refl) refl in
      subst
        (λ (f : ℕ → List ℕ). Ends (hierarchy (s ∷ t ∷ ss)) class (slow_compute_cpl fuel f class))
        same
        (slow_compute_cpl_lem (hierarchy (s ∷ t ∷ ss)) (next_rank rank class (s ∷ t ∷ ss)) fuel
          class (next_falls rank classes w class fresh (s ∷ t ∷ ss) above) (omega (arith, l, here)))

  -- The class is entered.
  pub record Enters (supers : List ℕ) (new : ℕ → Class) : Type 0 where
    pub kept : IsClasses (next_rank rank class supers) new
    pub ready : Ready new class
    pub supers_new : supers_in new class ≡ supers
    pub others : (c : ℕ) → c ≢ class → supers_in new c ≡ supers_in classes c

  abbrev pub Inconsistent : List ℕ → Type 0
  Inconsistent supers = (cpl : List ℕ) → ¬ IsCpl (hierarchy supers) class cpl

  module _ (supers : List ℕ) (above : (s : ℕ) → In s supers → Ready classes s) (fuel : ℕ)
      (l : suc (ranks rank supers) < fuel) where
    abbrev Succeeds : (ℕ → Class) × Outcome {0} Unit → Type 0
    Succeeds (new, outcome) =
        ((outcome ≡ ok tt) × Enters supers new)
        ⊎ ((outcome ≡ dylan_error) × Inconsistent supers × Ready new class)

    entered-Enters :
        (start : ℕ → Class) (a : Alike classes start) (cpl : List ℕ)
        → IsCpl (hierarchy supers) class cpl
        → Enters supers (entered class supers classes start a cpl)
    entered-Enters start a cpl p =
        let n = entered-Entered class supers classes start a cpl in
        let new : ℕ → Class = entered class supers classes start a cpl in
        record {
          kept = Entered-IsClasses rank classes w class fresh supers above cpl new n p;
          ready = rw ((==_iff class class).1 refl) at (n.ready class);
          supers_new = rw ((==_iff class class).1 refl) at (n.supers_new class);
          others = λ c h. elim (Bool-cases (class == c)) [
            | inl e ↦ absurd (h (sym ((==_iff class c).0 e)))
            | inr e ↦ rw e at (n.supers_new c)
          ];
        }

    set_supers_lem :
        (start : ℕ → Class) → Alike classes start → Succeeds (set_supers fuel class supers start)
    unfolding set_supers enter
    set_supers_lem start a = elim (compute_cpl-Ends supers fuel start above l a) [
      | inl (cpl, e, p) ↦
          subst
            (λ (o : Outcome (List ℕ)).
              Succeeds (enter class supers (set_superclasses class supers start) o))
            (sym e) (inl (refl, entered-Enters start a cpl p))
      | inr (e, never) ↦
          subst
            (λ (o : Outcome (List ℕ)).
              Succeeds (enter class supers (set_superclasses class supers start) o))
            (sym e)
            (inr (
              refl,
              never,
              rw ((==_iff class class).1 refl) at
                  (set_superclasses-set class supers classes start a class),
            ))
    ]

  -- A metaclass that `setup_class_supers` cannot replace.
  abbrev pub Fixed : Metaclasses → List ℕ → Type 0
  Fixed meta supers =
      (any_static classes class meta supers ≡ true)
      × (((classes class).metaclass == meta.defined_class) ≡ false)

  -- The four ends.
  abbrev pub Results : Metaclasses → List ℕ → (ℕ → Class) × Outcome {0} Unit → Type 0
  Results meta supers (new, outcome) =
      ((outcome ≡ ok tt) × Fit classes class supers × Enters supers new)
      ⊎ ((outcome ≡ dylan_error) × Unfit classes class supers × (new ≡ classes))
      ⊎ ((outcome ≡ dylan_error) × Fit classes class supers × Inconsistent supers × Ready new class)
      ⊎ ((outcome ≡ lost) × Fit classes class supers × Fixed meta supers × (new ≡ classes))

  set_supers-Results :
      (meta : Metaclasses) (supers : List ℕ) (f : Fit classes class supers) (fuel : ℕ)
      (start : ℕ → Class)
      → suc (ranks rank supers) < fuel
      → Alike classes start
      → Results meta supers (set_supers fuel class supers start)
  set_supers-Results meta supers f fuel start l a =
      elim (set_supers_lem supers (λ s i. (f s i).1) fuel l start a) [
        | inl (q, n) ↦ inl (q, f, n)
        | inr (q, n, r) ↦ inr (inr (inl (q, f, n, r)))
      ]

  module _ (meta : Metaclasses) (fuel : ℕ) (supers : List ℕ) where
    abbrev after_any : (ℕ → Class) × Outcome {0} Unit
    after_any =
        after_check meta fuel class supers classes (ok (any_static classes class meta supers))

    after_no_static :
        any_static classes class meta supers ≡ false
        → after_any ≡ set_supers fuel class supers classes
    unfolding after_check
    after_no_static b = rw (b, after_check) refl

    after_static :
        any_static classes class meta supers ≡ true
        → ((classes class).metaclass == meta.defined_class) ≡ true
        → after_any ≡ set_supers fuel class supers (become_static meta class classes)
    unfolding after_check
    after_static b d = rw (b, d, after_check) refl

    after_fixed :
        any_static classes class meta supers ≡ true
        → ((classes class).metaclass == meta.defined_class) ≡ false
        → after_any ≡ (classes, lost)
    unfolding after_check
    after_fixed b d = rw (b, d, after_check) refl

  after_check-Results :
      (meta : Metaclasses) (supers : List ℕ) (fuel : ℕ) (outcome : Outcome {0} Bool)
      → suc (ranks rank supers) < fuel
      → Checked classes class meta supers false outcome
      → Results meta supers (after_check meta fuel class supers classes outcome)
  unfolding after_check
  after_check-Results meta supers fuel outcome l (inr (e, u)) =
      subst
        (λ (o : Outcome {0} Bool).
          Results meta supers (after_check meta fuel class supers classes o))
        (sym e) (inr (inl (refl, u, refl)))
  after_check-Results meta supers fuel outcome l (inl (e, f)) =
      subst
        (λ (o : Outcome {0} Bool).
          Results meta supers (after_check meta fuel class supers classes o))
        (sym e)
        (elim (Bool-cases (any_static classes class meta supers)) [
          | inr b ↦
              subst (Results meta supers) (sym (after_no_static meta fuel supers b))
                (set_supers-Results meta supers f fuel classes l (Alike-same classes))
          | inl b ↦ elim (Bool-cases ((classes class).metaclass == meta.defined_class)) [
            | inl d ↦ subst (Results meta supers) (sym (after_static meta fuel supers b d)) (
                set_supers-Results meta supers f fuel (become_static meta class classes) l
                  (become_static-Alike meta class classes))
            | inr d ↦
                subst (Results meta supers) (sym (after_fixed meta fuel supers b d))
                  (inr (inr (inr (refl, f, (b, d), refl))))
          ]
        ])

  -- Of classes that are well entered, and a class that is not entered yet, with fuel for the ranks
  -- of its superclasses: `setup_class_supers` enters the class under its superclasses, and the
  -- classes are well entered again; or it signals an error at a superclass that is sealed or not
  -- entered, and changes nothing; or it signals an error where there is no precedence list for the
  -- class, which from then on passes for one that was entered; or, with a static superclass, it fails at the metaclass and changes nothing.
  pub setup_class_supers-IsClasses :
      (meta : Metaclasses) (supers : List ℕ) (fuel : ℕ)
      → suc (ranks rank supers) < fuel
      → Results meta supers (setup_class_supers meta fuel class supers classes)
  unfolding setup_class_supers
  setup_class_supers-IsClasses meta supers fuel l =
      after_check-Results meta supers fuel (check_supers meta classes class supers false) l
        (check_supers_lem classes class meta supers false)
