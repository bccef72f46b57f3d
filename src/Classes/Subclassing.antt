-- ===== src/Classes/Subclassing.antt =====
-- What mindy/interp/type.c reads of classes, after calls of `setup_class_supers` of
-- mindy/interp/class.c.
use gwydion_2_4_cleanup.Prelude.{
  ℕ, suc, ◌<◌, ◌≡◌, refl, ◌⊎◌, inl, inr, List, [], Option, none, ap, subst, true, false, arith,
}
use gwydion_2_4_cleanup.Classes.Sums.{memq-count}
use gwydion_2_4_cleanup.Classes.Order.{In, Above, itself}
use gwydion_2_4_cleanup.Classes.Hierarchies.{Above-same, Above-trans}
use gwydion_2_4_cleanup.Classes.Invariant.{Ready, IsClasses, ranks, next_rank}
use gwydion_2_4_cleanup.Classes.Endings.{Enters, Results, setup_class_supers-IsClasses}
use gwydion_2_4_cleanup.Classes.Setup.{
  Class, Metaclasses, is_set, known, supers_in, setup_class_supers,
}
use gwydion_2_4_cleanup.Classes.{Outcome, ok}
use gwydion_2_4_cleanup.Types.World.{memq}

-- A call that returned entered the class.
returned-Enters :
    (meta : Metaclasses) (rank : ℕ → ℕ) (classes : ℕ → Class) (w : IsClasses rank classes)
    (class : ℕ) (fresh : is_set (classes class).superclasses ≡ false) (supers : List ℕ)
    (r : (ℕ → Class) × Outcome {0} Unit)
    → Results rank classes w class fresh meta supers r
    → r.1 ≡ ok tt
    → Enters rank classes w class fresh supers r.0
returned-Enters meta rank classes w class fresh supers r (inl (e, f, n)) q = n
returned-Enters meta rank classes w class fresh supers r (inr (inl (e, u, v))) q =
    absurd (cc (e, q))
returned-Enters meta rank classes w class fresh supers r (inr (inr (inl (e, u, v, t)))) q =
    absurd (cc (e, q))
returned-Enters meta rank classes w class fresh supers r (inr (inr (inr (e, u, v, t)))) q =
    absurd (cc (e, q))

-- What successful calls of `setup_class_supers`, each for a class that was not set up before and with
-- fuel for the ranks of its superclasses, make of classes of which none was set up. The rank of a
-- class is more than those of its superclasses together.
pub data Built (meta : Metaclasses) : (ℕ → ℕ) → (ℕ → Class) → Type 0 where
  fresh :
      (classes : ℕ → Class)
      → ((c : ℕ) → (classes c).superclasses ≡ none)
      → ((c : ℕ) → (classes c).all_subclasses ≡ [])
      → Built meta (λ c. 0) classes
  sets_up :
      (rank : ℕ → ℕ) (classes new : ℕ → Class) (fuel class : ℕ) (supers : List ℕ)
      → Built meta rank classes
      → is_set (classes class).superclasses ≡ false
      → suc (ranks rank supers) < fuel
      → setup_class_supers meta fuel class supers classes ≡ (new, ok tt)
      → Built meta (next_rank rank class supers) new

pub Built-IsClasses :
    (meta : Metaclasses) (rank : ℕ → ℕ) (classes : ℕ → Class)
    → Built meta rank classes
    → IsClasses rank classes
Built-IsClasses meta rank classes (fresh _ e a) =
    let unset : (c : ℕ) → Ready classes c → ⊥ = λ c r. let n = ap is_set (e c) in cc (r, n) in
    record {
      closed = λ c d r i. absurd (unset c r);
      falls =
          λ c d i. absurd (omega (arith, subst (λ (o : Option (List ℕ)). In d (known o)) (e c) i));
      lists = λ c r. absurd (unset c r);
      all = λ c d r i. absurd (unset c r);
      only = λ c d i. absurd (omega (arith, subst (λ (cs : List ℕ). In c cs) (a d) i));
      direct_all = λ c d r i. absurd (unset c r);
    }
Built-IsClasses meta _ new (sets_up rank classes _ fuel class supers b f l e) =
    let w : IsClasses rank classes = Built-IsClasses meta rank classes b in
    let n =
      returned-Enters meta rank classes w class f supers
        (setup_class_supers meta fuel class supers classes)
        (setup_class_supers-IsClasses rank classes w class f meta supers fuel l)
        (ap (λ r. r.1) e) in
    subst (IsClasses (next_rank rank class supers)) (ap (λ r. r.0) e) n.kept

-- Of classes that are well entered.
order :
    (rank : ℕ → ℕ) (classes : ℕ → Class) (c d e : ℕ)
    → IsClasses rank classes
    → Ready classes c
    → memq d (classes c).cpl ≡ true
    → memq e (classes d).cpl ≡ true
    → (memq c (classes c).cpl ≡ true)
      × (memq e (classes c).cpl ≡ true)
      × ((c ≡ d) ⊎ (memq c (classes d).all_subclasses ≡ true))
order rank classes c d e w r p q =
    let up : Above (supers_in classes) c d =
      (w.lists c r).sound d ((memq-count d (classes c).cpl).0 p) in
    let (r', b) =
      Above-same (supers_in classes) (supers_in classes) (Ready classes) w.closed (λ x i. refl) c d
        r up in
    let further : Above (supers_in classes) d e =
      (w.lists d r').sound e ((memq-count e (classes d).cpl).0 q) in
    (
      (memq-count c (classes c).cpl).1 ((w.lists c r).full c itself),
      (memq-count e (classes c).cpl).1
          ((w.lists c r).full e (Above-trans (supers_in classes) c d e up further)),
      elim (w.all c d r ((memq-count d (classes c).cpl).0 p)) [
        | inl s ↦ inl s
        | inr s ↦ inr ((memq-count c (classes d).all_subclasses).1 s)
      ],
    )

-- After calls of `setup_class_supers` that began with no class set up, each of which returned, was
-- for a class not set up before and had fuel for the ranks of the superclasses (as `Built` says):
-- the precedence list of a class that was set up has the class itself, and with a class the classes
-- of that one's list; and the class is among the subclasses of every other class of its list.
pub setup_class_supers_order :
    (meta : Metaclasses) (rank : ℕ → ℕ) (classes : ℕ → Class) (c d e : ℕ)
    → Built meta rank classes
    → Ready classes c
    → memq d (classes c).cpl ≡ true
    → memq e (classes d).cpl ≡ true
    → (memq c (classes c).cpl ≡ true)
      × (memq e (classes c).cpl ≡ true)
      × ((c ≡ d) ⊎ (memq c (classes d).all_subclasses ≡ true))
setup_class_supers_order meta rank classes c d e b =
    order rank classes c d e (Built-IsClasses meta rank classes b)
