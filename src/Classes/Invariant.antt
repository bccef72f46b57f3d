-- ===== src/Classes/Invariant.antt =====
-- Classes as `setup_class_supers` of mindy/interp/class.c leaves them.
use gwydion_2_4_cleanup.Prelude.{
  ℕ, suc, ◌+◌, ◌≤◌, ◌<◌, ◌≡◌, refl, sym, ap, subst, ◌∙◌, ◌⊎◌, inl, inr, List, [], ◌∷◌, Option, none,
  some, Bool, true, false, ◌||◌, ◌==◌, ==_iff, if◌then◌else◌, update, Bool-cases, arith,
}
use gwydion_2_4_cleanup.Prelude.Counting.{count}
use gwydion_2_4_cleanup.Classes.Order.{In, IsCpl}
use gwydion_2_4_cleanup.Classes.Hierarchies.{IsCpl-same, IsCpl-first}
use gwydion_2_4_cleanup.Classes.Setup.{Class, is_set, known, supers_in, tail_of}

-- A class that has been entered.
abbrev pub Ready : (ℕ → Class) → ℕ → Type 0
Ready classes c = is_set (classes c).superclasses ≡ true

-- The superclasses of entered classes are entered, and of smaller rank; the precedence lists are
-- as they are meant; and the lists of subclasses are those of the precedence lists.
pub record IsClasses (rank : ℕ → ℕ) (classes : ℕ → Class) : Type 0 where
  pub closed : (c d : ℕ) → Ready classes c → In d (supers_in classes c) → Ready classes d
  pub falls : (c d : ℕ) → In d (supers_in classes c) → rank d < rank c
  pub lists : (c : ℕ) → Ready classes c → IsCpl (supers_in classes) c (classes c).cpl
  pub all :
      (c d : ℕ) → Ready classes c → In d (classes c).cpl → (c ≡ d) ⊎ In c (classes d).all_subclasses
  pub only : (c d : ℕ) → In c (classes d).all_subclasses → Ready classes c × In d (classes c).cpl
  pub direct_all :
      (c d : ℕ) → Ready classes c → In d (supers_in classes c) → In c (classes d).direct_subclasses

-- `new` is `classes` with `class` entered under `supers`.
pub record Entered (class : ℕ) (supers cpl : List ℕ) (classes new : ℕ → Class) : Type 0 where
  pub supers_new : (c : ℕ) → supers_in new c ≡ (if class == c then supers else supers_in classes c)
  pub ready :
      (c : ℕ) → is_set (new c).superclasses ≡ (class == c) || is_set (classes c).superclasses
  pub cpl_new : (c : ℕ) → (new c).cpl ≡ (if class == c then cpl else (classes c).cpl)
  pub all :
      (c d : ℕ)
      → count c (new d).all_subclasses
        ≡ count c (classes d).all_subclasses + (if c == class then count d (tail_of cpl) else 0)
  pub direct_all :
      (c d : ℕ)
      → count c (new d).direct_subclasses
        ≡ count c (classes d).direct_subclasses + (if c == class then count d supers else 0)

abbrev pub ranks : (ℕ → ℕ) → List ℕ → ℕ
ranks rank [] = 0
ranks rank (s ∷ ss) = rank s + ranks rank ss

ranks-In : (rank : ℕ → ℕ) (ss : List ℕ) (s : ℕ) → In s ss → rank s ≤ ranks rank ss
ranks-In rank [] s i = absurd (omega (arith, i))
ranks-In rank (t ∷ ss) s i = elim (Bool-cases (s == t)) [
  | inl e ↦ omega (arith, ap rank ((==_iff s t).0 e))
  | inr e ↦ omega (arith, ranks-In rank ss s (rw e at i))
]

-- The rank of a class above those of its superclasses.
abbrev pub next_rank : (ℕ → ℕ) → ℕ → List ℕ → ℕ → ℕ
next_rank rank class supers = update rank class (suc (ranks rank supers))

supers_Ready : (o : Option (List ℕ)) (d : ℕ) → In d (known o) → is_set o ≡ true
supers_Ready none d i = absurd (omega (arith, i))
supers_Ready (some ss) d i = refl

or_true : (a b : Bool) → b ≡ true → (a || b) ≡ true
or_true true b e = refl
or_true false b e = e

-- The members of a list, its class first.
IsCpl-tail :
    (f : ℕ → List ℕ) (class d : ℕ) (cpl : List ℕ)
    → IsCpl f class cpl
    → In d cpl
    → (class ≡ d) ⊎ In d (tail_of cpl)
IsCpl-tail f class d [] p i = inr i
IsCpl-tail f class d (c ∷ cpl) p i = elim (Bool-cases (d == c)) [
  | inl e ↦ inl (sym ((==_iff d c).0 e ∙ IsCpl-first f class c cpl p))
  | inr e ↦ inr (rw e at i)
]

In-tail_of : (d : ℕ) (cs : List ℕ) → In d (tail_of cs) → In d cs
In-tail_of d [] i = i
In-tail_of d (c ∷ cs) i = ground (arith, i)

module _ (rank : ℕ → ℕ) (classes : ℕ → Class) (w : IsClasses rank classes) (class : ℕ)
    (fresh : is_set (classes class).superclasses ≡ false) (supers : List ℕ)
    (above : (s : ℕ) → In s supers → Ready classes s) where
  pub other : (c : ℕ) → Ready classes c → (class == c) ≡ false
  other c r = elim (Bool-cases (class == c)) [
    | inr e ↦ e
    | inl e ↦
        let r' : is_set (classes class).superclasses ≡ true =
          subst (λ (y : ℕ). is_set (classes y).superclasses ≡ true) (sym ((==_iff class c).0 e))
            r in
        absurd (cc (r', fresh))
  ]

  -- What is in a list of superclasses, of the new class and of the old ones.
  source :
      (c d : ℕ)
      → In d (if class == c then supers else supers_in classes c)
      → Ready classes d × (next_rank rank class supers d < next_rank rank class supers c)
  source c d i = elim (Bool-cases (class == c)) [
    | inl e ↦
        let r = above d (rw e at i) in
        (r, rw (e, other d r) (omega (arith, ranks-In rank supers d (rw e at i))))
    | inr e ↦
        let j : In d (supers_in classes c) = rw e at i in
        let r = w.closed c d (supers_Ready (classes c).superclasses d j) j in
        (r, rw (e, other d r) (w.falls c d j))
  ]

  pub next_falls :
      (c d : ℕ)
      → In d (update (supers_in classes) class supers c)
      → next_rank rank class supers d < next_rank rank class supers c
  next_falls c d i = (source c d i).1

  module _ (cpl : List ℕ) (new : ℕ → Class) (n : Entered class supers cpl classes new)
      (p : IsCpl (update (supers_in classes) class supers) class cpl) where
    new_source :
        (c d : ℕ)
        → In d (supers_in new c)
        → Ready new d × (next_rank rank class supers d < next_rank rank class supers c)
    new_source c d i =
        let (r, l) = source c d (subst (λ (cs : List ℕ). In d cs) (n.supers_new c) i) in
        (n.ready d ∙ or_true (class == d) (is_set (classes d).superclasses) r, l)

    old_Ready : (c : ℕ) → (class == c) ≡ false → Ready new c → Ready classes c
    old_Ready c e r = rw e at (sym (n.ready c) ∙ r)

    -- Its list is the new one.
    new_list : IsCpl (supers_in new) class (new class).cpl
    new_list =
        subst (λ (cs : List ℕ). IsCpl (supers_in new) class cs)
          (sym (rw ((==_iff class class).1 refl) at (n.cpl_new class)))
          (IsCpl-same (update (supers_in classes) class supers) (supers_in new) (λ c. Unit)
            (λ c d u i. tt) (λ c u. sym (n.supers_new c)) class cpl tt p)

    old_list :
        (c : ℕ) → (class == c) ≡ false → Ready classes c → IsCpl (supers_in new) c (new c).cpl
    old_list c e r =
        subst (λ (cs : List ℕ). IsCpl (supers_in new) c cs) (sym (rw e at (n.cpl_new c)))
          (IsCpl-same (supers_in classes) (supers_in new) (Ready classes) w.closed
            (λ d q. sym (rw (other d q) at (n.supers_new d))) c (classes c).cpl r (w.lists c r))

    pub Entered-IsClasses : IsClasses (next_rank rank class supers) new
    Entered-IsClasses = record {
      closed = λ c d r i. (new_source c d i).0;
      falls = λ c d i. (new_source c d i).1;
      lists = λ c r. elim (Bool-cases (class == c)) [
        | inl e ↦
            subst (λ (y : ℕ). IsCpl (supers_in new) y (new y).cpl) ((==_iff class c).0 e) new_list
        | inr e ↦ old_list c e (old_Ready c e r)
      ];
      all = λ c d r i. elim (Bool-cases (class == c)) [
        | inl e ↦
            let j : In d cpl = subst (λ (cs : List ℕ). In d cs) (rw e at (n.cpl_new c)) i in
            elim (IsCpl-tail (update (supers_in classes) class supers) class d cpl p j) [
              | inl q ↦ inl (sym ((==_iff class c).0 e) ∙ q)
              | inr q ↦ inr (ground (arith, n.all c d, q, e))
            ]
        | inr e ↦
            let j : In d (classes c).cpl =
              subst (λ (cs : List ℕ). In d cs) (rw e at (n.cpl_new c)) i in
            elim (w.all c d (old_Ready c e r) j) [
              | inl q ↦ inl q
              | inr q ↦ inr (omega (arith, n.all c d, q))
            ]
      ];
      only = λ c d i. elim (Bool-cases (class == c)) [
        | inr e ↦
            let (r, j) = w.only c d (ground (arith, n.all c d, i, e)) in
            (
              n.ready c ∙ or_true (class == c) (is_set (classes c).superclasses) r,
              subst (λ (cs : List ℕ). In d cs) (sym (rw e at (n.cpl_new c))) j,
            )
        | inl e ↦
            let old : (count c (classes d).all_subclasses ≡ 0) =
              ground
                (arith, λ (j : In c (classes d).all_subclasses). other c (w.only c d j).0, e) in
            let here : In d (tail_of cpl) = ground (arith, n.all c d, old, i, e) in
            let ready : ((class == c) || is_set (classes c).superclasses) ≡ true = rw e refl in
            (
              n.ready c ∙ ready,
              subst (λ (cs : List ℕ). In d cs) (sym (rw e at (n.cpl_new c)))
                  (In-tail_of d cpl here),
            )
      ];
      direct_all = λ c d r i. elim (Bool-cases (class == c)) [
        | inl e ↦
            let j : In d supers = subst (λ (cs : List ℕ). In d cs) (rw e at (n.supers_new c)) i in
            ground (arith, n.direct_all c d, j, e)
        | inr e ↦
            let j : In d (supers_in classes c) =
              subst (λ (cs : List ℕ). In d cs) (rw e at (n.supers_new c)) i in
            omega (arith, n.direct_all c d, w.direct_all c d (old_Ready c e r) j)
      ];
    }
