-- ===== src/Classes/Entering.antt =====
-- `setup_class_supers` of mindy/interp/class.c: what it does to the classes, and how it ends.
use gwydion_2_4_cleanup.Prelude.{
  ℕ, ◌+◌, ◌≡◌, refl, ap, ◌∙◌, inl, inr, List, [], ◌∷◌, Option, some, true, ◌||◌, ◌==◌, ==_iff,
  if◌then◌else◌, update, Bool-cases, arith,
}
use gwydion_2_4_cleanup.Prelude.Counting.{count}
use gwydion_2_4_cleanup.Classes.Invariant.{Entered}
use gwydion_2_4_cleanup.Classes.Setup.{
  Class, Metaclasses, is_set, known, supers_in, tail_of, add_to_all, add_to_direct, become_static,
  set_superclasses, set_cpl,
}

-- `class` is put at the front of lists of subclasses: of the classes in `in_all`, and in `in_direct`.
record Adds (class : ℕ) (in_all in_direct : List ℕ) (classes new : ℕ → Class) : Type 0 where
  superclasses : (c : ℕ) → (new c).superclasses ≡ (classes c).superclasses
  cpl : (c : ℕ) → (new c).cpl ≡ (classes c).cpl
  all :
      (c d : ℕ)
      → count c (new d).all_subclasses
        ≡ count c (classes d).all_subclasses + (if c == class then count d in_all else 0)
  direct_all :
      (c d : ℕ)
      → count c (new d).direct_subclasses
        ≡ count c (classes d).direct_subclasses + (if c == class then count d in_direct else 0)

-- A field of the classes after one of them has changed.
update-field {ℓ} :
    {A : Type ℓ} (field : Class → A) (classes : ℕ → Class) (s c : ℕ) (x : Class)
    → field (update classes s x c) ≡ (if s == c then field x else field (classes c))
update-field field classes s c x = elim (Bool-cases (s == c)) [
  | inl e ↦ rw e refl
  | inr e ↦ rw e refl
]

update-field_same {ℓ} :
    {A : Type ℓ} (field : Class → A) (classes : ℕ → Class) (s c : ℕ) (x : Class)
    → field x ≡ field (classes s)
    → field (update classes s x c) ≡ field (classes c)
update-field_same field classes s c x h = elim (Bool-cases (s == c)) [
  | inl e ↦ rw e (h ∙ ap (λ (y : ℕ). field (classes y)) ((==_iff s c).0 e))
  | inr e ↦ rw e refl
]

count_pushed :
    (f : ℕ → List ℕ) (class s c d : ℕ)
    → count c (if s == d then class ∷ f s else f d)
      ≡ count c (f d) + (if c == class then if d == s then 1 else 0 else 0)
count_pushed f class s c d = elim (Bool-cases (s == d)) [
  | inl e ↦
      let same : count c (f s) ≡ count c (f d) = ap (λ (y : ℕ). count c (f y)) ((==_iff s d).0 e) in
      ground (arith, same)
  | inr e ↦ ground arith
]

add_to_all-Adds :
    (class : ℕ) (cs : List ℕ) (classes : ℕ → Class)
    → Adds class cs [] classes (add_to_all class cs classes)
unfolding add_to_all
add_to_all-Adds class [] classes = record {
  superclasses = λ c. refl;
  cpl = λ c. refl;
  all = λ c d. ground arith;
  direct_all = λ c d. ground arith;
}
add_to_all-Adds class (s ∷ ss) classes =
    let x : Class = record (classes s) { all_subclasses = class ∷ (classes s).all_subclasses } in
    let next : ℕ → Class = update classes s x in
    let r : Adds class ss [] next (add_to_all class ss next) = add_to_all-Adds class ss next in
    record {
      superclasses =
          λ c. r.superclasses c ∙ update-field_same (λ y. y.superclasses) classes s c x refl;
      cpl = λ c. r.cpl c ∙ update-field_same (λ y. y.cpl) classes s c x refl;
      all = λ c d.
          let here = update-field (λ y. count c y.all_subclasses) classes s d x in
          ground
            (arith, r.all c d, here, count_pushed (λ y. (classes y).all_subclasses) class s c d);
      direct_all = λ c d.
          let here = update-field_same (λ y. y.direct_subclasses) classes s d x refl in
          omega (arith, r.direct_all c d, ap (count c) here);
    }

add_to_direct-Adds :
    (class : ℕ) (cs : List ℕ) (classes : ℕ → Class)
    → Adds class [] cs classes (add_to_direct class cs classes)
unfolding add_to_direct
add_to_direct-Adds class [] classes = record {
  superclasses = λ c. refl;
  cpl = λ c. refl;
  all = λ c d. ground arith;
  direct_all = λ c d. ground arith;
}
add_to_direct-Adds class (s ∷ ss) classes =
    let x : Class = record (classes s) {
      direct_subclasses = class ∷ (classes s).direct_subclasses;
    } in
    let next : ℕ → Class = update classes s x in
    let r : Adds class [] ss next (add_to_direct class ss next) =
      add_to_direct-Adds class ss next in
    record {
      superclasses =
          λ c. r.superclasses c ∙ update-field_same (λ y. y.superclasses) classes s c x refl;
      cpl = λ c. r.cpl c ∙ update-field_same (λ y. y.cpl) classes s c x refl;
      all = λ c d.
          let here = update-field_same (λ y. y.all_subclasses) classes s d x refl in
          omega (arith, r.all c d, ap (count c) here);
      direct_all = λ c d.
          let here = update-field (λ y. count c y.direct_subclasses) classes s d x in
          ground (
            arith,
            r.direct_all c d,
            here,
            count_pushed (λ y. (classes y).direct_subclasses) class s c d,
          );
    }

-- The same in what the computation of the lists reads, and in the lists of subclasses.
pub record Alike (classes start : ℕ → Class) : Type 0 where
  pub superclasses : (c : ℕ) → (start c).superclasses ≡ (classes c).superclasses
  pub cpl : (c : ℕ) → (start c).cpl ≡ (classes c).cpl
  pub all : (c : ℕ) → (start c).all_subclasses ≡ (classes c).all_subclasses
  pub direct_all : (c : ℕ) → (start c).direct_subclasses ≡ (classes c).direct_subclasses

pub Alike-same : (classes : ℕ → Class) → Alike classes classes
Alike-same classes = record {
  superclasses = λ c. refl;
  cpl = λ c. refl;
  all = λ c. refl;
  direct_all = λ c. refl;
}

pub become_static-Alike :
    (meta : Metaclasses) (class : ℕ) (classes : ℕ → Class)
    → Alike classes (become_static meta class classes)
unfolding become_static
become_static-Alike meta class classes =
    let x : Class = record (classes class) { metaclass = meta.static_class } in
    record {
      superclasses = λ c. update-field_same (λ y. y.superclasses) classes class c x refl;
      cpl = λ c. update-field_same (λ y. y.cpl) classes class c x refl;
      all = λ c. update-field_same (λ y. y.all_subclasses) classes class c x refl;
      direct_all = λ c. update-field_same (λ y. y.direct_subclasses) classes class c x refl;
    }

module _ (class : ℕ) (supers : List ℕ) (classes start : ℕ → Class)
    (same : Alike classes start) where
  pub set_superclasses-supers :
      (c : ℕ)
      → supers_in (set_superclasses class supers start) c
        ≡ (if class == c then supers else supers_in classes c)
  unfolding set_superclasses
  set_superclasses-supers c =
      update-field (λ y. known y.superclasses) start class c
        (record (start class) { superclasses = some supers })
      ∙ ap (λ (o : Option (List ℕ)). if class == c then supers else known o) (same.superclasses c)

  pub set_superclasses-set :
      (c : ℕ)
      → is_set ((set_superclasses class supers start c).superclasses)
        ≡ (class == c) || is_set (classes c).superclasses
  unfolding set_superclasses
  set_superclasses-set c =
      update-field (λ y. is_set y.superclasses) start class c
        (record (start class) { superclasses = some supers })
      ∙ ap (λ (o : Option (List ℕ)). if class == c then true else is_set o) (same.superclasses c)
      ∙ elim (Bool-cases (class == c)) [ inl e ↦ rw e refl | inr e ↦ rw e refl ]

  pub set_superclasses-cpl : (c : ℕ) → (set_superclasses class supers start c).cpl ≡ (classes c).cpl
  unfolding set_superclasses
  set_superclasses-cpl c =
      update-field_same (λ y. y.cpl) start class c
        (record (start class) { superclasses = some supers }) refl
      ∙ same.cpl c

  set_superclasses-all :
      (c : ℕ) → (set_superclasses class supers start c).all_subclasses ≡ (classes c).all_subclasses
  unfolding set_superclasses
  set_superclasses-all c =
      update-field_same (λ y. y.all_subclasses) start class c
        (record (start class) { superclasses = some supers }) refl
      ∙ same.all c

  set_superclasses-direct :
      (c : ℕ)
      → (set_superclasses class supers start c).direct_subclasses ≡ (classes c).direct_subclasses
  unfolding set_superclasses
  set_superclasses-direct c =
      update-field_same (λ y. y.direct_subclasses) start class c
        (record (start class) { superclasses = some supers }) refl
      ∙ same.direct_all c

  abbrev pub entered : List ℕ → ℕ → Class
  entered cpl =
      add_to_direct class supers
        (add_to_all class (tail_of cpl) (set_cpl class cpl (set_superclasses class supers start)))

  pub entered-Entered : (cpl : List ℕ) → Entered class supers cpl classes (entered cpl)
  unfolding set_cpl
  entered-Entered cpl =
      let before : ℕ → Class = set_superclasses class supers start in
      let x : Class = record (before class) { cpl = cpl } in
      let listed : ℕ → Class = update before class x in
      let a : Adds class (tail_of cpl) [] listed (add_to_all class (tail_of cpl) listed) =
        add_to_all-Adds class (tail_of cpl) listed in
      let b : Adds class [] supers (add_to_all class (tail_of cpl) listed) (entered cpl) =
        add_to_direct-Adds class supers (add_to_all class (tail_of cpl) listed) in
      let superclasses : (c : ℕ) → (entered cpl c).superclasses ≡ (before c).superclasses = λ c.
        b.superclasses c
        ∙ a.superclasses c
        ∙ update-field_same (λ y. y.superclasses) before class c x refl in
      record {
        supers_new = λ c. ap known (superclasses c) ∙ set_superclasses-supers c;
        ready = λ c. ap is_set (superclasses c) ∙ set_superclasses-set c;
        cpl_new = λ c.
            b.cpl c
            ∙ a.cpl c
            ∙ update-field (λ y. y.cpl) before class c x
            ∙ ap (λ (cs : List ℕ). if class == c then cpl else cs) (set_superclasses-cpl c);
        all = λ c d.
            let here =
              update-field_same (λ y. y.all_subclasses) before class d x refl
              ∙ set_superclasses-all d in
            ground (arith, b.all c d, a.all c d, ap (count c) here);
        direct_all = λ c d.
            let here =
              update-field_same (λ y. y.direct_subclasses) before class d x refl
              ∙ set_superclasses-direct d in
            ground (arith, b.direct_all c d, a.direct_all c d, ap (count c) here);
      }
