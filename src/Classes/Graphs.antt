-- ===== src/Classes/Graphs.antt =====
-- The graph that `compute_cpd` of mindy/interp/class.c builds, while it is being built.
use gwydion_2_4_cleanup.Prelude.{
  ℕ, suc, ◌+◌, ◌≤◌, ◌≡◌, refl, sym, ap, subst, ◌⊎◌, inl, inr, List, [], ◌∷◌, ◌==◌, ==_iff,
  if◌then◌else◌, update, length, Bool-cases, arith,
}
use gwydion_2_4_cleanup.Prelude.Counting.{count}
use gwydion_2_4_cleanup.Classes.Sums.{
  total, total-update, total-update_none, total-none, count_self,
}
use gwydion_2_4_cleanup.Classes.Order.{In}
use gwydion_2_4_cleanup.Classes.{Graph, empty, new_cpd, push_after, add_count}

-- The counts are the numbers of edges to a class, and edges lead to classes that were found.
pub record Valid (g : Graph) : Type 0 where
  pub once : (v : ℕ) → count v g.chain ≤ 1
  pub size : g.class_count ≡ length g.chain
  pub counts : (v : ℕ) → g.count v ≡ total g.chain g.after v
  pub targets : (u v : ℕ) → In v (g.after u) → In v g.chain

pub record Grows (g g' : Graph) : Type 0 where
  pub chain : (v : ℕ) → count v g.chain ≤ count v g'.chain
  pub after : (u v : ℕ) → In u g.chain → count v (g.after u) ≤ count v (g'.after u)

pub Grows-same : (g : Graph) → Grows g g
Grows-same g = record { chain = λ v. omega arith; after = λ u v i. omega arith }

pub Grows-trans : (f g h : Graph) → Grows f g → Grows g h → Grows f h
Grows-trans f g h a b = record {
  chain = λ v. omega (arith, a.chain v, b.chain v);
  after = λ u v i. omega (arith, a.after u v i, b.after u v (omega (arith, i, a.chain u)));
}

pub empty-Valid : Valid empty
empty-Valid = record {
  once = λ v. omega arith;
  size = refl;
  counts = λ v. refl;
  targets = λ u v h. absurd (omega (arith, h));
}

update_self : (f : ℕ → List ℕ) (u : ℕ) (x : List ℕ) → update f u x u ≡ x
update_self f u x = rw ((==_iff u u).1 refl) refl

module _ (class : ℕ) (g : Graph) (valid : Valid g) (new : count class g.chain ≡ 0) where
  unseen : (u : ℕ) → count class (g.after u) ≡ 0
  unseen u = ground (arith, valid.targets u class, new)

  pub new_cpd-Valid : Valid (new_cpd class g)
  unfolding new_cpd
  new_cpd-Valid = record {
    once = λ v. ground (arith, valid.once v, new);
    size = omega (arith, valid.size);
    counts = λ v. elim (Bool-cases (class == v)) [
      | inl e ↦
          let same : class ≡ v = (==_iff class v).0 e in
          let none_in : total g.chain g.after v ≡ 0 =
            subst (λ (x : ℕ). total g.chain g.after x ≡ 0) same
              (total-none g.chain g.after class (λ u i. unseen u)) in
          rw (e, update_self g.after class [])
            (omega (arith, none_in, total-update_none g.chain g.after class [] v new))
      | inr e ↦
          rw (e, update_self g.after class [])
            (omega (arith, valid.counts v, total-update_none g.chain g.after class [] v new))
    ];
    targets = λ u v i. elim (Bool-cases (class == u)) [
      | inl e ↦ absurd (omega (arith, rw e at i))
      | inr e ↦ ground (arith, valid.targets u v (rw e at i))
    ];
  }

  pub new_cpd-Grows : Grows g (new_cpd class g)
  unfolding new_cpd
  new_cpd-Grows = record { chain = λ v. ground arith; after = λ u v i. ground (arith, new) }

pub new_cpd-chain :
    (class x : ℕ) (g : Graph) → In x (new_cpd class g).chain → (x ≡ class) ⊎ In x g.chain
unfolding new_cpd
new_cpd-chain class x g i = elim (Bool-cases (x == class)) [
  | inl e ↦ inl ((==_iff x class).0 e)
  | inr e ↦ inr (rw e at i)
]

pub new_cpd-after :
    (class u x : ℕ) (g : Graph) → In x ((new_cpd class g).after u) → In x (g.after u)
unfolding new_cpd
new_cpd-after class u x g i = elim (Bool-cases (class == u)) [
  | inl e ↦ absurd (omega (arith, rw e at i))
  | inr e ↦ rw e at i
]

-- A valid graph, but for `n` edges to `super` that are not counted yet.
record Owes (super n : ℕ) (g : Graph) : Type 0 where
  once : (v : ℕ) → count v g.chain ≤ 1
  size : g.class_count ≡ length g.chain
  counts : (v : ℕ) → g.count v + (if super == v then n else 0) ≡ total g.chain g.after v
  targets : (u v : ℕ) → In v (g.after u) → In v g.chain

Valid-Owes : (super : ℕ) (g : Graph) → Valid g → Owes super 0 g
Valid-Owes super g v = record {
  once = v.once;
  size = v.size;
  counts = λ c. ground (arith, v.counts c);
  targets = v.targets;
}

push_after-Owes :
    (cpd super n : ℕ) (g : Graph)
    → In cpd g.chain
    → In super g.chain
    → Owes super n g
    → Owes super (suc n) (push_after cpd super g)
unfolding push_after
push_after-Owes cpd super n g i j o = record {
  once = o.once;
  size = o.size;
  counts = λ v. ground (
    arith,
    o.counts v,
    total-update g.chain g.after cpd (super ∷ g.after cpd) v (omega (arith, i, o.once cpd)),
  );
  targets = λ u v h. elim (Bool-cases (cpd == u)) [
    | inl e ↦ elim (Bool-cases (v == super)) [
      | inl q ↦ subst (λ (x : ℕ). In x g.chain) (sym ((==_iff v super).0 q)) j
      | inr q ↦ o.targets cpd v (rw q at (rw e at h))
    ]
    | inr e ↦ o.targets u v (rw e at h)
  ];
}

add_count-Valid : (super n : ℕ) (g : Graph) → Owes super n g → Valid (add_count n super g)
unfolding add_count
add_count-Valid super n g o = record {
  once = o.once;
  size = o.size;
  counts = λ v. elim (Bool-cases (super == v)) [
    | inl e ↦
        let same : super ≡ v = (==_iff super v).0 e in
        rw e (omega (arith, rw e at (o.counts v), ap g.count same))
    | inr e ↦ rw e (omega (arith, rw e at (o.counts v)))
  ];
  targets = o.targets;
}

push_after-Grows : (cpd super : ℕ) (g : Graph) → Grows g (push_after cpd super g)
unfolding push_after
push_after-Grows cpd super g = record {
  chain = λ v. omega arith;
  after = λ u v i. elim (Bool-cases (cpd == u)) [
    | inl e ↦
        let same : count v (g.after cpd) ≡ count v (g.after u) =
          ap (λ (x : ℕ). count v (g.after x)) ((==_iff cpd u).0 e) in
        rw e (ground (arith, same))
    | inr e ↦ rw e (omega arith)
  ];
}

pub push_after-In : (cpd super : ℕ) (g : Graph) → In super ((push_after cpd super g).after cpd)
unfolding push_after
push_after-In cpd super g =
    rw (update_self g.after cpd (super ∷ g.after cpd)) (count_self super (g.after cpd))

-- The edges that are new.
push_after-new :
    (cpd super : ℕ) (g : Graph) (u v : ℕ)
    → In v ((push_after cpd super g).after u)
    → In v (g.after u) ⊎ ((u ≡ cpd) × (v ≡ super))
unfolding push_after
push_after-new cpd super g u v h = elim (Bool-cases (cpd == u)) [
  | inl e ↦ elim (Bool-cases (v == super)) [
    | inl q ↦ inr (sym ((==_iff cpd u).0 e), (==_iff v super).0 q)
    | inr q ↦ inl (subst (λ (x : ℕ). In v (g.after x)) ((==_iff cpd u).0 e) (rw q at (rw e at h)))
  ]
  | inr e ↦ inl (rw e at h)
]

-- The first superclass of a class, and each of the others.
abbrev pub link_first : ℕ → ℕ → Graph → Graph
link_first class super g = add_count 1 super (push_after class super g)

abbrev pub link_next : ℕ → ℕ → ℕ → Graph → Graph
link_next class prev super g = add_count 2 super (push_after prev super (push_after class super g))

-- `g'` has new edges to `super`, from `class` and `prev`.
pub record Links (class prev super : ℕ) (g g' : Graph) : Type 0 where
  pub valid : Valid g'
  pub grows : Grows g g'
  pub chain : g'.chain ≡ g.chain
  pub from_class : In super (g'.after class)
  pub from_prev : In super (g'.after prev)
  pub new :
      (u v : ℕ) → In v (g'.after u) → In v (g.after u) ⊎ ((v ≡ super) × ((u ≡ class) ⊎ (u ≡ prev)))

module _ (class super : ℕ) (g : Graph) (v : Valid g) (i : In class g.chain)
    (j : In super g.chain) where
  pub link_first-Links : Links class class super g (link_first class super g)
  unfolding add_count
  link_first-Links = record {
    valid =
        add_count-Valid super 1 (push_after class super g)
          (push_after-Owes class super 0 g i j (Valid-Owes super g v));
    grows = record {
      chain = (push_after-Grows class super g).chain;
      after = (push_after-Grows class super g).after;
    };
    chain = unfold push_after in refl;
    from_class = push_after-In class super g;
    from_prev = push_after-In class super g;
    new = λ x y h. elim (push_after-new class super g x y h) [
      | inl old ↦ inl old
      | inr (p, q) ↦ inr (q, inl p)
    ];
  }

  pub link_next-Links :
      (prev : ℕ) → In prev g.chain → Links class prev super g (link_next class prev super g)
  unfolding add_count
  link_next-Links prev k =
      let g1 : Graph = push_after class super g in
      let g2 : Graph = push_after prev super g1 in
      let grows1 : Grows g g1 = push_after-Grows class super g in
      let grows2 : Grows g1 g2 = push_after-Grows prev super g1 in
      let same : g1.chain ≡ g.chain = unfold push_after in refl in
      let k' : In prev g1.chain = omega (arith, k, grows1.chain prev) in
      let i' : In class g1.chain = omega (arith, i, grows1.chain class) in
      let j' : In super g1.chain = omega (arith, j, grows1.chain super) in
      record {
        valid = add_count-Valid super 2 g2 (
            push_after-Owes prev super 1 g1 k' j'
              (push_after-Owes class super 0 g i j (Valid-Owes super g v)));
        grows = record {
          chain = (Grows-trans g g1 g2 grows1 grows2).chain;
          after = (Grows-trans g g1 g2 grows1 grows2).after;
        };
        chain = unfold push_after in refl;
        from_class = omega (arith, push_after-In class super g, grows2.after class super i');
        from_prev = push_after-In prev super g1;
        new = λ x y h. elim (push_after-new prev super g1 x y h) [
          | inl old ↦ elim (push_after-new class super g x y old) [
            | inl older ↦ inl older
            | inr (p, q) ↦ inr (q, inl p)
          ]
          | inr (p, q) ↦ inr (q, inr p)
        ];
      }
