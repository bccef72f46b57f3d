-- ===== src/Classes/Building.antt =====
-- `compute_cpd` of mindy/interp/class.c against the classes above a class.
use gwydion_2_4_cleanup.Prelude.{
  ℕ, zero, suc, ◌<◌, ◌≡◌, refl, sym, subst, ◌∙◌, ◌⊎◌, inl, inr, List, [], ◌∷◌, ◌==◌, ==_iff,
  Bool-cases, Option, some, arith,
}
use gwydion_2_4_cleanup.Prelude.Counting.{count}
use gwydion_2_4_cleanup.Types.World.{memq}
use gwydion_2_4_cleanup.Classes.Sums.{count_self, memq-count}
use gwydion_2_4_cleanup.Classes.Order.{In, Next, Next-In, Above, itself, super, Must, direct, local}
use gwydion_2_4_cleanup.Classes.Graphs.{
  Valid, Grows, Grows-same, Grows-trans, new_cpd-Valid, new_cpd-Grows, new_cpd-chain, new_cpd-after,
  Links, link_first, link_next, link_first-Links, link_next-Links, empty-Valid,
}
use gwydion_2_4_cleanup.Classes.{
  Graph, empty, new_cpd, super_loop, add_supers, find_cpd, compute_cpd,
}

super_loop_step :
    (find : ℕ → Graph → Option Graph) (class prev s : ℕ) (ss : List ℕ) (g g1 : Graph)
    → find s g ≡ some g1
    → super_loop find class prev (s ∷ ss) g ≡ super_loop find class s ss (link_next class prev s g1)
unfolding super_loop
super_loop_step find class prev s ss g g1 e = rw (e, super_loop) refl

add_supers_step :
    (find : ℕ → Graph → Option Graph) (class s : ℕ) (ss : List ℕ) (g g1 : Graph)
    → find s g ≡ some g1
    → add_supers find class (s ∷ ss) g ≡ super_loop find class s ss (link_first class s g1)
unfolding add_supers
add_supers_step find class s ss g g1 e = rw (e, add_supers) refl

module _ (supers_of : ℕ → List ℕ) (top : ℕ) where
  -- A class with all its edges.
  abbrev pub Done : ℕ → Graph → Type 0
  Done x g =
      ((v : ℕ) → In v (supers_of x) → In v g.chain × In v (g.after x))
      × ((u v : ℕ) → Next u v (supers_of x) → In v (g.after u))

  Done-Grows : (x : ℕ) (g g' : Graph) → Grows g g' → In x g.chain → Done x g → Done x g'
  Done-Grows x g g' w i (supers, nexts) = (
    λ v j.
        let (p, q) = supers v j in (omega (arith, p, w.chain v), omega (arith, q, w.after x v i)),
    λ u v n. omega (arith, nexts u v n, w.after u v (supers u (Next-In u v (supers_of x) n).0).0),
  )

  -- `g'` is `g` with some classes above `top`, and all their edges, and no other edges than these.
  pub record Builds (g g' : Graph) : Type 0 where
    pub valid : Valid g'
    pub grows : Grows g g'
    pub done : (x : ℕ) → In x g'.chain → In x g.chain ⊎ (Done x g' × Above supers_of top x)
    pub edges : (u v : ℕ) → In v (g'.after u) → In v (g.after u) ⊎ Must supers_of top u v

  Builds-same : (g : Graph) → Valid g → Builds g g
  Builds-same g v = record {
    valid = v;
    grows = Grows-same g;
    done = λ x i. inl i;
    edges = λ u w i. inl i;
  }

  Builds-trans : (f g h : Graph) → Builds f g → Builds g h → Builds f h
  Builds-trans f g h a b = record {
    valid = b.valid;
    grows = Grows-trans f g h a.grows b.grows;
    done = λ x i. elim (b.done x i) [
      | inr d ↦ inr d
      | inl j ↦ elim (a.done x j) [
        | inl k ↦ inl k
        | inr (d, p) ↦ inr (Done-Grows x g h b.grows j d, p)
      ]
    ];
    edges = λ u v i. elim (b.edges u v i) [ inr m ↦ inr m | inl j ↦ a.edges u v j ];
  }

  Links-Builds :
      (class prev s : ℕ) (g g' : Graph)
      → Links class prev s g g'
      → Above supers_of top class
      → In s (supers_of class)
      → ((u : ℕ) → u ≡ prev → (u ≡ class) ⊎ Next u s (supers_of class))
      → Builds g g'
  Links-Builds class prev s g g' l a i n = record {
    valid = l.valid;
    grows = l.grows;
    done = λ x j. inl (subst (λ (c : List ℕ). In x c) l.chain j);
    edges = λ u v j. elim (l.new u v j) [
      | inl old ↦ inl old
      | inr (p, inl q) ↦ inr (
          subst (λ (y : ℕ). Must supers_of top u y) (sym p)
            (subst (λ (y : ℕ). Must supers_of top y s) (sym q) (direct a i)))
      | inr (p, inr q) ↦ elim (n u q) [
        | inl c ↦ inr (
            subst (λ (y : ℕ). Must supers_of top u y) (sym p)
              (subst (λ (y : ℕ). Must supers_of top y s) (sym c) (direct a i)))
        | inr b ↦ inr (subst (λ (y : ℕ). Must supers_of top u y) (sym p) (local class a b))
      ]
    ];
  }

  -- `find` finds, or adds, these classes.
  abbrev Finds : (ℕ → Graph → Option Graph) → List ℕ → Type 0
  Finds find cs =
      (c : ℕ) (g : Graph)
      → In c cs
      → Valid g
      → (g' : Graph) × (find c g ≡ some g') × Builds g g' × In c g'.chain

  abbrev Tail : (ℕ → Graph → Option Graph) → ℕ → ℕ → List ℕ → Graph → Option Graph → Type 0
  Tail find class prev supers g result =
      (g' : Graph) × (result ≡ some g')
      × Builds g g'
      × ((v : ℕ) → In v supers → In v g'.chain × In v (g'.after class))
      × ((u v : ℕ) → Next u v (prev ∷ supers) → In v (g'.after u))

  loop_builds :
      (find : ℕ → Graph → Option Graph) (class : ℕ) (a : Above supers_of top class)
      (supers : List ℕ) (prev : ℕ) (g : Graph)
      → Finds find supers
      → Valid g
      → In class g.chain
      → In prev g.chain
      → ((s : ℕ) → In s supers → In s (supers_of class))
      → ((u v : ℕ) → Next u v (prev ∷ supers) → Next u v (supers_of class))
      → Tail find class prev supers g (super_loop find class prev supers g)
  unfolding super_loop
  loop_builds find class a [] prev g fs v i j d n =
      (g, refl, Builds-same g v, λ x h. absurd (omega (arith, h)), λ x y h. absurd h)
  loop_builds find class a (s ∷ ss) prev g fs v i j d n =
      let (g1, e1, b1, k1) = fs s g (count_self s ss) v in
      let g2 : Graph = link_next class prev s g1 in
      let i1 : In class g1.chain = omega (arith, i, b1.grows.chain class) in
      let j1 : In prev g1.chain = omega (arith, j, b1.grows.chain prev) in
      let l : Links class prev s g1 g2 = link_next-Links class s g1 b1.valid i1 k1 prev j1 in
      let b2 : Builds g1 g2 =
        Links-Builds class prev s g1 g2 l a (d s (count_self s ss))
          (λ u q. inr (n u s (inl (q, refl)))) in
      let (g3, e3, b3, f3, n3) =
        loop_builds find class a ss s g2 (λ c h m. fs c h (ground (arith, m))) b2.valid
          (omega (arith, i1, b2.grows.chain class)) (omega (arith, k1, b2.grows.chain s))
          (λ c m. d c (ground (arith, m))) (λ u w m. n u w (inr m)) in
      (
        g3,
        super_loop_step find class prev s ss g g1 e1 ∙ e3,
        Builds-trans g g1 g3 b1 (Builds-trans g1 g2 g3 b2 b3),
        λ c m. elim (Bool-cases (c == s)) [
          | inl q ↦
              subst (λ (y : ℕ). In y g3.chain × In y (g3.after class)) (sym ((==_iff c s).0 q))
                (
                  omega (arith, k1, b2.grows.chain s, b3.grows.chain s),
                  omega (
                    arith,
                    l.from_class,
                    b3.grows.after class s (omega (arith, i1, b2.grows.chain class)),
                  ),
                )
          | inr q ↦ f3 c (rw q at m)
        ],
        λ u w m. elim m [
          | inl (p, q) ↦
              subst (λ (y : ℕ). In w (g3.after y)) (sym p)
                (subst (λ (y : ℕ). In y (g3.after prev)) (sym q)
                  (omega (
                    arith,
                    l.from_prev,
                    b3.grows.after prev s (omega (arith, j1, b2.grows.chain prev)),
                  )))
          | inr m' ↦ n3 u w m'
        ],
      )

  -- All superclasses of a class, and what is above them.
  supers_build :
      (find : ℕ → Graph → Option Graph) (class : ℕ) (a : Above supers_of top class)
      (supers : List ℕ) (g : Graph)
      → supers ≡ supers_of class
      → Finds find supers
      → Valid g
      → In class g.chain
      → (g' : Graph) × (add_supers find class supers g ≡ some g') × Builds g g' × Done class g'
  unfolding add_supers
  supers_build find class a [] g q fs v i = (
    g,
    refl,
    Builds-same g v,
    subst
        (λ (cs : List ℕ).
          ((c : ℕ) → In c cs → In c g.chain × In c (g.after class))
          × ((u c : ℕ) → Next u c cs → In c (g.after u)))
        q (λ c m. absurd (omega (arith, m)), λ u c m. absurd m),
  )
  supers_build find class a (s ∷ ss) g q fs v i =
      let (g1, e1, b1, k1) = fs s g (count_self s ss) v in
      let g2 : Graph = link_first class s g1 in
      let i1 : In class g1.chain = omega (arith, i, b1.grows.chain class) in
      let l : Links class class s g1 g2 = link_first-Links class s g1 b1.valid i1 k1 in
      let sub : (c : ℕ) → In c (s ∷ ss) → In c (supers_of class) =
        λ c m. subst (λ (cs : List ℕ). In c cs) q m in
      let b2 : Builds g1 g2 =
        Links-Builds class class s g1 g2 l a (sub s (count_self s ss)) (λ u p. inl p) in
      let (g3, e3, b3, f3, n3) =
        loop_builds find class a ss s g2 (λ c h m. fs c h (ground (arith, m))) b2.valid
          (omega (arith, i1, b2.grows.chain class)) (omega (arith, k1, b2.grows.chain s))
          (λ c m. sub c (ground (arith, m))) (λ u w m. subst (λ (cs : List ℕ). Next u w cs) q m) in
      (
        g3,
        add_supers_step find class s ss g g1 e1 ∙ e3,
        Builds-trans g g1 g3 b1 (Builds-trans g1 g2 g3 b2 b3),
        subst
            (λ (cs : List ℕ).
              ((c : ℕ) → In c cs → In c g3.chain × In c (g3.after class))
              × ((u c : ℕ) → Next u c cs → In c (g3.after u)))
            q
            (
              λ c m. elim (Bool-cases (c == s)) [
                | inl p ↦
                    subst (λ (y : ℕ). In y g3.chain × In y (g3.after class))
                      (sym ((==_iff c s).0 p))
                      (
                        omega (arith, k1, b2.grows.chain s, b3.grows.chain s),
                        omega (
                          arith,
                          l.from_class,
                          b3.grows.after class s (omega (arith, i1, b2.grows.chain class)),
                        ),
                      )
                | inr p ↦ f3 c (rw p at m)
              ],
              n3,
            ),
      )

  -- The whole graph of `top` holds the classes above `top`, and no others.
  pub chain-Above :
      (g : Graph) → Builds empty g → In top g.chain → (c : ℕ) → Above supers_of top c → In c g.chain
  chain-Above g b i c itself = i
  chain-Above g b i c (super {c = d} a j) = elim (b.done d (chain-Above g b i d a)) [
    | inl k ↦ absurd (omega (arith, k))
    | inr (d', a') ↦ (d'.0 c j).0
  ]

  module _ (rank : ℕ → ℕ) (falls : (c d : ℕ) → In d (supers_of c) → rank d < rank c) where
    find_cpd-Builds :
        (fuel class : ℕ) (g : Graph)
        → rank class < fuel
        → Above supers_of top class
        → Valid g
        → (g' : Graph) × (find_cpd (compute_cpd fuel supers_of) class g ≡ some g')
          × Builds g g'
          × In class g'.chain
    unfolding find_cpd compute_cpd
    find_cpd-Builds zero class g r a v = absurd (omega (arith, r))
    find_cpd-Builds (suc fuel) class g r a v = elim (Bool-cases (memq class g.chain)) [
      | inl m ↦ (g, rw (m, find_cpd) refl, Builds-same g v, (memq-count class g.chain).0 m)
      | inr m ↦
          let new : count class g.chain ≡ 0 = ground (arith, memq-count class g.chain) in
          let v0 : Valid (new_cpd class g) = new_cpd-Valid class g v new in
          let w0 : Grows g (new_cpd class g) = new_cpd-Grows class g v new in
          let i0 : In class (new_cpd class g).chain = unfold new_cpd in count_self class g.chain in
          let (g1, e1, b1, d1) =
            supers_build (find_cpd (compute_cpd fuel supers_of)) class a (supers_of class)
              (new_cpd class g) refl
              (λ c h j u.
                find_cpd-Builds fuel c h (omega (arith, falls class c j, r)) (super a j) u)
              v0 i0 in
          (
            g1,
            rw (m, find_cpd) e1,
            record {
              valid = b1.valid;
              grows = Grows-trans g (new_cpd class g) g1 w0 b1.grows;
              done = λ x j. elim (b1.done x j) [
                | inr d ↦ inr d
                | inl k ↦ elim (new_cpd-chain class x g k) [
                  | inl p ↦
                      inr (subst (λ (y : ℕ). Done y g1 × Above supers_of top y) (sym p) (d1, a))
                  | inr p ↦ inl p
                ]
              ];
              edges = λ u x j. elim (b1.edges u x j) [
                | inr m' ↦ inr m'
                | inl k ↦ inl (new_cpd-after class u x g k)
              ];
            },
            omega (arith, i0, b1.grows.chain class),
          )
    ]

    -- The whole graph of `top`.
    pub compute_cpd-Builds :
        (fuel : ℕ)
        → rank top < fuel
        → (g : Graph) × (compute_cpd fuel supers_of top empty ≡ some g)
          × Builds empty g
          × In top g.chain
    unfolding find_cpd memq
    compute_cpd-Builds fuel r = find_cpd-Builds fuel top empty r itself empty-Valid
