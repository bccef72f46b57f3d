-- ===== src/Classes/Rounds.antt =====
-- The rounds of `slow_compute_cpl` of mindy/interp/class.c, from the first to the end.
use gwydion_2_4_cleanup.Prelude.{
  ℕ, ◌+◌, ◌≤◌, ◌<◌, ◌≡◌, ◌≢◌, refl, sym, ap, subst, ◌⊎◌, inl, inr, List, [], ◌∷◌, ◌++◌, ◌==◌, ltb,
  ==_iff, reversed, Bool-cases, some, arith,
}
use gwydion_2_4_cleanup.Prelude.Counting.{count, count-append}
use gwydion_2_4_cleanup.Classes.Sums.{
  count_self, count-reversed, total, total-none, Within, Within-total, Within-length, Within-left,
  Within-total_all,
}
use gwydion_2_4_cleanup.Classes.Order.{
  In, Next-In, Above, itself, super, Must, direct, local, Respects, IsCpl,
}
use gwydion_2_4_cleanup.Classes.Building.{Builds, chain-Above}
use gwydion_2_4_cleanup.Classes.Choosing.{Picks, tie_breaker_lem}
use gwydion_2_4_cleanup.Classes.Sorting.{
  Kept, in_chain-Above, edge-Must, Must-edge, parent, Sorting, bound, Sorting-Within,
  candidate_parent,
}
use gwydion_2_4_cleanup.Classes.{Graph, empty, tie_breaker}

module _ (supers_of : ℕ → List ℕ) (top : ℕ) where
  Respects-snoc :
      (cs : List ℕ) (c : ℕ)
      → Respects supers_of top cs
      → ¬ Must supers_of top c c
      → ((d : ℕ) → In d cs → ¬ Must supers_of top c d)
      → Respects supers_of top (cs ++ c ∷ [])
  Respects-snoc [] c r n h = (
    λ d i. elim (Bool-cases (d == c)) [
      | inl e ↦ subst (λ (y : ℕ). ¬ Must supers_of top y c) (sym ((==_iff d c).0 e)) n
      | inr e ↦ absurd (omega (arith, rw e at i))
    ],
    tt,
  )
  Respects-snoc (a ∷ cs) c r n h = (
    λ d i. elim (Bool-cases (d == c)) [
      | inl e ↦
          subst (λ (y : ℕ). ¬ Must supers_of top y a) (sym ((==_iff d c).0 e))
            (h a (count_self a cs))
      | inr e ↦ r.0 d (ground (arith, count-append d c cs, i, e))
    ],
    Respects-snoc cs c r.1 n (λ d i. h d (ground (arith, i))),
  )

  module _ (rank : ℕ → ℕ) (falls : (c d : ℕ) → In d (supers_of c) → rank d < rank c) where
    pub Above-rank : (c : ℕ) → Above supers_of top c → rank c ≤ rank top
    Above-rank c itself = omega arith
    Above-rank c (super {c = d} a i) = omega (arith, Above-rank d a, falls d c i)

    pub first_Must : (u : ℕ) → ¬ Must supers_of top u top
    first_Must u (direct a i) = absurd (omega (arith, Above-rank u a, falls u top i))
    first_Must u (local c a n) =
        absurd (omega (arith, Above-rank c a, falls c top (Next-In u top (supers_of c) n).1))

module _ (supers_of : ℕ → List ℕ) (top : ℕ) (g : Graph) (b : Builds supers_of top empty g)
    (i : In top g.chain) where
  Kept-Respects : (rcpl : List ℕ) → Kept g.after rcpl → Respects supers_of top (reversed rcpl)
  Kept-Respects [] k = tt
  Kept-Respects (c ∷ rcpl) (k, ks) =
      let edge = Must-edge supers_of top g b i in
      Respects-snoc supers_of top (reversed rcpl) c (Kept-Respects rcpl ks)
        (λ m. absurd (omega (arith, edge c c m, k c (count_self c rcpl))))
        (λ d j m. absurd (ground (arith, edge c d m, k d, count-reversed d rcpl, j)))

  -- At the beginning `top` is the only candidate.
  pub start-Sorting :
      (rank : ℕ → ℕ)
      → ((c d : ℕ) → In d (supers_of c) → rank d < rank c)
      → Sorting supers_of top g b g.class_count g.count (top ∷ []) []
  start-Sorting rank falls = record {
    sums = λ v. omega (arith, b.valid.counts v);
    placed = λ v h. elim (Bool-cases (v == top)) [
      | inl e ↦
          subst (λ (y : ℕ). count y [] + count y (top ∷ []) ≡ count y g.chain)
            (sym ((==_iff v top).0 e)) (ground (arith, b.valid.once top, i))
      | inr e ↦ elim (Bool-cases (ltb 0 (count v g.chain))) [
        | inr z ↦ ground (arith, z, e)
        | inl z ↦ elim (parent supers_of top g b i v (ground (arith, z))) [
          | inl q ↦ absurd (ground (arith, q, e))
          | inr (p, j, k, l) ↦
              let w : Within (p ∷ []) g.chain = λ u. ground (arith, j) in
              absurd
                (omega (arith, h, b.valid.counts v, l, Within-total (p ∷ []) g.chain g.after v w))
        ]
      ]
    ];
    waiting = λ v h. elim (Bool-cases (v == top)) [
      | inr e ↦ rw e refl
      | inl e ↦
          let none_in : total g.chain g.after top ≡ 0 = total-none g.chain g.after top (λ u j.
            ground (
              arith,
              λ (k : In top (g.after u)).
                  first_Must supers_of top rank falls u (edge-Must supers_of top g b u top k),
            )) in
          let same : total g.chain g.after v ≡ total g.chain g.after top =
            ap (total g.chain g.after) ((==_iff v top).0 e) in
          absurd (omega (arith, h, same, none_in, b.valid.counts v))
    ];
    size = omega (arith, b.valid.size);
    kept = tt;
  }

  -- After the last round the list is as it is meant.
  pub end-IsCpl :
      (counts : ℕ → ℕ) (candidates rcpl : List ℕ)
      → Sorting supers_of top g b 0 counts candidates rcpl
      → IsCpl supers_of top (reversed rcpl)
  end-IsCpl counts candidates rcpl s =
      let all : (v : ℕ) → count v rcpl ≡ count v g.chain =
        Within-length rcpl g.chain (Sorting-Within supers_of top g b 0 counts candidates rcpl s)
          (omega (arith, s.size)) in
      record {
        once = λ v. omega (arith, count-reversed v rcpl, all v, b.valid.once v);
        sound = λ v j.
            in_chain-Above supers_of top g b v (omega (arith, j, count-reversed v rcpl, all v));
        full =
            λ v a. omega (arith, chain-Above supers_of top g b i v a, count-reversed v rcpl, all v);
        respects = Kept-Respects rcpl s.kept;
      }

  module _ (rounds : ℕ) (counts : ℕ → ℕ) (rcpl : List ℕ) where
    -- Without a candidate, a list as it is meant would put all classes into this one.
    all_placed :
        (cpl : List ℕ)
        → Sorting supers_of top g b rounds counts [] rcpl
        → Respects supers_of top cpl
        → ((v : ℕ) → In v cpl → In v g.chain)
        → ((v : ℕ) → In v g.chain → In v cpl ⊎ In v rcpl)
        → (v : ℕ) → In v g.chain
        → In v rcpl
    all_placed [] s r d f v j = elim (f v j) [ inl k ↦ absurd (omega (arith, k)) | inr k ↦ k ]
    all_placed (c ∷ cpl) s r d f v j =
        let here : In c rcpl =
          let sources : (u : ℕ) → count u rcpl < count u g.chain → count c (g.after u) ≡ 0 = λ u l.
            elim (f u (omega (arith, l))) [
              | inr k ↦ absurd (omega (arith, k, l, b.valid.once u))
              | inl k ↦
                  ground
                    (arith, λ (e : In c (g.after u)). r.0 u k (edge-Must supers_of top g b u c e))
            ] in
          omega (
            arith,
            d c (count_self c cpl),
            s.placed c,
            s.sums c,
            Within-total_all rcpl g.chain g.after c
                (Sorting-Within supers_of top g b rounds counts [] rcpl s) sources,
          ) in
        all_placed cpl s r.1 (λ u k. d u (ground (arith, k)))
          (λ u k. elim (f u k) [
            | inr p ↦ inr p
            | inl p ↦ elim (Bool-cases (u == c)) [
              | inl e ↦ inr (subst (λ (y : ℕ). In y rcpl) (sym ((==_iff u c).0 e)) here)
              | inr e ↦ inl (rw e at p)
            ]
          ])
          v j

    pub stuck-IsCpl :
        0 < rounds
        → Sorting supers_of top g b rounds counts [] rcpl
        → (cpl : List ℕ) → ¬ IsCpl supers_of top cpl
    stuck-IsCpl l s cpl m =
        let (c, h) =
          Within-left rcpl g.chain (Sorting-Within supers_of top g b rounds counts [] rcpl s)
            (omega (arith, l, s.size)) in
        let k =
          all_placed cpl s m.respects (λ v j. chain-Above supers_of top g b i v (m.sound v j))
            (λ v j. inl (m.full v (in_chain-Above supers_of top g b v j))) c (omega (arith, h)) in
        absurd (omega (arith, h, k, b.valid.once c))

    -- Of two candidates one has a direct subclass in the list.
    pub tie-Picks :
        (c d : ℕ) (candidates : List ℕ)
        → Sorting supers_of top g b rounds counts (c ∷ d ∷ candidates) rcpl
        → (x : ℕ × List ℕ) × (tie_breaker supers_of (c ∷ d ∷ candidates) rcpl ≡ some x)
          × Picks (c ∷ d ∷ candidates) x
    tie-Picks c d candidates s =
        let all : List ℕ = c ∷ d ∷ candidates in
        let here : (e : ℕ) → In e all → In e g.chain =
          λ e j. omega (arith, j, bound supers_of top g b rounds counts all rcpl s e) in
        let from : (e : ℕ)
            → In e all
            → e ≢ top
            → (x : ℕ × List ℕ) × (tie_breaker supers_of all rcpl ≡ some x) × Picks all x =
          λ e j n. elim (parent supers_of top g b i e (here e j)) [
            | inl q ↦ absurd (n q)
            | inr (p, k, m, l) ↦
                tie_breaker_lem supers_of all rcpl p e
                  (candidate_parent supers_of top g b rounds counts all rcpl s p e k j l) m j
          ] in
        elim (Bool-cases (c == top)) [
          | inr e ↦ from c (count_self c (d ∷ candidates)) (λ q. ground (arith, q, e))
          | inl e ↦ from d (ground arith) (λ q. absurd (
              ground
                (arith, q, e, b.valid.once c, bound supers_of top g b rounds counts all rcpl s c)))
        ]
