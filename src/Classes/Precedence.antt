-- ===== src/Classes/Precedence.antt =====
-- `slow_compute_cpl` of mindy/interp/class.c as a whole.
use gwydion_2_4_cleanup.Prelude.{
  ℕ, zero, suc, ◌<◌, ◌≡◌, refl, sym, subst, ◌⊎◌, inl, inr, List, [], ◌∷◌, reversed, Option, some,
  arith,
}
use gwydion_2_4_cleanup.Classes.Order.{In, IsCpl}
use gwydion_2_4_cleanup.Classes.Building.{Builds, compute_cpd-Builds}
use gwydion_2_4_cleanup.Classes.Sorting.{Sorting, release-Sorting}
use gwydion_2_4_cleanup.Classes.Rounds.{start-Sorting, end-IsCpl, stuck-IsCpl, tie-Picks}
use gwydion_2_4_cleanup.Classes.{
  Graph, empty, release, choose, tie_breaker, cpl_loop, in_order, cpl_of_graph, slow_compute_cpl,
  Outcome, ok, dylan_error,
}

module _ (supers_of : ℕ → List ℕ) where
  choose_tie :
      (c d : ℕ) (candidates rcpl : List ℕ) (x : ℕ × List ℕ)
      → tie_breaker supers_of (c ∷ d ∷ candidates) rcpl ≡ some x
      → choose supers_of (c ∷ d ∷ candidates) rcpl ≡ ok x
  unfolding choose
  choose_tie c d candidates rcpl x e = rw (e, choose) refl

  module _ (after : ℕ → List ℕ) (rounds : ℕ) (counts : ℕ → ℕ) (candidates rcpl : List ℕ) where
    cpl_loop_step :
        (x : ℕ × List ℕ)
        → choose supers_of candidates rcpl ≡ ok x
        → cpl_loop supers_of after (suc rounds) counts candidates rcpl
          ≡ cpl_loop supers_of after rounds
              (release (after x.0) counts x.1).0
              (release (after x.0) counts x.1).1
              (x.0 ∷ rcpl)
    unfolding cpl_loop
    cpl_loop_step x e = rw (e, cpl_loop) refl

    cpl_loop_error :
        choose supers_of candidates rcpl ≡ dylan_error
        → cpl_loop supers_of after (suc rounds) counts candidates rcpl ≡ dylan_error
    unfolding cpl_loop
    cpl_loop_error e = rw (e, cpl_loop) refl

  -- The two ends: with a list as it is meant, or with an error where there is none.
  abbrev pub Ends : ℕ → Outcome (List ℕ) → Type 0
  Ends class outcome =
      ((cpl : List ℕ) × (outcome ≡ ok cpl) × IsCpl supers_of class cpl)
      ⊎ ((outcome ≡ dylan_error) × ((cpl : List ℕ) → ¬ IsCpl supers_of class cpl))

  module _ (top : ℕ) (g : Graph) (b : Builds supers_of top empty g) (i : In top g.chain) where
    cpl_loop-Ends :
        (rounds : ℕ) (counts : ℕ → ℕ) (candidates rcpl : List ℕ)
        → Sorting supers_of top g b rounds counts candidates rcpl
        → Ends top (in_order (cpl_loop supers_of g.after rounds counts candidates rcpl))
    unfolding in_order cpl_loop choose
    cpl_loop-Ends zero counts candidates rcpl s =
        inl (reversed rcpl, refl, end-IsCpl supers_of top g b i counts candidates rcpl s)
    cpl_loop-Ends (suc rounds) counts [] rcpl s =
        inr (refl, stuck-IsCpl supers_of top g b i (suc rounds) counts rcpl (omega arith) s)
    cpl_loop-Ends (suc rounds) counts (c ∷ []) rcpl s =
        cpl_loop-Ends rounds (release (g.after c) counts []).0 (release (g.after c) counts []).1
          (c ∷ rcpl)
          (release-Sorting supers_of top g b (suc rounds) counts (c ∷ []) rcpl s (c, []) (λ v. refl)
            rounds refl)
    cpl_loop-Ends (suc rounds) counts (c ∷ d ∷ candidates) rcpl s =
        let (x, e, picks) =
          tie-Picks supers_of top g b i (suc rounds) counts rcpl c d candidates s in
        subst (λ (o : Outcome (List ℕ)). Ends top (in_order o))
          (sym (
            cpl_loop_step g.after rounds counts (c ∷ d ∷ candidates) rcpl x
              (choose_tie c d candidates rcpl x e)))
          (cpl_loop-Ends rounds (release (g.after x.0) counts x.1).0
            (release (g.after x.0) counts x.1).1 (x.0 ∷ rcpl)
            (release-Sorting supers_of top g b (suc rounds) counts (c ∷ d ∷ candidates) rcpl s x
              picks rounds refl))

  -- Where the direct superclasses of a class have a smaller rank, and the fuel is more than the rank
  -- of the class, `slow_compute_cpl` neither loses nor runs out of fuel: it returns a list of the
  -- class and all classes above it, each once, in which every class stands before its direct
  -- superclasses and these in their order; or it signals its error, and then no list is like that.
  pub slow_compute_cpl_lem :
      (rank : ℕ → ℕ) (fuel class : ℕ)
      → ((c d : ℕ) → In d (supers_of c) → rank d < rank c)
      → rank class < fuel
      → Ends class (slow_compute_cpl fuel supers_of class)
  unfolding slow_compute_cpl cpl_of_graph
  slow_compute_cpl_lem rank fuel class falls r =
      let (g, e, b, i) = compute_cpd-Builds supers_of class rank falls fuel r in
      subst (λ (o : Option Graph). Ends class (cpl_of_graph supers_of class o)) (sym e)
        (cpl_loop-Ends class g b i g.class_count g.count (class ∷ []) []
          (start-Sorting supers_of class g b i rank falls))
