-- ===== src/Classes/Sorting.antt =====
-- The loop of `slow_compute_cpl` of mindy/interp/class.c: what holds between its rounds.
use gwydion_2_4_cleanup.Prelude.{
  ℕ, suc, ◌+◌, ◌≤◌, ◌<◌, ◌≡◌, refl, sym, subst, ◌⊎◌, inl, inr, List, [], ◌∷◌, ◌==◌, ltb, ==_iff,
  length, Bool-cases, arith,
}
use gwydion_2_4_cleanup.Prelude.Counting.{count}
use gwydion_2_4_cleanup.Classes.Sums.{total, Within, Within-total}
use gwydion_2_4_cleanup.Classes.Order.{In, Above, itself, super, Must, direct, local}
use gwydion_2_4_cleanup.Classes.Building.{Builds, chain-Above}
use gwydion_2_4_cleanup.Classes.Choosing.{Picks, release_counts, release_candidates}
use gwydion_2_4_cleanup.Classes.{Graph, empty, release}

-- No class of the list, the last first, has an edge to itself or to one before it.
abbrev pub Kept : (ℕ → List ℕ) → List ℕ → Type 0
Kept after [] = Unit
Kept after (c ∷ rcpl) = ((d : ℕ) → In d (c ∷ rcpl) → count d (after c) ≡ 0) × Kept after rcpl

module _ (supers_of : ℕ → List ℕ) (top : ℕ) (g : Graph) (b : Builds supers_of top empty g) where
  pub Above-parent :
      (c : ℕ)
      → Above supers_of top c
      → (c ≡ top) ⊎ ((p : ℕ) × Above supers_of top p × In c (supers_of p))
  Above-parent c itself = inl refl
  Above-parent c (super {c = p} a j) = inr (p, a, j)

  pub in_chain-Above : (c : ℕ) → In c g.chain → Above supers_of top c
  in_chain-Above c i = elim (b.done c i) [ inl k ↦ absurd (omega (arith, k)) | inr (d, a) ↦ a ]

  pub edge-Must : (u v : ℕ) → In v (g.after u) → Must supers_of top u v
  edge-Must u v i = elim (b.edges u v i) [ inl k ↦ absurd (omega (arith, k)) | inr m ↦ m ]

  module _ (i : In top g.chain) where
    pub Must-edge : (u v : ℕ) → Must supers_of top u v → In v (g.after u)
    Must-edge u v (direct a j) = elim (b.done u (chain-Above supers_of top g b i u a)) [
      | inl k ↦ absurd (omega (arith, k))
      | inr (d, a') ↦ (d.0 v j).1
    ]
    Must-edge u v (local c a n) = elim (b.done c (chain-Above supers_of top g b i c a)) [
      | inl k ↦ absurd (omega (arith, k))
      | inr (d, a') ↦ d.1 u v n
    ]

    -- Each class but the first has an edge from a class.
    pub parent :
        (c : ℕ)
        → In c g.chain
        → (c ≡ top) ⊎ ((p : ℕ) × In p g.chain × In c (supers_of p) × In c (g.after p))
    parent c j = elim (Above-parent c (in_chain-Above c j)) [
      | inl e ↦ inl e
      | inr (p, a, k) ↦ inr (p, chain-Above supers_of top g b i p a, k, Must-edge p c (direct a k))
    ]

  -- Between two rounds: the counts are the numbers of edges from the classes that are not in the
  -- list yet, and the classes with none are in the list or are candidates.
  pub record Sorting (rounds : ℕ) (counts : ℕ → ℕ) (candidates rcpl : List ℕ) : Type 0 where
    pub sums : (v : ℕ) → counts v + total rcpl g.after v ≡ total g.chain g.after v
    pub placed : (v : ℕ) → counts v ≡ 0 → count v rcpl + count v candidates ≡ count v g.chain
    pub waiting : (v : ℕ) → 0 < counts v → count v rcpl + count v candidates ≡ 0
    pub size : length rcpl + rounds ≡ length g.chain
    pub kept : Kept g.after rcpl

  module _ (rounds : ℕ) (counts : ℕ → ℕ) (candidates rcpl : List ℕ)
      (s : Sorting rounds counts candidates rcpl) where
    pub bound : (v : ℕ) → count v rcpl + count v candidates ≤ count v g.chain
    bound v = ground (arith, s.placed v, s.waiting v)

    pub Sorting-Within : Within rcpl g.chain
    Sorting-Within v = omega (arith, bound v)

    -- All edges to a candidate are from the list.
    pub candidate_count : (c : ℕ) → In c candidates → counts c ≡ 0
    candidate_count c i = ground (arith, s.waiting c, i)

    pub candidate_parent : (p c : ℕ) → In p g.chain → In c candidates → In c (g.after p) → In p rcpl
    candidate_parent p c i j k = elim (Bool-cases (ltb 0 (count p rcpl))) [
      | inl e ↦ ground (arith, e)
      | inr e ↦
          let w : Within (p ∷ rcpl) g.chain = λ v. elim (Bool-cases (v == p)) [
            | inl q ↦
                subst (λ (y : ℕ). count y (p ∷ rcpl) ≤ count y g.chain) (sym ((==_iff v p).0 q))
                  (ground (arith, e, i))
            | inr q ↦ rw q (Sorting-Within v)
          ] in
          absurd (
            omega (
              arith,
              k,
              s.sums c,
              candidate_count c j,
              Within-total (p ∷ rcpl) g.chain g.after c w,
            ))
    ]

    module _ (x : ℕ × List ℕ) (picks : Picks candidates x) where
      picked : Within (x.0 ∷ rcpl) g.chain
      picked v = ground (arith, bound v, picks v)

      edges_left : (v : ℕ) → count v (g.after x.0) ≤ counts v
      edges_left v = omega (arith, s.sums v, Within-total (x.0 ∷ rcpl) g.chain g.after v picked)

      -- One round.
      pub release-Sorting :
          (r : ℕ)
          → rounds ≡ suc r
          → Sorting r
              (release (g.after x.0) counts x.1).0
              (release (g.after x.0) counts x.1).1
              (x.0 ∷ rcpl)
      release-Sorting r q = record {
        sums =
            λ v. omega (arith, s.sums v, edges_left v, release_counts (g.after x.0) counts x.1 v);
        placed = λ v h.
            let once : count v g.chain ≤ 1 = b.valid.once v in
            let target : In v (g.after x.0) → In v g.chain = b.valid.targets x.0 v in
            let new = release_candidates (g.after x.0) counts x.1 v (edges_left v) in
            let left = release_counts (g.after x.0) counts x.1 v in
            ground
              (arith, new, left, h, once, target, s.placed v, s.waiting v, picks v, edges_left v);
        waiting = λ v h.
            let new = release_candidates (g.after x.0) counts x.1 v (edges_left v) in
            let left = release_counts (g.after x.0) counts x.1 v in
            ground (arith, new, left, h, s.waiting v, picks v, edges_left v);
        size = omega (arith, s.size, q);
        kept = (
          λ d j.
              let zero_left : counts d ≡ 0 = ground (arith, s.waiting d, picks d, j) in
              omega (arith, edges_left d, zero_left),
          s.kept,
        );
      }
