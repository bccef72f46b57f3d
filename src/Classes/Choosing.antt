-- ===== src/Classes/Choosing.antt =====
-- `tie_breaker` of mindy/interp/class.c, and the release of a class that has been chosen.
use gwydion_2_4_cleanup.Prelude.{
  ℕ, ◌+◌, ◌-◌, ◌≤◌, ◌≡◌, refl, sym, ap, subst, ◌∙◌, inl, inr, List, [], ◌∷◌, true, false, ◌==◌,
  ◌&&◌, ltb, ==_iff, if◌then◌else◌, update, Bool-cases, Option-cases, Option, none, some, arith,
}
use gwydion_2_4_cleanup.Prelude.Counting.{count}
use gwydion_2_4_cleanup.Types.World.{memq}
use gwydion_2_4_cleanup.Classes.Sums.{memq-count}
use gwydion_2_4_cleanup.Classes.Order.{In}
use gwydion_2_4_cleanup.Classes.{pop_direct, tie_breaker, release}

-- `x` is one of the candidates, with the others.
abbrev pub Picks : List ℕ → ℕ × List ℕ → Type 0
Picks candidates x = (v : ℕ) → count v candidates ≡ count v (x.0 ∷ x.1)

Finds : List ℕ → Option (ℕ × List ℕ) → Type 0
Finds candidates o = (x : ℕ × List ℕ) × (o ≡ some x) × Picks candidates x

Picks-some :
    (candidates : List ℕ) (x y : ℕ × List ℕ)
    → some y ≡ some x
    → Picks candidates y
    → Picks candidates x
Picks-some candidates x y e p = let q : y ≡ x = cc e in subst (λ z. Picks candidates z) q p

Picks-behind :
    (c : ℕ) (candidates : List ℕ) (x : ℕ × List ℕ)
    → Picks candidates x
    → Picks (c ∷ candidates) (x.0, c ∷ x.1)
Picks-behind c candidates x p v = ground (arith, p v)

pop_direct_cons :
    (supers cs : List ℕ) (c : ℕ) (x : ℕ × List ℕ)
    → memq c supers ≡ false
    → pop_direct supers cs ≡ some x
    → pop_direct supers (c ∷ cs) ≡ some (x.0, c ∷ x.1)
unfolding pop_direct
pop_direct_cons supers cs c x m e = rw (m, e) refl

pop_direct-none :
    (supers cs : List ℕ) (c : ℕ)
    → memq c supers ≡ false
    → pop_direct supers cs ≡ none
    → pop_direct supers (c ∷ cs) ≡ none
unfolding pop_direct
pop_direct-none supers cs c m e = rw (m, e) refl

pop_direct_here :
    (supers cs : List ℕ) (c : ℕ) → memq c supers ≡ true → pop_direct supers (c ∷ cs) ≡ some (c, cs)
unfolding pop_direct
pop_direct_here supers cs c m = rw m refl

pop_direct-Picks :
    (supers candidates : List ℕ) (x : ℕ × List ℕ)
    → pop_direct supers candidates ≡ some x
    → Picks candidates x
unfolding pop_direct
pop_direct-Picks supers [] x e = cc e
pop_direct-Picks supers (c ∷ cs) x e = elim (Bool-cases (memq c supers)) [
  | inl m ↦ Picks-some (c ∷ cs) x (c, cs) (sym (pop_direct_here supers cs c m) ∙ e) (λ v. refl)
  | inr m ↦ elim (Option-cases (pop_direct supers cs)) [
    | inl n ↦ let f = sym (pop_direct-none supers cs c m n) ∙ e in cc f
    | inr (y, n) ↦
        Picks-some (c ∷ cs) x (y.0, c ∷ y.1) (sym (pop_direct_cons supers cs c y m n) ∙ e)
          (Picks-behind c cs y (pop_direct-Picks supers cs y n))
  ]
]

pop_direct-some :
    (supers candidates : List ℕ) (c : ℕ)
    → In c supers
    → In c candidates
    → (x : ℕ × List ℕ) × (pop_direct supers candidates ≡ some x)
pop_direct-some supers [] c i j = absurd (omega (arith, j))
pop_direct-some supers (d ∷ cs) c i j = elim (Bool-cases (memq d supers)) [
  | inl m ↦ ((d, cs), pop_direct_here supers cs d m)
  | inr m ↦ elim (Bool-cases (c == d)) [
    | inl e ↦ absurd (
        ground
          (arith, (memq-count d supers).1 (subst (λ (y : ℕ). In y supers) ((==_iff c d).0 e) i)))
    | inr e ↦
        let (x, n) = pop_direct-some supers cs c i (rw e at j) in
        ((x.0, d ∷ x.1), pop_direct_cons supers cs d x m n)
  ]
]

tie_breaker_here :
    (supers_of : ℕ → List ℕ) (candidates remaining : List ℕ) (c : ℕ) (x : ℕ × List ℕ)
    → pop_direct (supers_of c) candidates ≡ some x
    → tie_breaker supers_of candidates (c ∷ remaining) ≡ some x
unfolding tie_breaker
tie_breaker_here supers_of candidates remaining c x e = rw (e, tie_breaker) refl

tie_breaker_later :
    (supers_of : ℕ → List ℕ) (candidates remaining : List ℕ) (c : ℕ)
    → pop_direct (supers_of c) candidates ≡ none
    → tie_breaker supers_of candidates (c ∷ remaining) ≡ tie_breaker supers_of candidates remaining
unfolding tie_breaker
tie_breaker_later supers_of candidates remaining c e = rw (e, tie_breaker) refl

-- A tie is broken where some candidate is a direct superclass of a class of the list.
pub tie_breaker_lem :
    (supers_of : ℕ → List ℕ) (candidates rcpl : List ℕ) (p c : ℕ)
    → In p rcpl
    → In c (supers_of p)
    → In c candidates
    → (x : ℕ × List ℕ) × (tie_breaker supers_of candidates rcpl ≡ some x) × Picks candidates x
tie_breaker_lem supers_of candidates [] p c i j k = absurd (omega (arith, i))
tie_breaker_lem supers_of candidates (d ∷ ds) p c i j k =
    elim (Option-cases (pop_direct (supers_of d) candidates)) [
      | inr (x, n) ↦ (
        x,
        tie_breaker_here supers_of candidates ds d x n,
        pop_direct-Picks (supers_of d) candidates x n,
      )
      | inl n ↦ elim (Bool-cases (p == d)) [
        | inl e ↦
            let (x, m) =
              pop_direct-some (supers_of d) candidates c
                (subst (λ (y : ℕ). In c (supers_of y)) ((==_iff p d).0 e) j) k in
            absurd (cc (n, m))
        | inr e ↦
            let (x, m, picks) = tie_breaker_lem supers_of candidates ds p c (rw e at i) j k in
            (x, tie_breaker_later supers_of candidates ds d n ∙ m, picks)
      ]
    ]

pub release_counts :
    (after : List ℕ) (counts : ℕ → ℕ) (candidates : List ℕ) (v : ℕ)
    → (release after counts candidates).0 v ≡ counts v - count v after
unfolding release
release_counts [] counts candidates v = omega arith
release_counts (c ∷ after) counts candidates v =
    let rest : (release (c ∷ after) counts candidates).0 v
        ≡ (if c == v then counts c - 1 else counts v) - count v after =
      release_counts after (update counts c (counts c - 1))
        (if counts c == 1 then c ∷ candidates else candidates) v in
    elim (Bool-cases (c == v)) [
      | inl e ↦
          let same : counts c ≡ counts v = ap counts ((==_iff c v).0 e) in
          ground (arith, rest, same)
      | inr e ↦ ground (arith, rest)
    ]

-- A class becomes a candidate when its last edge goes.
pub release_candidates :
    (after : List ℕ) (counts : ℕ → ℕ) (candidates : List ℕ) (v : ℕ)
    → count v after ≤ counts v
    → count v (release after counts candidates).1
      ≡ count v candidates + (if ltb 0 (count v after) && (counts v == count v after) then 1 else 0)
unfolding release
release_candidates [] counts candidates v h = ground arith
release_candidates (c ∷ after) counts candidates v h =
    let rest : count v after ≤ (if c == v then counts c - 1 else counts v)
        → count v (release (c ∷ after) counts candidates).1
          ≡ count v (if counts c == 1 then c ∷ candidates else candidates)
            + (if ltb 0 (count v after)
                  && ((if c == v then counts c - 1 else counts v) == count v after)
                then 1
                else 0) =
      release_candidates after (update counts c (counts c - 1))
        (if counts c == 1 then c ∷ candidates else candidates) v in
    elim (Bool-cases (c == v)) [
      | inl e ↦
          let same : counts c ≡ counts v = ap counts ((==_iff c v).0 e) in
          ground (arith, rest, same)
      | inr e ↦ ground (arith, rest)
    ]
