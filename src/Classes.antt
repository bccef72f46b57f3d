-- ===== src/Classes.antt =====
-- Classes, mindy/interp/class.c: the computation of class precedence lists, and the entering of a
-- class under its superclasses. A class is a number, its address, and a `struct cpd` is the number
-- of its class.
pub mod Sums
pub mod Order
pub mod Graphs
pub mod Building
pub mod Choosing
pub mod Sorting
pub mod Rounds
pub mod Precedence
pub mod Setup
pub mod Hierarchies
pub mod Invariant
pub mod Entering
pub mod Checks
pub mod Endings
pub mod Subclassing
use gwydion_2_4_cleanup.Prelude.{
  ℕ, zero, suc, ◌+◌, ◌-◌, List, [], ◌∷◌, Option, none, some, Bool, true, false, not, ◌&&◌, ◌||◌,
  ◌==◌, if◌then◌else◌, update, reversed,
}
use mathlib.Core.Option
use gwydion_2_4_cleanup.Types.World.{memq}

-- What `cpds`, `class_count` and the structures `cpd` hold: the classes that were found, the last
-- first, and for each its lists `after` and its `count`. (`supers` is filled but not read.)
pub record Graph : Type 0 where
  pub chain : List ℕ
  pub class_count : ℕ
  pub after : ℕ → List ℕ
  pub count : ℕ → ℕ

abbrev pub empty : Graph
empty = record { chain = []; class_count = 0; after = λ c. []; count = λ c. 0 }

-- The beginning of `compute_cpd`.
unfoldable pub new_cpd : ℕ → Graph → Graph
new_cpd class g = record {
  chain = class ∷ g.chain;
  class_count = g.class_count + 1;
  after = update g.after class [];
  count = update g.count class 0;
}

-- `push_cpd(super, &cpd->after)`.
unfoldable pub push_after : ℕ → ℕ → Graph → Graph
push_after cpd super g = record g { after = update g.after cpd (super ∷ g.after cpd) }

unfoldable pub add_count : ℕ → ℕ → Graph → Graph
add_count n super g = record g { count = update g.count super (g.count super + n) }

-- The loop of `compute_cpd` over the superclasses behind `prev`, where `find` is `find_cpd`; none
-- where there is not enough fuel.
unfoldable pub super_loop : (ℕ → Graph → Option Graph) → ℕ → ℕ → List ℕ → Graph → Option Graph
super_loop find class prev [] g = some g
super_loop find class prev (super ∷ supers) g = elim (find super g) [
  | none ↦ none
  | some g1 ↦
      super_loop find class super supers
        (add_count 2 super (push_after prev super (push_after class super g1)))
]

unfoldable pub add_supers : (ℕ → Graph → Option Graph) → ℕ → List ℕ → Graph → Option Graph
add_supers find class [] g = some g
add_supers find class (super ∷ supers) g = elim (find super g) [
  | none ↦ none
  | some g1 ↦ super_loop find class super supers (add_count 1 super (push_after class super g1))
]

-- `find_cpd`, where `compute` is `compute_cpd`.
unfoldable pub find_cpd : (ℕ → Graph → Option Graph) → ℕ → Graph → Option Graph
find_cpd compute class g = elim (memq class g.chain) [ true ↦ some g | false ↦ compute class g ]

-- `compute_cpd`, with fuel for the depth of the hierarchy; `supers_of` gives the direct superclasses
-- of a class.
unfoldable pub compute_cpd : ℕ → (ℕ → List ℕ) → ℕ → Graph → Option Graph
compute_cpd zero supers_of class g = none
compute_cpd (suc fuel) supers_of class g =
    add_supers (find_cpd (compute_cpd fuel supers_of)) class (supers_of class) (new_cpd class g)

-- The inner loop of `tie_breaker`, and the removal of what it finds.
unfoldable pub pop_direct : List ℕ → List ℕ → Option (ℕ × List ℕ)
pop_direct supers [] = none
pop_direct supers (c ∷ candidates) =
    let rest = pop_direct supers candidates in
    if memq c supers then some (c, candidates) else Option.map (λ x. (x.0, c ∷ x.1)) rest

unfoldable pub tie_breaker : (ℕ → List ℕ) → List ℕ → List ℕ → Option (ℕ × List ℕ)
tie_breaker supers_of candidates [] = none
tie_breaker supers_of candidates (c ∷ remaining) =
    let rest = tie_breaker supers_of candidates remaining in
    elim (pop_direct (supers_of c) candidates) [ none ↦ rest | some x ↦ some x ]

-- The loop of `slow_compute_cpl` over `after`: the counts and the candidates after it.
unfoldable pub release : List ℕ → (ℕ → ℕ) → List ℕ → (ℕ → ℕ) × List ℕ
release [] counts candidates = (counts, candidates)
release (c ∷ after) counts candidates =
    release after (update counts c (counts c - 1))
      (if counts c == 1 then c ∷ candidates else candidates)

-- How a computation ends: with a result, by `error`, by `lose`, or without enough fuel.
pub data Outcome {ℓ} (A : Type ℓ) : Type ℓ where
  ok : A → Outcome A
  dylan_error lost no_fuel : Outcome A

-- The choice of a candidate: of several by `tie_breaker`.
unfoldable pub choose : (ℕ → List ℕ) → List ℕ → List ℕ → Outcome (ℕ × List ℕ)
choose supers_of [] rcpl = dylan_error
choose supers_of (c ∷ []) rcpl = ok (c, [])
choose supers_of (c ∷ d ∷ candidates) rcpl =
    elim (tie_breaker supers_of (c ∷ d ∷ candidates) rcpl) [ none ↦ lost | some x ↦ ok x ]

-- The loop of `slow_compute_cpl`, with so many rounds to go; its result is the list in reverse.
unfoldable pub cpl_loop :
    (ℕ → List ℕ) → (ℕ → List ℕ) → ℕ → (ℕ → ℕ) → List ℕ → List ℕ → Outcome (List ℕ)
cpl_loop supers_of after zero counts candidates rcpl = ok rcpl
cpl_loop supers_of after (suc rounds) counts candidates rcpl =
    elim (choose supers_of candidates rcpl) [
      | ok x ↦
          cpl_loop supers_of after rounds (release (after x.0) counts x.1).0
            (release (after x.0) counts x.1).1 (x.0 ∷ rcpl)
      | dylan_error ↦ dylan_error
      | lost ↦ lost
      | no_fuel ↦ no_fuel
    ]

-- `nreverse`.
unfoldable pub in_order : Outcome (List ℕ) → Outcome (List ℕ)
in_order (ok rcpl) = ok (reversed rcpl)
in_order dylan_error = dylan_error
in_order lost = lost
in_order no_fuel = no_fuel

unfoldable pub cpl_of_graph : (ℕ → List ℕ) → ℕ → Option Graph → Outcome (List ℕ)
cpl_of_graph supers_of class none = no_fuel
cpl_of_graph supers_of class (some g) =
    in_order (cpl_loop supers_of g.after g.class_count g.count (class ∷ []) [])

unfoldable pub slow_compute_cpl : ℕ → (ℕ → List ℕ) → ℕ → Outcome (List ℕ)
slow_compute_cpl fuel supers_of class =
    cpl_of_graph supers_of class (compute_cpd fuel supers_of class empty)
