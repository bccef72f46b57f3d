-- ===== src/Classes/Sums.antt =====
-- Counting in lists of classes, and in the lists `after` of many classes.
use gwydion_2_4_cleanup.Prelude.{
  ℕ, ◌+◌, ◌≤◌, ◌<◌, ◌≡◌, refl, sym, ap, ◌↔◌, List, [], ◌∷◌, true, ◌==◌, ==_iff, if◌then◌else◌,
  update, length, reversed, Bool-cases, inl, inr, arith,
}
use gwydion_2_4_cleanup.Prelude.Counting.{count, count-append}
use gwydion_2_4_cleanup.Types.World.{memq}

pub memq-count : (c : ℕ) (cs : List ℕ) → (memq c cs ≡ true) ↔ (0 < count c cs)
unfolding memq
memq-count c [] = ground arith
memq-count c (d ∷ cs) = ground (arith, memq-count c cs)

pub count-reversed : (c : ℕ) (cs : List ℕ) → count c (reversed cs) ≡ count c cs
count-reversed c [] = refl
count-reversed c (d ∷ cs) = ground (arith, count-append c d (reversed cs), count-reversed c cs)

pub count_self : (c : ℕ) (cs : List ℕ) → 0 < count c (c ∷ cs)
count_self c cs = ground arith

-- How often `v` is in the lists that `after` has for `us`.
abbrev pub total : List ℕ → (ℕ → List ℕ) → ℕ → ℕ
total [] after v = 0
total (u ∷ us) after v = count v (after u) + total us after v

pub total-update_none :
    (us : List ℕ) (after : ℕ → List ℕ) (u : ℕ) (vs : List ℕ) (v : ℕ)
    → count u us ≡ 0
    → total us (update after u vs) v ≡ total us after v
total-update_none [] after u vs v h = refl
total-update_none (x ∷ us) after u vs v h = elim (Bool-cases (u == x)) [
  | inl e ↦ absurd (ground arith)
  | inr e ↦ rw e (omega (arith, total-update_none us after u vs v (rw e at h)))
]

pub total-update :
    (us : List ℕ) (after : ℕ → List ℕ) (u : ℕ) (vs : List ℕ) (v : ℕ)
    → count u us ≡ 1
    → total us (update after u vs) v + count v (after u) ≡ total us after v + count v vs
total-update [] after u vs v h = absurd (omega arith)
total-update (x ∷ us) after u vs v h = elim (Bool-cases (u == x)) [
  | inl e ↦
      let same : count v (after u) ≡ count v (after x) =
        ap (λ (y : ℕ). count v (after y)) ((==_iff u x).0 e) in
      let others : total us (update after u vs) v ≡ total us after v =
        total-update_none us after u vs v (omega (arith, rw e at h)) in
      rw e (omega (arith, same, others))
  | inr e ↦ rw e (omega (arith, total-update us after u vs v (rw e at h)))
]

-- One occurrence less.
abbrev pub without : ℕ → List ℕ → List ℕ
without c [] = []
without c (d ∷ cs) = if c == d then cs else d ∷ without c cs

pub count-without :
    (v c : ℕ) (cs : List ℕ)
    → 0 < count c cs
    → count v (without c cs) + (if v == c then 1 else 0) ≡ count v cs
count-without v c [] h = absurd (omega arith)
count-without v c (d ∷ cs) h = ground (arith, count-without v c cs)

total-without :
    (c : ℕ) (cs : List ℕ) (after : ℕ → List ℕ) (v : ℕ)
    → 0 < count c cs
    → total (without c cs) after v + count v (after c) ≡ total cs after v
total-without c [] after v h = absurd (omega arith)
total-without c (d ∷ cs) after v h = elim (Bool-cases (c == d)) [
  | inl e ↦
      let same : count v (after c) ≡ count v (after d) =
        ap (λ (y : ℕ). count v (after y)) ((==_iff c d).0 e) in
      rw e (omega (arith, same))
  | inr e ↦ rw e (omega (arith, total-without c cs after v (rw e at h)))
]

length-without : (c : ℕ) (cs : List ℕ) → 0 < count c cs → length (without c cs) + 1 ≡ length cs
length-without c [] h = absurd (omega arith)
length-without c (d ∷ cs) h = ground (arith, length-without c cs)

-- All of `us`, as often as it is there, is in `cs`.
abbrev pub Within : List ℕ → List ℕ → Type 0
Within us cs = (v : ℕ) → count v us ≤ count v cs

Within-first : (u : ℕ) (us cs : List ℕ) → Within (u ∷ us) cs → 0 < count u cs
Within-first u us cs w = omega (arith, w u, count_self u us)

Within-tail : (u : ℕ) (us cs : List ℕ) → Within (u ∷ us) cs → Within us (without u cs)
Within-tail u us cs w v = ground (arith, w v, count-without v u cs (Within-first u us cs w))

pub Within-total :
    (us cs : List ℕ) (after : ℕ → List ℕ) (v : ℕ)
    → Within us cs
    → total us after v ≤ total cs after v
Within-total [] cs after v w = omega arith
Within-total (u ∷ us) cs after v w = omega (
  arith,
  total-without u cs after v (Within-first u us cs w),
  Within-total us (without u cs) after v (Within-tail u us cs w),
)

pub Within-length :
    (us cs : List ℕ) → Within us cs → length us ≡ length cs → (v : ℕ) → count v us ≡ count v cs
Within-length [] [] w h v = refl
Within-length [] (c ∷ cs) w h v = absurd (omega (arith, h))
Within-length (u ∷ us) cs w h v =
    let here = Within-first u us cs w in
    ground (
      arith,
      count-without v u cs here,
      Within-length us (without u cs) (Within-tail u us cs w)
          (omega (arith, h, length-without u cs here)) v,
    )

pub total-none :
    (cs : List ℕ) (after : ℕ → List ℕ) (v : ℕ)
    → ((u : ℕ) → 0 < count u cs → count v (after u) ≡ 0)
    → total cs after v ≡ 0
total-none [] after v h = refl
total-none (c ∷ cs) after v h =
    omega (arith, h c (count_self c cs), total-none cs after v (λ u p. h u (ground arith)))

-- The rest of `cs` has no `v` after it.
pub Within-total_all :
    (us cs : List ℕ) (after : ℕ → List ℕ) (v : ℕ)
    → Within us cs
    → ((u : ℕ) → count u us < count u cs → count v (after u) ≡ 0)
    → total us after v ≡ total cs after v
Within-total_all [] cs after v w h = sym (total-none cs after v h)
Within-total_all (u ∷ us) cs after v w h =
    let here = Within-first u us cs w in
    omega (
      arith,
      total-without u cs after v here,
      Within-total_all us (without u cs) after v (Within-tail u us cs w)
          (λ x l. h x (ground (arith, count-without x u cs here))),
    )

-- Where `us` is shorter, something in `cs` is left.
pub Within-left :
    (us cs : List ℕ) → Within us cs → length us < length cs → (c : ℕ) × (count c us < count c cs)
Within-left [] [] w h = absurd (omega (arith, h))
Within-left [] (c ∷ cs) w h = (c, count_self c cs)
Within-left (u ∷ us) cs w h =
    let here = Within-first u us cs w in
    let (c, l) =
      Within-left us (without u cs) (Within-tail u us cs w)
        (omega (arith, h, length-without u cs here)) in
    (c, ground (arith, l, count-without c u cs here))
