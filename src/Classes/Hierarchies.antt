-- ===== src/Classes/Hierarchies.antt =====
-- Precedence lists of mindy/interp/class.c in a hierarchy that gets a new class.
use gwydion_2_4_cleanup.Prelude.{
  ℕ, ◌<◌, ◌≡◌, refl, sym, subst, ◌⊎◌, inl, inr, List, [], ◌∷◌, ◌==◌, ==_iff, Bool-cases, arith,
}
use gwydion_2_4_cleanup.Prelude.Counting.{count}
use gwydion_2_4_cleanup.Classes.Sums.{count_self}
use gwydion_2_4_cleanup.Classes.Order.{
  In, Next, Above, itself, super, Must, direct, local, Respects, IsCpl,
}
use gwydion_2_4_cleanup.Classes.Rounds.{Above-rank, first_Must}

-- Lists with the same members.
pub Respects-map :
    (f f' : ℕ → List ℕ) (class class' : ℕ) (cpl : List ℕ)
    → ((d c : ℕ) → In d cpl → In c cpl → Must f' class' d c → Must f class d c)
    → Respects f class cpl
    → Respects f' class' cpl
Respects-map f f' class class' [] m r = tt
Respects-map f f' class class' (c ∷ cpl) m r = (
  λ d i n. r.0 d i (m d c i (count_self c cpl) n),
  Respects-map f f' class class' cpl (λ d e i j. m d e (ground (arith, i)) (ground (arith, j))) r.1,
)

-- Two hierarchies that agree on some classes and what is above these.
module _ (f f' : ℕ → List ℕ) (P : ℕ → Type 0) (closed : (c d : ℕ) → P c → In d (f c) → P d)
    (same : (c : ℕ) → P c → f c ≡ f' c) where
  pub Above-same : (c d : ℕ) → P c → Above f c d → P d × Above f' c d
  Above-same c d p itself = (p, itself)
  Above-same c d p (super {c = e} a i) =
      let (q, b) = Above-same c e p a in
      (closed e d q i, super b (subst (λ (cs : List ℕ). In d cs) (same e q) i))

  Must-same : (c u v : ℕ) → P c → Must f c u v → Must f' c u v
  Must-same c u v p (direct a i) =
      let (q, b) = Above-same c u p a in direct b (subst (λ (cs : List ℕ). In v cs) (same u q) i)
  Must-same c u v p (local e a n) =
      let (q, b) = Above-same c e p a in
      local e b (subst (λ (cs : List ℕ). Next u v cs) (same e q) n)

module _ (f f' : ℕ → List ℕ) (P : ℕ → Type 0) (closed : (c d : ℕ) → P c → In d (f c) → P d)
    (same : (c : ℕ) → P c → f c ≡ f' c) where
  closed_back : (c d : ℕ) → P c → In d (f' c) → P d
  closed_back c d p i = closed c d p (subst (λ (cs : List ℕ). In d cs) (sym (same c p)) i)

  same_back : (c : ℕ) → P c → f' c ≡ f c
  same_back c p = sym (same c p)

  pub IsCpl-same : (c : ℕ) (cpl : List ℕ) → P c → IsCpl f c cpl → IsCpl f' c cpl
  IsCpl-same c cpl p s = record {
    once = s.once;
    sound = λ d i. (Above-same f f' P closed same c d p (s.sound d i)).1;
    full = λ d a. s.full d (Above-same f' f P closed_back same_back c d p a).1;
    respects =
        Respects-map f f' c c cpl (λ u v i j m. Must-same f' f P closed_back same_back c u v p m)
          s.respects;
  }

module _ (f : ℕ → List ℕ) where
  pub Above-trans : (c d e : ℕ) → Above f c d → Above f d e → Above f c e
  Above-trans c d e a itself = a
  Above-trans c d e a (super {c = x} b i) = super (Above-trans c d x a b) i

  -- By its first step.
  pub Above-first : (c d : ℕ) → Above f c d → (d ≡ c) ⊎ ((s : ℕ) × In s (f c) × Above f s d)
  Above-first c d itself = inl refl
  Above-first c d (super {c = x} a i) = elim (Above-first c x a) [
    | inl e ↦ inr (d, subst (λ (y : ℕ). In d (f y)) e i, itself)
    | inr (s, j, b) ↦ inr (s, j, super b i)
  ]

  module _ (rank : ℕ → ℕ) (falls : (c d : ℕ) → In d (f c) → rank d < rank c) where
    -- No superclass.
    pub IsCpl-none : (class : ℕ) → f class ≡ [] → IsCpl f class (class ∷ [])
    IsCpl-none class e =
        let only : (d : ℕ) → Above f class d → d ≡ class = λ d a. elim (Above-first class d a) [
          | inl q ↦ q
          | inr (s, i, b) ↦ absurd (omega (arith, subst (λ (cs : List ℕ). In s cs) e i))
        ] in
        record {
          once = λ c. ground arith;
          sound = λ c i. elim (Bool-cases (c == class)) [
            | inl q ↦ subst (λ (y : ℕ). Above f class y) (sym ((==_iff c class).0 q)) itself
            | inr q ↦ absurd (omega (arith, rw q at i))
          ];
          full = λ c a. subst (λ (y : ℕ). In y (class ∷ [])) (sym (only c a)) (count_self class []);
          respects = (λ d i m. first_Must f class rank falls d m, tt);
        }

    -- One direct superclass: its list is continued.
    pub IsCpl-one :
        (class s : ℕ) (cpl : List ℕ)
        → f class ≡ s ∷ []
        → IsCpl f s cpl
        → IsCpl f class (class ∷ cpl)
    IsCpl-one class s cpl e p =
        let up : Above f class s =
          super itself (subst (λ (cs : List ℕ). In s cs) (sym e) (count_self s [])) in
        let lower : rank s < rank class =
          falls class s (subst (λ (cs : List ℕ). In s cs) (sym e) (count_self s [])) in
        let back : (d : ℕ) → Above f class d → (d ≡ class) ⊎ Above f s d = λ d a.
          elim (Above-first class d a) [
            | inl q ↦ inl q
            | inr (t, i, b) ↦ inr (
                subst (λ (y : ℕ). Above f y d)
                  (ground (arith, subst (λ (cs : List ℕ). In t cs) e i)) b)
          ] in
        let fresh : count class cpl ≡ 0 =
          ground (
            arith,
            λ (i : In class cpl). Above-rank f s rank falls class (p.sound class i),
            lower,
          ) in
        record {
          once = λ c. ground (arith, p.once c, fresh);
          sound = λ c i. elim (Bool-cases (c == class)) [
            | inl q ↦ subst (λ (y : ℕ). Above f class y) (sym ((==_iff c class).0 q)) itself
            | inr q ↦ Above-trans class s c up (p.sound c (rw q at i))
          ];
          full = λ c a. elim (back c a) [
            | inl q ↦ subst (λ (y : ℕ). In y (class ∷ cpl)) (sym q) (count_self class cpl)
            | inr b ↦ ground (arith, p.full c b)
          ];
          respects = (
            λ d i m. first_Must f class rank falls d m,
            Respects-map f f s class cpl
                (λ u v i j m. elim m [
                  | direct a k ↦ elim (back u a) [
                    | inl q ↦ absurd (omega (arith, fresh, subst (λ (y : ℕ). In y cpl) q i))
                    | inr b ↦ direct b k
                  ]
                  | local c a n ↦ elim (back c a) [
                    | inl q ↦ absurd (
                        subst (λ (cs : List ℕ). Next u v cs) e
                          (subst (λ (y : ℕ). Next u v (f y)) q n))
                    | inr b ↦ local c b n
                  ]
                ])
                p.respects,
          );
        }

  Above-last : (c d : ℕ) → Above f c d → (d ≡ c) ⊎ ((s : ℕ) × Above f c s × In d (f s))
  Above-last c d itself = inl refl
  Above-last c d (super {c = s} a i) = inr (s, a, i)

  -- A list begins with its class.
  pub IsCpl-first : (class c : ℕ) (cpl : List ℕ) → IsCpl f class (c ∷ cpl) → c ≡ class
  IsCpl-first class c cpl p = elim (Above-last class c (p.sound c (count_self c cpl))) [
    | inl e ↦ e
    | inr (s, a, i) ↦ absurd (p.respects.0 s (p.full s a) (direct a i))
  ]
