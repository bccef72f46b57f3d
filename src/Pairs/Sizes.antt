-- ===== src/Pairs/Sizes.antt =====
-- `dylan_list_size` of mindy/interp/list.c on lists, on what ends otherwise, and on circles.
use gwydion_2_4_cleanup.Prelude.{
  ℕ, zero, suc, ◌+◌, ◌-◌, ◌*◌, ◌≤◌, ◌<◌, ◌≡◌, ◌≢◌, refl, sym, ap, subst, ◌∙◌, ◌⊎◌, inl, inr, Bool,
  true, false, ◌==◌, ==_iff, if◌then◌else◌, Bool-cases, ltb, ltb→lt, arith,
}
use gwydion_2_4_cleanup.Pairs.{Memory, Size, size, circular, type_error, size_loop, dylan_list_size}

-- The tail of the tail, so many times.
abbrev pub tails : Memory → ℕ → ℕ → ℕ
tails m list zero = list
tails m list (suc k) = m.tail (tails m list k)

many_turns : (q period : ℕ) → 0 < period → q ≤ q * period
many_turns zero period p = omega arith
many_turns (suc q) period p = omega (arith, many_turns q period p, p)

module _ (obj_Nil : ℕ) (is_pair : ℕ → Bool) (m : Memory) (list : ℕ) where
  abbrev pub IsPair : ℕ → Type 0
  IsPair i = ((tails m list i == obj_Nil) ≡ false) × (is_pair (tails m list i) ≡ true)

  abbrev pub Stops : ℕ → Type 0
  Stops n = ((tails m list n == obj_Nil) ≡ true) ⊎ (is_pair (tails m list n) ≡ false)

  -- What there may be at `list`: pairs and then something else, or a circle of `period` pairs
  -- behind `start` others.
  pub data Shape : Type 0 where
    ends : (n : ℕ) → ((i : ℕ) → i < n → IsPair i) → Stops n → Shape
    circles :
        (start period : ℕ)
        → ((i : ℕ) → IsPair i)
        → 0 < period
        → tails m list (start + period) ≡ tails m list start
        → Shape

  abbrev pub end_at : ℕ → Size
  end_at n = if tails m list n == obj_Nil then size n else type_error (tails m list n)

  abbrev pub size_of : Shape → Size
  size_of (ends n p s) = end_at n
  size_of (circles start period p q e) = circular

  -- The rounds of the loop that are enough.
  abbrev pub rounds_of : Shape → ℕ
  rounds_of (ends n p s) = n
  rounds_of (circles start period p q e) = (start + 1) * period

  tails-plus : (a d : ℕ) → tails m list (d + a) ≡ tails m (tails m list a) d
  tails-plus a zero = ap (tails m list) (omega arith)
  tails-plus a (suc d) =
      let step : suc d + a ≡ suc (d + a) = omega arith in
      ap (tails m list) step ∙ ap m.tail (tails-plus a d)

  tails-shift :
      (a b d : ℕ) → tails m list a ≡ tails m list b → tails m list (d + a) ≡ tails m list (d + b)
  tails-shift a b d e = tails-plus a d ∙ ap (λ (c : ℕ). tails m c d) e ∙ sym (tails-plus b d)

  -- A pair is at no place at which the list stops.
  pair_no_stop : (i n : ℕ) → IsPair i → Stops n → tails m list i ≢ tails m list n
  pair_no_stop i n (p, q) (inl s) e =
      let s' : (tails m list i == obj_Nil) ≡ true =
        subst (λ (c : ℕ). (c == obj_Nil) ≡ true) (sym e) s in
      absurd (cc (s', p))
  pair_no_stop i n (p, q) (inr s) e =
      let s' : is_pair (tails m list i) ≡ false = subst (λ (c : ℕ). is_pair c ≡ false) (sym e) s in
      absurd (cc (s', q))

  -- Before an end the two never meet.
  apart :
      (n k j : ℕ)
      → ((i : ℕ) → i < n → IsPair i)
      → Stops n
      → j < n
      → k < j
      → (tails m list k == tails m list j) ≡ false
  apart n k j p s l h = elim (Bool-cases (tails m list k == tails m list j)) [
    | inr e ↦ e
    | inl e ↦
        let d : ℕ = n - j in
        let at_end : d + j ≡ n = omega (arith, l) in
        let q : tails m list (d + k) ≡ tails m list n =
          tails-shift k j d ((==_iff (tails m list k) (tails m list j)).0 e)
          ∙ ap (tails m list) at_end in
        absurd (pair_no_stop (d + k) n (p (d + k) (omega (arith, at_end, h))) s q)
  ]

  -- One round, by what it finds.
  module _ (fuel k j : ℕ) where
    abbrev round : Size
    round = size_loop obj_Nil is_pair m (suc fuel) (tails m list k) (tails m list j) j

    round-first : Stops (suc j) → round ≡ end_at (suc j)
    unfolding size_loop
    round-first s = elim (Bool-cases (tails m list (suc j) == obj_Nil)) [
      | inl b ↦
          let len : j + 1 ≡ suc j = omega arith in rw (b, size_loop) (ap (λ (n : ℕ). size n) len)
      | inr b ↦ elim s [ inl c ↦ absurd (cc (b, c)) | inr c ↦ rw (b, c, size_loop) refl ]
    ]

    round-second : IsPair (suc j) → Stops (suc (suc j)) → round ≡ end_at (suc (suc j))
    unfolding size_loop
    round-second (p, q) s = elim (Bool-cases (tails m list (suc (suc j)) == obj_Nil)) [
      | inl b ↦
          let len : j + 2 ≡ suc (suc j) = omega arith in
          rw (p, q, b, size_loop) (ap (λ (n : ℕ). size n) len)
      | inr b ↦ elim s [ inl c ↦ absurd (cc (b, c)) | inr c ↦ rw (p, q, b, c, size_loop) refl ]
    ]

    round-circular :
        IsPair (suc j)
        → IsPair (suc (suc j))
        → (tails m list (suc k) == tails m list (suc (suc j))) ≡ true
        → round ≡ circular
    unfolding size_loop
    round-circular (p, q) (p2, q2) e = rw (p, q, p2, q2, e, size_loop) refl

    round-next :
        IsPair (suc j)
        → IsPair (suc (suc j))
        → (tails m list (suc k) == tails m list (suc (suc j))) ≡ false
        → round
          ≡ size_loop obj_Nil is_pair m fuel
              (tails m list (suc k))
              (tails m list (suc (suc j)))
              (suc (suc j))
    unfolding size_loop
    round-next (p, q) (p2, q2) e =
        let len : j + 2 ≡ suc (suc j) = omega arith in
        rw (p, q, p2, q2, e, size_loop)
          (ap (size_loop obj_Nil is_pair m fuel (tails m list (suc k)) (tails m list (suc (suc j))))
            len)

  ends_loop :
      (n : ℕ) (p : (i : ℕ) → i < n → IsPair i) (s : Stops n) (fuel k j : ℕ)
      → j ≡ k + k
      → j < n
      → n ≤ j + fuel
      → size_loop obj_Nil is_pair m fuel (tails m list k) (tails m list j) j ≡ end_at n
  ends_loop n p s zero k j e l h = absurd (omega (arith, l, h))
  ends_loop n p s (suc fuel) k j e l h = elim (Bool-cases (suc j == n)) [
    | inl b ↦
        let q : suc j ≡ n = (==_iff (suc j) n).0 b in
        round-first fuel k j (subst Stops (sym q) s) ∙ ap end_at q
    | inr b ↦
        let first : IsPair (suc j) = p (suc j) (ground (arith, l, b)) in
        elim (Bool-cases (suc (suc j) == n)) [
          | inl c ↦
              let q : suc (suc j) ≡ n = (==_iff (suc (suc j)) n).0 c in
              round-second fuel k j first (subst Stops (sym q) s) ∙ ap end_at q
          | inr c ↦
              let less : suc (suc j) < n = ground (arith, l, b, c) in
              round-next fuel k j first (p (suc (suc j)) less)
                (apart n (suc k) (suc (suc j)) p s less (omega (arith, e)))
              ∙ ends_loop n p s fuel (suc k) (suc (suc j)) (omega (arith, e)) less
                  (omega (arith, h))
        ]
  ]

  circle_loop :
      (p : (i : ℕ) → IsPair i) (meet : ℕ) (fuel k j : ℕ)
      → tails m list meet ≡ tails m list (meet + meet)
      → j ≡ k + k
      → k < meet
      → meet ≤ k + fuel
      → size_loop obj_Nil is_pair m fuel (tails m list k) (tails m list j) j ≡ circular
  circle_loop p meet zero k j t e l h = absurd (omega (arith, l, h))
  circle_loop p meet (suc fuel) k j t e l h =
      elim (Bool-cases (tails m list (suc k) == tails m list (suc (suc j)))) [
        | inl b ↦ round-circular fuel k j (p (suc j)) (p (suc (suc j))) b
        | inr b ↦
            let more : suc k < meet = elim (Bool-cases (ltb (suc k) meet)) [
              | inl c ↦ ltb→lt (suc k) meet c
              | inr c ↦
                  let q : meet ≡ suc k = ground (arith, l, c) in
                  let r : meet + meet ≡ suc (suc j) = omega (arith, q, e) in
                  let same : tails m list (suc k) ≡ tails m list (suc (suc j)) =
                    ap (tails m list) (sym q) ∙ t ∙ ap (tails m list) r in
                  absurd (ground (arith, same, b))
            ] in
            round-next fuel k j (p (suc j)) (p (suc (suc j))) b
            ∙ circle_loop p meet fuel (suc k) (suc (suc j)) t (omega (arith, e)) more
                (omega (arith, h))
      ]

  -- On the circle, any number of turns later.
  turns :
      (start period : ℕ)
      → tails m list (start + period) ≡ tails m list start
      → (d q : ℕ) → tails m list (d + start) ≡ tails m list (d + start + q * period)
  turns start period e d zero = ap (tails m list) (omega arith)
  turns start period e d (suc q) =
      let shifted : tails m list (d + q * period + (start + period))
          ≡ tails m list (d + q * period + start) =
        tails-shift (start + period) start (d + q * period) e in
      let a : d + start + q * period ≡ d + q * period + start = omega arith in
      let b : d + q * period + (start + period) ≡ d + start + suc q * period = omega arith in
      turns start period e d q ∙ ap (tails m list) a ∙ sym shifted ∙ ap (tails m list) b

  -- Where the two are then, the list behind them is the same.
  meeting :
      (start period : ℕ)
      → 0 < period
      → tails m list (start + period) ≡ tails m list start
      → tails m list ((start + 1) * period)
        ≡ tails m list ((start + 1) * period + (start + 1) * period)
  meeting start period q e =
      let meet : ℕ = (start + 1) * period in
      let enough : start ≤ meet = omega (arith, many_turns (start + 1) period q) in
      let d : ℕ = meet - start in
      let here : d + start ≡ meet = omega (arith, enough) in
      ap (tails m list) (sym here)
      ∙ turns start period e d (start + 1)
      ∙ ap (λ (i : ℕ). tails m list (i + meet)) here

  -- `dylan_list_size` of pairs that end with the empty list gives their number; where they end with
  -- anything else, it signals a type error with that; and where they run in a circle, it returns #f.
  -- The number of pairs is enough fuel, and on a circle its length times one more than the number of
  -- pairs before it.
  pub dylan_list_size_lem :
      (fuel : ℕ) (shape : Shape)
      → rounds_of shape ≤ fuel
      → dylan_list_size obj_Nil is_pair m fuel list ≡ size_of shape
  unfolding dylan_list_size
  dylan_list_size_lem fuel (ends zero p s) h = elim (Bool-cases (list == obj_Nil)) [
    | inl b ↦ rw b refl
    | inr b ↦ elim s [ inl c ↦ absurd (cc (b, c)) | inr c ↦ rw (b, c) refl ]
  ]
  dylan_list_size_lem fuel (ends (suc n) p s) h =
      let (a, b) = p zero (omega arith) in
      rw (a, b) (ends_loop (suc n) p s fuel 0 0 refl (omega arith) (omega (arith, h)))
  dylan_list_size_lem fuel (circles start period p q e) h =
      let (a, b) = p zero in
      rw (a, b)
        (circle_loop p ((start + 1) * period) fuel 0 0 (meeting start period q e) refl
          (omega (arith, many_turns (start + 1) period q)) (omega (arith, h)))
