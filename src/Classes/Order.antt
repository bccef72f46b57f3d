-- ===== src/Classes/Order.antt =====
-- Class precedence lists as they are meant: of a class and what is above it, in an order that
-- respects the direct superclasses of each.
use gwydion_2_4_cleanup.Prelude.{ℕ, ◌≤◌, ◌<◌, ◌≡◌, ◌⊎◌, inl, inr, List, [], ◌∷◌, arith}
use gwydion_2_4_cleanup.Prelude.Counting.{count}

-- `v` stands directly behind `u`.
abbrev pub Next : ℕ → ℕ → List ℕ → Type 0
Next u v [] = ⊥
Next u v (a ∷ []) = ⊥
Next u v (a ∷ b ∷ cs) = ((u ≡ a) × (v ≡ b)) ⊎ Next u v (b ∷ cs)

-- The classes of a list.
abbrev pub In : ℕ → List ℕ → Type 0
In c cs = 0 < count c cs

module _ (supers_of : ℕ → List ℕ) where
  -- A class, or one above it.
  pub data Above (class : ℕ) : ℕ → Type 0 where
    itself : Above class class
    super : {c d : ℕ} → Above class c → In d (supers_of c) → Above class d

  -- In the list of `class` the class `u` must come before `v`: `v` is a direct superclass of `u`, or
  -- the next direct superclass of some class.
  pub data Must (class u v : ℕ) : Type 0 where
    direct : Above class u → In v (supers_of u) → Must class u v
    local : (c : ℕ) → Above class c → Next u v (supers_of c) → Must class u v

  -- No class has one before it, or itself, that must come after it.
  abbrev pub Respects : ℕ → List ℕ → Type 0
  Respects class [] = Unit
  Respects class (c ∷ cs) = ((d : ℕ) → In d (c ∷ cs) → ¬ Must class d c) × Respects class cs

  -- A list of `class` and what is above it, each once, in such an order.
  pub record IsCpl (class : ℕ) (cpl : List ℕ) : Type 0 where
    pub once : (c : ℕ) → count c cpl ≤ 1
    pub sound : (c : ℕ) → In c cpl → Above class c
    pub full : (c : ℕ) → Above class c → In c cpl
    pub respects : Respects class cpl

pub Next-In : (u v : ℕ) (cs : List ℕ) → Next u v cs → In u cs × In v cs
Next-In u v [] n = absurd n
Next-In u v (a ∷ []) n = absurd n
Next-In u v (a ∷ b ∷ cs) (inl (p, q)) = (ground arith, ground arith)
Next-In u v (a ∷ b ∷ cs) (inr n) =
    let (p, q) = Next-In u v (b ∷ cs) n in (ground arith, ground arith)
