-- ===== src/Tests/Storage.antt =====
-- The theorems on mindy/interp/list.c at concrete pairs. The empty list is at 0.
use gwydion_2_4_cleanup.Prelude.{
  ℕ, zero, suc, ◌⊎◌, false, ◌+◌, ◌≡◌, refl, inl, [], ◌∷◌, some, Bool, true, not, ◌==◌,
  if◌then◌else◌, arith,
}
use gwydion_2_4_cleanup.Pairs.{Memory, circular, size, size_loop, dylan_list_size, nreverse}
use gwydion_2_4_cleanup.Pairs.Sizes.{tails, Shape, circles, dylan_list_size_lem}
use gwydion_2_4_cleanup.Pairs.Reversing.{Rearranged, nreverse_lem}

-- 1, 2 and 3 are a list; 4 stands before the circle of 5 and 6.
abbrev memory : Memory
memory = record {
  head = λ c. c + 100;
  tail = λ c.
      if c == 1
      then 2
      else if c == 2
      then 3
      else if c == 4
      then 5
      else if c == 5
      then 6
      else if c == 6
      then 5
      else 0;
}

abbrev a_pair : ℕ → Bool
a_pair c = not (c == 0)

abbrev Round : ℕ → Type 0
Round c = (c ≡ 4) ⊎ ((c ≡ 5) ⊎ (c ≡ 6))

further : (c : ℕ) → Round c → Round (memory.tail c)
further c h = ground (arith, h)

around-Round : (i : ℕ) → Round (tails memory 4 i)
around-Round zero = inl refl
around-Round (suc i) = further (tails memory 4 i) (around-Round i)

Round-pair : (c : ℕ) → Round c → ((c == 0) ≡ false) × (a_pair c ≡ true)
Round-pair c h = (ground (arith, h), ground (arith, h))

abbrev circle : Shape 0 a_pair memory 4
circle = circles 1 2 (λ i. Round-pair (tails memory 4 i) (around-Round i)) (omega arith) refl

dylan_list_size_lem_example : dylan_list_size 0 a_pair memory 4 4 ≡ circular
dylan_list_size_lem_example = dylan_list_size_lem 0 a_pair memory 4 4 circle (omega arith)

three_pairs : dylan_list_size 0 a_pair memory 3 1 ≡ size 3
unfolding dylan_list_size size_loop
three_pairs = refl

nreverse_lem_example :
    (r : ℕ) × (new : Memory) × (nreverse 0 4 1 memory ≡ some (r, new))
    × Rearranged 0 memory (1 ∷ 2 ∷ 3 ∷ []) new r (3 ∷ 2 ∷ 1 ∷ [])
nreverse_lem_example =
    nreverse_lem 0 4 1 (1 ∷ 2 ∷ 3 ∷ []) memory (refl, refl, (refl, refl, (refl, refl, refl)))
      (λ c. ground arith) (omega arith)
