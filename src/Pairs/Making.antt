-- ===== src/Pairs/Making.antt =====
-- `pair` and `dylan_list` of mindy/interp/list.c.
use gwydion_2_4_cleanup.Prelude.{
  ℕ, ◌+◌, ◌≤◌, ◌≡◌, refl, sym, ap₂, subst, ◌∙◌, List, [], ◌∷◌, ◌++◌, map, false, ◌==◌, ==_iff,
  reversed, append_assoc, append_nil, arith,
}
use gwydion_2_4_cleanup.Prelude.Counting.{count}
use gwydion_2_4_cleanup.Pairs.Reversing.{Chain}
use gwydion_2_4_cleanup.Pairs.{Memory, pair, dylan_list}

abbrev pub addresses : List (ℕ × ℕ) → List ℕ
addresses [] = []
addresses ((address, arg) ∷ args) = address ∷ addresses args

abbrev pub arguments : List (ℕ × ℕ) → List ℕ
arguments [] = []
arguments ((address, arg) ∷ args) = arg ∷ arguments args

module _ (address head tail : ℕ) (m : Memory) where
  pair_tail_self : (pair address head tail m).tail address ≡ tail
  unfolding pair
  pair_tail_self = rw ((==_iff address address).1 refl) refl

  pair_head_self : (pair address head tail m).head address ≡ head
  unfolding pair
  pair_head_self = rw ((==_iff address address).1 refl) refl

  pair_tail_other : (c : ℕ) → (address == c) ≡ false → (pair address head tail m).tail c ≡ m.tail c
  unfolding pair
  pair_tail_other c e = rw e refl

  pair_head_other : (c : ℕ) → (address == c) ≡ false → (pair address head tail m).head c ≡ m.head c
  unfolding pair
  pair_head_other c e = rw e refl

  -- A new pair is in no list that was there.
  Chain-pair :
      (obj_Nil : ℕ) (cells : List ℕ) (list : ℕ)
      → count address cells ≡ 0
      → Chain obj_Nil m list cells
      → Chain obj_Nil (pair address head tail m) list cells
  Chain-pair obj_Nil [] list h p = p
  Chain-pair obj_Nil (c ∷ cells) list h (e, n, p) =
      let apart : (address == c) ≡ false = ground (arith, h) in
      let others : count address cells ≡ 0 = ground (arith, h) in
      (
        e,
        n,
        subst (λ (x : ℕ). Chain obj_Nil (pair address head tail m) x cells)
            (sym (pair_tail_other c apart)) (Chain-pair obj_Nil cells (m.tail c) others p),
      )

  map-pair :
      (cells : List ℕ)
      → count address cells ≡ 0
      → map (λ c. (pair address head tail m).head c) cells ≡ map (λ c. m.head c) cells
  map-pair [] h = refl
  map-pair (c ∷ cells) h =
      let apart : (address == c) ≡ false = ground (arith, h) in
      let others : count address cells ≡ 0 = ground (arith, h) in
      ap₂ (λ (x : ℕ) (xs : List ℕ). x ∷ xs) (pair_head_other c apart) (map-pair cells others)

module _ (obj_Nil : ℕ) where
  -- A list of the pairs `cells`, with `values` as their heads.
  abbrev pub Holds : Memory → ℕ → List ℕ → List ℕ → Type 0
  Holds m list cells values = Chain obj_Nil m list cells × (map (λ c. m.head c) cells ≡ values)

  dylan_list_onto :
      (args : List (ℕ × ℕ)) (cells values : List ℕ) (result : ℕ) (m : Memory)
      → ((c : ℕ) → count c (addresses args) + count c cells ≤ 1)
      → count obj_Nil (addresses args) ≡ 0
      → Holds m result cells values
      → Holds
          (dylan_list args result m).1
          (dylan_list args result m).0
          (reversed (addresses args) ++ cells)
          (reversed (arguments args) ++ values)
  unfolding dylan_list
  dylan_list_onto [] cells values result m d n h = h
  dylan_list_onto ((a, v) ∷ args) cells values result m d n (p, q) =
      let next : Memory = pair a v result m in
      let fresh : count a cells ≡ 0 = ground (arith, d a) in
      let proper : (a == obj_Nil) ≡ false = ground (arith, n) in
      let chain : Chain obj_Nil next a (a ∷ cells) = (
        refl,
        proper,
        subst (λ (x : ℕ). Chain obj_Nil next x cells) (sym (pair_tail_self a v result m))
            (Chain-pair a v result m obj_Nil cells result fresh p),
      ) in
      let heads : map (λ c. next.head c) (a ∷ cells) ≡ v ∷ values =
        ap₂ (λ (x : ℕ) (xs : List ℕ). x ∷ xs) (pair_head_self a v result m)
          (map-pair a v result m cells fresh ∙ q) in
      let rest =
        dylan_list_onto args (a ∷ cells) (v ∷ values) a next (λ c. ground (arith, d c))
          (ground (arith, n)) (chain, heads) in
      subst
        (λ (cs : List ℕ).
          Holds (dylan_list args a next).1 (dylan_list args a next).0 cs
            ((reversed (arguments args) ++ v ∷ []) ++ values))
        (sym (append_assoc (reversed (addresses args)) (a ∷ []) cells))
        (subst
          (λ (vs : List ℕ).
            Holds (dylan_list args a next).1 (dylan_list args a next).0
              (reversed (addresses args) ++ a ∷ cells) vs)
          (sym (append_assoc (reversed (arguments args)) (v ∷ []) values)) rest)

  -- With arguments from the top of the stack, and different addresses for the pairs, none of them
  -- the empty list's, `dylan_list` makes a list of these pairs with the arguments as heads, the one
  -- that was the lowest on the stack first.
  pub dylan_list_lem :
      (args : List (ℕ × ℕ)) (m : Memory)
      → ((c : ℕ) → count c (addresses args) ≤ 1)
      → count obj_Nil (addresses args) ≡ 0
      → Holds
          (dylan_list args obj_Nil m).1
          (dylan_list args obj_Nil m).0
          (reversed (addresses args))
          (reversed (arguments args))
  dylan_list_lem args m d n =
      let onto = dylan_list_onto args [] [] obj_Nil m (λ c. omega (arith, d c)) n (refl, refl) in
      subst
        (λ (cs : List ℕ).
          Holds (dylan_list args obj_Nil m).1 (dylan_list args obj_Nil m).0 cs
            (reversed (arguments args)))
        (append_nil (reversed (addresses args)))
        (subst
          (λ (vs : List ℕ).
            Holds (dylan_list args obj_Nil m).1 (dylan_list args obj_Nil m).0
              (reversed (addresses args) ++ []) vs)
          (append_nil (reversed (arguments args))) onto)
