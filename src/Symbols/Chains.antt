-- ===== src/Symbols/Chains.antt =====
-- Where `put` and `rehash_table` of mindy/interp/sym.c leave the symbols, and how many there are.
use gwydion_2_4_cleanup.Prelude.{
  ℕ, zero, suc, ◌+◌, ◌%◌, ◌<◌, ◌≡◌, refl, sym, ap, ◌∙◌, ◌⊎◌, inl, inr, List, [], ◌∷◌, length,
  get_or, replicate, length-replicate, arith,
}
use gwydion_2_4_cleanup.Symbols.Rehash.{In, length-put, length-rehash_chain, length-rehash_chains}
use gwydion_2_4_cleanup.Symbols.{
  Symbol, Table, put, rehash_chain, rehash_chains, grown, rehash_table,
}

pub put-In :
    (s t : Symbol) (i j : ℕ) (table : List (List Symbol))
    → In s (get_or (put i t table) j [])
    → ((s ≡ t) × (j ≡ i)) ⊎ In s (get_or table j [])
unfolding put
put-In s t i j [] h = absurd h
put-In s t zero zero (c ∷ table) (inl e) = inl (e, refl)
put-In s t zero zero (c ∷ table) (inr h) = inr h
put-In s t zero (suc j) (c ∷ table) h = inr h
put-In s t (suc i) zero (c ∷ table) h = inr h
put-In s t (suc i) (suc j) (c ∷ table) h = elim (put-In s t i j table h) [
  | inl (e, q) ↦ inl (e, ap suc q)
  | inr k ↦ inr k
]

-- How many symbols there are.
abbrev pub size : List (List Symbol) → ℕ
size [] = 0
size (c ∷ cs) = length c + size cs

pub size-put :
    (t : Symbol) (i : ℕ) (table : List (List Symbol))
    → i < length table
    → size (put i t table) ≡ size table + 1
unfolding put
size-put t i [] h = absurd (omega (arith, h))
size-put t zero (c ∷ table) h = omega arith
size-put t (suc i) (c ∷ table) h = omega (arith, size-put t i table (omega (arith, h)))

module _ (n : ℕ) (positive : 0 < n) where
  in_range :
      (t : Symbol) (table : List (List Symbol)) → length table ≡ n → t.hash % n < length table
  in_range t table l = omega (arith, l)

  size-rehash_chain :
      (chain : List Symbol) (table : List (List Symbol))
      → length table ≡ n
      → size (rehash_chain n chain table) ≡ size table + length chain
  unfolding rehash_chain
  size-rehash_chain [] table l = omega arith
  size-rehash_chain (t ∷ rest) table l = omega (
    arith,
    size-rehash_chain rest (put (t.hash % n) t table) (length-put t (t.hash % n) table ∙ l),
    size-put t (t.hash % n) table (in_range t table l),
  )

  size-rehash_chains :
      (chains table : List (List Symbol))
      → length table ≡ n
      → size (rehash_chains n chains table) ≡ size table + size chains
  unfolding rehash_chains
  size-rehash_chains [] table l = omega arith
  size-rehash_chains (c ∷ rest) table l = omega (
    arith,
    size-rehash_chains rest (rehash_chain n c table) (length-rehash_chain n c table ∙ l),
    size-rehash_chain c table l,
  )

module _ (n : ℕ) (s : Symbol) (j : ℕ) where
  rehash_chain-In :
      (chain : List Symbol) (table : List (List Symbol))
      → In s (get_or (rehash_chain n chain table) j [])
      → (In s chain × (j ≡ s.hash % n)) ⊎ In s (get_or table j [])
  unfolding rehash_chain
  rehash_chain-In [] table h = inr h
  rehash_chain-In (t ∷ rest) table h = elim (rehash_chain-In rest (put (t.hash % n) t table) h) [
    | inl (k, e) ↦ inl (inr k, e)
    | inr k ↦ elim (put-In s t (t.hash % n) j table k) [
      | inl (e, q) ↦ inl (inl e, q ∙ ap (λ (u : Symbol). u.hash % n) (sym e))
      | inr m ↦ inr m
    ]
  ]

  rehash_chains-In :
      (chains table : List (List Symbol))
      → In s (get_or (rehash_chains n chains table) j [])
      → ((i : ℕ) × In s (get_or chains i []) × (j ≡ s.hash % n)) ⊎ In s (get_or table j [])
  unfolding rehash_chains
  rehash_chains-In [] table h = inr h
  rehash_chains-In (c ∷ rest) table h = elim (rehash_chains-In rest (rehash_chain n c table) h) [
    | inl (i, k, e) ↦ inl (suc i, k, e)
    | inr k ↦ elim (rehash_chain-In c table k) [ inl (m, e) ↦ inl (zero, m, e) | inr m ↦ inr m ]
  ]

pub none_in : (s : Symbol) (n j : ℕ) → ¬ In s (get_or (replicate n []) j [])
none_in s zero j h = h
none_in s (suc n) zero h = h
none_in s (suc n) (suc j) h = none_in s n j h

pub size-replicate : (n : ℕ) → size (replicate n []) ≡ 0
size-replicate zero = refl
size-replicate (suc n) = omega (arith, size-replicate n)

-- A symbol that is in a chain afterwards is at its hash, and was there before.
pub rehash_table-In :
    (t : Table) (s : Symbol) (j : ℕ)
    → In s (get_or (rehash_table t).chains j [])
    → ((i : ℕ) × In s (get_or t.chains i []) × (j ≡ s.hash % grown (length t.chains)))
unfolding rehash_table
rehash_table-In t s j h =
    elim (rehash_chains-In (grown (length t.chains)) s j t.chains
      (replicate (grown (length t.chains)) []) h) [
        | inl k ↦ k
        | inr k ↦ absurd (none_in s (grown (length t.chains)) j k)
      ]

pub size-rehash_table :
    (t : Table) → 0 < length t.chains → size (rehash_table t).chains ≡ size t.chains
unfolding rehash_table
size-rehash_table t p =
    let n : ℕ = grown (length t.chains) in
    omega (
      arith,
      size-rehash_chains n (ground (arith, p)) t.chains (replicate n []) (length-replicate n []),
      size-replicate n,
    )

pub length-rehash_table : (t : Table) → length (rehash_table t).chains ≡ grown (length t.chains)
unfolding rehash_table
length-rehash_table t =
    let n : ℕ = grown (length t.chains) in
    length-rehash_chains n t.chains (replicate n []) ∙ length-replicate n []
