-- ===== src/Symbols/Rehash.antt =====
-- `rehash_table` of mindy/interp/sym.c loses no symbol.
use gwydion_2_4_cleanup.Prelude.{
  ℕ, zero, suc, ◌%◌, ◌<◌, ◌≡◌, refl, sym, ap, subst, ◌∙◌, ◌⊎◌, inl, inr, List, [], ◌∷◌, length,
  get_or, replicate, length-replicate, arith,
}
use gwydion_2_4_cleanup.Symbols.{
  Symbol, Table, put, rehash_chain, rehash_chains, grown, rehash_table,
}

abbrev pub In : Symbol → List Symbol → Type 0
In s [] = ⊥
In s (t ∷ ts) = (s ≡ t) ⊎ In s ts

-- `s` is in the chain at its hash.
abbrev pub IsFiled : Symbol → ℕ → List (List Symbol) → Type 0
IsFiled s n table = In s (get_or table (s.hash % n) [])

pub put-keeps :
    (s t : Symbol) (i j : ℕ) (table : List (List Symbol))
    → In s (get_or table j [])
    → In s (get_or (put i t table) j [])
unfolding put
put-keeps s t i j [] h = absurd h
put-keeps s t zero zero (c ∷ table) h = inr h
put-keeps s t zero (suc j) (c ∷ table) h = h
put-keeps s t (suc i) zero (c ∷ table) h = h
put-keeps s t (suc i) (suc j) (c ∷ table) h = put-keeps s t i j table h

pub put-new :
    (t : Symbol) (i : ℕ) (table : List (List Symbol))
    → i < length table
    → In t (get_or (put i t table) i [])
unfolding put
put-new t i [] h = absurd (omega arith)
put-new t zero (c ∷ table) h = inl refl
put-new t (suc i) (c ∷ table) h = put-new t i table (omega arith)

pub length-put :
    (t : Symbol) (i : ℕ) (table : List (List Symbol)) → length (put i t table) ≡ length table
unfolding put
length-put t i [] = refl
length-put t zero (c ∷ table) = refl
length-put t (suc i) (c ∷ table) = ap suc (length-put t i table)

pub length-rehash_chain :
    (n : ℕ) (chain : List Symbol) (table : List (List Symbol))
    → length (rehash_chain n chain table) ≡ length table
unfolding rehash_chain
length-rehash_chain n [] table = refl
length-rehash_chain n (t ∷ rest) table =
    length-rehash_chain n rest (put (t.hash % n) t table) ∙ length-put t (t.hash % n) table

module _ (n : ℕ) (s : Symbol) where
  chain-keeps :
      (chain : List Symbol) (table : List (List Symbol))
      → IsFiled s n table
      → IsFiled s n (rehash_chain n chain table)
  unfolding rehash_chain
  chain-keeps [] table h = h
  chain-keeps (t ∷ rest) table h =
      chain-keeps rest (put (t.hash % n) t table) (put-keeps s t (t.hash % n) (s.hash % n) table h)

  chains-keep :
      (chains table : List (List Symbol))
      → IsFiled s n table
      → IsFiled s n (rehash_chains n chains table)
  unfolding rehash_chains
  chains-keep [] table h = h
  chains-keep (c ∷ rest) table h = chains-keep rest (rehash_chain n c table) (chain-keeps c table h)

  chain-files :
      (chain : List Symbol) (table : List (List Symbol))
      → 0 < n
      → length table ≡ n
      → In s chain
      → IsFiled s n (rehash_chain n chain table)
  unfolding rehash_chain
  chain-files [] table p l h = absurd h
  chain-files (t ∷ rest) table p l (inl e) = chain-keeps rest (put (t.hash % n) t table) (
      subst (λ (u : Symbol). In u (get_or (put (t.hash % n) t table) (u.hash % n) [])) (sym e)
        (put-new t (t.hash % n) table (omega (arith, l))))
  chain-files (t ∷ rest) table p l (inr h) =
      chain-files rest (put (t.hash % n) t table) p (length-put t (t.hash % n) table ∙ l) h

  chains-file :
      (chains table : List (List Symbol)) (i : ℕ)
      → 0 < n
      → length table ≡ n
      → In s (get_or chains i [])
      → IsFiled s n (rehash_chains n chains table)
  unfolding rehash_chains
  chains-file [] table i p l h = absurd h
  chains-file (c ∷ rest) table zero p l h =
      chains-keep rest (rehash_chain n c table) (chain-files c table p l h)
  chains-file (c ∷ rest) table (suc i) p l h =
      chains-file rest (rehash_chain n c table) i p (length-rehash_chain n c table ∙ l) h

pub length-rehash_chains :
    (n : ℕ) (chains table : List (List Symbol))
    → length (rehash_chains n chains table) ≡ length table
unfolding rehash_chains
length-rehash_chains n [] table = refl
length-rehash_chains n (c ∷ rest) table =
    length-rehash_chains n rest (rehash_chain n c table) ∙ length-rehash_chain n c table

abbrev empty_table : ℕ → List (List Symbol)
empty_table n = replicate n []

-- `rehash_table` gives `grown` chains, and a symbol in any chain of a table that is not empty is
-- then in the chain where a search by its hash looks.
pub rehash_table-IsFiled :
    (t : Table) (s : Symbol) (i : ℕ)
    → 0 < length t.chains
    → In s (get_or t.chains i [])
    → (length (rehash_table t).chains ≡ grown (length t.chains))
      × IsFiled s (length (rehash_table t).chains) (rehash_table t).chains
unfolding rehash_table
rehash_table-IsFiled t s i p h =
    let n = grown (length t.chains) in
    let len : length (rehash_chains n t.chains (empty_table n)) ≡ n =
      length-rehash_chains n t.chains (empty_table n) ∙ length-replicate n [] in
    (
      len,
      subst (λ (k : ℕ). IsFiled s k (rehash_chains n t.chains (empty_table n))) (sym len)
          (chains-file n s t.chains (empty_table n) i (ground arith) (length-replicate n []) h),
    )
