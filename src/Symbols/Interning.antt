-- ===== src/Symbols/Interning.antt =====
-- `symbol` of mindy/interp/sym.c: one symbol for each name, whatever the case of its letters.
use gwydion_2_4_cleanup.Prelude.{
  ℕ, ◌*◌, ◌/◌, ◌%◌, ◌≤◌, ◌≡◌, refl, sym, ap, subst, ◌∙◌, inl, inr, List, [], none, some, true,
  false, leb, if◌then◌else◌, length, get_or, Bool-cases, Option-cases, arith,
}
use gwydion_2_4_cleanup.Symbols.Hash.{hash_name-eq, same_name_refl, same_name_sym, same_name_trans}
use gwydion_2_4_cleanup.Symbols.Rehash.{In, length-put, put-keeps, put-new, rehash_table-IsFiled}
use gwydion_2_4_cleanup.Symbols.Filing.{
  Member, IsFull, IsTable, Interned, rehash_table-IsFull, rehash_table-threshold,
  rehash_table-entries, find-In, find-none, new_symbol, added, added-IsFull,
}
use gwydion_2_4_cleanup.Symbols.Chains.{none_in, length-rehash_table}
use gwydion_2_4_cleanup.Symbols.{
  Symbol, Table, hash_name, same_name, rehash_table, find, symbol, init_symbol_tables,
}

-- The table with a new symbol, after it has grown where that was due.
abbrev pub regrown : Table → Table
regrown t = if leb t.threshold t.entries then rehash_table t else t

symbol_found :
    (address : ℕ) (name : List ℕ) (t : Table) (s : Symbol)
    → find (hash_name name) name (get_or t.chains (hash_name name % length t.chains) []) ≡ some s
    → symbol address name t ≡ (s, t)
unfolding symbol
symbol_found address name t s e = rw (e, symbol) refl

symbol_new :
    (address : ℕ) (name : List ℕ) (t : Table)
    → find (hash_name name) name (get_or t.chains (hash_name name % length t.chains) []) ≡ none
    → symbol address name t ≡ (new_symbol address name, regrown (added (new_symbol address name) t))
unfolding symbol
symbol_new address name t e = rw (e, symbol) refl

regrown-IsTable :
    (t : Table)
    → IsFull t
    → t.threshold ≡ length t.chains * 3 / 2
    → t.entries ≤ t.threshold
    → IsTable (regrown t)
regrown-IsTable t f l r = elim (Bool-cases (leb t.threshold t.entries)) [
  | inr b ↦ rw b (record { full = f; limit = l; room = ground (arith, b) })
  | inl b ↦ rw b (record {
    full = rehash_table-IsFull t f;
    limit = rehash_table-threshold t;
    room = ground (
      arith,
      rehash_table-threshold t,
      rehash_table-entries t,
      length-rehash_table t,
      l,
      r,
      f.filled,
    );
  })
]

regrown-Member : (t : Table) (u : Symbol) → IsFull t → Member u t → Member u (regrown t)
regrown-Member t u f (i, m) = elim (Bool-cases (leb t.threshold t.entries)) [
  | inr b ↦ rw b (i, m)
  | inl b ↦
      rw b (u.hash % length (rehash_table t).chains, (rehash_table-IsFiled t u i f.filled m).1)
]

-- No symbol of the table has the name.
unknown :
    (name : List ℕ) (t : Table) (u : Symbol)
    → IsFull t
    → find (hash_name name) name (get_or t.chains (hash_name name % length t.chains) []) ≡ none
    → Member u t
    → same_name name u.name ≡ false
unknown name t u f e (i, m) = elim (Bool-cases (same_name name u.name)) [
  | inr b ↦ b
  | inl b ↦
      let h : u.hash ≡ hash_name name = f.hashed u (i, m) ∙ sym (hash_name-eq name u.name b) in
      let q : i ≡ hash_name name % length t.chains =
        f.filed u i m ∙ ap (λ (n : ℕ). n % length t.chains) h in
      find-none (hash_name name) name (get_or t.chains (hash_name name % length t.chains) []) u e
        (subst (λ (j : ℕ). In u (get_or t.chains j [])) q m) h
]

-- Of a table in which every symbol is in the chain of its hash, no two symbols have names that are
-- the same but for the case of letters, the entries are counted and below the threshold: `symbol`
-- leaves such a table, with all symbols that were in it and the one that it returns, whose name is
-- the same as the one it was given.
pub symbol-Interned :
    (address : ℕ) (name : List ℕ) (t : Table)
    → IsTable t
    → Interned name t (symbol address name t).0 (symbol address name t).1
symbol-Interned address name t w =
    let index : ℕ = hash_name name % length t.chains in
    elim (Option-cases (find (hash_name name) name (get_or t.chains index []))) [
      | inr (s, e) ↦
          let (i, h) = find-In (hash_name name) name (get_or t.chains index []) s e in
          subst (λ (r : Symbol × Table). Interned name t r.0 r.1)
            (sym (symbol_found address name t s e))
            (record { table = w; member = (index, i); same = h; kept = λ u m. m })
      | inl e ↦
          let s : Symbol = new_symbol address name in
          let f : IsFull (added s t) =
            added-IsFull t s w.full refl (λ u m. unknown name t u w.full e m) in
          let put_in : (u : Symbol) → Member u t → Member u (added s t) =
            λ u (i, m). (i, put-keeps u s index i t.chains m) in
          subst (λ (r : Symbol × Table). Interned name t r.0 r.1)
            (sym (symbol_new address name t e))
            (record {
              table =
                  regrown-IsTable (added s t) f
                    (w.limit ∙ ap (λ (n : ℕ). n * 3 / 2) (sym (length-put s index t.chains)))
                    (omega (arith, w.room));
              member =
                  regrown-Member (added s t) s f
                    (index, put-new s index t.chains (omega (arith, w.full.filled)));
              same = same_name_refl name;
              kept = λ u m. regrown-Member (added s t) u f (put_in u m);
            })
    ]

-- Of a table in which every symbol is in the chain of its hash, no two symbols have names that are
-- the same but for the case of letters, the entries are counted and below the threshold, and two
-- names that are the same but for the case of letters: the second call of `symbol` returns the
-- symbol of the first, and leaves the table as it is.
pub symbol_again :
    (address next : ℕ) (name other : List ℕ) (t : Table)
    → IsTable t
    → same_name name other ≡ true
    → symbol next other (symbol address name t).1 ≡ symbol address name t
symbol_again address next name other t w h =
    let new : Table = (symbol address name t).1 in
    let s : Symbol = (symbol address name t).0 in
    let r : Interned name t s new = symbol-Interned address name t w in
    let same : same_name other s.name ≡ true =
      same_name_trans other name s.name (same_name_sym name other h) r.same in
    elim (Option-cases
      (find (hash_name other) other (get_or new.chains (hash_name other % length new.chains) []))) [
        | inl e ↦ absurd (cc (same, unknown other new s r.table.full e r.member))
        | inr (u, e) ↦
            let (i, k) =
              find-In (hash_name other) other
                (get_or new.chains (hash_name other % length new.chains) []) u e in
            let q : u ≡ s =
              r.table.full.unique u s (hash_name other % length new.chains, i) r.member
                (same_name_trans u.name other s.name (same_name_sym other u.name k) same) in
            symbol_found next other new u e ∙ ap (λ (v : Symbol). (v, new)) q
      ]

-- The table at the start.
pub init_symbol_tables-IsTable : IsTable init_symbol_tables
unfolding init_symbol_tables
init_symbol_tables-IsTable = record {
  full = record {
    filled = omega arith;
    filed = λ s i h. absurd (none_in s 64 i h);
    hashed = λ s (i, h). absurd (none_in s 64 i h);
    unique = λ s u (i, h) m e. absurd (none_in s 64 i h);
    counted = refl;
  };
  limit = refl;
  room = omega arith;
}
