-- ===== src/Symbols.antt =====
-- The symbol table, mindy/interp/sym.c. A name is the list of its bytes, up to the null byte, and
-- an `int` or `unsigned` is of 32 bits.
pub mod Hash
pub mod Rehash
pub mod Chains
pub mod Filing
pub mod Interning
use gwydion_2_4_cleanup.Prelude.{
  ℕ, zero, suc, ◌+◌, ◌-◌, ◌*◌, ◌/◌, ◌%◌, ◌^◌, List, [], ◌∷◌, Option, none, some, Bool, true, false,
  ◌&&◌, ltb, leb, ◌==◌, if◌then◌else◌, length, get_or, replicate,
}
use gwydion_2_4_cleanup.Bignum.Logic.{bitwise, xor}

-- `*ptr & ~('a'^'A')`: the bit 32 is cleared.
abbrev pub without_case : ℕ → ℕ
without_case c = if c / 32 % 2 == 1 then c - 32 else c

-- `(hash<<5)|(hash>>27)`.
abbrev pub rotate : ℕ → ℕ
rotate hash = hash * 32 % 2 ^ 32 + hash / 2 ^ 27

unfoldable pub hash_from : ℕ → List ℕ → ℕ
hash_from hash [] = hash
hash_from hash (c ∷ rest) = hash_from (bitwise xor 32 (rotate hash) (without_case c)) rest

unfoldable pub hash_name : List ℕ → ℕ
hash_name name = hash_from 0 name

-- `isupper(c) ? tolower(c) : c`, for ASCII.
abbrev pub lower : ℕ → ℕ
lower c = if leb b'A' c && leb c b'Z' then c + 32 else c

unfoldable pub same_name : List ℕ → List ℕ → Bool
same_name [] [] = true
same_name [] (c ∷ rest) = false
same_name (c ∷ rest) [] = false
same_name (c1 ∷ rest1) (c2 ∷ rest2) = lower c1 == lower c2 && same_name rest1 rest2

-- `struct symbol`, with its address; the chain of `next` is the list that it is in.
pub record Symbol : Type 0 where
  pub address : ℕ
  pub name : List ℕ
  pub hash : ℕ

-- `symtab_entries`, `symtab_threshold`, and the table, whose length is `symtab_length`.
pub record Table : Type 0 where
  pub entries : ℕ
  pub threshold : ℕ
  pub chains : List (List Symbol)

-- A symbol at the front of the chain at an index.
unfoldable pub put : ℕ → Symbol → List (List Symbol) → List (List Symbol)
put i sym [] = []
put zero sym (chain ∷ rest) = (sym ∷ chain) ∷ rest
put (suc i) sym (chain ∷ rest) = chain ∷ put i sym rest

-- The inner loop of `rehash_table`.
unfoldable pub rehash_chain : ℕ → List Symbol → List (List Symbol) → List (List Symbol)
rehash_chain new_length [] table = table
rehash_chain new_length (sym ∷ next) table =
    rehash_chain new_length next (put (sym.hash % new_length) sym table)

unfoldable pub rehash_chains : ℕ → List (List Symbol) → List (List Symbol) → List (List Symbol)
rehash_chains new_length [] table = table
rehash_chains new_length (chain ∷ rest) table =
    rehash_chains new_length rest (rehash_chain new_length chain table)

abbrev pub grown : ℕ → ℕ
grown symtab_length = if ltb symtab_length 1024 then symtab_length * 2 else symtab_length + 1024

unfoldable pub rehash_table : Table → Table
rehash_table t =
    let new_length = grown (length t.chains) in
    record {
      entries = t.entries;
      threshold = new_length * 3 / 2;
      chains = rehash_chains new_length t.chains (replicate new_length []);
    }

-- The search of `symbol`.
unfoldable pub find : ℕ → List ℕ → List Symbol → Option Symbol
find hash name [] = none
find hash name (sym ∷ next) =
    if sym.hash == hash && same_name name sym.name then some sym else find hash name next

-- `symbol`; a new symbol is allocated at `address`.
unfoldable pub symbol : ℕ → List ℕ → Table → Symbol × Table
symbol address name t =
    let hash = hash_name name in
    let index = hash % length t.chains in
    elim (find hash name (get_or t.chains index [])) [
      | some sym ↦ (sym, t)
      | none ↦
          let sym : Symbol = record { address = address; name = name; hash = hash } in
          let added : Table = record {
            entries = t.entries + 1;
            threshold = t.threshold;
            chains = put index sym t.chains;
          } in
          (sym, if leb t.threshold (t.entries + 1) then rehash_table added else added)
    ]

unfoldable pub init_symbol_tables : Table
init_symbol_tables = record { entries = 0; threshold = 96; chains = replicate 64 [] }
