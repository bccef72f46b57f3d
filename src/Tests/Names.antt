-- ===== src/Tests/Names.antt =====
-- The theorems on mindy/interp/sym.c at concrete names and tables.
use gwydion_2_4_cleanup.Prelude.{◌≡◌, refl, [], ◌∷◌, true, inl, length, arith}
use gwydion_2_4_cleanup.Symbols.{
  Symbol, Table, same_name, grown, rehash_table, symbol, init_symbol_tables,
}
use gwydion_2_4_cleanup.Symbols.Filing.{Interned}
use gwydion_2_4_cleanup.Symbols.Interning.{
  symbol-Interned, symbol_again, init_symbol_tables-IsTable,
}
use gwydion_2_4_cleanup.Symbols.Rehash.{IsFiled, rehash_table-IsFiled}

-- "If" and "iF".
if_is_same : same_name (b'I' ∷ b'f' ∷ []) (b'i' ∷ b'F' ∷ []) ≡ true
unfolding same_name
if_is_same = refl

abbrev one : Symbol
one = record { address = 100; name = b'a' ∷ []; hash = 65 }

-- The symbol stands in the second of two chains.
abbrev small : Table
small = record { entries = 1; threshold = 3; chains = [] ∷ (one ∷ []) ∷ [] }

rehash_table-IsFiled_example :
    (length (rehash_table small).chains ≡ grown 2)
    × IsFiled one (length (rehash_table small).chains) (rehash_table small).chains
rehash_table-IsFiled_example = rehash_table-IsFiled small one 1 (omega arith) (inl refl)

symbol-Interned_example :
    Interned
      (b'i' ∷ b'F' ∷ [])
      init_symbol_tables
      (symbol 100 (b'i' ∷ b'F' ∷ []) init_symbol_tables).0
      (symbol 100 (b'i' ∷ b'F' ∷ []) init_symbol_tables).1
symbol-Interned_example =
    symbol-Interned 100 (b'i' ∷ b'F' ∷ []) init_symbol_tables init_symbol_tables-IsTable

symbol_again_example :
    symbol 200 (b'i' ∷ b'F' ∷ []) (symbol 100 (b'I' ∷ b'f' ∷ []) init_symbol_tables).1
    ≡ symbol 100 (b'I' ∷ b'f' ∷ []) init_symbol_tables
symbol_again_example =
    symbol_again 100 200 (b'I' ∷ b'f' ∷ []) (b'i' ∷ b'F' ∷ []) init_symbol_tables
      init_symbol_tables-IsTable if_is_same
