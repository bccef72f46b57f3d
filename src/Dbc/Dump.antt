-- ===== src/Dbc/Dump.antt =====
-- The dumping of literals, mindy/comp/dump.c. A call gives the bytes that it writes to `File`, and
-- the handles after it; `big` says whether the machine has the highest byte of a number first.
use gwydion_2_4_cleanup.Prelude.{
  ℕ, zero, suc, ◌+◌, ◌-◌, ◌^◌, List, [], ◌∷◌, ◌++◌, Option, none, some, Bool, true, false, ◌==◌,
  leb, ltb, ◌&&◌, if◌then◌else◌, length,
}
use gwydion_2_4_cleanup.Prelude.Int.{ℤ, pos, negsuc}
use gwydion_2_4_cleanup.Dbc.Bytes.{in_memory, unsigned}
use gwydion_2_4_cleanup.Dbc.Format.{
  Literal, symbol_literal, integer_literal, single_float_literal, double_float_literal,
  extended_float_literal, character_literal, string_literal, list_literal, dotted_list_literal,
  vector_literal, true_literal, false_literal, unbound_literal, Literals, no_literals, literal_next,
}

-- `table_index`, and the `handle` of each symbol, by its name: `none` for -1.
pub record Handles : Type 0 where
  pub table_index : ℕ
  pub handle : List ℕ → Option ℕ

abbrev pub Dumped : Type 0
Dumped = List ℕ × Handles

abbrev pub dump_short : Bool → ℤ → List ℕ
dump_short big value = in_memory big 2 (unsigned (2 ^ 15) value)

abbrev pub dump_int : Bool → ℤ → List ℕ
dump_int big value = in_memory big 4 (unsigned (2 ^ 31) value)

abbrev pub dump_long : Bool → ℤ → List ℕ
dump_long big value = in_memory big 8 (unsigned (2 ^ 63) value)

-- The header that `dump_setup_output` writes behind the comments, on a machine of 64 bits.
unfoldable pub dump_header : Bool → List ℕ
dump_header big =
    1 ∷ 4 ∷ 1 ∷ 2 ∷ 4 ∷ 8 ∷ 4 ∷ 8 ∷ 16 ∷ dump_short big (pos 1) ++ dump_int big (pos 1853397694)

abbrev pub same_bytes : List ℕ → List ℕ → Bool
same_bytes [] [] = true
same_bytes [] (b ∷ bs) = false
same_bytes (a ∷ name) [] = false
same_bytes (a ∷ name) (b ∷ bs) = a == b && same_bytes name bs

-- `dump_ref`; the cast to `short` keeps the bits of the handle.
unfoldable pub dump_ref : Bool → ℕ → List ℕ
dump_ref big handle =
    if leb handle 65535 then 3 ∷ dump_short big (pos handle) else 4 ∷ dump_int big (pos handle)

unfoldable pub dump_string_guts : Bool → ℕ → ℕ → List ℕ → List ℕ
dump_string_guts big short_op long_op str =
    if ltb (length str) 256
    then short_op ∷ length str ∷ str
    else long_op ∷ dump_int big (pos (length str)) ++ str

-- The tests of `dump_integer`, with a bound of 2 ^ 7, 2 ^ 15 or 2 ^ 31.
abbrev pub fits_in : ℕ → ℤ → Bool
fits_in bound (pos n) = ltb n bound
fits_in bound (negsuc n) = ltb n bound

unfoldable pub dump_integer : Bool → ℤ → List ℕ
dump_integer big value =
    if fits_in (2 ^ 7) value
    then 8 ∷ unsigned (2 ^ 7) value ∷ []
    else if fits_in (2 ^ 15) value
    then 9 ∷ dump_short big value
    else if fits_in (2 ^ 31) value
    then 10 ∷ dump_int big value
    else 11 ∷ dump_long big value

-- `implicit_store`, which gives the symbol of this name a handle.
abbrev pub implicit_store : List ℕ → Handles → Handles
implicit_store name h = record {
  table_index = h.table_index + 1;
  handle = λ other. if same_bytes name other then some h.table_index else h.handle other;
}

-- `dump_symbol`, by the handle of the symbol.
unfoldable pub dump_symbol_at : Bool → List ℕ → Option ℕ → Handles → Dumped
dump_symbol_at big name (some handle) h = (dump_ref big handle, h)
dump_symbol_at big name none h = (dump_string_guts big 18 19 name, implicit_store name h)

unfoldable pub dump_symbol : Bool → List ℕ → Handles → Dumped
dump_symbol big name h = dump_symbol_at big name (h.handle name) h

-- One call after another.
abbrev pub dump_then : Dumped → (Handles → Dumped) → Dumped
dump_then (bytes, h) next = (bytes ++ (next h).0, (next h).1)

abbrev pub count : Literals → ℕ
count no_literals = 0
count (literal_next part next) = suc (count next)

-- The operation before a run of a list, whose length is an `int`: of at most 264 parts at the end of the list, else of 264
-- with the rest of the list as the tail. A list with a tail has a part: without one the source calls
-- `lose`, and what stands here is not meant.
unfoldable pub list_header : Bool → ℕ → List ℕ
list_header dotted n =
    if ltb 264 n
    then 39 ∷ 255 ∷ []
    else if ltb 8 n
    then (if dotted then 39 else 29) ∷ (n - 9) ∷ []
    else if dotted
    then (if ltb 5 n then 30 + n else 29 + n) ∷ []
    else (20 + n) ∷ []

unfoldable pub dump_vector_header : Bool → ℕ → List ℕ
dump_vector_header big n =
    if ltb n 9
    then (40 + n) ∷ []
    else if ltb (n - 9) 254
    then 49 ∷ (n - 9) ∷ []
    else if leb (n - 9 - 254) 65535
    then 49 ∷ 254 ∷ dump_short big (pos (n - 9 - 254))
    else 49 ∷ 255 ∷ dump_int big (pos (n - 9 - 254 - 65535 - 1))

-- `dump_literal`. In a list, `run` parts are left to dump before the next operation. The parser
-- makes no list with a tail and no part.
unfoldable mutual
  pub dump_literal : Bool → Literal → Handles → Dumped
  dump_literal big (symbol_literal name) h = dump_symbol big name h
  dump_literal big (integer_literal value) h = (dump_integer big value, h)
  dump_literal big (single_float_literal bits) h = (13 ∷ in_memory big 4 bits, h)
  dump_literal big (double_float_literal bits) h = (14 ∷ in_memory big 8 bits, h)
  dump_literal big (extended_float_literal bits) h = (15 ∷ in_memory big 16 bits, h)
  dump_literal big (character_literal c) h = (12 ∷ c ∷ [], h)
  dump_literal big (string_literal str) h = (dump_string_guts big 16 17 str, h)
  dump_literal big (list_literal parts) h =
      dump_then (list_header false (count parts), h) (dump_run big false 264 parts)
  dump_literal big (dotted_list_literal parts tail) h =
      dump_then (list_header true (count parts), h)
        (λ h1. dump_then (dump_run big true 264 parts h1) (dump_literal big tail))
  dump_literal big (vector_literal parts) h =
      dump_then (dump_vector_header big (count parts), h) (dump_parts big parts)
  dump_literal big true_literal h = (6 ∷ [], h)
  dump_literal big false_literal h = (5 ∷ [], h)
  dump_literal big unbound_literal h = (7 ∷ [], h)

  pub dump_parts : Bool → Literals → Handles → Dumped
  dump_parts big no_literals h = ([], h)
  dump_parts big (literal_next part next) h =
      dump_then (dump_literal big part h) (dump_parts big next)

  pub dump_run : Bool → Bool → ℕ → Literals → Handles → Dumped
  dump_run big dotted run no_literals h = ([], h)
  dump_run big dotted zero (literal_next part next) h =
      dump_then (list_header dotted (count (literal_next part next)), h)
        (λ h1. dump_then (dump_literal big part h1) (dump_run big dotted 263 next))
  dump_run big dotted (suc run) (literal_next part next) h =
      dump_then (dump_literal big part h) (dump_run big dotted run next)
