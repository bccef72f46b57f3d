-- ===== src/Tests/Files.antt =====
-- The theorems on .dbc files (mindy/comp/dump.c and mindy/interp/load.c) at concrete literals.
use gwydion_2_4_cleanup.Prelude.{
  ℕ, ◌^◌, ◌≡◌, ◌≤◌, refl, List, [], ◌∷◌, ◌++◌, none, some, true, false, ◌==◌, ltb, not, ◌&&◌, ◌%◌,
  arith,
}
use gwydion_2_4_cleanup.Prelude.Int.{pos, negsuc, ◌-ℤ◌}
use gwydion_2_4_cleanup.Dbc.Format.{
  Literal, symbol_literal, integer_literal, string_literal, dotted_list_literal, vector_literal,
  no_literals, literal_next, ok, fixnum, nil, false_object,
}
use gwydion_2_4_cleanup.Dbc.Dump.{Handles, dump_literal, dump_symbol, dump_symbol_at, dump_header}
use gwydion_2_4_cleanup.Dbc.Load.{Info, read_thing, store}
use gwydion_2_4_cleanup.Dbc.Reading.{before}
use gwydion_2_4_cleanup.Dbc.Symbols.{Agrees}
use gwydion_2_4_cleanup.Dbc.Table.{is_overrun, store-is_overrun}
use gwydion_2_4_cleanup.Dbc.Literals.{loaded, IsDumpable, fuel_for}
use gwydion_2_4_cleanup.Dbc.RoundTrip.{read_thing-dump_literal}
use gwydion_2_4_cleanup.Dbc.Opening.{read_thing-dump_header, integer_literal_wraps}

-- The symbol "ab", the integer -300, a vector of the same symbol, and a string as the tail.
abbrev name : List ℕ
name = b'a' ∷ b'b' ∷ []

abbrev sample : Literal
sample =
    dotted_list_literal
      (literal_next (symbol_literal name) (
        literal_next (integer_literal (negsuc 299)) (
          literal_next (vector_literal (literal_next (symbol_literal name) no_literals))
            no_literals)))
      (string_literal (b'x' ∷ []))

abbrev no_handles : Handles
no_handles = record { table_index = 0; handle = λ symbol. none }

-- A loader that turns bytes round.
abbrev fresh : Info
fresh = record {
  input = [];
  table = λ index. none;
  table_size = 0;
  next_handle = 0;
  swap_bytes = true;
}

fresh-Agrees : Agrees true false no_handles fresh
fresh-Agrees = (refl, refl, λ other k e. cc e)

sample-IsDumpable : IsDumpable sample
unfolding IsDumpable
sample-IsDumpable = (
  omega arith,
  omega arith,
  (omega arith, ((omega arith, omega arith), ((omega arith, (omega arith, tt)), tt))),
  omega arith,
)

sample_fuel : fuel_for sample ≤ 10
unfolding fuel_for
sample_fuel = omega arith

sample_handles : (dump_literal true sample no_handles).1.table_index ≤ 16384
unfolding dump_literal dump_symbol dump_symbol_at
sample_handles = omega arith

read_thing-dump_literal_example :
    (s' : Info) × (read_thing 10 false
        (before fresh ((dump_literal true sample no_handles).0 ++ 255 ∷ []))
      ≡ ok (loaded sample, before s' (255 ∷ [])))
    × Agrees true false (dump_literal true sample no_handles).1 s'
read_thing-dump_literal_example =
    read_thing-dump_literal true false sample 10 (255 ∷ []) no_handles fresh sample-IsDumpable
      sample_fuel fresh-Agrees sample_handles

read_thing-dump_header_example :
    read_thing 1 false (before fresh (dump_header true ++ 255 ∷ []))
    ≡ ok (false_object, before (record fresh { swap_bytes = true }) (255 ∷ []))
read_thing-dump_header_example = read_thing-dump_header true false 0 (255 ∷ []) fresh

integer_literal_wraps_example :
    read_thing 1 false
      (before fresh ((dump_literal true (integer_literal (pos (2 ^ 62))) no_handles).0 ++ []))
    ≡ ok (fixnum (pos (2 ^ 62) -ℤ pos (2 ^ 63)), before fresh [])
integer_literal_wraps_example =
    integer_literal_wraps true false (pos (2 ^ 62)) 0 [] no_handles fresh refl (omega arith)
      (omega arith)

-- A table that is full when the handle 16384 comes.
abbrev full : Info
full = record {
  input = [];
  table = λ index. some nil;
  table_size = 16384;
  next_handle = 16384;
  swap_bytes = false;
}

store-is_overrun_example :
    is_overrun (store nil 16384 full)
    ≡ (not (ltb 16384 16384) && (not (ltb 16384 16384) && (16384 % 16384 == 0)))
store-is_overrun_example = store-is_overrun nil 16384 full
