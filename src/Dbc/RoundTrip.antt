-- ===== src/Dbc/RoundTrip.antt =====
-- Literals, from mindy/comp/dump.c to mindy/interp/load.c.
use gwydion_2_4_cleanup.Prelude.{
  ℕ, zero, suc, ◌^◌, ◌≤◌, ◌<◌, ◌≡◌, sym, List, [], ◌++◌, Bool, true, false, arith,
}
use gwydion_2_4_cleanup.Dbc.Format.{
  Literal, symbol_literal, integer_literal, single_float_literal, double_float_literal,
  extended_float_literal, character_literal, string_literal, list_literal, dotted_list_literal,
  vector_literal, true_literal, false_literal, unbound_literal, Literals, no_literals, literal_next,
  nil, vector, ok,
}
use gwydion_2_4_cleanup.Dbc.Dump.{
  Handles, count, dump_then, dump_literal, dump_parts, dump_run, dump_vector_header, list_header,
}
use gwydion_2_4_cleanup.Dbc.Load.{Info, pairs, read_thing, read_things, read_vector}
use gwydion_2_4_cleanup.Dbc.Reading.{before}
use gwydion_2_4_cleanup.Dbc.Symbols.{Agrees}
use gwydion_2_4_cleanup.Dbc.Literals.{loaded, loaded_parts, fuel_for, IsDumpable, AreDumpable}
use gwydion_2_4_cleanup.Dbc.Sequence.{
  Reads-ok, Reads-map, Reads-prefix, Reads-same, dump_then_nothing, dump_then_assoc,
}
use gwydion_2_4_cleanup.Dbc.Headers.{vector_header}
use gwydion_2_4_cleanup.Dbc.Lists.{Good, AllGood, parts_read}
use gwydion_2_4_cleanup.Dbc.Runs.{list-Reads}
use gwydion_2_4_cleanup.Dbc.Leaves.{
  integer-Good, single-Good, double-Good, extended-Good, string-Good, symbol-Good, character-Good,
  true-Good, false-Good, unbound-Good,
}

module _ (writer reader : Bool) where
  list-Good :
      (parts : Literals) → AllGood writer reader parts → Good writer reader (list_literal parts)
  unfolding dump_literal loaded fuel_for
  list-Good parts g zero l = absurd (omega arith)
  list-Good parts g (suc fuel) l =
      Reads-same writer reader
        (λ h.
          dump_then
            (dump_then (list_header false (count parts), h) (dump_run writer false 264 parts))
            (λ h1. ([], h1)))
        (dump_literal writer (list_literal parts)) (read_thing (suc fuel) reader)
        (pairs (loaded_parts parts) nil)
        (λ h.
          dump_then_nothing
            (dump_then (list_header false (count parts), h) (dump_run writer false 264 parts)))
        (list-Reads writer reader false (λ h1. ([], h1)) nil fuel 0 parts g (λ q. cc q)
          (omega (arith, l)) (λ more m. Reads-ok writer reader nil))

  dotted_list-Good :
      (parts : Literals) (tail : Literal)
      → 0 < count parts
      → AllGood writer reader parts
      → Good writer reader tail
      → Good writer reader (dotted_list_literal parts tail)
  unfolding dump_literal loaded fuel_for
  dotted_list-Good parts tail p g t zero l = absurd (omega arith)
  dotted_list-Good parts tail p g t (suc fuel) l =
      Reads-same writer reader
        (λ h.
          dump_then (dump_then (list_header true (count parts), h) (dump_run writer true 264 parts))
            (dump_literal writer tail))
        (dump_literal writer (dotted_list_literal parts tail)) (read_thing (suc fuel) reader)
        (pairs (loaded_parts parts) (loaded tail))
        (λ h. sym (
          dump_then_assoc (list_header true (count parts), h) (dump_run writer true 264 parts)
            (dump_literal writer tail)))
        (list-Reads writer reader true (dump_literal writer tail) (loaded tail) fuel (fuel_for tail)
          parts g (λ q. p) (omega (arith, l)) t)

  vector-Good :
      (parts : Literals)
      → count parts < 2 ^ 31
      → AllGood writer reader parts
      → Good writer reader (vector_literal parts)
  unfolding dump_literal loaded fuel_for read_vector
  vector-Good parts b g zero l = absurd (omega arith)
  vector-Good parts b g (suc fuel) l =
      Reads-prefix writer reader (dump_vector_header writer (count parts)) (dump_parts writer parts)
        (read_thing (suc fuel) reader) (read_vector (read_thing fuel reader) (count parts))
        (vector (loaded_parts parts))
        (λ more h s a. vector_header reader fuel s more writer (count parts) a.0 b)
        (Reads-map writer reader (dump_parts writer parts)
          (read_things (read_thing fuel reader) (count parts)) vector (loaded_parts parts)
          (parts_read writer reader parts fuel g (omega (arith, l))))

  mutual
    unfolding IsDumpable

    good : (l : Literal) → IsDumpable l → Good writer reader l
    good (symbol_literal name) q = symbol-Good writer reader name q
    good (integer_literal v) q = integer-Good writer reader v q
    good (single_float_literal bits) q = single-Good writer reader bits q
    good (double_float_literal bits) q = double-Good writer reader bits q
    good (extended_float_literal bits) q = extended-Good writer reader bits q
    good (character_literal c) q = character-Good writer reader c
    good (string_literal str) q = string-Good writer reader str q
    good (list_literal parts) (b, q) = list-Good parts (all_good parts q)
    good (dotted_list_literal parts tail) (p, b, q, t) =
        dotted_list-Good parts tail p (all_good parts q) (good tail t)
    good (vector_literal parts) (b, q) = vector-Good parts b (all_good parts q)
    good true_literal q = true-Good writer reader
    good false_literal q = false-Good writer reader
    good unbound_literal q = unbound-Good writer reader

    all_good : (ls : Literals) → AreDumpable ls → AllGood writer reader ls
    all_good no_literals q = tt
    all_good (literal_next part next) (q, qs) = (good part q, all_good next qs)

-- Whatever the byte orders of the two machines are, `read_thing` gives for the bytes of a literal the
-- object that the literal stands for, and stands behind them then, if the loader knows the writer's
-- order, dumper and loader agree on the handles, no more than 16384 of these are given, integers are
-- fixnums, characters are bytes, floats have their sizes, lengths fit in an `int`, lists with a tail have a part, and there
-- is as much fuel as there are literals, and parts, in it. Dumper and loader agree afterwards.
pub read_thing-dump_literal :
    (writer reader : Bool) (literal : Literal) (fuel : ℕ) (rest : List ℕ) (h : Handles) (s : Info)
    → IsDumpable literal
    → fuel_for literal ≤ fuel
    → Agrees writer reader h s
    → (dump_literal writer literal h).1.table_index ≤ 16384
    → (s' : Info) × (read_thing fuel reader (before s ((dump_literal writer literal h).0 ++ rest))
        ≡ ok (loaded literal, before s' rest))
      × Agrees writer reader (dump_literal writer literal h).1 s'
read_thing-dump_literal writer reader literal fuel rest h s q l a m =
    (good writer reader literal q fuel l).1 rest h s a m
