-- ===== src/Dbc/Leaves.antt =====
-- Literals without parts, from mindy/comp/dump.c to mindy/interp/load.c.
use gwydion_2_4_cleanup.Prelude.{
  ℕ, zero, suc, ◌^◌, ◌<◌, refl, ap, ◌∙◌, List, [], ◌∷◌, Bool, ltb, length, Bool-cases, inl, inr,
  arith,
}
use gwydion_2_4_cleanup.Prelude.Int.{ℤ, pos, negsuc}
use gwydion_2_4_cleanup.Fixnum.{IsFixnum}
use gwydion_2_4_cleanup.Fixnum.Laws.{make_fixnum_lem}
use gwydion_2_4_cleanup.Dbc.Bytes.{in_memory, InRange}
use gwydion_2_4_cleanup.Dbc.Format.{
  symbol_literal, integer_literal, single_float_literal, double_float_literal,
  extended_float_literal, character_literal, string_literal, true_literal, false_literal,
  unbound_literal, fixnum, character, single_float, double_float, extended_float, byte_string,
  true_object, false_object, unbound, Read, ok, ◌>>=◌,
}
use gwydion_2_4_cleanup.Dbc.Dump.{dump_literal, dump_integer, dump_string_guts}
use gwydion_2_4_cleanup.Dbc.Load.{Info, read_thing, perform, read_byte}
use gwydion_2_4_cleanup.Dbc.Reading.{before, read_ordered_lem}
use gwydion_2_4_cleanup.Dbc.Atoms.{
  read_thing-dump_integer, short_string-append, long_string-dump_int,
}
use gwydion_2_4_cleanup.Dbc.Symbols.{dump_symbol-Loads, dump_symbol_grows}
use gwydion_2_4_cleanup.Dbc.Literals.{loaded, fuel_for}
use gwydion_2_4_cleanup.Dbc.Sequence.{Reads-bytes}
use gwydion_2_4_cleanup.Dbc.Lists.{Good}

IsFixnum-InRange : (v : ℤ) → IsFixnum v → InRange (2 ^ 63) v
IsFixnum-InRange (pos n) h = ground arith
IsFixnum-InRange (negsuc n) h = ground arith

module _ (writer reader : Bool) where
  pub integer-Good : (v : ℤ) → IsFixnum v → Good writer reader (integer_literal v)
  unfolding dump_literal loaded fuel_for
  integer-Good v q zero l = absurd (omega arith)
  integer-Good v q (suc fuel) l =
      Reads-bytes writer reader (dump_integer writer v) (read_thing (suc fuel) reader) (fixnum v)
        λ rest h s a.
          read_thing-dump_integer writer reader s a.0 v (IsFixnum-InRange v q) fuel rest
          ∙ ap (λ (w : ℤ). ok (fixnum w, before s rest)) (make_fixnum_lem v q)

  pub single-Good : (bits : ℕ) → bits < 256 ^ 4 → Good writer reader (single_float_literal bits)
  unfolding dump_literal loaded fuel_for read_thing perform read_byte
  single-Good bits q zero l = absurd (omega arith)
  single-Good bits q (suc fuel) l =
      Reads-bytes writer reader (13 ∷ in_memory writer 4 bits) (read_thing (suc fuel) reader)
        (single_float bits)
        λ rest h s a.
          ap (λ (o : Read (ℕ × Info)). o >>= (λ r. ok (single_float r.0, r.1)))
            (read_ordered_lem writer reader s a.0 4 bits rest q)

  pub double-Good : (bits : ℕ) → bits < 256 ^ 8 → Good writer reader (double_float_literal bits)
  unfolding dump_literal loaded fuel_for read_thing perform read_byte
  double-Good bits q zero l = absurd (omega arith)
  double-Good bits q (suc fuel) l =
      Reads-bytes writer reader (14 ∷ in_memory writer 8 bits) (read_thing (suc fuel) reader)
        (double_float bits)
        λ rest h s a.
          ap (λ (o : Read (ℕ × Info)). o >>= (λ r. ok (double_float r.0, r.1)))
            (read_ordered_lem writer reader s a.0 8 bits rest q)

  pub extended-Good :
      (bits : ℕ) → bits < 256 ^ 16 → Good writer reader (extended_float_literal bits)
  unfolding dump_literal loaded fuel_for read_thing perform read_byte
  extended-Good bits q zero l = absurd (omega arith)
  extended-Good bits q (suc fuel) l =
      Reads-bytes writer reader (15 ∷ in_memory writer 16 bits) (read_thing (suc fuel) reader)
        (extended_float bits)
        λ rest h s a.
          ap (λ (o : Read (ℕ × Info)). o >>= (λ r. ok (extended_float r.0, r.1)))
            (read_ordered_lem writer reader s a.0 16 bits rest q)

  pub string-Good : (str : List ℕ) → length str < 2 ^ 31 → Good writer reader (string_literal str)
  unfolding dump_literal loaded fuel_for read_thing perform read_byte dump_string_guts
  string-Good str q zero l = absurd (omega arith)
  string-Good str q (suc fuel) l =
      Reads-bytes writer reader (dump_string_guts writer 16 17 str) (read_thing (suc fuel) reader)
        (byte_string str)
        λ rest h s a. elim (Bool-cases (ltb (length str) 256)) [
          | inl e ↦ rw e (
              ap (λ (o : Read (List ℕ × Info)). o >>= (λ r. ok (byte_string r.0, r.1)))
                (short_string-append writer reader s a.0 str rest))
          | inr e ↦ rw e (
              ap (λ (o : Read (List ℕ × Info)). o >>= (λ r. ok (byte_string r.0, r.1)))
                (long_string-dump_int writer reader s a.0 str rest q))
        ]

  pub symbol-Good :
      (name : List ℕ) → length name < 2 ^ 31 → Good writer reader (symbol_literal name)
  unfolding dump_literal loaded fuel_for
  symbol-Good name q zero l = absurd (omega arith)
  symbol-Good name q (suc fuel) l = (
    λ h. dump_symbol_grows writer h name,
    λ rest h s a m. dump_symbol-Loads writer reader h s a fuel name rest m q,
  )

  pub character-Good : (c : ℕ) → Good writer reader (character_literal c)
  unfolding dump_literal loaded fuel_for read_thing perform read_byte
  character-Good c zero l = absurd (omega arith)
  character-Good c (suc fuel) l =
      Reads-bytes writer reader (12 ∷ c ∷ []) (read_thing (suc fuel) reader) (character c)
        λ rest h s a. refl

  pub true-Good : Good writer reader true_literal
  unfolding dump_literal loaded fuel_for read_thing perform read_byte
  true-Good zero l = absurd (omega arith)
  true-Good (suc fuel) l =
      Reads-bytes writer reader (6 ∷ []) (read_thing (suc fuel) reader) true_object
        λ rest h s a. refl

  pub false-Good : Good writer reader false_literal
  unfolding dump_literal loaded fuel_for read_thing perform read_byte
  false-Good zero l = absurd (omega arith)
  false-Good (suc fuel) l =
      Reads-bytes writer reader (5 ∷ []) (read_thing (suc fuel) reader) false_object
        λ rest h s a. refl

  pub unbound-Good : Good writer reader unbound_literal
  unfolding dump_literal loaded fuel_for read_thing perform read_byte
  unbound-Good zero l = absurd (omega arith)
  unbound-Good (suc fuel) l =
      Reads-bytes writer reader (7 ∷ []) (read_thing (suc fuel) reader) unbound λ rest h s a. refl
