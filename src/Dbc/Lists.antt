-- ===== src/Dbc/Lists.antt =====
-- The parts of a list in a .dbc file, and its runs, as mindy/comp/dump.c writes them.
use gwydion_2_4_cleanup.Prelude.{
  ℕ, zero, suc, ◌+◌, ◌≤◌, ◌<◌, ◌≡◌, refl, sym, ap, ◌∙◌, ◌++◌, Bool, arith,
}
use gwydion_2_4_cleanup.Dbc.Format.{
  Literal, Literals, no_literals, literal_next, Object, pair, no_objects, object_next, ok, ◌>>=◌,
}
use gwydion_2_4_cleanup.Dbc.Dump.{
  Handles, Dumped, count, dump_then, dump_literal, dump_parts, dump_run, list_header,
}
use gwydion_2_4_cleanup.Dbc.Load.{pairs, read_thing, read_things}
use gwydion_2_4_cleanup.Dbc.Literals.{loaded, loaded_parts, fuel_for, fuel_for_parts}
use gwydion_2_4_cleanup.Dbc.Sequence.{Reads, Reads-ok, Reads-then, Reads-map, dump_then_assoc}

-- `ls` without its first `n` literals, and these.
abbrev pub first : ℕ → Literals → Literals
first zero ls = no_literals
first (suc n) no_literals = no_literals
first (suc n) (literal_next part next) = literal_next part (first n next)

abbrev pub behind : ℕ → Literals → Literals
behind zero ls = ls
behind (suc n) no_literals = no_literals
behind (suc n) (literal_next part next) = behind n next

pub count-first : (n : ℕ) (ls : Literals) → n ≤ count ls → count (first n ls) ≡ n
count-first zero ls h = refl
count-first (suc n) no_literals h = absurd (omega arith)
count-first (suc n) (literal_next part next) h = ap suc (count-first n next (omega arith))

pub count-behind : (n : ℕ) (ls : Literals) → n ≤ count ls → count (behind n ls) + n ≡ count ls
count-behind zero ls h = omega arith
count-behind (suc n) no_literals h = absurd (omega arith)
count-behind (suc n) (literal_next part next) h = omega (arith, count-behind n next (omega arith))

pub fuel_for-first :
    (n : ℕ) (ls : Literals)
    → n ≤ count ls
    → fuel_for_parts (first n ls) + fuel_for_parts (behind n ls) ≡ fuel_for_parts ls
unfolding fuel_for
fuel_for-first zero ls h = omega arith
fuel_for-first (suc n) no_literals h = absurd (omega arith)
fuel_for-first (suc n) (literal_next part next) h =
    omega (arith, fuel_for-first n next (omega arith))

pub count-fuel_for : (ls : Literals) → count ls ≤ fuel_for_parts ls
unfolding fuel_for
count-fuel_for no_literals = omega arith
count-fuel_for (literal_next part next) = omega (arith, count-fuel_for next)

pub pairs-first :
    (n : ℕ) (ls : Literals) (end : Object)
    → pairs (loaded_parts (first n ls)) (pairs (loaded_parts (behind n ls)) end)
      ≡ pairs (loaded_parts ls) end
unfolding loaded
pairs-first zero ls end = refl
pairs-first (suc n) no_literals end = refl
pairs-first (suc n) (literal_next part next) end = ap (pair (loaded part)) (pairs-first n next end)

module _ (writer reader : Bool) where
  -- With enough fuel the literal is read as what it stands for.
  abbrev pub Good : Literal → Type 0
  Good part =
      (fuel : ℕ)
      → fuel_for part ≤ fuel
      → Reads writer reader (dump_literal writer part) (read_thing fuel reader) (loaded part)

  abbrev pub AllGood : Literals → Type 0
  AllGood no_literals = Unit
  AllGood (literal_next part next) = Good part × AllGood next

  pub first-AllGood : (n : ℕ) (ls : Literals) → AllGood ls → AllGood (first n ls)
  first-AllGood zero ls g = tt
  first-AllGood (suc n) no_literals g = tt
  first-AllGood (suc n) (literal_next part next) (g, gs) = (g, first-AllGood n next gs)

  pub behind-AllGood : (n : ℕ) (ls : Literals) → AllGood ls → AllGood (behind n ls)
  behind-AllGood zero ls g = g
  behind-AllGood (suc n) no_literals g = tt
  behind-AllGood (suc n) (literal_next part next) (g, gs) = behind-AllGood n next gs

  pub parts_read :
      (ls : Literals) (fuel : ℕ)
      → AllGood ls
      → fuel_for_parts ls ≤ fuel
      → Reads writer reader
          (dump_parts writer ls)
          (read_things (read_thing fuel reader) (count ls))
          (loaded_parts ls)
  unfolding dump_literal loaded fuel_for read_things
  parts_read no_literals fuel g l = Reads-ok writer reader no_objects
  parts_read (literal_next part next) fuel (g, gs) l =
      Reads-then writer reader (dump_literal writer part) (dump_parts writer next)
        (read_thing fuel reader)
        (λ new s.
          read_things (read_thing fuel reader) (count next) s
          >>= (λ rest. ok (object_next new rest.0, rest.1)))
        (loaded part) (object_next (loaded part) (loaded_parts next)) (g fuel (omega (arith, l)))
        (Reads-map writer reader (dump_parts writer next)
          (read_things (read_thing fuel reader) (count next)) (object_next (loaded part))
          (loaded_parts next) (parts_read next fuel gs (omega (arith, l))))

  -- A run that is long enough for the rest of the list.
  pub last_run :
      (dotted : Bool) (run : ℕ) (ls : Literals) (h : Handles)
      → count ls ≤ run
      → dump_parts writer ls h ≡ dump_run writer dotted run ls h
  unfolding dump_literal
  last_run dotted run no_literals h l = refl
  last_run dotted zero (literal_next part next) h l = absurd (omega arith)
  last_run dotted (suc run) (literal_next part next) h l =
      ap (λ (x : Dumped). ((dump_literal writer part h).0 ++ x.0, x.1))
        (last_run dotted run next (dump_literal writer part h).1 (omega arith))

  -- A run that is not: the parts of the run, and the rest as a list of its own.
  abbrev pub listed : Bool → Literals → Handles → Dumped
  listed dotted ls h = dump_then (list_header dotted (count ls), h) (dump_run writer dotted 264 ls)

  pub first_run :
      (dotted : Bool) (run : ℕ) (ls : Literals) (h : Handles)
      → run < count ls
      → dump_then (dump_parts writer (first run ls) h) (listed dotted (behind run ls))
        ≡ dump_run writer dotted run ls h
  unfolding dump_literal
  first_run dotted run no_literals h l = absurd (omega arith)
  first_run dotted zero (literal_next part next) h l = refl
  first_run dotted (suc run) (literal_next part next) h l =
      sym (
        dump_then_assoc (dump_literal writer part h) (dump_parts writer (first run next))
          (listed dotted (behind run next)))
      ∙ ap (λ (x : Dumped). ((dump_literal writer part h).0 ++ x.0, x.1))
          (first_run dotted run next (dump_literal writer part h).1 (omega arith))
