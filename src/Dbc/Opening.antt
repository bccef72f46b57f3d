-- ===== src/Dbc/Opening.antt =====
-- The beginning of a .dbc file, and integers that are too large for the loader (mindy/interp/load.c).
use gwydion_2_4_cleanup.Prelude.{
  ℕ, suc, ◌^◌, ◌≡◌, refl, ap, ◌∙◌, List, ◌++◌, Bool, true, false, eqb, not, arith,
}
use gwydion_2_4_cleanup.Prelude.Int.{ℤ, pos, negsuc, ◌<ℤ◌, ◌-ℤ◌}
use gwydion_2_4_cleanup.Fixnum.{max_fixnum}
use gwydion_2_4_cleanup.Fixnum.Laws.{make_fixnum_above}
use gwydion_2_4_cleanup.Dbc.Bytes.{InRange}
use gwydion_2_4_cleanup.Dbc.Format.{ok, fixnum, false_object, integer_literal}
use gwydion_2_4_cleanup.Dbc.Dump.{dump_header, dump_literal, Handles}
use gwydion_2_4_cleanup.Dbc.Load.{
  Info, read_thing, read_header, perform, read_byte, check_size, read_bytes, read_ordered_bytes,
}
use gwydion_2_4_cleanup.Dbc.Reading.{before, IsTold}
use gwydion_2_4_cleanup.Dbc.Atoms.{read_thing-dump_integer}

-- The header of a file is accepted, whatever the byte orders of the two machines are, and tells the
-- loader to turn bytes round if and only if the orders differ.
pub read_thing-dump_header :
    (writer reader : Bool) (fuel : ℕ) (rest : List ℕ) (s : Info)
    → read_thing (suc fuel) reader (before s (dump_header writer ++ rest))
      ≡ ok (false_object, before (record s { swap_bytes = not (eqb writer reader) }) rest)
unfolding dump_header read_thing perform read_header read_byte check_size read_bytes
    read_ordered_bytes
read_thing-dump_header true true fuel rest s = refl
read_thing-dump_header true false fuel rest s = refl
read_thing-dump_header false true fuel rest s = refl
read_thing-dump_header false false fuel rest s = refl

large-InRange : (v : ℤ) → max_fixnum <ℤ v → v <ℤ pos (2 ^ 63) → InRange (2 ^ 63) v
large-InRange (pos n) h l = omega (arith, l)
large-InRange (negsuc n) h l = omega (arith, h)

-- An integer literal above the largest fixnum is read as another number, which is 2 ^ 63 less.
pub integer_literal_wraps :
    (writer reader : Bool) (v : ℤ) (fuel : ℕ) (rest : List ℕ) (h : Handles) (s : Info)
    → IsTold writer reader s
    → max_fixnum <ℤ v
    → v <ℤ pos (2 ^ 63)
    → read_thing
        (suc fuel)
        reader
        (before s ((dump_literal writer (integer_literal v) h).0 ++ rest))
      ≡ ok (fixnum (v -ℤ pos (2 ^ 63)), before s rest)
unfolding dump_literal
integer_literal_wraps writer reader v fuel rest h s told a b =
    read_thing-dump_integer writer reader s told v (large-InRange v a b) fuel rest
    ∙ ap (λ (w : ℤ). ok (fixnum w, before s rest)) (make_fixnum_above v a b)
