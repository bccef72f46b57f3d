-- ===== src/Dbc/Atoms.antt =====
-- Integers and strings of a .dbc file, from mindy/comp/dump.c to mindy/interp/load.c.
use gwydion_2_4_cleanup.Prelude.{append_assoc}
use gwydion_2_4_cleanup.Prelude.{
  ℕ, suc, ◌^◌, ◌<◌, ◌≡◌, ap, ◌∙◌, List, [], ◌∷◌, ◌++◌, Bool, true, length, Bool-cases, inl, inr,
  arith,
}
use gwydion_2_4_cleanup.Prelude.Int.{ℤ, pos, negsuc}
use gwydion_2_4_cleanup.Fixnum.{make_fixnum}
use gwydion_2_4_cleanup.Dbc.Bytes.{unsigned, InRange, signed-unsigned}
use gwydion_2_4_cleanup.Dbc.Format.{Read, ok, ◌>>=◌, Object, fixnum}
use gwydion_2_4_cleanup.Dbc.Dump.{dump_short, dump_int, dump_long, dump_integer, fits_in}
use gwydion_2_4_cleanup.Dbc.Load.{
  Info, read_byte, read_bytes, read_thing, perform, short_string, long_string, with_length,
}
use gwydion_2_4_cleanup.Dbc.Reading.{
  before, IsTold, read_bytes-append, read_short-dump_short, read_int-dump_int, read_long-dump_long,
}

fits_in-InRange : (k : ℕ) (v : ℤ) → fits_in k v ≡ true → InRange k v
fits_in-InRange k (pos n) h = ground arith
fits_in-InRange k (negsuc n) h = ground arith

module _ (writer reader : Bool) (s : Info) (told : IsTold writer reader s) where
  -- What `read_thing` is to give for these bytes.
  abbrev Gives : List ℕ → ℤ → Type 0
  Gives bytes v =
      (fuel : ℕ) (rest : List ℕ)
      → read_thing (suc fuel) reader (before s (bytes ++ rest))
        ≡ ok (fixnum (make_fixnum v), before s rest)

  abbrev as_fixnum : Read (ℤ × Info) → Read (Object × Info)
  as_fixnum o = o >>= (λ r. ok (fixnum (make_fixnum r.0), r.1))

  Gives-byte : (v : ℤ) → InRange (2 ^ 7) v → Gives (8 ∷ unsigned (2 ^ 7) v ∷ []) v
  unfolding read_thing perform read_byte
  Gives-byte v h fuel rest =
      ap (λ (w : ℤ). ok (fixnum (make_fixnum w), before s rest)) (signed-unsigned (2 ^ 7) v h)

  Gives-short : (v : ℤ) → InRange (2 ^ 15) v → Gives (9 ∷ dump_short writer v) v
  unfolding read_thing perform read_byte
  Gives-short v h fuel rest = ap as_fixnum (read_short-dump_short writer reader s told v rest h)

  Gives-int : (v : ℤ) → InRange (2 ^ 31) v → Gives (10 ∷ dump_int writer v) v
  unfolding read_thing perform read_byte
  Gives-int v h fuel rest = ap as_fixnum (read_int-dump_int writer reader s told v rest h)

  Gives-long : (v : ℤ) → InRange (2 ^ 63) v → Gives (11 ∷ dump_long writer v) v
  unfolding read_thing perform read_byte
  Gives-long v h fuel rest = ap as_fixnum (read_long-dump_long writer reader s told v rest h)

  -- Any `long` is read as the fixnum that `make_fixnum` makes of it.
  pub read_thing-dump_integer : (v : ℤ) → InRange (2 ^ 63) v → Gives (dump_integer writer v) v
  unfolding dump_integer
  read_thing-dump_integer v h = elim (Bool-cases (fits_in (2 ^ 7) v)) [
    | inl a ↦ rw a (Gives-byte v (fits_in-InRange (2 ^ 7) v a))
    | inr a ↦ elim (Bool-cases (fits_in (2 ^ 15) v)) [
      | inl b ↦ rw (a, b) (Gives-short v (fits_in-InRange (2 ^ 15) v b))
      | inr b ↦ elim (Bool-cases (fits_in (2 ^ 31) v)) [
        | inl c ↦ rw (a, b, c) (Gives-int v (fits_in-InRange (2 ^ 31) v c))
        | inr c ↦ rw (a, b, c) (Gives-long v h)
      ]
    ]
  ]

  pub short_string-append :
      (str rest : List ℕ)
      → short_string (before s (length str ∷ str ++ rest)) ≡ ok (str, before s rest)
  unfolding short_string read_byte
  short_string-append str rest = read_bytes-append str rest s

  pub long_string-dump_int :
      (str rest : List ℕ)
      → length str < 2 ^ 31
      → long_string reader (before s ((dump_int writer (pos (length str)) ++ str) ++ rest))
        ≡ ok (str, before s rest)
  unfolding long_string
  long_string-dump_int str rest h =
      ap (λ (bs : List ℕ). long_string reader (before s bs))
        (append_assoc (dump_int writer (pos (length str))) str rest)
      ∙ ap (λ (o : Read (ℤ × Info)). o >>= (λ n. with_length n.0 (λ len. read_bytes len n.1)))
          (read_int-dump_int writer reader s told (pos (length str)) (str ++ rest) h)
      ∙ read_bytes-append str rest s
