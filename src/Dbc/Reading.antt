-- ===== src/Dbc/Reading.antt =====
-- Reading back the numbers and the strings of a .dbc file (mindy/interp/load.c).
use gwydion_2_4_cleanup.Prelude.{reversed}
use gwydion_2_4_cleanup.Prelude.{
  ℕ, ◌*◌, ◌^◌, ◌<◌, ◌≡◌, refl, ap, subst, ◌∙◌, List, [], ◌∷◌, ◌++◌, Bool, eqb, not, if◌then◌else◌,
  length, arith,
}
use gwydion_2_4_cleanup.Prelude.Int.{ℤ}
use gwydion_2_4_cleanup.Dbc.Bytes.{
  in_memory, of_memory, unsigned, signed, InRange, length-in_memory, of_memory-in_memory,
  unsigned_bound, signed-unsigned,
}
use gwydion_2_4_cleanup.Dbc.Format.{Read, ok, ◌>>=◌}
use gwydion_2_4_cleanup.Dbc.Dump.{dump_short, dump_int, dump_long}
use gwydion_2_4_cleanup.Dbc.Load.{
  Info, read_bytes, read_ordered_bytes, read_signed, read_short, read_int, read_long,
}

-- The state of the loader before these bytes.
abbrev pub before : Info → List ℕ → Info
before s bytes = record s { input = bytes }

pub read_bytes-append :
    (bytes rest : List ℕ) (s : Info)
    → read_bytes (length bytes) (before s (bytes ++ rest)) ≡ ok (bytes, before s rest)
unfolding read_bytes
read_bytes-append [] rest s = refl
read_bytes-append (b ∷ bytes) rest s =
    ap (λ (o : Read (List ℕ × Info)). o >>= (λ r. ok (b ∷ r.0, r.1)))
      (read_bytes-append bytes rest s)

-- The loader knows whether the bytes have to be turned round.
abbrev pub IsTold : Bool → Bool → Info → Type 0
IsTold writer reader s = s.swap_bytes ≡ not (eqb writer reader)

module _ (writer reader : Bool) (s : Info) (told : IsTold writer reader s) where
  pub read_ordered_lem :
      (n v : ℕ) (rest : List ℕ)
      → v < 256 ^ n
      → read_ordered_bytes reader n (before s (in_memory writer n v ++ rest))
        ≡ ok (v, before s rest)
  unfolding read_ordered_bytes
  read_ordered_lem n v rest h =
      ap
        (λ (o : Read (List ℕ × Info)).
          o >>= (λ r. ok (of_memory reader (if s.swap_bytes then reversed r.0 else r.0), r.1)))
        (subst
          (λ (m : ℕ).
            read_bytes m (before s (in_memory writer n v ++ rest))
            ≡ ok (in_memory writer n v, before s rest))
          (length-in_memory writer n v) (read_bytes-append (in_memory writer n v) rest s))
      ∙ ap (λ (w : ℕ). ok (w, before s rest))
          (ap
              (λ (b : Bool).
                of_memory reader
                  (if b then reversed (in_memory writer n v) else in_memory writer n v))
              told
            ∙ of_memory-in_memory writer reader n v h)

  -- The same for a signed number, of as many values as the bytes have.
  read_signed_lem :
      (n k : ℕ) (v : ℤ) (rest : List ℕ)
      → 0 < k
      → 2 * k ≡ 256 ^ n
      → InRange k v
      → read_signed n k reader (before s (in_memory writer n (unsigned k v) ++ rest))
        ≡ ok (v, before s rest)
  read_signed_lem n k v rest p e h =
      ap (λ (o : Read (ℕ × Info)). o >>= (λ r. ok (signed k r.0, r.1)))
        (read_ordered_lem n (unsigned k v) rest (omega (arith, unsigned_bound k v p, e)))
      ∙ ap (λ (w : ℤ). ok (w, before s rest)) (signed-unsigned k v h)

  pub read_short-dump_short :
      (v : ℤ) (rest : List ℕ)
      → InRange (2 ^ 15) v
      → read_short reader (before s (dump_short writer v ++ rest)) ≡ ok (v, before s rest)
  read_short-dump_short v rest h = read_signed_lem 2 (2 ^ 15) v rest (omega arith) refl h

  pub read_int-dump_int :
      (v : ℤ) (rest : List ℕ)
      → InRange (2 ^ 31) v
      → read_int reader (before s (dump_int writer v ++ rest)) ≡ ok (v, before s rest)
  read_int-dump_int v rest h = read_signed_lem 4 (2 ^ 31) v rest (omega arith) refl h

  pub read_long-dump_long :
      (v : ℤ) (rest : List ℕ)
      → InRange (2 ^ 63) v
      → read_long reader (before s (dump_long writer v ++ rest)) ≡ ok (v, before s rest)
  read_long-dump_long v rest h = read_signed_lem 8 (2 ^ 63) v rest (omega arith) refl h
