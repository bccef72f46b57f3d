-- ===== src/Dbc/Headers.antt =====
-- The operations before lists and vectors in a .dbc file, as mindy/interp/load.c reads them.
use gwydion_2_4_cleanup.Prelude.{
  ℕ, zero, suc, ◌+◌, ◌-◌, ◌%◌, ◌^◌, ◌≤◌, ◌<◌, ◌≡◌, refl, ap, ◌∙◌, List, ◌++◌, Bool, true, false,
  ◌==◌, ltb, leb, Bool-cases, inl, inr, arith, lt→ltb,
}
use gwydion_2_4_cleanup.Prelude.Int.{ℤ, pos, ◌+ℤ◌}
use gwydion_2_4_cleanup.Dbc.Format.{Read, ◌>>=◌}
use gwydion_2_4_cleanup.Dbc.Dump.{list_header, dump_vector_header}
use gwydion_2_4_cleanup.Dbc.Load.{
  Info, read_thing, perform, read_byte, read_list, read_things, read_vector, vector_length,
  with_length,
}
use gwydion_2_4_cleanup.Dbc.Reading.{before, IsTold, read_ordered_lem, read_int-dump_int}
use native.Mathlib.Nat.{mod-eq_of_lt}

pos_sum : (m k : ℕ) → pos m +ℤ pos k ≡ pos (m + k)
unfolding ◌+ℤ◌
pos_sum m k = ground arith

module _ (reader : Bool) (fuel : ℕ) (s : Info) (more : List ℕ) where
  -- The operation reads so many parts.
  abbrev Begins : Bool → ℕ → Type 0
  Begins dotted n =
      read_thing (suc fuel) reader (before s (list_header dotted n ++ more))
      ≡ read_list (read_thing fuel reader) n dotted (before s more)

  short_list : (n : ℕ) → n < 9 → Begins false n
  unfolding list_header read_thing perform read_byte read_list read_things
  short_list zero h = refl
  short_list (suc zero) h = refl
  short_list (suc (suc zero)) h = refl
  short_list (suc (suc (suc zero))) h = refl
  short_list (suc (suc (suc (suc zero)))) h = refl
  short_list (suc (suc (suc (suc (suc zero))))) h = refl
  short_list (suc (suc (suc (suc (suc (suc zero)))))) h = refl
  short_list (suc (suc (suc (suc (suc (suc (suc zero))))))) h = refl
  short_list (suc (suc (suc (suc (suc (suc (suc (suc zero)))))))) h = refl
  short_list (suc (suc (suc (suc (suc (suc (suc (suc (suc n))))))))) h = absurd (omega arith)

  short_dotted_list : (n : ℕ) → 0 < n → n < 9 → Begins true n
  unfolding list_header read_thing perform read_byte
  short_dotted_list zero p h = absurd (omega arith)
  short_dotted_list (suc zero) p h = refl
  short_dotted_list (suc (suc zero)) p h = refl
  short_dotted_list (suc (suc (suc zero))) p h = refl
  short_dotted_list (suc (suc (suc (suc zero)))) p h = refl
  short_dotted_list (suc (suc (suc (suc (suc zero))))) p h = refl
  short_dotted_list (suc (suc (suc (suc (suc (suc zero)))))) p h = refl
  short_dotted_list (suc (suc (suc (suc (suc (suc (suc zero))))))) p h = refl
  short_dotted_list (suc (suc (suc (suc (suc (suc (suc (suc zero)))))))) p h = refl
  short_dotted_list (suc (suc (suc (suc (suc (suc (suc (suc (suc n))))))))) p h =
      absurd (omega arith)

  long_list : (dotted : Bool) (n : ℕ) → 8 < n → n ≤ 264 → Begins dotted n
  unfolding list_header read_thing perform read_byte
  long_list true n h l =
      let a : ltb 264 n ≡ false = ground arith in
      let b : ltb 8 n ≡ true = ground arith in
      let same : n - 9 + 9 ≡ n = omega arith in
      rw (a, b) (ap (λ (m : ℕ). read_list (read_thing fuel reader) m true (before s more)) same)
  long_list false n h l =
      let a : ltb 264 n ≡ false = ground arith in
      let b : ltb 8 n ≡ true = ground arith in
      let same : n - 9 + 9 ≡ n = omega arith in
      rw (a, b) (ap (λ (m : ℕ). read_list (read_thing fuel reader) m false (before s more)) same)

  -- The operation before the last run of a list.
  pub last_header : (dotted : Bool) (n : ℕ) → (dotted ≡ true → 0 < n) → n ≤ 264 → Begins dotted n
  last_header true n p l = elim (Bool-cases (ltb 8 n)) [
    | inl e ↦ long_list true n (ground arith) l
    | inr e ↦ short_dotted_list n (p refl) (ground arith)
  ]
  last_header false n p l = elim (Bool-cases (ltb 8 n)) [
    | inl e ↦ long_list false n (ground arith) l
    | inr e ↦ short_list n (ground arith)
  ]

  -- The operation before a run with more behind it.
  pub run_header :
      (dotted : Bool) (n : ℕ)
      → 264 < n
      → read_thing (suc fuel) reader (before s (list_header dotted n ++ more))
        ≡ read_list (read_thing fuel reader) 264 true (before s more)
  unfolding list_header read_thing perform read_byte
  run_header dotted n h = rw (lt→ltb 264 n h) refl

  short_vector :
      (writer : Bool) (n : ℕ)
      → n < 9
      → read_thing (suc fuel) reader (before s (dump_vector_header writer n ++ more))
        ≡ read_vector (read_thing fuel reader) n (before s more)
  unfolding dump_vector_header read_thing perform read_byte read_vector read_things
  short_vector writer zero h = refl
  short_vector writer (suc zero) h = refl
  short_vector writer (suc (suc zero)) h = refl
  short_vector writer (suc (suc (suc zero))) h = refl
  short_vector writer (suc (suc (suc (suc zero)))) h = refl
  short_vector writer (suc (suc (suc (suc (suc zero))))) h = refl
  short_vector writer (suc (suc (suc (suc (suc (suc zero)))))) h = refl
  short_vector writer (suc (suc (suc (suc (suc (suc (suc zero))))))) h = refl
  short_vector writer (suc (suc (suc (suc (suc (suc (suc (suc zero)))))))) h = refl
  short_vector writer (suc (suc (suc (suc (suc (suc (suc (suc (suc n))))))))) h =
      absurd (omega arith)

  long_vector :
      (writer : Bool) (n : ℕ)
      → IsTold writer reader s
      → 8 < n
      → n < 2 ^ 31
      → read_thing (suc fuel) reader (before s (dump_vector_header writer n ++ more))
        ≡ read_vector (read_thing fuel reader) n (before s more)
  unfolding dump_vector_header read_thing perform read_byte vector_length
  long_vector writer n told h l =
      let a : ltb n 9 ≡ false = ground arith in
      elim (Bool-cases (ltb (n - 9) 254)) [
        | inl b ↦
            let x : (n - 9 == 255) ≡ false = ground arith in
            let y : (n - 9 == 254) ≡ false = ground arith in
            let same : n - 9 + 9 ≡ n = omega arith in
            rw (a, b, x, y)
              (ap (λ (m : ℕ). read_vector (read_thing fuel reader) m (before s more)) same)
        | inr b ↦ elim (Bool-cases (leb (n - 9 - 254) 65535)) [
          | inl c ↦
              rw (a, b, c)
                (let m : ℕ = n - 9 - 254 in
                  let much : 254 ≤ n - 9 = ground arith in
                  let small : m < 65536 = ground arith in
                  let same : m % 65536 + 263 ≡ n =
                    omega (arith, mod-eq_of_lt {n = m} {m = 65536} small, much) in
                  ap
                    (λ (o : Read (ℕ × Info)).
                      o >>= (λ r. read_vector (read_thing fuel reader) (r.0 + 263) r.1))
                    (read_ordered_lem writer reader s told 2 (m % 65536) more (omega arith))
                  ∙ ap (λ (k : ℕ). read_vector (read_thing fuel reader) k (before s more)) same)
          | inr c ↦
              rw (a, b, c)
                (let m : ℕ = n - 9 - 254 - 65535 - 1 in
                  let same : pos m +ℤ pos 65799 ≡ pos n = pos_sum m 65799 ∙ ap pos (ground arith) in
                  ap
                    (λ (o : Read (ℤ × Info)). o >>= (λ r.
                      with_length (r.0 +ℤ pos 65799)
                        (λ k. read_vector (read_thing fuel reader) k r.1)))
                    (read_int-dump_int writer reader s told (pos m) more (omega arith))
                  ∙ ap
                      (λ (z : ℤ).
                        with_length z (λ k. read_vector (read_thing fuel reader) k (before s more)))
                      same)
        ]
      ]

  pub vector_header :
      (writer : Bool) (n : ℕ)
      → IsTold writer reader s
      → n < 2 ^ 31
      → read_thing (suc fuel) reader (before s (dump_vector_header writer n ++ more))
        ≡ read_vector (read_thing fuel reader) n (before s more)
  vector_header writer n told l = elim (Bool-cases (ltb n 9)) [
    | inl e ↦ short_vector writer n (ground arith)
    | inr e ↦ long_vector writer n told (ground arith) l
  ]
