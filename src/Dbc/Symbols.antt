-- ===== src/Dbc/Symbols.antt =====
-- Symbols in a .dbc file: the handles of mindy/comp/dump.c and the table of mindy/interp/load.c.
use gwydion_2_4_cleanup.Prelude.{
  ℕ, suc, ◌+◌, ◌%◌, ◌^◌, ◌<◌, ◌≤◌, ◌≡◌, refl, sym, ap, ap₂, subst, ◌∙◌, List, [], ◌∷◌, ◌++◌, Option,
  none, some, Bool, true, false, ◌==◌, ==_iff, lt→ltb, ltb→lt, ltb, leb, length, Bool-cases, inl,
  inr, arith,
}
use gwydion_2_4_cleanup.Dbc.Format.{Read, ok, ◌>>=◌, Object, symbol_object}
use gwydion_2_4_cleanup.Dbc.Dump.{
  Handles, same_bytes, implicit_store, dump_symbol, dump_symbol_at, dump_ref, dump_string_guts,
}
use gwydion_2_4_cleanup.Dbc.Load.{
  Info, new_size, read_thing, perform, read_byte, ref, stored_at, store_next,
}
use gwydion_2_4_cleanup.Dbc.Reading.{before, IsTold, read_ordered_lem}
use gwydion_2_4_cleanup.Dbc.Atoms.{short_string-append, long_string-dump_int}
use gwydion_2_4_cleanup.Dbc.Table.{after_store, store-after_store, new_size-le, room}
use native.Mathlib.Nat.{mod-eq_of_lt}

same_bytes-eq : (a b : List ℕ) → same_bytes a b ≡ true → a ≡ b
same_bytes-eq [] [] h = refl
same_bytes-eq [] (y ∷ b) h = cc h
same_bytes-eq (x ∷ a) [] h = cc h
same_bytes-eq (x ∷ a) (y ∷ b) h = elim (Bool-cases (x == y)) [
  | inl e ↦ ap₂ (λ (u : ℕ) (us : List ℕ). u ∷ us) ((==_iff x y).0 e) (same_bytes-eq a b (rw e at h))
  | inr e ↦ cc (rw e at h)
]

-- The dumper and the loader count alike, and every symbol with a handle is in the table.
abbrev pub Agrees : Bool → Bool → Handles → Info → Type 0
Agrees writer reader h s =
    IsTold writer reader s
    × (s.next_handle ≡ h.table_index)
    × ((name : List ℕ) (k : ℕ)
        → h.handle name ≡ some k
        → (k < h.table_index) × (k < s.table_size) × (s.table k ≡ some (symbol_object name)))

-- What a read gives that leaves `rest`, and a loader that agrees with the handles.
abbrev pub Loads : Bool → Bool → Read (Object × Info) → Object → List ℕ → Handles → Type 0
Loads writer reader result value rest h =
    (s' : Info) × (result ≡ ok (value, before s' rest)) × Agrees writer reader h s'

module _ (writer reader : Bool) (h : Handles) (s : Info) (told : IsTold writer reader s) where
  ref_reads :
      (fuel k : ℕ) (rest : List ℕ) (value : Object)
      → k < 16384
      → k < s.table_size
      → s.table k ≡ some value
      → read_thing (suc fuel) reader (before s (dump_ref writer k ++ rest))
        ≡ ok (value, before s rest)
  unfolding read_thing perform read_byte dump_ref ref
  ref_reads fuel k rest value l m e =
      let small : leb k 65535 ≡ true = ground arith in
      let same : k % 65536 ≡ k = mod-eq_of_lt {n = k} {m = 65536} (omega arith) in
      rw small (
        ap (λ (o : Read (ℕ × Info)). o >>= (λ index. ref index.0 index.1))
          (read_ordered_lem writer reader s told 2 (k % 65536) rest (omega arith))
        ∙ ap (λ (j : ℕ). ref j (before s rest)) same
        ∙ rw (lt→ltb k s.table_size m) (ap (λ (o : Option Object). stored_at o (before s rest)) e))

-- The loader after a symbol has got the next handle.
abbrev pub after_symbol : List ℕ → Info → Info
after_symbol name s =
    after_store (symbol_object name) s.next_handle (record s { next_handle = s.next_handle + 1 })

some_injective : {a b : ℕ} → ◌≡◌ {A = Option ℕ} (some a) (some b) → a ≡ b
some_injective {a} e = ap (λ (o : Option ℕ). elim o [ none ↦ a | some c ↦ c ]) e

implicit_store-Agrees :
    (writer reader : Bool) (h : Handles) (s : Info) (name : List ℕ)
    → Agrees writer reader h s
    → h.table_index < 16384
    → Agrees writer reader (implicit_store name h) (after_symbol name s)
implicit_store-Agrees writer reader h s name (told, next, known) l = (
  told,
  ap (λ (n : ℕ). n + 1) next,
  λ other k e. elim (Bool-cases (same_bytes name other)) [
    | inl q ↦
        let at_index : h.table_index ≡ k = some_injective (rw q at e) in
        let here : s.next_handle ≡ k = next ∙ at_index in
        let below : k < 16384 = omega (arith, at_index, l) in
        (
          omega (arith, at_index),
          subst (λ (n : ℕ). k < n) (ap (λ (n : ℕ). new_size n s.table_size) (sym here))
              (ltb→lt k _ (room k s.table_size below)),
          rw ((==_iff s.next_handle k).1 here)
              (ap (λ (n : List ℕ). some (symbol_object n)) (same_bytes-eq name other q)),
        )
    | inr q ↦
        let (a, b, c) = known other k (rw q at e) in
        let apart : (s.next_handle == k) ≡ false =
          (let below : k < s.next_handle = omega (arith, a, next) in ground arith) in
        (
          omega (arith, a),
          new_size-le s.next_handle s.table_size k (omega (arith, next, l)) b,
          rw apart c,
        )
  ],
)

module _ (writer reader : Bool) (h : Handles) (s : Info) (agree : Agrees writer reader h s) where
  stored :
      (name rest : List ℕ)
      → h.table_index < 16384
      → store_next (symbol_object name) (before s rest)
        ≡ ok (symbol_object name, before (after_symbol name s) rest)
  unfolding store_next
  stored name rest l =
      store-after_store (symbol_object name) s.next_handle
        (before (record s { next_handle = s.next_handle + 1 }) rest) (omega (arith, agree.1, l))

  new_symbol :
      (fuel : ℕ) (name rest : List ℕ)
      → h.table_index < 16384
      → length name < 2 ^ 31
      → read_thing (suc fuel) reader (before s (dump_string_guts writer 18 19 name ++ rest))
        ≡ ok (symbol_object name, before (after_symbol name s) rest)
  unfolding dump_string_guts read_thing perform read_byte
  new_symbol fuel name rest l b = elim (Bool-cases (ltb (length name) 256)) [
    | inl e ↦ rw e (
        ap (λ (o : Read (List ℕ × Info)). o >>= (λ r. store_next (symbol_object r.0) r.1))
          (short_string-append writer reader s agree.0 name rest)
        ∙ stored name rest l)
    | inr e ↦ rw e (
        ap (λ (o : Read (List ℕ × Info)). o >>= (λ r. store_next (symbol_object r.0) r.1))
          (long_string-dump_int writer reader s agree.0 name rest b)
        ∙ stored name rest l)
  ]

  symbol_at :
      (fuel : ℕ) (name rest : List ℕ) (o : Option ℕ)
      → h.handle name ≡ o
      → (dump_symbol_at writer name o h).1.table_index ≤ 16384
      → length name < 2 ^ 31
      → Loads writer reader
          (read_thing (suc fuel) reader (before s ((dump_symbol_at writer name o h).0 ++ rest)))
          (symbol_object name)
          rest
          (dump_symbol_at writer name o h).1
  unfolding dump_symbol_at
  symbol_at fuel name rest (some k) e l b =
      let (i, m, t) = agree.2 name k e in
      (
        s,
        ref_reads writer reader h s agree.0 fuel k rest (symbol_object name) (omega (arith, i, l)) m
            t,
        agree,
      )
  symbol_at fuel name rest none e l b = (
    after_symbol name s,
    new_symbol fuel name rest (omega (arith, l)) b,
    implicit_store-Agrees writer reader h s name agree (omega (arith, l)),
  )

  pub dump_symbol-Loads :
      (fuel : ℕ) (name rest : List ℕ)
      → (dump_symbol writer name h).1.table_index ≤ 16384
      → length name < 2 ^ 31
      → Loads writer reader
          (read_thing (suc fuel) reader (before s ((dump_symbol writer name h).0 ++ rest)))
          (symbol_object name)
          rest
          (dump_symbol writer name h).1
  unfolding dump_symbol
  dump_symbol-Loads fuel name rest l b = symbol_at fuel name rest (h.handle name) refl l b

handles_grow :
    (writer : Bool) (h : Handles) (name : List ℕ) (o : Option ℕ)
    → h.table_index ≤ (dump_symbol_at writer name o h).1.table_index
unfolding dump_symbol_at
handles_grow writer h name (some k) = omega arith
handles_grow writer h name none = omega arith

pub dump_symbol_grows :
    (writer : Bool) (h : Handles) (name : List ℕ)
    → h.table_index ≤ (dump_symbol writer name h).1.table_index
unfolding dump_symbol
dump_symbol_grows writer h name = handles_grow writer h name (h.handle name)
