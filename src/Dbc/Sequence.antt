-- ===== src/Dbc/Sequence.antt =====
-- Dumpers (mindy/comp/dump.c) and loaders (mindy/interp/load.c) that fit, one after another.
use gwydion_2_4_cleanup.Prelude.{append_assoc, append_nil}
use gwydion_2_4_cleanup.Prelude.{
  ℕ, ◌≤◌, ◌≡◌, refl, sym, ap, subst, ◌∙◌, List, [], ◌++◌, Bool, arith,
}
use gwydion_2_4_cleanup.Dbc.Format.{Read, ok, ◌>>=◌}
use gwydion_2_4_cleanup.Dbc.Dump.{Handles, Dumped, dump_then}
use gwydion_2_4_cleanup.Dbc.Load.{Info}
use gwydion_2_4_cleanup.Dbc.Reading.{before}
use gwydion_2_4_cleanup.Dbc.Symbols.{Agrees}

-- The loader `r` gives `v` for what the dumper `d` writes, and stands behind it then; dumper and
-- loader agree before and after, as long as no more than 16384 handles are given.
abbrev pub Reads {ℓ} :
    {A : Type ℓ} → Bool → Bool → (Handles → Dumped) → (Info → Read (A × Info)) → A → Type ℓ
Reads writer reader d r v =
    ((h : Handles) → h.table_index ≤ (d h).1.table_index)
    × ((rest : List ℕ) (h : Handles) (s : Info)
        → Agrees writer reader h s
        → (d h).1.table_index ≤ 16384
        → (s' : Info) × (r (before s ((d h).0 ++ rest)) ≡ ok (v, before s' rest))
          × Agrees writer reader (d h).1 s')

module _ (writer reader : Bool) where
  pub Reads-ok {ℓ} : {A : Type ℓ} (v : A) → Reads writer reader (λ h. ([], h)) (λ s. ok (v, s)) v
  Reads-ok v = (λ h. omega arith, λ rest h s a l. (s, refl, a))

  pub Reads-then {ℓ κ} :
      {A : Type ℓ} {B : Type κ} (d e : Handles → Dumped) (r : Info → Read (A × Info))
      (f : A → Info → Read (B × Info)) (v : A) (w : B)
      → Reads writer reader d r v
      → Reads writer reader e (f v) w
      → Reads writer reader (λ h. dump_then (d h) e) (λ s. r s >>= (λ x. f x.0 x.1)) w
  Reads-then {A = A} d e r f v w (up, first) (up', second) = (
    λ h. omega (arith, up h, up' (d h).1),
    λ rest h s a l.
        let (s1, p, a1) = first ((e (d h).1).0 ++ rest) h s a (omega (arith, up' (d h).1, l)) in
        let (s2, q, a2) = second rest (d h).1 s1 a1 l in
        (
          s2,
          ap (λ (bs : List ℕ). r (before s bs) >>= (λ x. f x.0 x.1))
                (append_assoc (d h).0 (e (d h).1).0 rest)
              ∙ ap (λ (o : Read (A × Info)). o >>= (λ x. f x.0 x.1)) p
              ∙ q,
          a2,
        ),
  )

  pub Reads-map {ℓ κ} :
      {A : Type ℓ} {B : Type κ} (d : Handles → Dumped) (r : Info → Read (A × Info)) (f : A → B)
      (v : A)
      → Reads writer reader d r v
      → Reads writer reader d (λ s. r s >>= (λ x. ok (f x.0, x.1))) (f v)
  Reads-map {A = A} d r f v (up, reads) = (
    up,
    λ rest h s a l.
        let (s1, p, a1) = reads rest h s a l in
        (s1, ap (λ (o : Read (A × Info)). o >>= (λ x. ok (f x.0, x.1))) p, a1),
  )

  -- Bytes by which `r` turns into `r'`.
  pub Reads-prefix {ℓ} :
      {A : Type ℓ} (bytes : List ℕ) (d : Handles → Dumped) (r r' : Info → Read (A × Info)) (v : A)
      → ((more : List ℕ) (h : Handles) (s : Info)
          → Agrees writer reader h s
          → r (before s (bytes ++ more)) ≡ r' (before s more))
      → Reads writer reader d r' v
      → Reads writer reader (λ h. dump_then (bytes, h) d) r v
  Reads-prefix bytes d r r' v turns (up, reads) = (
    up,
    λ rest h s a l.
        let (s1, p, a1) = reads rest h s a l in
        (
          s1,
          ap (λ (bs : List ℕ). r (before s bs)) (append_assoc bytes (d h).0 rest)
              ∙ turns ((d h).0 ++ rest) h s a
              ∙ p,
          a1,
        ),
  )

  -- Bytes that give a value by themselves.
  pub Reads-bytes {ℓ} :
      {A : Type ℓ} (bytes : List ℕ) (r : Info → Read (A × Info)) (v : A)
      → ((rest : List ℕ) (h : Handles) (s : Info)
          → Agrees writer reader h s
          → r (before s (bytes ++ rest)) ≡ ok (v, before s rest))
      → Reads writer reader (λ h. (bytes, h)) r v
  Reads-bytes bytes r v reads = (λ h. omega arith, λ rest h s a l. (s, reads rest h s a, a))

  pub Reads-same {ℓ} :
      {A : Type ℓ} (d e : Handles → Dumped) (r : Info → Read (A × Info)) (v : A)
      → ((h : Handles) → d h ≡ e h)
      → Reads writer reader d r v
      → Reads writer reader e r v
  Reads-same d e r v same (up, reads) = (
    λ h. subst (λ (x : Dumped). h.table_index ≤ x.1.table_index) (same h) (up h),
    λ rest h s a.
        subst
          (λ (x : Dumped).
            x.1.table_index ≤ 16384
            → (s' : Info) × (r (before s (x.0 ++ rest)) ≡ ok (v, before s' rest))
              × Agrees writer reader x.1 s')
          (same h) (reads rest h s a),
  )

pub dump_then_nothing : (x : Dumped) → dump_then x (λ h. ([], h)) ≡ x
dump_then_nothing (bytes, h) = ap (λ (bs : List ℕ). (bs, h)) (append_nil bytes)

pub dump_then_assoc :
    (x : Dumped) (d e : Handles → Dumped)
    → dump_then x (λ h. dump_then (d h) e) ≡ dump_then (dump_then x d) e
dump_then_assoc x d e =
    ap (λ (bs : List ℕ). (bs, (e (d x.1).1).1)) (sym (append_assoc x.0 (d x.1).0 (e (d x.1).1).0))
