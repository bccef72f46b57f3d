-- ===== src/Dbc/Table.antt =====
-- The table of a loader, `store` and `ref` of mindy/interp/load.c: how it grows.
use gwydion_2_4_cleanup.Prelude.{
  ℕ, zero, suc, ◌+◌, ◌*◌, ◌/◌, ◌%◌, ◌<◌, ◌≤◌, ◌≡◌, refl, ap, ◌∙◌, some, Bool, true, false, ◌==◌,
  lt→ltb, ltb→lt, ◌&&◌, ◌||◌, ltb, leb, not, if◌then◌else◌, Bool-cases, inl, inr, arith,
}
use gwydion_2_4_cleanup.Dbc.Format.{Read, ok, overrun, Object}
use gwydion_2_4_cleanup.Dbc.Load.{Info, doubled, new_size, store}

doubled_lem :
    (fuel handle size : ℕ) → 0 < size → handle < size + fuel → handle < doubled fuel handle size
unfolding doubled
doubled_lem zero handle size p h = omega (arith, h)
doubled_lem (suc fuel) handle size p h = elim (Bool-cases (leb size handle)) [
  | inl e ↦ rw e (doubled_lem fuel handle (size * 2) (omega arith) (omega arith))
  | inr e ↦ rw e (ground arith)
]

-- The sizes beyond 16384 are the multiples of 16384.
rounded : (handle : ℕ) → ltb handle ((handle + 16383) / 16384 * 16384) ≡ not (handle % 16384 == 0)
rounded handle = elim (Bool-cases (handle % 16384 == 0)) [
  | inl e ↦ rw e (ground arith)
  | inr e ↦ rw e (ground arith)
]

-- The new size is enough for the handle if and only if the table was large enough before, or the
-- handle is less than 16384, or it is not a multiple of 16384.
pub new_size_lem :
    (handle size : ℕ)
    → ltb handle (new_size handle size)
      ≡ (ltb handle size || (ltb handle 16384 || not (handle % 16384 == 0)))
unfolding new_size
new_size_lem handle size = elim (Bool-cases (ltb handle size)) [
  | inl a ↦ rw a a
  | inr a ↦ elim (Bool-cases (ltb handle 16384)) [
    | inl b ↦
        rw (a, b)
          (lt→ltb handle _ (
            doubled_lem (suc handle) handle (if size == 0 then 1024 else size) (ground arith)
              (omega arith)))
    | inr b ↦ rw (a, b) (rounded handle)
  ]
]

abbrev pub is_overrun {ℓ} : {A : Type ℓ} → Read A → Bool
is_overrun overrun = true
is_overrun _ = false

de_morgan : (a b c : Bool) → not (a || (b || not c)) ≡ (not a && (not b && c))
de_morgan true b c = refl
de_morgan false true c = refl
de_morgan false false true = refl
de_morgan false false false = refl

overruns :
    (value : Object) (handle : ℕ) (s : Info)
    → is_overrun (store value handle s) ≡ not (ltb handle (new_size handle s.table_size))
unfolding store
overruns value handle s = elim (Bool-cases (ltb handle (new_size handle s.table_size))) [
  | inl e ↦ rw e refl
  | inr e ↦ rw e refl
]

-- `store` writes past the end of the table if and only if the handle is outside the table, at least
-- 16384, and a multiple of 16384.
pub store-is_overrun :
    (value : Object) (handle : ℕ) (s : Info)
    → is_overrun (store value handle s)
      ≡ (not (ltb handle s.table_size) && (not (ltb handle 16384) && (handle % 16384 == 0)))
store-is_overrun value handle s =
    overruns value handle s
    ∙ ap not (new_size_lem handle s.table_size)
    ∙ de_morgan (ltb handle s.table_size) (ltb handle 16384) (handle % 16384 == 0)

-- The state after a handle below 16384 has been stored.
abbrev pub after_store : Object → ℕ → Info → Info
after_store value handle s = record s {
  table = λ other. if handle == other then some value else s.table other;
  table_size = new_size handle s.table_size;
}

pub room : (handle size : ℕ) → handle < 16384 → ltb handle (new_size handle size) ≡ true
room handle size h =
    new_size_lem handle size ∙ either (ltb handle size) (ltb handle 16384) _ (lt→ltb handle 16384 h)
  where
    either : (a b c : Bool) → b ≡ true → (a || (b || c)) ≡ true
    either true b c q = refl
    either false true c q = refl
    either false false c q = cc q

pub store-after_store :
    (value : Object) (handle : ℕ) (s : Info)
    → handle < 16384
    → store value handle s ≡ ok (value, after_store value handle s)
unfolding store
store-after_store value handle s h = rw (room handle s.table_size h) refl

new_size_same : (handle size : ℕ) → ltb handle size ≡ true → new_size handle size ≡ size
unfolding new_size
new_size_same handle size e = rw e refl

-- The table does not shrink.
pub new_size-le : (handle size k : ℕ) → handle < 16384 → k < size → k < new_size handle size
new_size-le handle size k h l = elim (Bool-cases (ltb handle size)) [
  | inl e ↦ omega (arith, new_size_same handle size e, l)
  | inr e ↦
      let le : size ≤ handle = ground arith in
      omega (arith, ltb→lt handle (new_size handle size) (room handle size h), le, l)
]
