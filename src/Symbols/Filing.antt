-- ===== src/Symbols/Filing.antt =====
-- Tables of mindy/interp/sym.c as `symbol` finds them, growing and with a new symbol.
use gwydion_2_4_cleanup.Prelude.{
  ℕ, ◌+◌, ◌*◌, ◌/◌, ◌%◌, ◌<◌, ◌≡◌, refl, sym, ap, subst, ◌∙◌, ◌⊎◌, inl, inr, List, [], ◌∷◌, none,
  some, Bool, true, false, ◌&&◌, ◌==◌, length, get_or, Bool-cases, arith,
}
use gwydion_2_4_cleanup.Symbols.Hash.{same_name_sym}
use gwydion_2_4_cleanup.Symbols.Rehash.{In, length-put}
use gwydion_2_4_cleanup.Symbols.Chains.{
  put-In, size, size-put, rehash_table-In, size-rehash_table, length-rehash_table,
}
use gwydion_2_4_cleanup.Symbols.{
  Symbol, Table, put, hash_name, same_name, grown, rehash_table, find,
}

-- In any chain.
abbrev pub Member : Symbol → Table → Type 0
Member s t = (i : ℕ) × In s (get_or t.chains i [])

-- Every symbol is in the chain of its hash, which is that of its name; no two have names that are
-- the same but for case; and they are counted.
pub record IsFull (t : Table) : Type 0 where
  pub filled : 0 < length t.chains
  pub filed : (s : Symbol) (i : ℕ) → In s (get_or t.chains i []) → i ≡ s.hash % length t.chains
  pub hashed : (s : Symbol) → Member s t → s.hash ≡ hash_name s.name
  pub unique : (s u : Symbol) → Member s t → Member u t → same_name s.name u.name ≡ true → s ≡ u
  pub counted : t.entries ≡ size t.chains

-- It is also not overfull.
pub record IsTable (t : Table) : Type 0 where
  pub full : IsFull t
  pub limit : t.threshold ≡ length t.chains * 3 / 2
  pub room : t.entries < t.threshold

-- A symbol of that name is in the new table, with all that were in the old one.
pub record Interned (name : List ℕ) (t : Table) (s : Symbol) (new : Table) : Type 0 where
  pub table : IsTable new
  pub member : Member s new
  pub same : same_name name s.name ≡ true
  pub kept : (u : Symbol) → Member u t → Member u new

pub rehash_table-entries : (t : Table) → (rehash_table t).entries ≡ t.entries
unfolding rehash_table
rehash_table-entries t = refl

pub rehash_table-threshold :
    (t : Table) → (rehash_table t).threshold ≡ length (rehash_table t).chains * 3 / 2
rehash_table-threshold t =
    let own : (rehash_table t).threshold ≡ grown (length t.chains) * 3 / 2 =
      unfold rehash_table in refl in
    own ∙ ap (λ (n : ℕ). n * 3 / 2) (sym (length-rehash_table t))

pub rehash_table-IsFull : (t : Table) → IsFull t → IsFull (rehash_table t)
rehash_table-IsFull t f =
    let back : (s : Symbol) → Member s (rehash_table t) → Member s t =
      λ s (j, h). let (i, k, e) = rehash_table-In t s j h in (i, k) in
    record {
      filled = ground (arith, length-rehash_table t, f.filled);
      filed = λ s j h.
          let (i, k, e) = rehash_table-In t s j h in
          e ∙ ap (λ (n : ℕ). s.hash % n) (sym (length-rehash_table t));
      hashed = λ s m. f.hashed s (back s m);
      unique = λ s u m n e. f.unique s u (back s m) (back u n) e;
      counted = rehash_table-entries t ∙ f.counted ∙ sym (size-rehash_table t f.filled);
    }

abbrev hit : ℕ → List ℕ → Symbol → Bool
hit hash name u = u.hash == hash && same_name name u.name

find_here :
    (hash : ℕ) (name : List ℕ) (u : Symbol) (chain : List Symbol)
    → hit hash name u ≡ true
    → find hash name (u ∷ chain) ≡ some u
unfolding find
find_here hash name u chain b = rw (b, find) refl

find_later :
    (hash : ℕ) (name : List ℕ) (u : Symbol) (chain : List Symbol)
    → hit hash name u ≡ false
    → find hash name (u ∷ chain) ≡ find hash name chain
unfolding find
find_later hash name u chain b = rw (b, find) refl

pub find-In :
    (hash : ℕ) (name : List ℕ) (chain : List Symbol) (s : Symbol)
    → find hash name chain ≡ some s
    → In s chain × (same_name name s.name ≡ true)
unfolding find
find-In hash name [] s e = cc e
find-In hash name (u ∷ chain) s e = elim (Bool-cases (hit hash name u)) [
  | inl b ↦
      let p = sym (find_here hash name u chain b) ∙ e in
      let q : s ≡ u = cc p in
      let here : same_name name u.name ≡ true = ground (arith, b) in
      (inl q, subst (λ (v : Symbol). same_name name v.name ≡ true) (sym q) here)
  | inr b ↦
      let (i, h) = find-In hash name chain s (sym (find_later hash name u chain b) ∙ e) in
      (inr i, h)
]

pub find-none :
    (hash : ℕ) (name : List ℕ) (chain : List Symbol) (s : Symbol)
    → find hash name chain ≡ none
    → In s chain
    → s.hash ≡ hash
    → same_name name s.name ≡ false
unfolding find
find-none hash name [] s e i h = absurd i
find-none hash name (u ∷ chain) s e i h = elim (Bool-cases (hit hash name u)) [
  | inl b ↦ let p = sym (find_here hash name u chain b) ∙ e in absurd (cc p)
  | inr b ↦ elim i [
    | inl q ↦
        let b' : hit hash name s ≡ false =
          subst (λ (v : Symbol). hit hash name v ≡ false) (sym q) b in
        ground (arith, b', h)
    | inr k ↦ find-none hash name chain s (sym (find_later hash name u chain b) ∙ e) k h
  ]
]

-- A new symbol at the front of the chain of its hash.
abbrev pub new_symbol : ℕ → List ℕ → Symbol
new_symbol address name = record { address = address; name = name; hash = hash_name name }

abbrev pub added : Symbol → Table → Table
added s t = record {
  entries = t.entries + 1;
  threshold = t.threshold;
  chains = put (s.hash % length t.chains) s t.chains;
}

pub added-IsFull :
    (t : Table) (s : Symbol)
    → IsFull t
    → s.hash ≡ hash_name s.name
    → ((u : Symbol) → Member u t → same_name s.name u.name ≡ false)
    → IsFull (added s t)
added-IsFull t s f h n =
    let index : ℕ = s.hash % length t.chains in
    let len : length (added s t).chains ≡ length t.chains = length-put s index t.chains in
    let back : (u : Symbol) → Member u (added s t) → (u ≡ s) ⊎ Member u t = λ u (j, i).
      elim (put-In u s index j t.chains i) [ inl (e, q) ↦ inl e | inr k ↦ inr (j, k) ] in
    record {
      filled = omega (arith, f.filled, len);
      filed = λ u j i. elim (put-In u s index j t.chains i) [
        | inl (e, q) ↦
            q
            ∙ ap (λ (v : Symbol). v.hash % length t.chains) (sym e)
            ∙ ap (λ (n : ℕ). u.hash % n) (sym len)
        | inr k ↦ f.filed u j k ∙ ap (λ (n : ℕ). u.hash % n) (sym len)
      ];
      hashed = λ u m. elim (back u m) [
        | inl e ↦ subst (λ (v : Symbol). v.hash ≡ hash_name v.name) (sym e) h
        | inr k ↦ f.hashed u k
      ];
      unique = λ u v m k e. elim (back u m) [
        | inl p ↦ elim (back v k) [
          | inl q ↦ p ∙ sym q
          | inr q ↦
              let e' : same_name s.name v.name ≡ true =
                subst (λ (x : Symbol). same_name x.name v.name ≡ true) p e in
              absurd (cc (e', n v q))
        ]
        | inr p ↦ elim (back v k) [
          | inl q ↦
              let e' : same_name s.name u.name ≡ true =
                same_name_sym u.name s.name
                  (subst (λ (x : Symbol). same_name u.name x.name ≡ true) q e) in
              absurd (cc (e', n u p))
          | inr q ↦ f.unique u v p q e
        ]
      ];
      counted = omega (arith, f.counted, size-put s index t.chains (omega (arith, f.filled)));
    }
