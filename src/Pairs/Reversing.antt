-- ===== src/Pairs/Reversing.antt =====
-- `nreverse` and `length` of mindy/interp/list.c on the pairs of a list.
use gwydion_2_4_cleanup.Prelude.{
  ℕ, zero, suc, ◌+◌, ◌≤◌, ◌<◌, ◌≡◌, refl, sym, ap, subst, ◌∙◌, List, [], ◌∷◌, ◌++◌, some, false,
  ◌==◌, ==_iff, length, reversed, append_assoc, append_nil, arith,
}
use gwydion_2_4_cleanup.Prelude.Counting.{count}
use gwydion_2_4_cleanup.Pairs.{Memory, set_tail, nreverse_loop, nreverse, length_loop}

module _ (obj_Nil : ℕ) where
  -- `list` is a list of the pairs `cells`, in their order.
  abbrev pub Chain : Memory → ℕ → List ℕ → Type 0
  Chain m list [] = list ≡ obj_Nil
  Chain m list (c ∷ cells) = (list ≡ c) × ((c == obj_Nil) ≡ false) × Chain m (m.tail c) cells

  -- `new` is `m` with `cells`, and nothing else, in another order.
  pub record Rearranged (m : Memory) (cells : List ℕ) (new : Memory) (result : ℕ) (order : List ℕ)
      : Type 0 where
    pub chain : Chain new result order
    pub heads : (c : ℕ) → new.head c ≡ m.head c
    pub tails : (c : ℕ) → count c cells ≡ 0 → new.tail c ≡ m.tail c

  pub Chain-set_tail :
      (c tail : ℕ) (m : Memory) (cells : List ℕ) (list : ℕ)
      → count c cells ≡ 0
      → Chain m list cells
      → Chain (set_tail tail c m) list cells
  unfolding set_tail
  Chain-set_tail c tail m [] list h p = p
  Chain-set_tail c tail m (d ∷ cells) list h (e, n, p) =
      let apart : (c == d) ≡ false = ground (arith, h) in
      let others : count c cells ≡ 0 = ground (arith, h) in
      (e, n, rw apart (Chain-set_tail c tail m cells (m.tail d) others p))

  set_tail_self : (c tail : ℕ) (m : Memory) → (set_tail tail c m).tail c ≡ tail
  unfolding set_tail
  set_tail_self c tail m = rw ((==_iff c c).1 refl) refl

  set_tail_other :
      (c d tail : ℕ) (m : Memory) → (c == d) ≡ false → (set_tail tail c m).tail d ≡ m.tail d
  unfolding set_tail
  set_tail_other c d tail m e = rw e refl

  set_tail_head : (c d tail : ℕ) (m : Memory) → (set_tail tail c m).head d ≡ m.head d
  unfolding set_tail
  set_tail_head c d tail m = refl

  loop_end :
      (fuel list result : ℕ) (m : Memory)
      → list ≡ obj_Nil
      → nreverse_loop obj_Nil (suc fuel) list result m ≡ some (result, m)
  unfolding nreverse_loop
  loop_end fuel list result m e = rw ((==_iff list obj_Nil).1 e, nreverse_loop) refl

  loop_step :
      (fuel list result : ℕ) (m : Memory)
      → (list == obj_Nil) ≡ false
      → nreverse_loop obj_Nil (suc fuel) list result m
        ≡ nreverse_loop obj_Nil fuel (m.tail list) list (set_tail result list m)
  unfolding nreverse_loop
  loop_step fuel list result m e = rw (e, nreverse_loop) refl

  nreverse_loop_lem :
      (cells done : List ℕ) (fuel list result : ℕ) (m : Memory)
      → Chain m list cells
      → Chain m result done
      → ((c : ℕ) → count c cells + count c done ≤ 1)
      → length cells < fuel
      → (r : ℕ) × (new : Memory) × (nreverse_loop obj_Nil fuel list result m ≡ some (r, new))
        × Rearranged m cells new r (reversed cells ++ done)
  nreverse_loop_lem cells done zero list result m p q d l = absurd (omega (arith, l))
  nreverse_loop_lem [] done (suc fuel) list result m p q d l = (
    result,
    m,
    loop_end fuel list result m p,
    record { chain = q; heads = λ c. refl; tails = λ c h. refl },
  )
  nreverse_loop_lem (c ∷ cells) done (suc fuel) list result m (e, n, p) q d l =
      let next : Memory = set_tail result c m in
      let new_cells : count c cells ≡ 0 = ground (arith, d c) in
      let new_done : count c done ≡ 0 = ground (arith, d c) in
      let q' : Chain next c (c ∷ done) = (
        refl,
        n,
        subst (λ (x : ℕ). Chain next x done) (sym (set_tail_self c result m))
            (Chain-set_tail c result m done result new_done q),
      ) in
      let (r, new, f, z) =
        nreverse_loop_lem cells (c ∷ done) fuel (m.tail c) c next
          (Chain-set_tail c result m cells (m.tail c) new_cells p) q' (λ x. ground (arith, d x))
          (omega (arith, l)) in
      (
        r,
        new,
        subst (λ (x : ℕ). nreverse_loop obj_Nil (suc fuel) x result m ≡ some (r, new)) (sym e)
            (loop_step fuel c result m n ∙ f),
        record {
          chain = subst (Chain new r) (sym (append_assoc (reversed cells) (c ∷ []) done)) z.chain;
          heads = λ x. z.heads x ∙ set_tail_head c x result m;
          tails = λ x h.
              let apart : (c == x) ≡ false = ground (arith, h) in
              z.tails x (ground (arith, h)) ∙ set_tail_other c x result m apart;
        },
      )

  -- Where `list` is a list of different pairs, `nreverse` returns, with fuel for one more than there
  -- are, a list of these pairs in the opposite order; all heads are as they were, and so are the
  -- tails of all other pairs.
  pub nreverse_lem :
      (fuel list : ℕ) (cells : List ℕ) (m : Memory)
      → Chain m list cells
      → ((c : ℕ) → count c cells ≤ 1)
      → length cells < fuel
      → (r : ℕ) × (new : Memory) × (nreverse obj_Nil fuel list m ≡ some (r, new))
        × Rearranged m cells new r (reversed cells)
  unfolding nreverse
  nreverse_lem fuel list cells m p d l =
      let (r, new, e, z) =
        nreverse_loop_lem cells [] fuel list obj_Nil m p refl (λ c. omega (arith, d c)) l in
      (
        r,
        new,
        e,
        record {
          chain = subst (Chain new r) (append_nil (reversed cells)) z.chain;
          heads = z.heads;
          tails = z.tails;
        },
      )

  length_end :
      (fuel list n : ℕ) (m : Memory)
      → list ≡ obj_Nil
      → length_loop obj_Nil (suc fuel) list n m ≡ some n
  unfolding length_loop
  length_end fuel list n m e = rw ((==_iff list obj_Nil).1 e, length_loop) refl

  length_step :
      (fuel list n : ℕ) (m : Memory)
      → (list == obj_Nil) ≡ false
      → length_loop obj_Nil (suc fuel) list n m ≡ length_loop obj_Nil fuel (m.tail list) (n + 1) m
  unfolding length_loop
  length_step fuel list n m e = rw (e, length_loop) refl

  -- `length` of a list is the number of its pairs.
  pub length_loop_lem :
      (cells : List ℕ) (fuel list n : ℕ) (m : Memory)
      → Chain m list cells
      → length cells < fuel
      → length_loop obj_Nil fuel list n m ≡ some (n + length cells)
  length_loop_lem cells zero list n m p l = absurd (omega (arith, l))
  length_loop_lem [] (suc fuel) list n m p l =
      let same : n ≡ n + 0 = omega arith in length_end fuel list n m p ∙ ap (λ (k : ℕ). some k) same
  length_loop_lem (c ∷ cells) (suc fuel) list n m (e, h, p) l =
      let same : n + 1 + length cells ≡ n + suc (length cells) = omega arith in
      subst (λ (x : ℕ). length_loop obj_Nil (suc fuel) x n m ≡ some (n + suc (length cells)))
        (sym e)
        (length_step fuel c n m h
          ∙ length_loop_lem cells fuel (m.tail c) (n + 1) m p (omega (arith, l))
          ∙ ap (λ (k : ℕ). some k) same)
