-- ===== src/Threads/Fairness.antt =====
-- The turns of `thread_pick_next` of mindy/interp/thread.c.
use gwydion_2_4_cleanup.Prelude.{append_assoc, append_nil}
use gwydion_2_4_cleanup.Prelude.Counting.{count}
use gwydion_2_4_cleanup.Prelude.{
  ℕ, zero, suc, ◌<◌, ◌≡◌, refl, sym, ap, ◌∙◌, List, [], ◌∷◌, ◌++◌, some, ◌==◌, ==_iff, arith,
  Bool-cases, inl, inr,
}
use gwydion_2_4_cleanup.Threads.Store.{running, State}
use gwydion_2_4_cleanup.Threads.Invariant.{in_circle, Inv}
use gwydion_2_4_cleanup.Threads.{thread_pick_next, turned, head}

abbrev pub size : List ℕ → ℕ
size [] = 0
size (t ∷ ts) = suc (size ts)

-- `n` calls of `thread_pick_next`.
unfoldable pub picks : ℕ → State → State
picks zero s = s
picks (suc n) s = picks n (thread_pick_next s)

-- The circle after all of `xs` has been picked.
picks-past :
    (xs ys : List ℕ) (s : State) → s.runnable ≡ xs ++ ys → (picks (size xs) s).runnable ≡ ys ++ xs
unfolding picks thread_pick_next turned
picks-past [] ys s e = e ∙ sym (append_nil ys)
picks-past (x ∷ xs) ys s e =
    picks-past xs (ys ++ x ∷ []) (thread_pick_next s) (ap turned e ∙ append_assoc xs ys (x ∷ []))
    ∙ append_assoc ys (x ∷ []) xs

picks_snoc : (n : ℕ) (s : State) → picks (suc n) s ≡ thread_pick_next (picks n s)
unfolding picks
picks_snoc zero s = refl
picks_snoc (suc n) s = picks_snoc n (thread_pick_next s)

-- The thread behind `xs` in the circle is current after so many picks and one more.
picks-current :
    (xs : List ℕ) (t : ℕ) (ys : List ℕ) (s : State)
    → s.runnable ≡ xs ++ t ∷ ys
    → (picks (suc (size xs)) s).current ≡ some t
unfolding thread_pick_next head
picks-current xs t ys s e =
    ap (λ (s' : State). s'.current) (picks_snoc (size xs) s) ∙ ap head (picks-past xs (t ∷ ys) s e)

-- Where a thread stands in a queue.
stands :
    (t : ℕ) (us : List ℕ)
    → 0 < count t us
    → (xs : List ℕ) × (ys : List ℕ) × (us ≡ xs ++ t ∷ ys) × (size xs < size us)
stands t [] h = absurd (omega arith)
stands t (u ∷ us) h = elim (Bool-cases (t == u)) [
  | inl e ↦ ([], us, ap (λ (v : ℕ). v ∷ us) (sym ((==_iff t u).0 e)), omega arith)
  | inr e ↦
      let (xs, ys, p, l) = stands t us (ground arith) in
      (u ∷ xs, ys, ap (λ (vs : List ℕ). u ∷ vs) p, omega (arith, l))
]

-- In a well-formed state a running thread becomes the current one within as many calls of
-- `thread_pick_next` as there are threads in the circle, and so many calls bring the circle back to
-- where it was.
pub thread_pick_next_fair :
    (s : State) (t : ℕ)
    → Inv s
    → (s.thread t).status ≡ running
    → (n : ℕ) × (n < size s.runnable)
      × ((picks (suc n) s).current ≡ some t)
      × ((picks (size s.runnable) s).runnable ≡ s.runnable)
thread_pick_next_fair s t i r =
    let (xs, ys, p, l) = stands t s.runnable (omega (arith, i.circle t ∙ ap in_circle r)) in
    (
      size xs,
      l,
      picks-current xs t ys s p,
      picks-past s.runnable [] s (sym (append_nil s.runnable)),
    )
