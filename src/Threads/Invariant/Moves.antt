-- ===== src/Threads/Invariant/Moves.antt =====
-- When a change to one thread of mindy/interp/thread.c and to the queues keeps a state well formed.
use gwydion_2_4_cleanup.Prelude.Counting.{count, count-append}
use gwydion_2_4_cleanup.Prelude.{
  ℕ, ◌+◌, ◌≡◌, refl, sym, ap, subst, ◌∙◌, List, [], ◌∷◌, ◌++◌, false, ◌==◌, ==_iff, if◌then◌else◌,
  arith, Bool-cases, inl, inr,
}
use gwydion_2_4_cleanup.Threads.Store.{Thread, Lock, State, remove, update}
use gwydion_2_4_cleanup.Threads.Invariant.{
  count-remove, in_circle, in_lock, in_event, is_alive, CountFits, Inv,
}

-- `t` is in `ys` as often as in `xs`, but for going from `before` to `after`; the others as often.
abbrev pub Shifts : ℕ → ℕ → ℕ → List ℕ → List ℕ → Type 0
Shifts t before after xs ys =
    (u : ℕ)
    → count u ys + (if u == t then before else 0) ≡ count u xs + (if u == t then after else 0)

pub Shifts-same : (t n : ℕ) (xs : List ℕ) → Shifts t n n xs xs
Shifts-same t n xs u = refl

pub Shifts-append : (t : ℕ) (xs : List ℕ) → Shifts t 0 1 xs (xs ++ t ∷ [])
Shifts-append t xs u = ground (arith, count-append u t xs)

pub Shifts-remove : (t : ℕ) (xs : List ℕ) → count t xs ≡ 1 → Shifts t 1 0 xs (remove t xs)
Shifts-remove t xs h u = elim (Bool-cases (u == t)) [
  | inl e ↦ rw e (
      omega (
        arith,
        count-remove u t xs,
        ap (λ (v : ℕ). count v xs) ((==_iff u t).0 e),
        h,
        rw e at (count-remove u t xs),
      ))
  | inr e ↦ rw e (omega (arith, rw e at (count-remove u t xs)))
]

-- A change of the thread `t`, which becomes `th`, and of the queues accordingly.
pub record Moves (s s' : State) (t : ℕ) (th : Thread) : Type 0 where
  pub becomes : s'.thread t ≡ th
  pub others : (u : ℕ) → (u == t) ≡ false → s'.thread u ≡ s.thread u
  pub circle : Shifts t (in_circle (s.thread t).status) (in_circle th.status) s.runnable s'.runnable
  pub locks :
      (l : ℕ)
      → Shifts t
          (in_lock l (s.thread t).status (s.thread t).datum)
          (in_lock l th.status th.datum)
          (s.lock l).waiters
          (s'.lock l).waiters
  pub events :
      (e : ℕ)
      → Shifts t
          (in_event e (s.thread t).status (s.thread t).datum)
          (in_event e th.status th.datum)
          (s.event e)
          (s'.event e)
  pub alive : Shifts t (is_alive (s.thread t).status) (is_alive th.status) s.all s'.all
  pub free : (l : ℕ) → (s'.lock l).locked ≡ false → (s'.lock l).waiters ≡ []
  pub counts : CountFits th.status th.suspend_count

-- One count, from the shift, where `f` says what the count is to be.
shifted :
    (f : Thread → ℕ) (s s' : State) (t u : ℕ) (th : Thread) (xs ys : List ℕ)
    → s'.thread t ≡ th
    → ((v : ℕ) → (v == t) ≡ false → s'.thread v ≡ s.thread v)
    → Shifts t (f (s.thread t)) (f th) xs ys
    → ((v : ℕ) → count v xs ≡ f (s.thread v))
    → count u ys ≡ f (s'.thread u)
shifted f s s' t u th xs ys b o sh h = elim (Bool-cases (u == t)) [
  | inl e ↦
      let q : u ≡ t = (==_iff u t).0 e in
      subst (λ (v : ℕ). count v ys ≡ f (s'.thread v)) (sym q)
        (omega (arith, at_t, h t) ∙ ap f (sym b))
  | inr e ↦ omega (arith, rw e at (sh u), h u) ∙ ap f (sym (o u e))
]
  where
    at_t : count t ys + f (s.thread t) ≡ count t xs + f th
    at_t = rw ((==_iff t t).1 refl) at (sh t)

pub Moves-Inv : (s s' : State) (t : ℕ) (th : Thread) → Inv s → Moves s s' t th → Inv s'
Moves-Inv s s' t th i m = record {
  circle = λ u.
      shifted (λ v. in_circle v.status) s s' t u th s.runnable s'.runnable m.becomes m.others
        m.circle i.circle;
  locks = λ l u.
      shifted (λ v. in_lock l v.status v.datum) s s' t u th (s.lock l).waiters (s'.lock l).waiters
        m.becomes m.others (m.locks l) (i.locks l);
  events = λ e u.
      shifted (λ v. in_event e v.status v.datum) s s' t u th (s.event e) (s'.event e) m.becomes
        m.others (m.events e) (i.events e);
  alive = λ u.
      shifted (λ v. is_alive v.status) s s' t u th s.all s'.all m.becomes m.others m.alive i.alive;
  free = m.free;
  counts = λ u. elim (Bool-cases (u == t)) [
    | inl e ↦
        subst (λ (v : ℕ). CountFits (s'.thread v).status (s'.thread v).suspend_count)
          (sym ((==_iff u t).0 e))
          (subst (λ (v : Thread). CountFits v.status v.suspend_count) (sym m.becomes) m.counts)
    | inr e ↦
        subst (λ (v : Thread). CountFits v.status v.suspend_count) (sym (m.others u e)) (i.counts u)
  ];
}

pub Shifts-at :
    (t : ℕ) {a b c d : ℕ} (xs ys : List ℕ) → a ≡ c → b ≡ d → Shifts t a b xs ys → Shifts t c d xs ys
Shifts-at t {a} {d} xs ys p q h =
    subst (λ (n : ℕ). Shifts t n d xs ys) p (subst (λ (n : ℕ). Shifts t a n xs ys) q h)

-- A queue that stays, where the amount does not change.
pub Shifts-stay : (t : ℕ) {a b : ℕ} (xs : List ℕ) → a ≡ b → Shifts t a b xs xs
Shifts-stay t {a} xs p = subst (λ (n : ℕ). Shifts t a n xs xs) p (λ u. refl)

-- One lock changes.
pub update_locks :
    (t : ℕ) (lock : ℕ → Lock) (l : ℕ) (lk : Lock) (a b : ℕ → ℕ)
    → Shifts t (a l) (b l) (lock l).waiters lk.waiters
    → ((m : ℕ) → (l == m) ≡ false → a m ≡ b m)
    → (m : ℕ) → Shifts t (a m) (b m) (lock m).waiters (update lock l lk m).waiters
update_locks t lock l lk a b h k m = elim (Bool-cases (l == m)) [
  | inl e ↦
      rw e
        (subst (λ (n : ℕ). Shifts t (a n) (b n) (lock n).waiters lk.waiters) ((==_iff l m).0 e) h)
  | inr e ↦ rw e (Shifts-stay t (lock m).waiters (k m e))
]

pub update_events :
    (t : ℕ) (event : ℕ → List ℕ) (l : ℕ) (queue : List ℕ) (a b : ℕ → ℕ)
    → Shifts t (a l) (b l) (event l) queue
    → ((m : ℕ) → (l == m) ≡ false → a m ≡ b m)
    → (m : ℕ) → Shifts t (a m) (b m) (event m) (update event l queue m)
update_events t event l queue a b h k m = elim (Bool-cases (l == m)) [
  | inl e ↦ rw e (subst (λ (n : ℕ). Shifts t (a n) (b n) (event n) queue) ((==_iff l m).0 e) h)
  | inr e ↦ rw e (Shifts-stay t (event m) (k m e))
]

abbrev pub Free : (ℕ → Lock) → Type 0
Free lock = (l : ℕ) → (lock l).locked ≡ false → (lock l).waiters ≡ []

pub update-Free :
    (lock : ℕ → Lock) (l : ℕ) (lk : Lock)
    → (lk.locked ≡ false → lk.waiters ≡ [])
    → Free lock
    → Free (update lock l lk)
update-Free lock l lk h f m = elim (Bool-cases (l == m)) [ inl e ↦ rw e h | inr e ↦ rw e (f m) ]
