-- ===== src/Threads/Locks.antt =====
-- Lock calls of mindy/interp/thread.c and the well-formed states.
use gwydion_2_4_cleanup.Prelude.{List-cases}
use gwydion_2_4_cleanup.Prelude.Counting.{count}
use gwydion_2_4_cleanup.Prelude.{
  ℕ, ◌<◌, ◌≡◌, refl, sym, ap, ap₂, subst, ◌∙◌, List, [], ◌∷◌, ◌++◌, Bool, true, false, ◌==◌, ==_iff,
  if◌then◌else◌, arith, Bool-cases, inl, inr,
}
use gwydion_2_4_cleanup.Threads.Store.{
  Status, running, blocked, Datum, no_datum, lock_datum, event_datum, object_datum, Thread, Lock,
  State, Outcome, ok, set_lock, set_status, set_datum, remove, update,
}
use gwydion_2_4_cleanup.Threads.Invariant.{in_circle, in_lock, in_event, is_alive, Inv}
use gwydion_2_4_cleanup.Threads.Invariant.Moves.{
  Shifts, Shifts-same, Shifts-append, Moves, Moves-Inv, Shifts-at, Shifts-stay, update_locks,
  update-Free,
}
use gwydion_2_4_cleanup.Threads.Leaving.{leave-Moves, suspend_thread-running}
use gwydion_2_4_cleanup.Threads.Waking.{woken, woken_state, wake_lem, wake-Moves, ==_refl, ==_flip}
use gwydion_2_4_cleanup.Threads.{suspend_thread, lock_grab, hand_on, lock_release}

in_lock_one :
    (l : ℕ) (st : Status) (d : Datum) → 0 < in_lock l st d → (st ≡ blocked) × (d ≡ lock_datum l)
in_lock_one l blocked (lock_datum m) h = (refl, ap lock_datum (ground arith))
in_lock_one l blocked no_datum h = absurd (omega arith)
in_lock_one l blocked (event_datum m) h = absurd (omega arith)
in_lock_one l blocked (object_datum m) h = absurd (omega arith)
in_lock_one l _ d h = absurd (omega arith)

Shifts-tail : (t : ℕ) (next : List ℕ) → Shifts t 1 0 (t ∷ next) next
Shifts-tail t next u = ground arith

module _ (s : State) (i : Inv s) (l t : ℕ) (next : List ℕ) (e : (s.lock l).waiters ≡ t ∷ next) where
  first_waits : ((s.thread t).status ≡ blocked) × ((s.thread t).datum ≡ lock_datum l)
  first_waits = in_lock_one l _ _ (ground (arith, i.locks l t))

  in_lock_before :
      (m : ℕ) → in_lock m (s.thread t).status (s.thread t).datum ≡ (if m == l then 1 else 0)
  in_lock_before m = rw (first_waits.0, first_waits.1) refl

  lock_amount :
      (m : ℕ) → in_lock m (s.thread t).status (s.thread t).datum ≡ (if m == l then 1 else 0)
  lock_amount m = ap₂ (in_lock m) first_waits.0 first_waits.1

  still_locked : (s.lock l).locked ≡ true
  still_locked = elim (Bool-cases (s.lock l).locked) [ inl p ↦ p | inr p ↦ cc (i.free l p, e) ]

  lock_release-next :
      lock_release l s ≡ woken_state t (set_lock l (record (s.lock l) { waiters = next }) s)
  unfolding lock_release hand_on
  lock_release-next = ap (λ (queue : List ℕ). hand_on queue l s) e

  lock_release-Moves : Moves s (lock_release l s) t (woken (s.thread t))
  lock_release-Moves =
      subst (λ (s' : State). Moves s s' t (woken (s.thread t))) (sym lock_release-next)
        (wake-Moves s t (update s.lock l (record (s.lock l) { waiters = next })) s.event
          (ap in_circle first_waits.0) (ap is_alive first_waits.0)
          (update_locks t s.lock l (record (s.lock l) { waiters = next })
            (λ m. in_lock m (s.thread t).status (s.thread t).datum) (λ m. 0)
            (rw e (
              Shifts-at t (t ∷ next) next (sym (lock_amount l ∙ ground arith)) refl
                (Shifts-tail t next)))
            (λ m q. lock_amount m ∙ ground arith))
          (λ f. Shifts-stay t (s.event f) (ap₂ (in_event f) first_waits.0 first_waits.1))
          (update-Free s.lock l (record (s.lock l) { waiters = next }) (λ q. cc (q, still_locked))
            i.free))

  released-Inv : Inv (lock_release l s)
  released-Inv = Moves-Inv s (lock_release l s) t (woken (s.thread t)) i lock_release-Moves

-- A lock may be taken or given back, while its queue stays.
locked-Inv :
    (s : State) (l : ℕ) (b : Bool)
    → (b ≡ false → (s.lock l).waiters ≡ [])
    → Inv s
    → Inv (set_lock l (record (s.lock l) { locked = b }) s)
locked-Inv s l b h i = record {
  circle = i.circle;
  locks = λ m t. elim (Bool-cases (l == m)) [
    | inl e ↦ rw e (
        subst
          (λ (n : ℕ). count t (s.lock l).waiters ≡ in_lock n (s.thread t).status (s.thread t).datum)
          ((==_iff l m).0 e) (i.locks l t))
    | inr e ↦ rw e (i.locks m t)
  ];
  events = i.events;
  alive = i.alive;
  free = update-Free s.lock l (record (s.lock l) { locked = b }) h i.free;
  counts = i.counts;
}

pub lock_release-Inv : (s : State) (l : ℕ) → Inv s → Inv (lock_release l s)
lock_release-Inv s l i = elim (List-cases (s.lock l).waiters) [
  | inl e ↦
      let r : lock_release l s ≡ set_lock l (record (s.lock l) { locked = false }) s =
        unfold lock_release hand_on in ap (λ (queue : List ℕ). hand_on queue l s) e in
      subst (λ (s' : State). Inv s') (sym r) (locked-Inv s l false (λ q. e) i)
  | inr (t, next, e) ↦ released-Inv s i l t next e
]

abbrev blocked_thread : State → ℕ → ℕ → Thread
blocked_thread s t l = record (s.thread t) { status = blocked; datum = lock_datum l }

-- The state that a thread leaves when it begins to wait for a lock.
abbrev blocked_state : State → ℕ → ℕ → State
blocked_state s t l = set_datum t (lock_datum l) (
    set_status t blocked (
      set_lock l (record (s.lock l) { waiters = (s.lock l).waiters ++ t ∷ [] })
        (record s { runnable = remove t s.runnable })))

blocks :
    (s : State) (t l : ℕ)
    → (s.lock l).locked ≡ true
    → suspend_thread t s ≡ ok (record s { runnable = remove t s.runnable })
    → lock_grab t l s ≡ ok (blocked_state s t l)
unfolding lock_grab
blocks s t l k r = rw (k, r) refl

blocked_state-Inv :
    (s : State) (t l : ℕ)
    → Inv s
    → (s.thread t).status ≡ running
    → (s.lock l).locked ≡ true
    → Inv (blocked_state s t l)
blocked_state-Inv s t l i r k =
    let lk : Lock = record (s.lock l) { waiters = (s.lock l).waiters ++ t ∷ [] } in
    Moves-Inv s (blocked_state s t l) t (blocked_thread s t l) i (
      leave-Moves s i t (blocked_thread s t l) (update s.lock l lk) s.event
        (blocked_state s t l).thread r refl refl
        (update_locks t s.lock l lk (λ m. 0) (λ m. in_lock m blocked (lock_datum l))
          (Shifts-at t _ _ refl (rw (==_refl l) refl) (Shifts-append t (s.lock l).waiters))
          (λ m q. rw (==_flip m l q) refl))
        (λ e. Shifts-same t 0 (s.event e)) (update-Free s.lock l lk (λ q. cc (q, k)) i.free) tt
        (rw (==_refl t) refl) (λ u q. rw (==_flip t u q) refl))

-- `s'` is what a call leaves, well formed.
abbrev pub Keeps : Outcome State → Type 0
Keeps result = (s' : State) × (result ≡ ok s') × Inv s'

pub lock_grab-Keeps :
    (s : State) (t l : ℕ) → Inv s → (s.thread t).status ≡ running → Keeps (lock_grab t l s)
unfolding lock_grab
lock_grab-Keeps s t l i r = elim (Bool-cases (s.lock l).locked) [
  | inl k ↦ (
    blocked_state s t l,
    blocks s t l k (suspend_thread-running s i t r),
    blocked_state-Inv s t l i r k,
  )
  | inr k ↦ (
    set_lock l (record (s.lock l) { locked = true }) s,
    rw k refl,
    locked-Inv s l true (λ q. cc q) i,
  )
]

-- In a well-formed state with a thread at the head of a lock's queue, `lock_release` hands the lock
-- on to this thread: the lock stays locked, the others stay in the queue, and the thread waits no
-- more: it runs, or is suspended if it has been stopped meanwhile. No other thread changes.
pub lock_release_hands_on :
    (s : State) (l t u : ℕ) (next : List ℕ)
    → Inv s
    → (s.lock l).waiters ≡ t ∷ next
    → (u == t) ≡ false
    → ((lock_release l s).lock l ≡ record { locked = true; waiters = next })
      × ((lock_release l s).thread t ≡ woken (s.thread t))
      × ((lock_release l s).thread u ≡ s.thread u)
lock_release_hands_on s l t u next i e q =
    let lk : Lock = record (s.lock l) { waiters = next } in
    let s1 : State = set_lock l lk s in
    let k = wake_lem t s1 in
    let r = lock_release-next s i l t next e in
    (
      ap (λ (s' : State). s'.lock l) r
          ∙ ap (λ (f : ℕ → Lock). f l) k.same_lock
          ∙ rw (==_refl l, still_locked s i l t next e) refl,
      ap (λ (s' : State). s'.thread t) r ∙ k.becomes,
      ap (λ (s' : State). s'.thread u) r ∙ k.others u q,
    )
