-- ===== src/Threads/Control.antt =====
-- Making, restarting and choosing threads (mindy/interp/thread.c) and the well-formed states.
use gwydion_2_4_cleanup.Prelude.Counting.{count, count-append}
use gwydion_2_4_cleanup.Prelude.{
  ℕ, zero, suc, ◌-◌, ◌≡◌, refl, sym, ap, ap₂, subst, ◌∙◌, ◌⊎◌, List, [], ◌∷◌, ◌++◌, true, false,
  ◌==◌, arith, inl, inr,
}
use gwydion_2_4_cleanup.Threads.Store.{
  Status, running, suspended, debuggered, blocked, waiting, exited, killed, Datum, object_datum,
  Thread, State, set_thread, set_status,
}
use gwydion_2_4_cleanup.Threads.Invariant.{in_circle, in_lock, in_event, is_alive, CountFits, Inv}
use gwydion_2_4_cleanup.Threads.Invariant.Moves.{
  Shifts-append, Moves, Moves-Inv, Shifts-at, Shifts-stay,
}
use gwydion_2_4_cleanup.Threads.Waking.{==_refl, ==_flip}
use gwydion_2_4_cleanup.Threads.{
  thread_pick_next, turned, thread_make, thread_restart, restarted, wakeup_thread,
}

count-turned : (u : ℕ) (us : List ℕ) → count u (turned us) ≡ count u us
unfolding turned
count-turned u [] = refl
count-turned u (t ∷ ts) = ground (arith, count-append u t ts)

pub thread_pick_next-Inv : (s : State) → Inv s → Inv (thread_pick_next s)
unfolding thread_pick_next
thread_pick_next-Inv s i = record {
  circle = λ u. count-turned u s.runnable ∙ i.circle u;
  locks = i.locks;
  events = i.events;
  alive = i.alive;
  free = i.free;
  counts = i.counts;
}

-- A change of the suspend count, or of the frames, that fits the status.
stays-Moves :
    (s : State) (i : Inv s) (t : ℕ) (th : Thread)
    → th.status ≡ (s.thread t).status
    → th.datum ≡ (s.thread t).datum
    → CountFits th.status th.suspend_count
    → Moves s (set_thread t th s) t th
stays-Moves s i t th p q c = record {
  becomes = rw (==_refl t) refl;
  others = λ u e. rw (==_flip t u e) refl;
  circle = Shifts-stay t s.runnable (ap in_circle (sym p));
  locks = λ l. Shifts-stay t (s.lock l).waiters (ap₂ (in_lock l) (sym p) (sym q));
  events = λ e. Shifts-stay t (s.event e) (ap₂ (in_event e) (sym p) (sym q));
  alive = Shifts-stay t s.all (ap is_alive (sym p));
  free = i.free;
  counts = c;
}

pub stays-Inv :
    (s : State) (t : ℕ) (th : Thread)
    → Inv s
    → th.status ≡ (s.thread t).status
    → th.datum ≡ (s.thread t).datum
    → CountFits th.status th.suspend_count
    → Inv (set_thread t th s)
stays-Inv s t th i p q c = Moves-Inv s (set_thread t th s) t th i (stays-Moves s i t th p q c)

pub fits : {st st' : Status} (n : ℕ) → st' ≡ st → CountFits st n → CountFits st' n
fits n e h = subst (λ (st : Status). CountFits st n) (sym e) h

pub running_count :
    (s : State) (t : ℕ)
    → Inv s
    → (s.thread t).status ≡ running
    → ((s.thread t).suspend_count == 0) ≡ false
    → ⊥
running_count s t i e z =
    let c : (s.thread t).suspend_count ≡ 0 =
      subst (λ (st : Status). CountFits st (s.thread t).suspend_count) e (i.counts t) in
    ground arith

-- A suspended thread, whose last suspension ends.
abbrev pub uncounted : State → ℕ → State
uncounted s t =
    set_thread t (record (s.thread t) { suspend_count = (s.thread t).suspend_count - 1 }) s

unfoldable pub restarted_state : State → ℕ → State
restarted_state s t =
    set_status t running (record (uncounted s t) { runnable = s.runnable ++ t ∷ [] })

wakes_up :
    (s : State) (t : ℕ)
    → (s.thread t).suspend_count ≡ 1
    → wakeup_thread t (uncounted s t) ≡ restarted_state s t
unfolding wakeup_thread restarted_state
wakes_up s t c =
    let z : (((uncounted s t).thread t).suspend_count == 0) ≡ true = rw (==_refl t, c) refl in
    rw z refl

restarted_state-Inv :
    (s : State) (t : ℕ)
    → Inv s
    → (s.thread t).status ≡ suspended
    → (s.thread t).suspend_count ≡ 1
    → Inv (restarted_state s t)
unfolding restarted_state
restarted_state-Inv s t i e c =
    let th : Thread = record (s.thread t) {
      status = running;
      suspend_count = (s.thread t).suspend_count - 1;
    } in
    Moves-Inv s (restarted_state s t) t th i record {
      becomes = rw (==_refl t) refl;
      others = λ u q. rw (==_flip t u q) refl;
      circle = Shifts-at t _ _ (sym (ap in_circle e)) refl (Shifts-append t s.runnable);
      locks = λ l.
          Shifts-stay t (s.lock l).waiters
            (ap (λ (st : Status). in_lock l st (s.thread t).datum) e);
      events =
          λ m. Shifts-stay t (s.event m) (ap (λ (st : Status). in_event m st (s.thread t).datum) e);
      alive = Shifts-stay t s.all (ap is_alive e);
      free = i.free;
      counts = omega arith;
    }

restarted-Inv :
    (st : Status) (n : ℕ) (s : State) (t : ℕ)
    → Inv s
    → (s.thread t).status ≡ st
    → (s.thread t).suspend_count ≡ suc n
    → Inv (restarted st t (uncounted s t))
restarted-Inv suspended zero s t i e c =
    let z : (((uncounted s t).thread t).suspend_count == 0) ≡ true = rw (==_refl t, c) refl in
    let r : restarted suspended t (uncounted s t) ≡ wakeup_thread t (uncounted s t) =
      unfold restarted in rw z refl in
    subst (λ (s' : State). Inv s') (sym (r ∙ wakes_up s t c)) (restarted_state-Inv s t i e c)
restarted-Inv suspended (suc n) s t i e c =
    let z : (((uncounted s t).thread t).suspend_count == 0) ≡ false =
      rw (==_refl t, c) (ground arith) in
    let r : restarted suspended t (uncounted s t) ≡ uncounted s t = unfold restarted in rw z refl in
    subst (λ (s' : State). Inv s') (sym r)
      (stays-Inv s t _ i refl refl (fits _ e (omega (arith, c))))
restarted-Inv running n s t i e c = absurd (running_count s t i e (rw c (ground arith)))
restarted-Inv debuggered n s t i e c = unfold restarted in stays-Inv s t _ i refl refl (fits _ e tt)
restarted-Inv blocked n s t i e c = unfold restarted in stays-Inv s t _ i refl refl (fits _ e tt)
restarted-Inv waiting n s t i e c = unfold restarted in stays-Inv s t _ i refl refl (fits _ e tt)
restarted-Inv exited n s t i e c = unfold restarted in stays-Inv s t _ i refl refl (fits _ e tt)
restarted-Inv killed n s t i e c = unfold restarted in stays-Inv s t _ i refl refl (fits _ e tt)

-- The last suspension of a suspended thread ends.
pub restart_last :
    (s : State) (t : ℕ)
    → (s.thread t).status ≡ suspended
    → (s.thread t).suspend_count ≡ 1
    → thread_restart t s ≡ restarted_state s t
restart_last s t e c =
    let z : ((s.thread t).suspend_count == 0) ≡ false = rw c (ground arith) in
    let r : thread_restart t s ≡ restarted (s.thread t).status t (uncounted s t) =
      unfold thread_restart in rw z refl in
    let z' : (((uncounted s t).thread t).suspend_count == 0) ≡ true = rw (==_refl t, c) refl in
    let r' : restarted suspended t (uncounted s t) ≡ wakeup_thread t (uncounted s t) =
      unfold restarted in rw z' refl in
    r ∙ ap (λ (st : Status). restarted st t (uncounted s t)) e ∙ r' ∙ wakes_up s t c

ℕ-cases : (n : ℕ) → (n ≡ 0) ⊎ ((m : ℕ) × (n ≡ suc m))
ℕ-cases zero = inl refl
ℕ-cases (suc m) = inr (m, refl)

pub thread_restart-Inv : (s : State) (t : ℕ) → Inv s → Inv (thread_restart t s)
thread_restart-Inv s t i = elim (ℕ-cases (s.thread t).suspend_count) [
  | inl c ↦
      let z : ((s.thread t).suspend_count == 0) ≡ true = rw c refl in
      let r : thread_restart t s ≡ s = unfold thread_restart in rw z refl in
      subst (λ (s' : State). Inv s') (sym r) i
  | inr (n, c) ↦
      let z : ((s.thread t).suspend_count == 0) ≡ false = rw c (ground arith) in
      let r : thread_restart t s ≡ restarted (s.thread t).status t (uncounted s t) =
        unfold thread_restart in rw z refl in
      subst (λ (s' : State). Inv s') (sym r) (restarted-Inv (s.thread t).status n s t i refl c)
]

abbrev newborn : ℕ → Thread
newborn stack = record {
  status = suspended;
  suspend_count = 1;
  datum = object_datum stack;
  frames = [];
}

-- What is no living thread waits for nothing.
dead_lock : (l : ℕ) (st : Status) (d : Datum) → is_alive st ≡ 0 → in_lock l st d ≡ 0
dead_lock l exited d h = refl
dead_lock l killed d h = refl
dead_lock l _ d h = absurd (omega arith)

dead_event : (e : ℕ) (st : Status) (d : Datum) → is_alive st ≡ 0 → in_event e st d ≡ 0
dead_event e exited d h = refl
dead_event e killed d h = refl
dead_event e _ d h = absurd (omega arith)

dead_circle : (st : Status) → is_alive st ≡ 0 → in_circle st ≡ 0
dead_circle exited h = refl
dead_circle killed h = refl
dead_circle _ h = absurd (omega arith)

pub thread_make-Inv :
    (s : State) (t stack : ℕ)
    → Inv s
    → is_alive (s.thread t).status ≡ 0
    → Inv (thread_make t stack s)
unfolding thread_make
thread_make-Inv s t stack i h = Moves-Inv s (thread_make t stack s) t (newborn stack) i record {
  becomes = rw (==_refl t) refl;
  others = λ u q. rw (==_flip t u q) refl;
  circle = Shifts-stay t s.runnable (dead_circle _ h);
  locks = λ l. Shifts-stay t (s.lock l).waiters (dead_lock l _ _ h);
  events = λ e. Shifts-stay t (s.event e) (dead_event e _ _ h);
  alive = Shifts-at t _ _ (sym h) refl (Shifts-append t s.all);
  free = i.free;
  counts = omega arith;
}
