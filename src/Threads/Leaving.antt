-- ===== src/Threads/Leaving.antt =====
-- Taking a running thread of mindy/interp/thread.c out of the circle.
use gwydion_2_4_cleanup.Prelude.{ℕ, ◌≡◌, refl, sym, ap, ◌∙◌, List, false, ◌==◌, arith}
use gwydion_2_4_cleanup.Threads.Store.{Status, running, Thread, Lock, State, ok, remove}
use gwydion_2_4_cleanup.Threads.Invariant.{
  has-count, in_circle, in_lock, in_event, is_alive, CountFits, Inv,
}
use gwydion_2_4_cleanup.Threads.Invariant.Moves.{
  Shifts, Shifts-remove, Moves, Shifts-at, Shifts-stay, Free,
}
use gwydion_2_4_cleanup.Threads.{suspend_thread}

-- A running thread leaves the circle, to be `th` and where `lock` and `event` say.
pub leave-Moves :
    (s : State) (i : Inv s) (t : ℕ) (th : Thread) (lock : ℕ → Lock) (event : ℕ → List ℕ)
    (thread : ℕ → Thread)
    → (s.thread t).status ≡ running
    → in_circle th.status ≡ 0
    → is_alive th.status ≡ 1
    → ((m : ℕ) → Shifts t 0 (in_lock m th.status th.datum) (s.lock m).waiters (lock m).waiters)
    → ((e : ℕ) → Shifts t 0 (in_event e th.status th.datum) (s.event e) (event e))
    → Free lock
    → CountFits th.status th.suspend_count
    → (thread t ≡ th)
    → ((u : ℕ) → (u == t) ≡ false → thread u ≡ s.thread u)
    → Moves s
        (record s { runnable = remove t s.runnable; lock = lock; event = event; thread = thread })
        t
        th
leave-Moves s i t th lock event thread r c a hl he f n b o = record {
  becomes = b;
  others = o;
  circle =
      Shifts-at t _ _ (sym (ap in_circle r)) (sym c)
        (Shifts-remove t s.runnable (i.circle t ∙ ap in_circle r));
  locks = λ m.
      Shifts-at t _ _ (sym (ap (λ (st : Status). in_lock m st (s.thread t).datum) r)) refl (hl m);
  events = λ e.
      Shifts-at t _ _ (sym (ap (λ (st : Status). in_event e st (s.thread t).datum) r)) refl (he e);
  alive = Shifts-stay t s.all (ap is_alive r ∙ sym a);
  free = f;
  counts = n;
}

pub suspend_thread-running :
    (s : State) (i : Inv s) (t : ℕ)
    → (s.thread t).status ≡ running
    → suspend_thread t s ≡ ok (record s { runnable = remove t s.runnable })
unfolding suspend_thread
suspend_thread-running s i t r =
    rw (has-count t s.runnable (omega (arith, i.circle t ∙ ap in_circle r))) refl
