-- ===== src/Threads/Stopping.antt =====
-- Stopping a thread, by itself or by the debugger (mindy/interp/thread.c), and the well-formed
-- states.
use gwydion_2_4_cleanup.Prelude.{ℕ, ◌+◌, ◌≡◌, refl, sym, ap, ◌∙◌, Bool, true, false, ◌==◌, arith}
use gwydion_2_4_cleanup.Threads.Store.{
  Status, running, suspended, debuggered, blocked, waiting, exited, killed, Datum, object_datum,
  Thread, State, set_thread, set_status, set_datum, remove,
}
use gwydion_2_4_cleanup.Threads.Invariant.{
  has-count, in_circle, in_lock, in_event, is_alive, CountFits, Inv,
}
use gwydion_2_4_cleanup.Threads.Invariant.Moves.{Moves-Inv, Shifts-stay}
use gwydion_2_4_cleanup.Threads.Leaving.{leave-Moves, suspend_thread-running}
use gwydion_2_4_cleanup.Threads.Waking.{==_refl, ==_flip}
use gwydion_2_4_cleanup.Threads.Locks.{Keeps}
use gwydion_2_4_cleanup.Threads.{
  thread_stop, stop_if, thread_debuggered, is_current, suspend_thread,
}
use gwydion_2_4_cleanup.Threads.Control.{fits, running_count, stays-Inv}

-- A running thread that leaves the circle and waits for nothing.
abbrev pub Idle : Status → Datum → Type 0
Idle st d =
    (in_circle st ≡ 0)
    × (is_alive st ≡ 1)
    × ((l : ℕ) → in_lock l st d ≡ 0)
    × ((e : ℕ) → in_event e st d ≡ 0)

pub idle-Inv :
    (s : State) (t : ℕ) (th : Thread) (thread : ℕ → Thread)
    → Inv s
    → (s.thread t).status ≡ running
    → Idle th.status th.datum
    → CountFits th.status th.suspend_count
    → thread t ≡ th
    → ((u : ℕ) → (u == t) ≡ false → thread u ≡ s.thread u)
    → Inv (record s { runnable = remove t s.runnable; thread = thread })
idle-Inv s t th thread i r (c, a, l, e) n b o =
    Moves-Inv s (record s { runnable = remove t s.runnable; thread = thread }) t th i
      (leave-Moves s i t th s.lock s.event thread r c a
        (λ m. Shifts-stay t (s.lock m).waiters (sym (l m)))
        (λ f. Shifts-stay t (s.event f) (sym (e f))) i.free n b o)

pub suspended-Idle : (d : Datum) → Idle suspended d
suspended-Idle d = (refl, refl, λ l. refl, λ e. refl)

stopped_state : State → ℕ → State
stopped_state s t =
    set_status t suspended
      (record (set_thread t (record (s.thread t) { suspend_count = (s.thread t).suspend_count + 1 })
        s) { runnable = remove t s.runnable })

stop_if-Keeps :
    (st : Status) (b : Bool) (s : State) (t : ℕ)
    → Inv s
    → (s.thread t).status ≡ st
    → ((s.thread t).suspend_count == 0) ≡ b
    → is_alive st ≡ 1
    → Keeps (
        stop_if st b t
          (set_thread t (record (s.thread t) { suspend_count = (s.thread t).suspend_count + 1 }) s))
unfolding stop_if
stop_if-Keeps running true s t i e z a = (
  stopped_state s t,
  unfold stopped_state suspend_thread in
      rw (has-count t s.runnable (omega (arith, i.circle t ∙ ap in_circle e))) refl,
  unfold stopped_state in
      idle-Inv s t
        (record (s.thread t) { status = suspended; suspend_count = (s.thread t).suspend_count + 1 })
        (stopped_state s t).thread i e (suspended-Idle (s.thread t).datum) (omega arith)
        (rw (==_refl t) refl) (λ u q. rw (==_flip t u q) refl),
)
stop_if-Keeps running false s t i e z a = absurd (running_count s t i e z)
stop_if-Keeps suspended b s t i e z a =
    (_, refl, stays-Inv s t _ i refl refl (fits _ e (omega arith)))
stop_if-Keeps debuggered b s t i e z a = (_, refl, stays-Inv s t _ i refl refl (fits _ e tt))
stop_if-Keeps blocked b s t i e z a = (_, refl, stays-Inv s t _ i refl refl (fits _ e tt))
stop_if-Keeps waiting b s t i e z a = (_, refl, stays-Inv s t _ i refl refl (fits _ e tt))
stop_if-Keeps exited b s t i e z a = absurd (omega (arith, a))
stop_if-Keeps killed b s t i e z a = absurd (omega (arith, a))

pub thread_stop-Keeps :
    (s : State) (t : ℕ) → Inv s → is_alive (s.thread t).status ≡ 1 → Keeps (thread_stop t s)
unfolding thread_stop
thread_stop-Keeps s t i a =
    stop_if-Keeps (s.thread t).status ((s.thread t).suspend_count == 0) s t i refl refl a

debuggered_state : State → ℕ → ℕ → State
debuggered_state s t condition =
    set_datum t (object_datum condition)
      (set_status t debuggered (record s { runnable = remove t s.runnable }))

pub thread_debuggered-Keeps :
    (s : State) (t condition : ℕ)
    → Inv s
    → (s.thread t).status ≡ running
    → is_current t s.current ≡ true
    → Keeps (thread_debuggered t condition s)
unfolding thread_debuggered debuggered_state
thread_debuggered-Keeps s t condition i r c = (
  debuggered_state s t condition,
  rw (c, suspend_thread-running s i t r) refl,
  idle-Inv s t (record (s.thread t) { status = debuggered; datum = object_datum condition })
      (debuggered_state s t condition).thread i r (refl, refl, λ l. refl, λ e. refl) tt
      (rw (==_refl t) refl) (λ u q. rw (==_flip t u q) refl),
)
