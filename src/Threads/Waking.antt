-- ===== src/Threads/Waking.antt =====
-- `wakeup_thread` of mindy/interp/thread.c, with the clearing of the datum that follows it.
use gwydion_2_4_cleanup.Prelude.{
  ℕ, ◌≡◌, refl, sym, subst, ◌∙◌, List, true, false, ◌==◌, ==_iff, if◌then◌else◌, arith, Bool-cases,
  inl, inr,
}
use gwydion_2_4_cleanup.Threads.Store.{
  Status, running, suspended, blocked, waiting, no_datum, Thread, Lock, State, set_datum,
}
use gwydion_2_4_cleanup.Threads.Invariant.{in_circle, in_lock, in_event, is_alive, CountFits}
use gwydion_2_4_cleanup.Threads.Invariant.Moves.{
  Shifts, Shifts-same, Shifts-append, Moves, Shifts-at, Shifts-stay, Free,
}
use gwydion_2_4_cleanup.Threads.{wakeup_thread}

-- The status that a thread is woken up to.
abbrev pub woken : Thread → Thread
woken th = record th {
  status = if th.suspend_count == 0 then running else suspended;
  datum = no_datum;
}

abbrev pub woken_state : ℕ → State → State
woken_state t s = set_datum t no_datum (wakeup_thread t s)

-- `s'` is `s` after the thread `t`, which was not in the circle, has been woken up.
pub record Wakes (t : ℕ) (s s' : State) : Type 0 where
  pub becomes : s'.thread t ≡ woken (s.thread t)
  pub others : (u : ℕ) → (u == t) ≡ false → s'.thread u ≡ s.thread u
  pub circle : Shifts t 0 (in_circle (woken (s.thread t)).status) s.runnable s'.runnable
  pub same_lock : s'.lock ≡ s.lock
  pub same_event : s'.event ≡ s.event
  pub same_all : s'.all ≡ s.all

pub ==_refl : (t : ℕ) → (t == t) ≡ true
==_refl t = (==_iff t t).1 refl

pub ==_flip : (t u : ℕ) → (u == t) ≡ false → (t == u) ≡ false
==_flip t u h = ground arith

pub wake_lem : (t : ℕ) (s : State) → Wakes t s (woken_state t s)
unfolding wakeup_thread
wake_lem t s = elim (Bool-cases ((s.thread t).suspend_count == 0)) [
  | inl z ↦ record {
    becomes = rw (z, ==_refl t) refl;
    others = λ u e. rw z (ground arith);
    circle = rw z (Shifts-append t s.runnable);
    same_lock = rw z refl;
    same_event = rw z refl;
    same_all = rw z refl;
  }
  | inr z ↦ record {
    becomes = rw (z, ==_refl t) refl;
    others = λ u e. rw z (ground arith);
    circle = rw z (Shifts-same t 0 s.runnable);
    same_lock = rw z refl;
    same_event = rw z refl;
    same_all = rw z refl;
  }
]

no_datum_in_lock : (l : ℕ) (st : Status) → in_lock l st no_datum ≡ 0
no_datum_in_lock l blocked = refl
no_datum_in_lock l _ = refl

no_datum_in_event : (e : ℕ) (st : Status) → in_event e st no_datum ≡ 0
no_datum_in_event e waiting = refl
no_datum_in_event e _ = refl

woken-alive : (th : Thread) → is_alive (woken th).status ≡ 1
woken-alive th = ground arith

woken-CountFits : (th : Thread) → CountFits (woken th).status th.suspend_count
woken-CountFits th = elim (Bool-cases (th.suspend_count == 0)) [
  | inl e ↦ rw e (ground arith)
  | inr e ↦ rw e (ground arith)
]

-- Waking a thread that has been taken out of the queue where it waited.
pub wake-Moves :
    (s : State) (t : ℕ) (lock : ℕ → Lock) (event : ℕ → List ℕ)
    → in_circle (s.thread t).status ≡ 0
    → is_alive (s.thread t).status ≡ 1
    → ((m : ℕ)
        → Shifts t
            (in_lock m (s.thread t).status (s.thread t).datum)
            0
            (s.lock m).waiters
            (lock m).waiters)
    → ((e : ℕ)
        → Shifts t (in_event e (s.thread t).status (s.thread t).datum) 0 (s.event e) (event e))
    → Free lock
    → Moves s (woken_state t (record s { lock = lock; event = event })) t (woken (s.thread t))
wake-Moves s t lock event c a hl he f =
    let s1 = record s { lock = lock; event = event } in
    let st = (woken (s.thread t)).status in
    let k = wake_lem t s1 in
    record {
      becomes = k.becomes;
      others = k.others;
      circle = Shifts-at t _ _ (sym c) refl k.circle;
      locks = λ m.
          subst
            (λ (g : ℕ → Lock).
              Shifts t (in_lock m (s.thread t).status (s.thread t).datum) (in_lock m st no_datum)
                (s.lock m).waiters (g m).waiters)
            (sym k.same_lock) (Shifts-at t _ _ refl (sym (no_datum_in_lock m st)) (hl m));
      events = λ e.
          subst
            (λ (g : ℕ → List ℕ).
              Shifts t (in_event e (s.thread t).status (s.thread t).datum) (in_event e st no_datum)
                (s.event e) (g e))
            (sym k.same_event) (Shifts-at t _ _ refl (sym (no_datum_in_event e st)) (he e));
      alive =
          subst (λ (us : List ℕ). Shifts t (is_alive (s.thread t).status) (is_alive st) s.all us)
            (sym k.same_all) (Shifts-stay t s.all (a ∙ sym (woken-alive (s.thread t))));
      free = subst (λ (g : ℕ → Lock). Free g) (sym k.same_lock) f;
      counts = woken-CountFits (s.thread t);
    }
