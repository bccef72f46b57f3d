-- ===== src/Threads/Detaching.antt =====
-- Taking a thread out of where it is, as `thread_kill` and `thread_push_escape` of
-- mindy/interp/thread.c begin.
use gwydion_2_4_cleanup.Prelude.{
  ℕ, suc, ◌≡◌, refl, sym, ap, ap₂, subst, ◌∙◌, List, ◌∷◌, Option, false, ◌==◌,
}
use gwydion_2_4_cleanup.Threads.Store.{
  Status, running, suspended, debuggered, blocked, waiting, exited, killed, Datum, no_datum,
  lock_datum, event_datum, Thread, Lock, State, Outcome, ok, set_lock, set_event, set_thread,
  set_datum, remove,
}
use gwydion_2_4_cleanup.Threads.Invariant.{in_circle, in_lock, in_event, is_alive, CountFits, Inv}
use gwydion_2_4_cleanup.Threads.Invariant.Moves.{
  Shifts, Shifts-remove, Moves, Shifts-at, Shifts-stay, update_locks, update_events, update-Free,
  Free,
}
use gwydion_2_4_cleanup.Threads.Leaving.{suspend_thread-running}
use gwydion_2_4_cleanup.Threads.Waking.{==_refl, ==_flip}
use gwydion_2_4_cleanup.Threads.Removing.{removed-lock, removed-event, Shifts-first}
use gwydion_2_4_cleanup.Threads.{detach}

-- `t` waits in no queue, or is the first in the one where it waits.
abbrev pub IsFirst : State → ℕ → Status → Datum → Type 0
IsFirst s t blocked (lock_datum l) = (next : List ℕ) × ((s.lock l).waiters ≡ t ∷ next)
IsFirst s t blocked _ = ⊥
IsFirst s t waiting (event_datum e) = (next : List ℕ) × (s.event e ≡ t ∷ next)
IsFirst s t waiting _ = ⊥
IsFirst s t exited d = ⊥
IsFirst s t killed d = ⊥
IsFirst s t _ d = Unit

-- `s1` is `s` with `t` in no queue any more.
pub record Detaches (s : State) (t : ℕ) (s1 : State) : Type 0 where
  pub others : (u : ℕ) → (u == t) ≡ false → s1.thread u ≡ s.thread u
  pub circle : Shifts t (in_circle (s.thread t).status) 0 s.runnable s1.runnable
  pub locks :
      (l : ℕ)
      → Shifts t
          (in_lock l (s.thread t).status (s.thread t).datum)
          0
          (s.lock l).waiters
          (s1.lock l).waiters
  pub events :
      (e : ℕ)
      → Shifts t (in_event e (s.thread t).status (s.thread t).datum) 0 (s.event e) (s1.event e)
  pub same_all : s1.all ≡ s.all
  pub same_current : s1.current ≡ s.current
  pub free : Free s1.lock
  pub alive : is_alive (s.thread t).status ≡ 1

-- A thread that was in no queue.
stays-Detaches :
    (s : State) (i : Inv s) (t : ℕ) (st : Status)
    → is_alive st ≡ 1
    → in_circle st ≡ 0
    → ((l : ℕ) (d : Datum) → in_lock l st d ≡ 0)
    → ((m : ℕ) (d : Datum) → in_event m st d ≡ 0)
    → (s.thread t).status ≡ st
    → Detaches s t s
stays-Detaches s i t st a c hl he e = record {
  others = λ u z. refl;
  circle = Shifts-stay t s.runnable (ap in_circle e ∙ c);
  locks = λ l.
      Shifts-stay t (s.lock l).waiters
        (ap (λ (x : Status). in_lock l x (s.thread t).datum) e ∙ hl l (s.thread t).datum);
  events = λ m.
      Shifts-stay t (s.event m)
        (ap (λ (x : Status). in_event m x (s.thread t).datum) e ∙ he m (s.thread t).datum);
  same_all = refl;
  same_current = refl;
  free = i.free;
  alive = ap is_alive e ∙ a;
}

running-Detaches :
    (s : State) (i : Inv s) (t : ℕ)
    → (s.thread t).status ≡ running
    → Detaches s t (record s { runnable = remove t s.runnable })
running-Detaches s i t e = record {
  others = λ u z. refl;
  circle =
      Shifts-at t _ _ (sym (ap in_circle e)) refl
        (Shifts-remove t s.runnable (i.circle t ∙ ap in_circle e));
  locks = λ l.
      Shifts-stay t (s.lock l).waiters (ap (λ (st : Status). in_lock l st (s.thread t).datum) e);
  events =
      λ m. Shifts-stay t (s.event m) (ap (λ (st : Status). in_event m st (s.thread t).datum) e);
  same_all = refl;
  same_current = refl;
  free = i.free;
  alive = ap is_alive e;
}

blocked-Detaches :
    (s : State) (i : Inv s) (t l : ℕ) (next : List ℕ)
    → (s.thread t).status ≡ blocked
    → (s.thread t).datum ≡ lock_datum l
    → (s.lock l).waiters ≡ t ∷ next
    → Detaches s t (set_lock l (record (s.lock l) { waiters = next }) s)
blocked-Detaches s i t l next e q w =
    let lk : Lock = record (s.lock l) { waiters = next } in
    record {
      others = λ u z. refl;
      circle = Shifts-stay t s.runnable (ap in_circle e);
      locks =
          update_locks t s.lock l lk (λ m. in_lock m (s.thread t).status (s.thread t).datum)
            (λ m. 0)
            (Shifts-at t (s.lock l).waiters next (sym (ap₂ (in_lock l) e q ∙ rw (==_refl l) refl))
              refl (subst (λ (ws : List ℕ). Shifts t 1 0 ws next) (sym w) (Shifts-first t next)))
            (λ m z. ap₂ (in_lock m) e q ∙ rw (==_flip m l z) refl);
      events = λ m. Shifts-stay t (s.event m) (ap₂ (in_event m) e q);
      same_all = refl;
      same_current = refl;
      free = update-Free s.lock l lk (λ z. cc (i.free l z, w)) i.free;
      alive = ap is_alive e;
    }

waiting-Detaches :
    (s : State) (i : Inv s) (t m : ℕ) (next : List ℕ)
    → (s.thread t).status ≡ waiting
    → (s.thread t).datum ≡ event_datum m
    → s.event m ≡ t ∷ next
    → Detaches s t (set_datum t no_datum (set_event m next s))
waiting-Detaches s i t m next e q w = record {
  others = λ u z. rw (==_flip t u z) refl;
  circle = Shifts-stay t s.runnable (ap in_circle e);
  locks = λ l. Shifts-stay t (s.lock l).waiters (ap₂ (in_lock l) e q);
  events =
      update_events t s.event m next (λ n. in_event n (s.thread t).status (s.thread t).datum)
        (λ n. 0)
        (Shifts-at t (s.event m) next (sym (ap₂ (in_event m) e q ∙ rw (==_refl m) refl)) refl
          (subst (λ (ws : List ℕ). Shifts t 1 0 ws next) (sym w) (Shifts-first t next)))
        (λ n z. ap₂ (in_event n) e q ∙ rw (==_flip n m z) refl);
  same_all = refl;
  same_current = refl;
  free = i.free;
  alive = ap is_alive e;
}

abbrev Taken : State → ℕ → Outcome State → Type 0
Taken s t result = (s1 : State) × (result ≡ ok s1) × Detaches s t s1

detach_status :
    (s : State) (i : Inv s) (fuel t : ℕ) (st : Status) (d : Datum)
    → (s.thread t).status ≡ st
    → (s.thread t).datum ≡ d
    → IsFirst s t st d
    → Taken s t (detach (suc fuel) st t s)
unfolding detach
detach_status s i fuel t running d e q f = (
  record s { runnable = remove t s.runnable },
  suspend_thread-running s i t e,
  running-Detaches s i t e,
)
detach_status s i fuel t suspended d e q f =
    (s, refl, stays-Detaches s i t suspended refl refl (λ l x. refl) (λ m x. refl) e)
detach_status s i fuel t debuggered d e q f =
    (s, refl, stays-Detaches s i t debuggered refl refl (λ l x. refl) (λ m x. refl) e)
detach_status s i fuel t blocked (lock_datum l) e q (next, w) = (
  set_lock l (record (s.lock l) { waiters = next }) s,
  removed-lock s fuel t l next q w,
  blocked-Detaches s i t l next e q w,
)
detach_status s i fuel t blocked _ e q f = absurd f
detach_status s i fuel t waiting (event_datum m) e q (next, w) = (
  set_datum t no_datum (set_event m next s),
  removed-event s fuel t m next q w,
  waiting-Detaches s i t m next e q w,
)
detach_status s i fuel t waiting _ e q f = absurd f
detach_status s i fuel t exited d e q f = absurd f
detach_status s i fuel t killed d e q f = absurd f

-- A thread in no queue, or the first in one.
pub detach-Detaches :
    (s : State) (i : Inv s) (fuel t : ℕ)
    → IsFirst s t (s.thread t).status (s.thread t).datum
    → (s1 : State) × (detach (suc fuel) (s.thread t).status t s ≡ ok s1) × Detaches s t s1
detach-Detaches s i fuel t f =
    detach_status s i fuel t (s.thread t).status (s.thread t).datum refl refl f

-- The thread as it is afterwards, where it is in no queue.
pub settles-Moves :
    (s s1 : State) (t : ℕ) (th : Thread) (all : List ℕ) (current : Option ℕ)
    → Detaches s t s1
    → in_circle th.status ≡ 0
    → ((l : ℕ) → in_lock l th.status th.datum ≡ 0)
    → ((e : ℕ) → in_event e th.status th.datum ≡ 0)
    → CountFits th.status th.suspend_count
    → Shifts t 1 (is_alive th.status) s.all all
    → Moves s (set_thread t th (record s1 { all = all; current = current })) t th
settles-Moves s s1 t th all current d c l e n a = record {
  becomes = rw (==_refl t) refl;
  others = λ u z. rw (==_flip t u z) (d.others u z);
  circle = Shifts-at t _ _ refl (sym c) d.circle;
  locks = λ m. Shifts-at t _ _ refl (sym (l m)) (d.locks m);
  events = λ m. Shifts-at t _ _ refl (sym (e m)) (d.events m);
  alive = Shifts-at t _ _ (sym d.alive) refl a;
  free = d.free;
  counts = n;
}
