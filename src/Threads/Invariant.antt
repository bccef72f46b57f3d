-- ===== src/Threads/Invariant.antt =====
-- The well-formed states of mindy/interp/thread.c: where each thread is, by its status.
pub mod Moves
use gwydion_2_4_cleanup.Prelude.Counting.{count, count-append}
use gwydion_2_4_cleanup.Prelude.{
  ℕ, zero, suc, ◌+◌, ◌-◌, ◌<◌, ◌≤◌, ◌≡◌, refl, sym, ap, ◌∙◌, List, [], ◌∷◌, ◌++◌, Option, none,
  some, Bool, true, false, not, ◌&&◌, ◌==◌, ltb, if◌then◌else◌, arith, Bool-cases, inl, inr,
}
use gwydion_2_4_cleanup.Threads.Store.{
  Status, running, suspended, debuggered, blocked, waiting, exited, killed, Datum, no_datum,
  lock_datum, event_datum, object_datum, Thread, Lock, State, has, remove, update,
}

pub count-remove :
    (t u : ℕ) (us : List ℕ) → count t (remove u us) ≡ count t us - (if t == u then 1 else 0)
count-remove t u [] = ground arith
count-remove t u (v ∷ us) = ground (arith, count-remove t u us)

pub has-count : (t : ℕ) (us : List ℕ) → 0 < count t us → has t us ≡ true
has-count t [] h = absurd (omega arith)
has-count t (u ∷ us) h = ground (arith, has-count t us)

-- 1 where the status puts a thread into the circle, the queue of the lock, or that of the event.
abbrev pub in_circle : Status → ℕ
in_circle running = 1
in_circle _ = 0

abbrev pub in_lock : ℕ → Status → Datum → ℕ
in_lock l blocked (lock_datum m) = if l == m then 1 else 0
in_lock l _ _ = 0

abbrev pub in_event : ℕ → Status → Datum → ℕ
in_event e waiting (event_datum f) = if e == f then 1 else 0
in_event e _ _ = 0

abbrev pub is_alive : Status → ℕ
is_alive exited = 0
is_alive killed = 0
is_alive _ = 1

-- The suspend count is 0 in a running thread, and not in a suspended one.
abbrev pub CountFits : Status → ℕ → Type 0
CountFits running n = n ≡ 0
CountFits suspended n = 0 < n
CountFits _ n = Unit

-- A thread is once in each queue where its status and its datum say that it is, and in no other;
-- nobody waits for a free lock; and the suspend counts fit.
pub record Inv (s : State) : Type 0 where
  pub circle : (t : ℕ) → count t s.runnable ≡ in_circle (s.thread t).status
  pub locks :
      (l t : ℕ) → count t (s.lock l).waiters ≡ in_lock l (s.thread t).status (s.thread t).datum
  pub events : (e t : ℕ) → count t (s.event e) ≡ in_event e (s.thread t).status (s.thread t).datum
  pub alive : (t : ℕ) → count t s.all ≡ is_alive (s.thread t).status
  pub free : (l : ℕ) → (s.lock l).locked ≡ false → (s.lock l).waiters ≡ []
  pub counts : (t : ℕ) → CountFits (s.thread t).status (s.thread t).suspend_count
