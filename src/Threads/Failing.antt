-- ===== src/Threads/Failing.antt =====
-- That `thread_kill` of mindy/interp/thread.c does not call `lose`.
use gwydion_2_4_cleanup.Prelude.Counting.{count}
use gwydion_2_4_cleanup.Prelude.{
  ℕ, zero, suc, ◌≡◌, refl, ap, ap₂, ◌∙◌, List, [], ◌∷◌, Bool, true, false, ◌==◌, arith, Bool-cases,
  inl, inr, ◌⊎◌,
}
use gwydion_2_4_cleanup.Threads.Store.{
  Status, running, suspended, debuggered, blocked, waiting, exited, killed, Datum, no_datum,
  lock_datum, event_datum, State, Outcome, ok, lost, no_fuel, null_pointer, dylan_error, ◌>>=◌,
  set_lock, set_event, set_datum, remove,
}
use gwydion_2_4_cleanup.Threads.Invariant.{in_lock, in_event, is_alive, Inv}
use gwydion_2_4_cleanup.Threads.Waking.{==_refl}
use gwydion_2_4_cleanup.Threads.Leaving.{suspend_thread-running}
use gwydion_2_4_cleanup.Threads.Killing.{end_kill, ends, Killed}
use gwydion_2_4_cleanup.Threads.Faults.{remove_from_behind}
use gwydion_2_4_cleanup.Threads.{
  thread_kill, detach, remove_from, remove_from_lock, remove_from_event,
}

abbrev pub is_lost {ℓ} : {A : Type ℓ} → Outcome A → Bool
is_lost lost = true
is_lost _ = false

-- A call that is not lost, and then one that never is.
not_lost {ℓ} :
    {A : Type ℓ} (o : Outcome A) (g : A → State) (f : State → Outcome State)
    → is_lost o ≡ false
    → ((a : A) → is_lost (f (g a)) ≡ false)
    → is_lost (o >>= (λ a. ok (g a)) >>= f) ≡ false
not_lost (ok a) g f h k = k a
not_lost dylan_error g f h k = refl
not_lost lost g f h k = h
not_lost null_pointer g f h k = refl
not_lost no_fuel g f h k = refl

remove_from-found :
    (fuel t : ℕ) (queue : List ℕ) → count t queue ≡ 1 → is_lost (remove_from fuel t queue) ≡ false
unfolding remove_from
remove_from-found zero t queue h = refl
remove_from-found (suc fuel) t [] h = absurd (omega (arith, h))
remove_from-found (suc fuel) t (u ∷ next) h = elim (Bool-cases (u == t)) [
  | inl e ↦ rw e refl
  | inr e ↦ ap is_lost (remove_from_behind (suc fuel) t u next e)
]

module _ (s : State) (i : Inv s) (fuel t : ℕ) (one : is_alive (s.thread t).status ≡ 1) where
  buries : (s1 : State) → s1.all ≡ s.all → is_lost (end_kill t s1) ≡ false
  buries s1 a = ap is_lost (ends t s1 (ap (count t) a ∙ i.alive t ∙ one))

  lock_found :
      (d : Datum)
      → (s.thread t).status ≡ blocked
      → (s.thread t).datum ≡ d
      → is_lost (remove_from_lock fuel t d s >>= end_kill t) ≡ false
  unfolding remove_from_lock
  lock_found (lock_datum l) e q =
      not_lost (remove_from fuel t (s.lock l).waiters)
        (λ queue. set_lock l (record (s.lock l) { waiters = queue }) s) (end_kill t)
        (remove_from-found fuel t (s.lock l).waiters
          (i.locks l t ∙ ap₂ (in_lock l) e q ∙ rw (==_refl l) refl))
        (λ queue. buries (set_lock l (record (s.lock l) { waiters = queue }) s) refl)
  lock_found _ e q = refl

  event_found :
      (d : Datum)
      → (s.thread t).status ≡ waiting
      → (s.thread t).datum ≡ d
      → is_lost (remove_from_event fuel t d s >>= end_kill t) ≡ false
  unfolding remove_from_event
  event_found (event_datum m) e q =
      not_lost (remove_from fuel t (s.event m))
        (λ queue. set_datum t no_datum (set_event m queue s)) (end_kill t)
        (remove_from-found fuel t (s.event m)
          (i.events m t ∙ ap₂ (in_event m) e q ∙ rw (==_refl m) refl))
        (λ queue. buries (set_datum t no_datum (set_event m queue s)) refl)
  event_found _ e q = refl

-- The thread is there, or the pointer to it is null.
abbrev Serves : Status → Outcome State → Type 0
Serves st result = (is_alive st ≡ 1) ⊎ (result ≡ null_pointer)

kill_lost :
    (s : State) (i : Inv s) (fuel t : ℕ) (st : Status)
    → (s.thread t).status ≡ st
    → (is_lost (Killed fuel st t s) ≡ false) × Serves st (Killed fuel st t s)
unfolding detach
kill_lost s i fuel t running e = (
  ap (λ (o : Outcome State). is_lost (o >>= end_kill t)) (suspend_thread-running s i t e)
      ∙ buries s i fuel t (ap is_alive e) (record s { runnable = remove t s.runnable }) refl,
  inl refl,
)
kill_lost s i fuel t suspended e = (buries s i fuel t (ap is_alive e) s refl, inl refl)
kill_lost s i fuel t debuggered e = (buries s i fuel t (ap is_alive e) s refl, inl refl)
kill_lost s i fuel t blocked e =
    (lock_found s i fuel t (ap is_alive e) (s.thread t).datum e refl, inl refl)
kill_lost s i fuel t waiting e =
    (event_found s i fuel t (ap is_alive e) (s.thread t).datum e refl, inl refl)
kill_lost s i fuel t exited e = (refl, inr refl)
kill_lost s i fuel t killed e = (refl, inr refl)

-- In a well-formed state `thread_kill` never calls `lose`, whatever the fuel is: a thread that there
-- is has a status that it knows, and is among the threads and in the queue that its status names, or
-- the search goes on for ever. A thread that has exited or has been killed is no more, and to kill
-- it again is to use a null pointer.
pub thread_kill-is_lost :
    (s : State) (fuel t : ℕ)
    → Inv s
    → (is_lost (thread_kill fuel t s) ≡ false)
      × ((is_alive (s.thread t).status ≡ 1) ⊎ (thread_kill fuel t s ≡ null_pointer))
unfolding thread_kill
thread_kill-is_lost s fuel t i = kill_lost s i fuel t (s.thread t).status refl
