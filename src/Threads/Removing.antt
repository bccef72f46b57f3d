-- ===== src/Threads/Removing.antt =====
-- Taking a thread out of the queue of a lock or an event where it is the first (mindy/interp/thread.c).
use gwydion_2_4_cleanup.Prelude.{ℕ, suc, ◌≡◌, refl, ap, ◌∙◌, List, ◌∷◌, arith}
use gwydion_2_4_cleanup.Threads.Store.{
  Datum, no_datum, lock_datum, event_datum, State, Outcome, ok, ◌>>=◌, set_lock, set_event,
  set_datum,
}
use gwydion_2_4_cleanup.Threads.Invariant.Moves.{Shifts}
use gwydion_2_4_cleanup.Threads.Waking.{==_refl}
use gwydion_2_4_cleanup.Threads.{remove_from, remove_from_lock, remove_from_event}

remove_from-first : (fuel t : ℕ) (next : List ℕ) → remove_from (suc fuel) t (t ∷ next) ≡ ok next
unfolding remove_from
remove_from-first fuel t next = rw (==_refl t) refl

found_lock :
    (s : State) (fuel t l : ℕ) (next : List ℕ)
    → (s.lock l).waiters ≡ t ∷ next
    → remove_from_lock (suc fuel) t (lock_datum l) s
      ≡ ok (set_lock l (record (s.lock l) { waiters = next }) s)
unfolding remove_from_lock
found_lock s fuel t l next w =
    ap
      (λ (o : Outcome (List ℕ)).
        o >>= (λ queue. ok (set_lock l (record (s.lock l) { waiters = queue }) s)))
      (ap (remove_from (suc fuel) t) w ∙ remove_from-first fuel t next)

found_event :
    (s : State) (fuel t e : ℕ) (next : List ℕ)
    → s.event e ≡ t ∷ next
    → remove_from_event (suc fuel) t (event_datum e) s
      ≡ ok (set_datum t no_datum (set_event e next s))
unfolding remove_from_event
found_event s fuel t e next w =
    ap (λ (o : Outcome (List ℕ)). o >>= (λ queue. ok (set_datum t no_datum (set_event e queue s))))
      (ap (remove_from (suc fuel) t) w ∙ remove_from-first fuel t next)

pub removed-lock :
    (s : State) (fuel t l : ℕ) (next : List ℕ)
    → (s.thread t).datum ≡ lock_datum l
    → (s.lock l).waiters ≡ t ∷ next
    → remove_from_lock (suc fuel) t (s.thread t).datum s
      ≡ ok (set_lock l (record (s.lock l) { waiters = next }) s)
removed-lock s fuel t l next q w =
    ap (λ (d : Datum). remove_from_lock (suc fuel) t d s) q ∙ found_lock s fuel t l next w

pub removed-event :
    (s : State) (fuel t e : ℕ) (next : List ℕ)
    → (s.thread t).datum ≡ event_datum e
    → s.event e ≡ t ∷ next
    → remove_from_event (suc fuel) t (s.thread t).datum s
      ≡ ok (set_datum t no_datum (set_event e next s))
removed-event s fuel t e next q w =
    ap (λ (d : Datum). remove_from_event (suc fuel) t d s) q ∙ found_event s fuel t e next w

pub Shifts-first : (t : ℕ) (next : List ℕ) → Shifts t 1 0 (t ∷ next) next
Shifts-first t next u = ground arith
