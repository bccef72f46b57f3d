-- ===== src/Threads/Events.antt =====
-- Event calls of mindy/interp/thread.c and the well-formed states; broadcasts against signals.
use gwydion_2_4_cleanup.Prelude.{List-cases}
use gwydion_2_4_cleanup.Prelude.{
  ℕ, ◌<◌, ◌≡◌, refl, sym, ap, ap₂, subst, ◌∙◌, List, [], ◌∷◌, ◌++◌, Option, none, some, true, ◌==◌,
  ==_iff, if◌then◌else◌, arith, Bool-cases, inl, inr,
}
use gwydion_2_4_cleanup.Threads.Store.{
  Status, running, waiting, Datum, no_datum, lock_datum, event_datum, object_datum, Thread, State,
  set_event, set_status, set_datum, remove, update,
}
use gwydion_2_4_cleanup.Threads.Invariant.{in_circle, in_lock, in_event, is_alive, Inv}
use gwydion_2_4_cleanup.Threads.Invariant.Moves.{
  Shifts, Shifts-same, Shifts-append, Moves-Inv, Shifts-at, Shifts-stay, update_events,
}
use gwydion_2_4_cleanup.Threads.Leaving.{leave-Moves, suspend_thread-running}
use gwydion_2_4_cleanup.Threads.Waking.{woken, woken_state, wake-Moves, ==_refl, ==_flip}
use mathlib.Core.Path.{fun_ext}
use gwydion_2_4_cleanup.Threads.Locks.{Keeps, lock_release-Inv}
use gwydion_2_4_cleanup.Threads.{
  may_wait, released, event_wait, wake_first, event_signal, wake_all, event_broadcast,
  wakeup_thread,
}

in_event_one :
    (e : ℕ) (st : Status) (d : Datum) → 0 < in_event e st d → (st ≡ waiting) × (d ≡ event_datum e)
in_event_one e waiting (event_datum f) h = (refl, ap event_datum (ground arith))
in_event_one e waiting no_datum h = absurd (omega arith)
in_event_one e waiting (lock_datum f) h = absurd (omega arith)
in_event_one e waiting (object_datum f) h = absurd (omega arith)
in_event_one e _ d h = absurd (omega arith)

Shifts-tail : (t : ℕ) (next : List ℕ) → Shifts t 1 0 (t ∷ next) next
Shifts-tail t next u = ground arith

module _ (s : State) (i : Inv s) (e t : ℕ) (next : List ℕ) (q : s.event e ≡ t ∷ next) where
  first_waits : ((s.thread t).status ≡ waiting) × ((s.thread t).datum ≡ event_datum e)
  first_waits = in_event_one e _ _ (ground (arith, i.events e t))

  event_amount :
      (m : ℕ) → in_event m (s.thread t).status (s.thread t).datum ≡ (if m == e then 1 else 0)
  event_amount m = ap₂ (in_event m) first_waits.0 first_waits.1

  signalled-Inv : Inv (woken_state t (set_event e next s))
  signalled-Inv = Moves-Inv s (woken_state t (set_event e next s)) t (woken (s.thread t)) i (
      wake-Moves s t s.lock (update s.event e next) (ap in_circle first_waits.0)
        (ap is_alive first_waits.0)
        (λ l. Shifts-stay t (s.lock l).waiters (ap₂ (in_lock l) first_waits.0 first_waits.1))
        (update_events t s.event e next (λ m. in_event m (s.thread t).status (s.thread t).datum)
          (λ m. 0)
          (rw q (
            Shifts-at t (t ∷ next) next (sym (event_amount e ∙ ground arith)) refl
              (Shifts-tail t next)))
          (λ m p. event_amount m ∙ ground arith))
        i.free)

pub event_signal-Inv : (s : State) (e : ℕ) → Inv s → Inv (event_signal e s)
event_signal-Inv s e i = elim (List-cases (s.event e)) [
  | inl q ↦
      let r : event_signal e s ≡ s =
        unfold event_signal wake_first in ap (λ (queue : List ℕ). wake_first queue e s) q in
      subst (λ (s' : State). Inv s') (sym r) i
  | inr (t, next, q) ↦
      let r : event_signal e s ≡ woken_state t (set_event e next s) =
        unfold event_signal wake_first in ap (λ (queue : List ℕ). wake_first queue e s) q in
      subst (λ (s' : State). Inv s') (sym r) (signalled-Inv s i e t next q)
]

abbrev waiting_thread : State → ℕ → ℕ → Thread
waiting_thread s t e = record (s.thread t) { status = waiting; datum = event_datum e }

-- The state that a thread leaves when it begins to wait for an event, its lock not yet released.
abbrev waiting_state : State → ℕ → ℕ → State
waiting_state s t e = set_datum t (event_datum e) (
    set_status t waiting
      (set_event e (s.event e ++ t ∷ []) (record s { runnable = remove t s.runnable })))

waiting_state-Inv :
    (s : State) (t e : ℕ) → Inv s → (s.thread t).status ≡ running → Inv (waiting_state s t e)
waiting_state-Inv s t e i r = Moves-Inv s (waiting_state s t e) t (waiting_thread s t e) i (
    leave-Moves s i t (waiting_thread s t e) s.lock (update s.event e (s.event e ++ t ∷ []))
      (waiting_state s t e).thread r refl refl (λ l. Shifts-same t 0 (s.lock l).waiters)
      (update_events t s.event e (s.event e ++ t ∷ []) (λ m. 0)
        (λ m. in_event m waiting (event_datum e))
        (Shifts-at t _ _ refl (rw (==_refl e) refl) (Shifts-append t (s.event e)))
        (λ m q. rw (==_flip m e q) refl))
      i.free tt (rw (==_refl t) refl) (λ u q. rw (==_flip t u q) refl))

released-Inv : (l : Option ℕ) (s : State) → Inv s → Inv (released l s)
unfolding released
released-Inv none s i = i
released-Inv (some l) s i = lock_release-Inv s l i

pub event_wait-Keeps :
    (s : State) (t e : ℕ) (l : Option ℕ)
    → Inv s
    → (s.thread t).status ≡ running
    → may_wait l s ≡ true
    → Keeps (event_wait t e l s)
event_wait-Keeps s t e l i r m = (
  released l (waiting_state s t e),
  unfold event_wait in rw (m, suspend_thread-running s i t r) refl,
  released-Inv l (waiting_state s t e) (waiting_state-Inv s t e i r),
)

-- As many signals as there are threads in a queue.
unfoldable pub signals : List ℕ → ℕ → State → State
signals [] e s = s
signals (t ∷ next) e s = signals next e (event_signal e s)

woken_state-event :
    (t e : ℕ) (queue : List ℕ) (s : State)
    → woken_state t (set_event e queue s) ≡ set_event e queue (woken_state t s)
unfolding wakeup_thread
woken_state-event t e queue s = elim (Bool-cases ((s.thread t).suspend_count == 0)) [
  | inl z ↦ rw z refl
  | inr z ↦ rw z refl
]

update-update : (f : ℕ → List ℕ) (e : ℕ) (a b : List ℕ) → update (update f e a) e b ≡ update f e b
update-update f e a b = fun_ext λ m. ground arith

update_self : (f : ℕ → List ℕ) (e : ℕ) → update f e (f e) ≡ f
update_self f e =
    fun_ext
      λ m. elim (Bool-cases (e == m)) [ inl p ↦ rw p (ap f ((==_iff e m).0 p)) | inr p ↦ rw p refl ]

event_at : (e : ℕ) (queue : List ℕ) (s : State) → (set_event e queue s).event e ≡ queue
event_at e queue s = rw (==_refl e) refl

signal_first :
    (e t : ℕ) (next : List ℕ) (s : State)
    → event_signal e (set_event e (t ∷ next) s) ≡ set_event e next (woken_state t s)
unfolding event_signal wake_first
signal_first e t next s =
    ap (λ (queue : List ℕ). wake_first queue e (set_event e (t ∷ next) s)) (event_at e (t ∷ next) s)
    ∙ ap (λ (f : ℕ → List ℕ). woken_state t (record s { event = f }))
        (update-update s.event e (t ∷ next) next)
    ∙ woken_state-event t e next s

wake_all-signals :
    (queue : List ℕ) (e : ℕ) (s : State)
    → set_event e [] (wake_all queue s) ≡ signals queue e (set_event e queue s)
unfolding wake_all signals
wake_all-signals [] e s = refl
wake_all-signals (t ∷ next) e s =
    wake_all-signals next e (woken_state t s) ∙ ap (signals next e) (sym (signal_first e t next s))

-- `event_broadcast` is as many times `event_signal` as threads wait for the event: the threads are
-- woken up in the order of the queue, which is empty at the end.
pub event_broadcast-signals : (e : ℕ) (s : State) → event_broadcast e s ≡ signals (s.event e) e s
unfolding event_broadcast
event_broadcast-signals e s =
    wake_all-signals (s.event e) e s
    ∙ ap (λ (f : ℕ → List ℕ). signals (s.event e) e (record s { event = f }))
        (update_self s.event e)

signals-Inv : (queue : List ℕ) (e : ℕ) (s : State) → Inv s → Inv (signals queue e s)
unfolding signals
signals-Inv [] e s i = i
signals-Inv (t ∷ next) e s i = signals-Inv next e (event_signal e s) (event_signal-Inv s e i)

pub event_broadcast-Inv : (s : State) (e : ℕ) → Inv s → Inv (event_broadcast e s)
event_broadcast-Inv s e i =
    subst (λ (s' : State). Inv s') (sym (event_broadcast-signals e s))
      (signals-Inv (s.event e) e s i)
