-- ===== src/Threads/Steps.antt =====
-- The runs of mindy/interp/thread.c, as steps from state to state.
use gwydion_2_4_cleanup.Prelude.{
  ℕ, suc, ◌≡◌, refl, sym, ap, subst, ◌∙◌, List, [], ◌∷◌, Option, none, true, false,
}
use gwydion_2_4_cleanup.Threads.Store.{
  running, debuggered, killed, no_datum, Frame, State, Outcome, ok,
}
use gwydion_2_4_cleanup.Threads.Invariant.{is_alive, Inv}
use gwydion_2_4_cleanup.Threads.Locks.{Keeps, lock_grab-Keeps, lock_release-Inv}
use gwydion_2_4_cleanup.Threads.Events.{event_wait-Keeps, event_signal-Inv, event_broadcast-Inv}
use gwydion_2_4_cleanup.Threads.Control.{thread_pick_next-Inv, thread_restart-Inv, thread_make-Inv}
use gwydion_2_4_cleanup.Threads.Stopping.{thread_stop-Keeps, thread_debuggered-Keeps}
use gwydion_2_4_cleanup.Threads.Detaching.{IsFirst}
use gwydion_2_4_cleanup.Threads.Killing.{thread_kill-Keeps}
use gwydion_2_4_cleanup.Threads.Escaping.{
  Resumable, thread_push_escape-Keeps, thread_pop_escape-Keeps,
}
use gwydion_2_4_cleanup.Threads.Faults.{thread_buggered-Keeps}
use gwydion_2_4_cleanup.Threads.{
  is_current, thread_pick_next, thread_make, thread_stop, thread_restart, thread_debuggered,
  thread_buggered, lock_grab, lock_release, may_wait, event_wait, event_signal, event_broadcast,
  thread_kill, thread_push_escape, thread_pop_escape,
}

-- What the interpreter does to the threads, where the callers see to the condition that is named.
pub data Step : State → State → Type 0 where
  picks : (s : State) → Step s (thread_pick_next s)
  makes :
      (s : State) (t stack : ℕ) → is_alive (s.thread t).status ≡ 0 → Step s (thread_make t stack s)
  stops :
      (s s' : State) (t : ℕ)
      → is_alive (s.thread t).status ≡ 1
      → thread_stop t s ≡ ok s'
      → Step s s'
  restarts : (s : State) (t : ℕ) → is_alive (s.thread t).status ≡ 1 → Step s (thread_restart t s)
  debugs :
      (s s' : State) (t condition : ℕ)
      → (s.thread t).status ≡ running
      → is_current t s.current ≡ true
      → thread_debuggered t condition s ≡ ok s'
      → Step s s'
  buggers :
      (s s' : State) (t : ℕ)
      → (s.thread t).status ≡ debuggered
      → (s.thread t).suspend_count ≡ 0
      → thread_buggered t s ≡ ok s'
      → Step s s'
  grabs :
      (s s' : State) (t l : ℕ) → (s.thread t).status ≡ running → lock_grab t l s ≡ ok s' → Step s s'
  releases : (s : State) (l : ℕ) → Step s (lock_release l s)
  waits :
      (s s' : State) (t e : ℕ) (l : Option ℕ)
      → (s.thread t).status ≡ running
      → may_wait l s ≡ true
      → event_wait t e l s ≡ ok s'
      → Step s s'
  signals : (s : State) (e : ℕ) → Step s (event_signal e s)
  broadcasts : (s : State) (e : ℕ) → Step s (event_broadcast e s)
  kills :
      (s s' : State) (fuel t : ℕ)
      → IsFirst s t (s.thread t).status (s.thread t).datum
      → thread_kill (suc fuel) t s ≡ ok s'
      → Step s s'
  pushes :
      (s s' : State) (fuel t stack : ℕ)
      → IsFirst s t (s.thread t).status (s.thread t).datum
      → thread_push_escape (suc fuel) t stack s ≡ ok s'
      → Step s s'
  pops :
      (s s' : State) (t : ℕ) (frame : Frame) (frames : List Frame)
      → (s.thread t).status ≡ running
      → (s.thread t).frames ≡ frame ∷ frames
      → Resumable s frame.saved_status frame.saved_datum frame.saved_count
      → thread_pop_escape t s ≡ ok s'
      → Step s s'

-- The states that a run from `s` goes through.
pub data Reach (s : State) : State → Type 0 where
  here : Reach s s
  then : {s1 s2 : State} → Reach s s1 → Step s1 s2 → Reach s s2

-- Where nothing has been made yet.
abbrev pub start : State
start = record {
  runnable = [];
  current = none;
  all = [];
  thread = λ t. record { status = killed; suspend_count = 0; datum = no_datum; frames = [] };
  lock = λ l. record { locked = false; waiters = [] };
  event = λ e. [];
}

pub start-Inv : Inv start
start-Inv = record {
  circle = λ t. refl;
  locks = λ l t. refl;
  events = λ e t. refl;
  alive = λ t. refl;
  free = λ l h. refl;
  counts = λ t. tt;
}

abbrev result : Outcome State → State → State
result (ok s) d = s
result _ d = d

kept : (o : Outcome State) (s : State) → o ≡ ok s → Keeps o → Inv s
kept o s p (s', q, i) =
    subst (λ (s2 : State). Inv s2) (ap (λ (r : Outcome State). result r s) (sym q ∙ p)) i

Step-Inv : (s s' : State) → Step s s' → Inv s → Inv s'
Step-Inv _ _ (picks s) i = thread_pick_next-Inv s i
Step-Inv _ _ (makes s t stack h) i = thread_make-Inv s t stack i h
Step-Inv _ _ (stops s s' t a q) i = kept (thread_stop t s) s' q (thread_stop-Keeps s t i a)
Step-Inv _ _ (restarts s t a) i = thread_restart-Inv s t i
Step-Inv _ _ (debugs s s' t condition r c q) i =
    kept (thread_debuggered t condition s) s' q (thread_debuggered-Keeps s t condition i r c)
Step-Inv _ _ (buggers s s' t r c q) i =
    kept (thread_buggered t s) s' q (thread_buggered-Keeps s t i r c)
Step-Inv _ _ (grabs s s' t l r q) i = kept (lock_grab t l s) s' q (lock_grab-Keeps s t l i r)
Step-Inv _ _ (releases s l) i = lock_release-Inv s l i
Step-Inv _ _ (waits s s' t e l r m q) i =
    kept (event_wait t e l s) s' q (event_wait-Keeps s t e l i r m)
Step-Inv _ _ (signals s e) i = event_signal-Inv s e i
Step-Inv _ _ (broadcasts s e) i = event_broadcast-Inv s e i
Step-Inv _ _ (kills s s' fuel t f q) i =
    kept (thread_kill (suc fuel) t s) s' q (thread_kill-Keeps s i fuel t f)
Step-Inv _ _ (pushes s s' fuel t stack f q) i =
    kept (thread_push_escape (suc fuel) t stack s) s' q
      (thread_push_escape-Keeps s i fuel t stack f)
Step-Inv _ _ (pops s s' t frame frames r e p q) i =
    kept (thread_pop_escape t s) s' q (thread_pop_escape-Keeps s i t r frame frames e p)

-- Every state that a run leads to from a well-formed state is well formed: each thread is once in the
-- queue where its status and its datum say that it is, and in no other, nobody waits for a free
-- lock, and the suspend counts fit. A run is a sequence of the calls in `Step` that return, under
-- the conditions named there: a thread that debugs, grabs, waits or leaves an escape frame runs; one
-- that is stopped or restarted is still there; one that is killed or pushed to an escape frame waits
-- in no queue or is the first in it; one that is made is new; a lock that is given up for an event
-- is not free; a suspend count is 0 when the debugger lets go of a thread; and
-- at the end of an escape frame a lock that the thread waited for is not free, and the saved count
-- of a suspended thread is not 0.
pub Reach-Inv : (s s' : State) → Reach s s' → Inv s → Inv s'
Reach-Inv s s' here i = i
Reach-Inv s s' (then {s1} r step) i = Step-Inv s1 s' step (Reach-Inv s s1 r i)
