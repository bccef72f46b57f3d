-- ===== src/Threads.antt =====
-- Threads, locks and events, mindy/interp/thread.c. `mindy_pause` ends a call, and what the thread
-- then runs (`advance`) is left out.
pub mod Store
pub mod Invariant
pub mod Waking
pub mod Leaving
pub mod Locks
pub mod Events
pub mod Control
pub mod Stopping
pub mod Removing
pub mod Detaching
pub mod Killing
pub mod Faults
pub mod Failing
pub mod Fairness
pub mod Escapes
pub mod Escaping
pub mod Steps
use gwydion_2_4_cleanup.Prelude.{
  ℕ, zero, suc, ◌+◌, ◌-◌, List, [], ◌∷◌, ◌++◌, Option, none, some, Bool, true, false, not, ◌&&◌,
  ◌==◌, ltb, if◌then◌else◌,
}
use gwydion_2_4_cleanup.Threads.Store.{
  Status, running, suspended, debuggered, blocked, waiting, exited, killed, Datum, no_datum,
  lock_datum, event_datum, object_datum, Frame, Thread, Lock, State, Outcome, ok, dylan_error, lost,
  null_pointer, no_fuel, ◌>>=◌, set_thread, set_lock, set_event, set_status, set_datum, has, remove,
}

-- `thread_pick_next`: the circle is turned.
unfoldable pub turned : List ℕ → List ℕ
turned [] = []
turned (t ∷ ts) = ts ++ t ∷ []

unfoldable pub head : List ℕ → Option ℕ
head [] = none
head (t ∷ ts) = some t

unfoldable pub thread_pick_next : State → State
thread_pick_next s = record s { runnable = turned s.runnable; current = head s.runnable }

-- A thread that is not in the circle has no `prev` to write through.
unfoldable pub suspend_thread : ℕ → State → Outcome State
suspend_thread t s =
    if has t s.runnable then ok (record s { runnable = remove t s.runnable }) else null_pointer

unfoldable pub wakeup_thread : ℕ → State → State
wakeup_thread t s =
    if (s.thread t).suspend_count == 0
    then set_status t running (record s { runnable = s.runnable ++ t ∷ [] })
    else set_status t suspended s

-- `thread_make`, of a thread that gets the address `t`.
unfoldable pub thread_make : ℕ → ℕ → State → State
thread_make t stack s =
    set_thread t
      (record { status = suspended; suspend_count = 1; datum = object_datum stack; frames = [] })
      (record s { all = s.all ++ t ∷ [] })

-- The test of `thread_stop`: the status, and whether the count was 0.
unfoldable pub stop_if : Status → Bool → ℕ → State → Outcome State
stop_if running true t s = suspend_thread t s >>= (λ s1. ok (set_status t suspended s1))
stop_if exited _ t s = null_pointer
stop_if killed _ t s = null_pointer
stop_if _ _ t s = ok s

unfoldable pub thread_stop : ℕ → State → Outcome State
thread_stop t s =
    let th = s.thread t in
    stop_if th.status (th.suspend_count == 0) t
      (set_thread t (record th { suspend_count = th.suspend_count + 1 }) s)

-- The wake-up at the end of `thread_restart`.
unfoldable pub restarted : Status → ℕ → State → State
restarted suspended t s = if (s.thread t).suspend_count == 0 then wakeup_thread t s else s
restarted _ t s = s

-- Of a thread that there is.
unfoldable pub thread_restart : ℕ → State → State
thread_restart t s =
    let th = s.thread t in
    if th.suspend_count == 0
    then s
    else restarted th.status t (set_thread t (record th { suspend_count = th.suspend_count - 1 }) s)

-- `thread == Current`. A failed assert is `lost`.
abbrev pub is_current : ℕ → Option ℕ → Bool
is_current t none = false
is_current t (some u) = u == t

unfoldable pub thread_debuggered : ℕ → ℕ → State → Outcome State
thread_debuggered t condition s =
    if is_current t s.current
    then suspend_thread t s
      >>= (λ s1. ok (set_datum t (object_datum condition) (set_status t debuggered s1)))
    else lost

-- The test of `thread_buggered`.
unfoldable pub buggered_if : Status → ℕ → State → Outcome State
buggered_if debuggered t s = ok (set_datum t no_datum (set_status t running (wakeup_thread t s)))
buggered_if exited t s = null_pointer
buggered_if killed t s = null_pointer
buggered_if _ t s = lost

unfoldable pub thread_buggered : ℕ → State → Outcome State
thread_buggered t s = buggered_if (s.thread t).status t s

-- `lock_grab`; where the lock is free, `advance` goes on at once.
unfoldable pub lock_grab : ℕ → ℕ → State → Outcome State
lock_grab t l s =
    let lk = s.lock l in
    if lk.locked
    then suspend_thread t s >>= (λ s1. ok (
        set_datum t (lock_datum l)
          (set_status t blocked (set_lock l (record lk { waiters = lk.waiters ++ t ∷ [] }) s1))))
    else ok (set_lock l (record lk { locked = true }) s)

-- The two branches of `lock_release`, by the queue.
unfoldable pub hand_on : List ℕ → ℕ → State → State
hand_on [] l s = set_lock l (record (s.lock l) { locked = false }) s
hand_on (t ∷ next) l s =
    set_datum t no_datum (wakeup_thread t (set_lock l (record (s.lock l) { waiters = next }) s))

unfoldable pub lock_release : ℕ → State → State
lock_release l s = hand_on (s.lock l).waiters l s

unfoldable pub dylan_lock_release : ℕ → State → Outcome State
dylan_lock_release l s = if (s.lock l).locked then ok (lock_release l s) else dylan_error

-- `event_wait`; the lock is `none` for #f.
unfoldable pub may_wait : Option ℕ → State → Bool
may_wait none s = true
may_wait (some l) s = (s.lock l).locked

unfoldable pub released : Option ℕ → State → State
released none s = s
released (some l) s = lock_release l s

unfoldable pub event_wait : ℕ → ℕ → Option ℕ → State → Outcome State
event_wait t e l s =
    if may_wait l s
    then suspend_thread t s >>= (λ s1. ok (
        released l (
          set_datum t (event_datum e)
            (set_status t waiting (set_event e (s1.event e ++ t ∷ []) s1)))))
    else dylan_error

-- The test of `event_signal`, by the queue.
unfoldable pub wake_first : List ℕ → ℕ → State → State
wake_first [] e s = s
wake_first (t ∷ next) e s = set_datum t no_datum (wakeup_thread t (set_event e next s))

unfoldable pub event_signal : ℕ → State → State
event_signal e s = wake_first (s.event e) e s

-- The loop of `event_broadcast`.
unfoldable pub wake_all : List ℕ → State → State
wake_all [] s = s
wake_all (t ∷ next) s = wake_all next (set_datum t no_datum (wakeup_thread t s))

unfoldable pub event_broadcast : ℕ → State → State
event_broadcast e s = set_event e [] (wake_all (s.event e) s)

-- The loop of `remove_from_lock` and `remove_from_event`: `prev` stays at the head of the queue.
unfoldable pub remove_from : ℕ → ℕ → List ℕ → Outcome (List ℕ)
remove_from zero t queue = no_fuel
remove_from (suc fuel) t [] = lost
remove_from (suc fuel) t (scan ∷ next) =
    let again = remove_from fuel t (scan ∷ next) in if scan == t then ok next else again

-- `remove_from_lock`, by the datum.
unfoldable pub remove_from_lock : ℕ → ℕ → Datum → State → Outcome State
remove_from_lock fuel t (lock_datum l) s =
    remove_from fuel t (s.lock l).waiters
    >>= (λ queue. ok (set_lock l (record (s.lock l) { waiters = queue }) s))
remove_from_lock fuel t _ s = null_pointer

unfoldable pub remove_from_event : ℕ → ℕ → Datum → State → Outcome State
remove_from_event fuel t (event_datum e) s =
    remove_from fuel t (s.event e) >>= (λ queue. ok (set_datum t no_datum (set_event e queue s)))
remove_from_event fuel t _ s = null_pointer

-- Taking a thread out of where it is, by its status, as `thread_kill` and `thread_push_escape` begin.
unfoldable pub detach : ℕ → Status → ℕ → State → Outcome State
detach fuel running t s = suspend_thread t s
detach fuel suspended t s = ok s
detach fuel debuggered t s = ok s
detach fuel blocked t s = remove_from_lock fuel t (s.thread t).datum s
detach fuel waiting t s = remove_from_event fuel t (s.thread t).datum s
detach fuel exited t s = null_pointer
detach fuel killed t s = null_pointer

unfoldable pub not_current : ℕ → Option ℕ → Option ℕ
not_current t none = none
not_current t (some u) = if u == t then none else some u

unfoldable pub thread_kill : ℕ → ℕ → State → Outcome State
thread_kill fuel t s = detach fuel (s.thread t).status t s >>= (λ s1.
    if has t s1.all
    then ok (
        set_status t killed
          (record s1 { all = remove t s1.all; current = not_current t s1.current }))
    else lost)

-- `stop_thread`, by which a thread ends.
unfoldable pub stop_thread : ℕ → ℕ → State → Outcome State
stop_thread fuel t s =
    if is_current t s.current
    then thread_kill fuel t s >>= (λ s1. ok (set_status t exited s1))
    else lost

-- `thread_push_escape`, from the second `status` on; only a suspended thread has its count saved.
unfoldable pub pushed : ℕ → ℕ → State → State
pushed t stack s =
    let th = s.thread t in
    set_thread t
      (record {
        status = suspended;
        suspend_count = 1;
        datum = object_datum stack;
        frames =
            record {
              saved_status = th.status;
              saved_datum = th.datum;
              saved_count = th.suspend_count;
            }
            ∷ th.frames;
      })
      s

unfoldable pub thread_push_escape : ℕ → ℕ → ℕ → State → Outcome State
thread_push_escape fuel t stack s =
    detach fuel (s.thread t).status t s >>= (λ s1. ok (pushed t stack s1))

-- `add_to_lock`, by the datum.
unfoldable pub add_to_lock : ℕ → Datum → State → Outcome State
add_to_lock t (lock_datum l) s =
    let lk = s.lock l in
    if lk.locked
    then suspend_thread t s
      >>= (λ s1. ok (set_lock l (record lk { waiters = lk.waiters ++ t ∷ [] }) s1))
    else ok (set_datum t no_datum (set_lock l (record lk { locked = true }) s))
add_to_lock t _ s = null_pointer

-- The `switch` of `thread_pop_escape`.
unfoldable pub resume : Status → ℕ → ℕ → State → Outcome State
resume running t count s = ok s
resume suspended t count s =
    suspend_thread t s
    >>= (λ s1. ok (set_thread t (record (s1.thread t) { suspend_count = count }) s1))
resume debuggered t count s = suspend_thread t s
resume blocked t count s = add_to_lock t (s.thread t).datum s
resume waiting t count s = ok (set_status t running s)
resume exited t count s = lost
resume killed t count s = lost

-- `thread_pop_escape`, by the frames on the stack.
unfoldable pub popped : List Frame → ℕ → State → Outcome State
popped [] t s = null_pointer
popped (frame ∷ frames) t s = resume frame.saved_status t frame.saved_count (
    set_thread t
      (record (s.thread t) {
        status = frame.saved_status;
        datum = frame.saved_datum;
        frames = frames;
      })
      s)

unfoldable pub thread_pop_escape : ℕ → State → Outcome State
thread_pop_escape t s = popped (s.thread t).frames t s
