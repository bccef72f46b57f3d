-- ===== src/Threads/Store.antt =====
-- The state of mindy/interp/thread.c: the threads, the queue of the runnable ones, locks and events.
pub use gwydion_2_4_cleanup.Prelude.{update}
use gwydion_2_4_cleanup.Prelude.{ℕ, List, [], ◌∷◌, Option, Bool, true, false, ◌==◌, if◌then◌else◌}

-- `enum thread_status`.
pub data Status : Type 0 where
  running suspended debuggered blocked waiting exited killed : Status

-- `datum`: #f, the lock or the event that a thread waits for, or another object.
pub data Datum : Type 0 where
  no_datum : Datum
  lock_datum : ℕ → Datum
  event_datum : ℕ → Datum
  object_datum : ℕ → Datum

-- What `thread_push_escape` leaves on a thread's stack, but for where the thread was.
pub record Frame : Type 0 where
  pub saved_status : Status
  pub saved_datum : Datum
  pub saved_count : ℕ

-- `struct thread`, as far as the scheduling goes, with its `struct thread_obj`. The status is that of
-- the `thread_obj`; `set_status` gives it to both, so that it is also the thread's as long as there
-- is the thread. `thread_kill` frees the `struct thread`, sets the pointer to it to NULL and leaves
-- `killed`, and `stop_thread` `exited`, in the `thread_obj` alone: with one of these there is no
-- `struct thread`, and what would read or write it uses a null pointer.
pub record Thread : Type 0 where
  pub status : Status
  pub suspend_count : ℕ
  pub datum : Datum
  pub frames : List Frame

-- `struct lock`, its queue from `waiting` to `last`.
pub record Lock : Type 0 where
  pub locked : Bool
  pub waiters : List ℕ

-- `Runnable` is the head of `runnable`, which stands for the circle that `next` and `prev` make;
-- `all` is `AllThreads`, and an event is its queue. Threads, locks and events are known by numbers.
pub record State : Type 0 where
  pub runnable : List ℕ
  pub current : Option ℕ
  pub all : List ℕ
  pub thread : ℕ → Thread
  pub lock : ℕ → Lock
  pub event : ℕ → List ℕ

-- How a call ends: by returning or pausing, by `error`, by `lose`, by using a null pointer, or, in
-- the model only, by running out of fuel.
pub data Outcome {ℓ} (A : Type ℓ) : Type ℓ where
  ok : A → Outcome A
  dylan_error lost null_pointer no_fuel : Outcome A

infixl 5 ◌>>=◌
abbrev pub ◌>>=◌ {ℓ κ} : {A : Type ℓ} {B : Type κ} → Outcome A → (A → Outcome B) → Outcome B
ok a >>= f = f a
dylan_error >>= f = dylan_error
lost >>= f = lost
null_pointer >>= f = null_pointer
no_fuel >>= f = no_fuel

abbrev pub set_thread : ℕ → Thread → State → State
set_thread t th s = record s { thread = update s.thread t th }

abbrev pub set_lock : ℕ → Lock → State → State
set_lock l lk s = record s { lock = update s.lock l lk }

abbrev pub set_event : ℕ → List ℕ → State → State
set_event e queue s = record s { event = update s.event e queue }

abbrev pub set_status : ℕ → Status → State → State
set_status t st s = set_thread t (record (s.thread t) { status = st }) s

abbrev pub set_datum : ℕ → Datum → State → State
set_datum t d s = set_thread t (record (s.thread t) { datum = d }) s

abbrev pub has : ℕ → List ℕ → Bool
has t [] = false
has t (u ∷ us) = if t == u then true else has t us

abbrev pub remove : ℕ → List ℕ → List ℕ
remove t [] = []
remove t (u ∷ us) = if t == u then us else u ∷ remove t us
