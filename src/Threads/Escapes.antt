-- ===== src/Threads/Escapes.antt =====
-- Escape frames of mindy/interp/thread.c: `thread_push_escape` and, once the thread has been
-- restarted, `thread_pop_escape`.
use gwydion_2_4_cleanup.Prelude.Counting.{count, count-append}
use gwydion_2_4_cleanup.Prelude.{
  ℕ, ◌<◌, ◌≡◌, refl, sym, ap, subst, ◌∙◌, List, [], ◌∷◌, ◌++◌, true, ◌==◌, arith, Bool-cases, inl,
  inr, ◌⊎◌,
}
use gwydion_2_4_cleanup.Threads.Store.{
  Status, running, suspended, Frame, Thread, State, Outcome, ok, ◌>>=◌, set_thread, has, remove,
}
use gwydion_2_4_cleanup.Threads.Invariant.{has-count, in_circle, CountFits, Inv}
use gwydion_2_4_cleanup.Threads.Invariant.Moves.{Shifts-remove}
use gwydion_2_4_cleanup.Threads.Control.{restart_last, restarted_state}
use gwydion_2_4_cleanup.Threads.Waking.{==_refl}
use gwydion_2_4_cleanup.Threads.Leaving.{suspend_thread-running}
use gwydion_2_4_cleanup.Threads.{
  thread_push_escape, pushed, detach, thread_restart, thread_pop_escape, popped, resume,
  suspend_thread,
}

-- The frame that is pushed.
abbrev frame_of : Thread → Frame
frame_of th = record {
  saved_status = th.status;
  saved_datum = th.datum;
  saved_count = th.suspend_count;
}

-- A pushed thread once it has been restarted.
abbrev awake : State → ℕ → ℕ → State
awake s t stack = restarted_state (pushed t stack s) t

restart_pushed : (s : State) (t stack : ℕ) → thread_restart t (pushed t stack s) ≡ awake s t stack
unfolding pushed
restart_pushed s t stack =
    restart_last (pushed t stack s) t (rw (==_refl t) refl) (rw (==_refl t) refl)

awake_frames :
    (s : State) (t stack : ℕ)
    → ((awake s t stack).thread t).frames ≡ frame_of (s.thread t) ∷ (s.thread t).frames
unfolding pushed restarted_state
awake_frames s t stack = rw (==_refl t) refl

-- The thread with the status and the datum of the frame.
abbrev unwound : State → ℕ → ℕ → State
unwound s t stack =
    set_thread t
      (record ((awake s t stack).thread t) {
        status = (s.thread t).status;
        datum = (s.thread t).datum;
        frames = (s.thread t).frames;
      })
      (awake s t stack)

pop_pushed :
    (s : State) (t stack : ℕ)
    → thread_pop_escape t (awake s t stack)
      ≡ resume (s.thread t).status t (s.thread t).suspend_count (unwound s t stack)
unfolding thread_pop_escape popped
pop_pushed s t stack =
    ap (λ (fs : List Frame). popped fs t (awake s t stack)) (awake_frames s t stack)

-- After the thread has been taken out of the circle, if it was there.
escape :
    (s s1 : State) (fuel t stack : ℕ)
    → detach fuel (s.thread t).status t s ≡ ok s1
    → thread_push_escape fuel t stack s >>= (λ s2. thread_pop_escape t (thread_restart t s2))
      ≡ thread_pop_escape t (awake s1 t stack)
unfolding thread_push_escape
escape s s1 fuel t stack d =
    ap
      (λ (o : Outcome State).
        o >>= (λ s2. ok (pushed t stack s2)) >>= (λ s2. thread_pop_escape t (thread_restart t s2)))
      d
    ∙ ap (thread_pop_escape t) (restart_pushed s1 t stack)

-- What the thread comes back to.
back :
    (s : State) (t stack : ℕ)
    → (unwound s t stack).thread t ≡ record (s.thread t) { suspend_count = 0 }
unfolding pushed restarted_state
back s t stack = rw (==_refl t) refl

circle_back : (s : State) (t stack : ℕ) → (unwound s t stack).runnable ≡ s.runnable ++ t ∷ []
unfolding pushed restarted_state
circle_back s t stack = refl

-- The thread is as before, and the same threads are in the circle.
abbrev Restores : State → ℕ → Outcome State → Type 0
Restores s t result =
    (s' : State) × (result ≡ ok s')
    × (s'.thread t ≡ s.thread t)
    × ((u : ℕ) → count u s'.runnable ≡ count u s.runnable)

abbrev Roundabout : ℕ → ℕ → ℕ → State → Outcome State
Roundabout fuel t stack s =
    thread_push_escape fuel t stack s >>= (λ s1. thread_pop_escape t (thread_restart t s1))

count_moved :
    (u t : ℕ) (us : List ℕ) → count t us ≡ 1 → count u (remove t us ++ t ∷ []) ≡ count u us
count_moved u t us h = elim (Bool-cases (u == t)) [
  | inl e ↦
      omega (arith, rw e at (count-append u t (remove t us)), rw e at (Shifts-remove t us h u))
  | inr e ↦
      omega (arith, rw e at (count-append u t (remove t us)), rw e at (Shifts-remove t us h u))
]

count_last : (t : ℕ) (us : List ℕ) → 0 < count t (us ++ t ∷ [])
count_last t us = omega (arith, rw (==_refl t) at (count-append t t us))

from_running :
    (s : State) (i : Inv s) (fuel t stack : ℕ)
    → (s.thread t).status ≡ running
    → Restores s t (Roundabout fuel t stack s)
from_running s i fuel t stack r =
    let s1 : State = record s { runnable = remove t s.runnable } in
    let gone : detach fuel (s.thread t).status t s ≡ ok s1 =
      ap (λ (st : Status). detach fuel st t s) r
      ∙ (unfold detach in suspend_thread-running s i t r) in
    let resumed : resume (s.thread t).status t (s.thread t).suspend_count (unwound s1 t stack)
        ≡ ok (unwound s1 t stack) =
      ap (λ (st : Status). resume st t (s.thread t).suspend_count (unwound s1 t stack)) r
      ∙ (unfold resume in refl) in
    let zero_count : (s.thread t).suspend_count ≡ 0 =
      subst (λ (st : Status). CountFits st (s.thread t).suspend_count) r (i.counts t) in
    (
      unwound s1 t stack,
      escape s s1 fuel t stack gone ∙ pop_pushed s1 t stack ∙ resumed,
      back s1 t stack ∙ ap (λ (n : ℕ). record (s.thread t) { suspend_count = n }) (sym zero_count),
      λ u.
          ap (count u) (circle_back s1 t stack)
          ∙ count_moved u t s.runnable (i.circle t ∙ ap in_circle r),
    )

remove_last : (t : ℕ) (us : List ℕ) → count t us ≡ 0 → remove t (us ++ t ∷ []) ≡ us
remove_last t [] h = rw (==_refl t) refl
remove_last t (u ∷ us) h = elim (Bool-cases (t == u)) [
  | inl e ↦ absurd (ground arith)
  | inr e ↦ rw e (ap (λ (vs : List ℕ). u ∷ vs) (remove_last t us (rw e at h)))
]

suspends :
    (s : State) (t n : ℕ)
    → has t s.runnable ≡ true
    → resume suspended t n s
      ≡ ok (
          set_thread t
            (record (s.thread t) { suspend_count = n })
            (record s { runnable = remove t s.runnable }))
unfolding resume suspend_thread
suspends s t n h = rw h refl

thread_at : (t : ℕ) (th : Thread) (s : State) → (set_thread t th s).thread t ≡ th
thread_at t th s = rw (==_refl t) refl

from_suspended :
    (s : State) (i : Inv s) (fuel t stack : ℕ)
    → (s.thread t).status ≡ suspended
    → Restores s t (Roundabout fuel t stack s)
from_suspended s i fuel t stack r =
    let s1 : State = unwound s t stack in
    let s2 : State = record s1 { runnable = remove t s1.runnable } in
    let s3 : State =
      set_thread t (record (s2.thread t) { suspend_count = (s.thread t).suspend_count }) s2 in
    let gone : detach fuel (s.thread t).status t s ≡ ok s =
      ap (λ (st : Status). detach fuel st t s) r ∙ (unfold detach in refl) in
    let there : has t s1.runnable ≡ true = has-count t s1.runnable (
      subst (λ (us : List ℕ). 0 < count t us) (sym (circle_back s t stack))
        (count_last t s.runnable)) in
    let resumed : resume (s.thread t).status t (s.thread t).suspend_count s1 ≡ ok s3 =
      ap (λ (st : Status). resume st t (s.thread t).suspend_count s1) r
      ∙ suspends s1 t (s.thread t).suspend_count there in
    (
      s3,
      escape s s fuel t stack gone ∙ pop_pushed s t stack ∙ resumed,
      thread_at t (record (s2.thread t) { suspend_count = (s.thread t).suspend_count }) s2
          ∙ ap (λ (th : Thread). record th { suspend_count = (s.thread t).suspend_count })
              (back s t stack),
      λ u. ap (count u) (
          ap (remove t) (circle_back s t stack)
          ∙ remove_last t s.runnable (i.circle t ∙ ap in_circle r)),
    )

-- A thread that runs or is suspended, is made to escape, is restarted and leaves its escape frame is
-- afterwards as it was before, with its status and its suspend count, and the circle has the same
-- threads.
pub thread_pop_escape-thread_push_escape :
    (s : State) (fuel t stack : ℕ)
    → Inv s
    → ((s.thread t).status ≡ running) ⊎ ((s.thread t).status ≡ suspended)
    → (s' : State) × (thread_push_escape fuel t stack s
          >>= (λ s1. thread_pop_escape t (thread_restart t s1))
        ≡ ok s')
      × (s'.thread t ≡ s.thread t)
      × ((u : ℕ) → count u s'.runnable ≡ count u s.runnable)
thread_pop_escape-thread_push_escape s fuel t stack i (inl r) = from_running s i fuel t stack r
thread_pop_escape-thread_push_escape s fuel t stack i (inr r) = from_suspended s i fuel t stack r
