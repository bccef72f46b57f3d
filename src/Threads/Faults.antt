-- ===== src/Threads/Faults.antt =====
-- `thread_kill`, `thread_buggered` and `thread_pop_escape` of mindy/interp/thread.c, in the states
-- that they do not expect.
use gwydion_2_4_cleanup.Prelude.Counting.{count}
use gwydion_2_4_cleanup.Prelude.{
  ℕ, zero, suc, ◌<◌, ◌≡◌, refl, sym, ap, ◌∙◌, List, [], ◌∷◌, ◌++◌, true, false, ◌==◌, arith,
}
use gwydion_2_4_cleanup.Threads.Store.{
  Status, running, suspended, debuggered, blocked, waiting, Datum, no_datum, lock_datum,
  event_datum, Thread, Frame, State, Outcome, ok, no_fuel, ◌>>=◌, set_thread, set_lock, set_event,
  set_status, set_datum,
}
use gwydion_2_4_cleanup.Threads.Invariant.{in_circle, in_lock, in_event, is_alive, Inv}
use gwydion_2_4_cleanup.Threads.Waking.{==_refl, ==_flip}
use gwydion_2_4_cleanup.Threads.Locks.{Keeps}
use gwydion_2_4_cleanup.Threads.Invariant.Moves.{Shifts-append, Moves-Inv, Shifts-at, Shifts-stay}
use gwydion_2_4_cleanup.Threads.Killing.{end_kill}
use gwydion_2_4_cleanup.Threads.{
  thread_buggered, buggered_if, thread_kill, detach, remove_from, remove_from_lock,
  remove_from_event, wakeup_thread, thread_pop_escape, popped, resume, add_to_lock,
}

pub remove_from_behind :
    (fuel t u : ℕ) (next : List ℕ) → (u == t) ≡ false → remove_from fuel t (u ∷ next) ≡ no_fuel
unfolding remove_from
remove_from_behind zero t u next h = refl
remove_from_behind (suc fuel) t u next h = rw h (remove_from_behind fuel t u next h)

behind_lock :
    (s : State) (fuel t u l : ℕ) (next : List ℕ)
    → (s.lock l).waiters ≡ u ∷ next
    → (u == t) ≡ false
    → remove_from_lock fuel t (lock_datum l) s ≡ no_fuel
unfolding remove_from_lock
behind_lock s fuel t u l next w h =
    ap
      (λ (o : Outcome (List ℕ)).
        o >>= (λ queue. ok (set_lock l (record (s.lock l) { waiters = queue }) s)))
      (ap (remove_from fuel t) w ∙ remove_from_behind fuel t u next h)

behind_event :
    (s : State) (fuel t u e : ℕ) (next : List ℕ)
    → s.event e ≡ u ∷ next
    → (u == t) ≡ false
    → remove_from_event fuel t (event_datum e) s ≡ no_fuel
unfolding remove_from_event
behind_event s fuel t u e next w h =
    ap (λ (o : Outcome (List ℕ)). o >>= (λ queue. ok (set_datum t no_datum (set_event e queue s))))
      (ap (remove_from fuel t) w ∙ remove_from_behind fuel t u next h)

-- Somebody waits before `t`, where its status and its datum say that it waits.
abbrev pub IsBehind : State → ℕ → Status → Datum → Type 0
IsBehind s t blocked (lock_datum l) =
    (u : ℕ) × (next : List ℕ) × ((s.lock l).waiters ≡ u ∷ next) × ((u == t) ≡ false)
IsBehind s t waiting (event_datum e) =
    (u : ℕ) × (next : List ℕ) × (s.event e ≡ u ∷ next) × ((u == t) ≡ false)
IsBehind s t _ _ = ⊥

detach_behind :
    (s : State) (fuel t : ℕ) (st : Status) (d : Datum)
    → (s.thread t).datum ≡ d
    → IsBehind s t st d
    → detach fuel st t s ≡ no_fuel
unfolding detach
detach_behind s fuel t blocked (lock_datum l) q (u, next, w, h) =
    ap (λ (d : Datum). remove_from_lock fuel t d s) q ∙ behind_lock s fuel t u l next w h
detach_behind s fuel t waiting (event_datum e) q (u, next, w, h) =
    ap (λ (d : Datum). remove_from_event fuel t d s) q ∙ behind_event s fuel t u e next w h
detach_behind s fuel t _ d q h = absurd h

-- `thread_kill` of a thread that waits for a lock or an event behind another thread never returns:
-- no fuel is enough for its loop.
pub thread_kill_behind :
    (s : State) (fuel t : ℕ)
    → IsBehind s t (s.thread t).status (s.thread t).datum
    → thread_kill fuel t s ≡ no_fuel
unfolding thread_kill
thread_kill_behind s fuel t h =
    ap (λ (o : Outcome State). o >>= end_kill t)
      (detach_behind s fuel t (s.thread t).status (s.thread t).datum refl h)

abbrev buggered_state : State → ℕ → State
buggered_state s t = set_datum t no_datum (set_status t running (wakeup_thread t s))

buggered :
    (s : State) (t : ℕ)
    → (s.thread t).status ≡ debuggered
    → thread_buggered t s ≡ ok (buggered_state s t)
unfolding thread_buggered buggered_if
buggered s t e = ap (λ (st : Status). buggered_if st t s) e

abbrev counted_buggered : State → ℕ → State
counted_buggered s t = set_datum t no_datum (set_status t running (set_status t suspended s))

buggered_counted :
    (s : State) (t : ℕ)
    → ((s.thread t).suspend_count == 0) ≡ false
    → buggered_state s t ≡ counted_buggered s t
unfolding wakeup_thread
buggered_counted s t z = rw z refl

abbrev free_buggered : State → ℕ → State
free_buggered s t =
    set_datum t no_datum
      (set_status t running (set_status t running (record s { runnable = s.runnable ++ t ∷ [] })))

buggered_free :
    (s : State) (t : ℕ)
    → ((s.thread t).suspend_count == 0) ≡ true
    → buggered_state s t ≡ free_buggered s t
unfolding wakeup_thread
buggered_free s t z = rw z refl

free_buggered-Inv :
    (s : State) (t : ℕ)
    → Inv s
    → (s.thread t).status ≡ debuggered
    → (s.thread t).suspend_count ≡ 0
    → Inv (free_buggered s t)
free_buggered-Inv s t i e c =
    let th : Thread = record (s.thread t) { status = running; datum = no_datum } in
    Moves-Inv s (free_buggered s t) t th i record {
      becomes = rw (==_refl t) refl;
      others = λ u q. rw (==_flip t u q) refl;
      circle = Shifts-at t _ _ (sym (ap in_circle e)) refl (Shifts-append t s.runnable);
      locks = λ l.
          Shifts-stay t (s.lock l).waiters
            (ap (λ (st : Status). in_lock l st (s.thread t).datum) e);
      events =
          λ m. Shifts-stay t (s.event m) (ap (λ (st : Status). in_event m st (s.thread t).datum) e);
      alive = Shifts-stay t s.all (ap is_alive e);
      free = i.free;
      counts = c;
    }

-- `thread_buggered` of a thread that nobody has stopped leaves a well-formed state.
pub thread_buggered-Keeps :
    (s : State) (t : ℕ)
    → Inv s
    → (s.thread t).status ≡ debuggered
    → (s.thread t).suspend_count ≡ 0
    → Keeps (thread_buggered t s)
thread_buggered-Keeps s t i e c = (
  free_buggered s t,
  buggered s t e ∙ ap ok (buggered_free s t (rw c refl)),
  free_buggered-Inv s t i e c,
)

-- A thread that runs but is not in the circle.
stray :
    (s s' : State) (t : ℕ)
    → Inv s
    → in_circle (s.thread t).status ≡ 0
    → s'.runnable ≡ s.runnable
    → (s'.thread t).status ≡ running
    → ¬ Inv s'
stray s s' t i z r e j =
    absurd (omega (arith, sym (j.circle t) ∙ ap (count t) r ∙ i.circle t ∙ z, ap in_circle e))

-- `thread_buggered` of a thread that has been stopped in the debugger returns a state that is not
-- well formed: the status of the thread is running, but the thread is not in the circle.
pub thread_buggered_stopped :
    (s : State) (t : ℕ)
    → Inv s
    → (s.thread t).status ≡ debuggered
    → 0 < (s.thread t).suspend_count
    → (s' : State) × (thread_buggered t s ≡ ok s')
      × ((s'.thread t).status ≡ running)
      × (count t s'.runnable ≡ 0)
      × ¬ Inv s'
thread_buggered_stopped s t i e c =
    let runs : ((counted_buggered s t).thread t).status ≡ running = rw (==_refl t) refl in
    (
      counted_buggered s t,
      buggered s t e ∙ ap ok (buggered_counted s t (ground arith)),
      runs,
      i.circle t ∙ ap in_circle e,
      stray s (counted_buggered s t) t i (ap in_circle e) refl runs,
    )

-- What `thread_push_escape` leaves for a thread that waits for the lock `l`.
abbrev pub blocked_frame : ℕ → ℕ → Frame
blocked_frame l n = record { saved_status = blocked; saved_datum = lock_datum l; saved_count = n }

abbrev unwound : State → ℕ → ℕ → List Frame → State
unwound s t l frames =
    set_thread t (record (s.thread t) { status = blocked; datum = lock_datum l; frames = frames }) s

abbrev escaped : State → ℕ → ℕ → List Frame → State
escaped s t l frames =
    set_datum t no_datum (set_lock l (record (s.lock l) { locked = true }) (unwound s t l frames))

added :
    (s : State) (t l : ℕ)
    → (s.lock l).locked ≡ false
    → add_to_lock t (lock_datum l) s
      ≡ ok (set_datum t no_datum (set_lock l (record (s.lock l) { locked = true }) s))
unfolding add_to_lock
added s t l k = rw k refl

escapes :
    (s : State) (t l n : ℕ) (frames : List Frame)
    → (s.thread t).frames ≡ blocked_frame l n ∷ frames
    → (s.lock l).locked ≡ false
    → thread_pop_escape t s ≡ ok (escaped s t l frames)
unfolding thread_pop_escape popped resume
escapes s t l n frames f k =
    ap (λ (fs : List Frame). popped fs t s) f
    ∙ ap (λ (d : Datum). add_to_lock t d (unwound s t l frames)) (rw (==_refl t) refl)
    ∙ added (unwound s t l frames) t l k

-- `thread_pop_escape` of a thread that waited for a lock, which is free again, returns a state that
-- is not well formed: the thread is in the circle, but its status is blocked.
pub thread_pop_escape_free :
    (s : State) (t l n : ℕ) (frames : List Frame)
    → Inv s
    → (s.thread t).status ≡ running
    → (s.thread t).frames ≡ blocked_frame l n ∷ frames
    → (s.lock l).locked ≡ false
    → (s' : State) × (thread_pop_escape t s ≡ ok s')
      × ((s'.thread t).status ≡ blocked)
      × (count t s'.runnable ≡ 1)
      × ¬ Inv s'
thread_pop_escape_free s t l n frames i r f k =
    let waits : ((escaped s t l frames).thread t).status ≡ blocked = rw (==_refl t) refl in
    let circles : count t s.runnable ≡ 1 = i.circle t ∙ ap in_circle r in
    (
      escaped s t l frames,
      escapes s t l n frames f k,
      waits,
      circles,
      λ j. absurd (omega (arith, circles, j.circle t ∙ ap in_circle waits)),
    )
