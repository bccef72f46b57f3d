-- ===== src/Tests/Scheduling.antt =====
-- The theorems on mindy/interp/thread.c at concrete states.
use gwydion_2_4_cleanup.Prelude.Counting.{count}
use gwydion_2_4_cleanup.Prelude.{ℕ, suc, ◌<◌, ◌≡◌, refl, [], ◌∷◌, none, some, true, false, arith}
use gwydion_2_4_cleanup.Threads.Store.{
  running, debuggered, blocked, set_thread, State, Outcome, ok, no_fuel, null_pointer,
}
use gwydion_2_4_cleanup.Threads.Invariant.{is_alive, Inv}
use gwydion_2_4_cleanup.Threads.Locks.{lock_release_hands_on}
use gwydion_2_4_cleanup.Threads.Escapes.{thread_pop_escape-thread_push_escape}
use gwydion_2_4_cleanup.Prelude.{inl, ◌⊎◌}
use gwydion_2_4_cleanup.Threads.{thread_push_escape}
use gwydion_2_4_cleanup.Threads.Store.{◌>>=◌}
use gwydion_2_4_cleanup.Threads.Waking.{woken}
use gwydion_2_4_cleanup.Threads.Detaching.{IsFirst}
use gwydion_2_4_cleanup.Threads.Killing.{IsKilled, thread_kill-IsKilled}
use gwydion_2_4_cleanup.Threads.Faults.{
  IsBehind, thread_kill_behind, thread_buggered_stopped, thread_pop_escape_free, blocked_frame,
}
use gwydion_2_4_cleanup.Threads.Control.{stays-Inv}
use gwydion_2_4_cleanup.Threads.Failing.{is_lost, thread_kill-is_lost}
use gwydion_2_4_cleanup.Threads.Events.{signals, event_broadcast-signals}
use gwydion_2_4_cleanup.Threads.Fairness.{size, picks, thread_pick_next_fair}
use gwydion_2_4_cleanup.Threads.Steps.{
  Reach, here, then, picks as picks_next, makes, restarts, grabs, stops, debugs, start, start-Inv,
  Reach-Inv,
}
use gwydion_2_4_cleanup.Threads.{
  thread_pick_next, turned, head, thread_make, thread_restart, restarted, wakeup_thread, lock_grab,
  suspend_thread, lock_release, thread_kill, thread_debuggered, thread_stop, stop_if,
  thread_buggered, thread_pop_escape, event_broadcast, event_wait,
}

-- Three threads, started one after the other.
abbrev one : State
one = thread_restart 1 (thread_make 1 100 start)

abbrev two : State
two = thread_restart 2 (thread_make 2 200 one)

abbrev three : State
three = thread_restart 3 (thread_make 3 300 two)

one-Reach : Reach start one
unfolding thread_make
one-Reach = then (then here (makes start 1 100 refl)) (restarts (thread_make 1 100 start) 1 refl)

two-Reach : Reach start two
unfolding thread_make thread_restart restarted wakeup_thread
two-Reach = then (then one-Reach (makes one 2 200 refl)) (restarts (thread_make 2 200 one) 2 refl)

three-Reach : Reach start three
unfolding thread_make thread_restart restarted wakeup_thread
three-Reach = then (then two-Reach (makes two 3 300 refl)) (restarts (thread_make 3 300 two) 3 refl)

three-Inv : Inv three
three-Inv = Reach-Inv start three three-Reach start-Inv

three_runs : (three.thread 2).status ≡ running
unfolding thread_make thread_restart restarted wakeup_thread
three_runs = refl

thread_pick_next_fair_example :
    (n : ℕ) × (n < size three.runnable)
    × ((picks (suc n) three).current ≡ some 2)
    × ((picks (size three.runnable) three).runnable ≡ three.runnable)
thread_pick_next_fair_example = thread_pick_next_fair three 2 three-Inv three_runs

-- Thread 1 has the lock 7, and the others wait for it.
abbrev after : Outcome State → State
after (ok s) = s
after _ = start

abbrev held : State
held = after (lock_grab 1 7 three)

abbrev one_waits : State
one_waits = after (lock_grab 2 7 held)

abbrev two_wait : State
two_wait = after (lock_grab 3 7 one_waits)

two_wait-Reach : Reach start two_wait
unfolding thread_make thread_restart restarted wakeup_thread lock_grab suspend_thread
two_wait-Reach =
    then
      (then (then three-Reach (grabs three held 1 7 refl refl))
        (grabs held one_waits 2 7 refl refl))
      (grabs one_waits two_wait 3 7 refl refl)

two_wait-Inv : Inv two_wait
two_wait-Inv = Reach-Inv start two_wait two_wait-Reach start-Inv

two_wait-queue : (two_wait.lock 7).waiters ≡ 2 ∷ 3 ∷ []
unfolding thread_make thread_restart restarted wakeup_thread lock_grab suspend_thread
two_wait-queue = refl

lock_release_hands_on_example :
    ((lock_release 7 two_wait).lock 7 ≡ record { locked = true; waiters = 3 ∷ [] })
    × ((lock_release 7 two_wait).thread 2 ≡ woken (two_wait.thread 2))
    × ((lock_release 7 two_wait).thread 3 ≡ two_wait.thread 3)
lock_release_hands_on_example =
    lock_release_hands_on two_wait 7 2 3 (3 ∷ []) two_wait-Inv two_wait-queue refl

two-IsFirst : IsFirst two_wait 2 (two_wait.thread 2).status (two_wait.thread 2).datum
unfolding thread_make thread_restart restarted wakeup_thread lock_grab suspend_thread
two-IsFirst = (3 ∷ [], refl)

thread_kill-IsKilled_example :
    (s' : State) × (thread_kill 1 2 two_wait ≡ ok s') × IsKilled two_wait 2 s'
thread_kill-IsKilled_example = thread_kill-IsKilled two_wait two_wait-Inv 0 2 two-IsFirst

three-IsBehind : IsBehind two_wait 3 (two_wait.thread 3).status (two_wait.thread 3).datum
unfolding thread_make thread_restart restarted wakeup_thread lock_grab suspend_thread
three-IsBehind = (2, 3 ∷ [], refl, refl)

thread_kill_behind_example : thread_kill 1000 3 two_wait ≡ no_fuel
thread_kill_behind_example = thread_kill_behind two_wait 1000 3 three-IsBehind

thread_kill-is_lost_example :
    (is_lost (thread_kill 5 4 two_wait) ≡ false)
    × ((is_alive (two_wait.thread 4).status ≡ 1) ⊎ (thread_kill 5 4 two_wait ≡ null_pointer))
thread_kill-is_lost_example = thread_kill-is_lost two_wait 5 4 two_wait-Inv

-- Threads 3 and 2 wait for the event 8.
abbrev expecting : State
expecting = after (event_wait 2 8 none (after (event_wait 3 8 none three)))

event_broadcast-signals_example :
    event_broadcast 8 expecting ≡ signals (expecting.event 8) 8 expecting
event_broadcast-signals_example = event_broadcast-signals 8 expecting

-- Thread 1 is in the debugger, where it is stopped.
abbrev in_debugger : State
in_debugger = after (thread_debuggered 1 50 (thread_pick_next three))

abbrev stopped : State
stopped = after (thread_stop 1 in_debugger)

stopped-Reach : Reach start stopped
unfolding thread_make thread_restart restarted wakeup_thread thread_debuggered suspend_thread
    thread_pick_next turned head thread_stop stop_if
stopped-Reach =
    then
      (then (then three-Reach (picks_next three))
        (debugs (thread_pick_next three) in_debugger 1 50 refl refl refl))
      (stops in_debugger stopped 1 refl refl)

Reach-Inv_example : Inv stopped
Reach-Inv_example = Reach-Inv start stopped stopped-Reach start-Inv

stopped_status : (stopped.thread 1).status ≡ debuggered
unfolding thread_make thread_restart restarted wakeup_thread thread_debuggered suspend_thread
    thread_pick_next turned head thread_stop stop_if
stopped_status = refl

stopped_count : 0 < (stopped.thread 1).suspend_count
unfolding thread_make thread_restart restarted wakeup_thread thread_debuggered suspend_thread
    thread_pick_next turned head thread_stop stop_if
stopped_count = omega arith

thread_buggered_stopped_example :
    (s' : State) × (thread_buggered 1 stopped ≡ ok s')
    × ((s'.thread 1).status ≡ running)
    × (count 1 s'.runnable ≡ 0)
    × ¬ Inv s'
thread_buggered_stopped_example =
    thread_buggered_stopped stopped 1 (Reach-Inv start stopped stopped-Reach start-Inv)
      stopped_status stopped_count

-- Thread 2 waited for the lock 9 when it was made to escape, and is now to go back.
abbrev escaped : State
escaped = set_thread 2 (record (three.thread 2) { frames = blocked_frame 9 0 ∷ [] }) three

escaped-Inv : Inv escaped
unfolding thread_make thread_restart restarted wakeup_thread
escaped-Inv =
    stays-Inv three 2 (record (three.thread 2) { frames = blocked_frame 9 0 ∷ [] }) three-Inv refl
      refl refl

escaped_status : (escaped.thread 2).status ≡ running
unfolding thread_make thread_restart restarted wakeup_thread
escaped_status = refl

escaped_lock : (escaped.lock 9).locked ≡ false
unfolding thread_make thread_restart restarted wakeup_thread
escaped_lock = refl

thread_pop_escape_free_example :
    (s' : State) × (thread_pop_escape 2 escaped ≡ ok s')
    × ((s'.thread 2).status ≡ blocked)
    × (count 2 s'.runnable ≡ 1)
    × ¬ Inv s'
thread_pop_escape_free_example =
    thread_pop_escape_free escaped 2 9 0 [] escaped-Inv escaped_status refl escaped_lock

thread_pop_escape-thread_push_escape_example :
    (s' : State) × (thread_push_escape 1 2 900 three
        >>= (λ s1. thread_pop_escape 2 (thread_restart 2 s1))
      ≡ ok s')
    × (s'.thread 2 ≡ three.thread 2)
    × ((u : ℕ) → count u s'.runnable ≡ count u three.runnable)
thread_pop_escape-thread_push_escape_example =
    thread_pop_escape-thread_push_escape three 1 2 900 three-Inv (inl three_runs)
