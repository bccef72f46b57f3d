-- ===== src/Threads/Killing.antt =====
-- `thread_kill` of mindy/interp/thread.c.
use gwydion_2_4_cleanup.Prelude.Counting.{count}
use gwydion_2_4_cleanup.Prelude.{
  ℕ, suc, ◌≡◌, ◌≢◌, refl, sym, ap, subst, ◌∙◌, List, Option, none, some, false, Bool-cases, inl,
  inr, ◌==◌, if◌then◌else◌, arith,
}
use gwydion_2_4_cleanup.Threads.Store.{
  Status, killed, Thread, State, Outcome, ok, lost, ◌>>=◌, set_status, has, remove,
}
use gwydion_2_4_cleanup.Threads.Invariant.{has-count, in_circle, in_lock, in_event, is_alive, Inv}
use gwydion_2_4_cleanup.Threads.Invariant.Moves.{Shifts, Shifts-remove, Moves, Moves-Inv}
use gwydion_2_4_cleanup.Threads.Detaching.{IsFirst, detach-Detaches, settles-Moves}
use gwydion_2_4_cleanup.Threads.Locks.{Keeps}
use gwydion_2_4_cleanup.Threads.{thread_kill, detach, not_current}

-- The end of `thread_kill`, for a thread that is in no queue any more.
abbrev pub buried : ℕ → State → State
buried t s =
    set_status t killed (record s { all = remove t s.all; current = not_current t s.current })

-- The thread has ended: it is in no queue, nor among the threads, nor is it the current one. The
-- other threads are as they were, one of them is the current one if it was, and the state is well
-- formed.
pub record IsKilled (s : State) (t : ℕ) (s' : State) : Type 0 where
  pub inv : Inv s'
  pub dead : (s'.thread t).status ≡ killed
  pub gone : count t s'.all ≡ 0
  pub circle : count t s'.runnable ≡ 0
  pub locks : (l : ℕ) → count t (s'.lock l).waiters ≡ 0
  pub events : (e : ℕ) → count t (s'.event e) ≡ 0
  pub others : (u : ℕ) → (u == t) ≡ false → s'.thread u ≡ s.thread u
  pub left_current : s'.current ≢ some t
  pub same_current : (u : ℕ) → (u == t) ≡ false → s.current ≡ some u → s'.current ≡ some u

abbrev pub Kills : State → ℕ → Outcome State → Type 0
Kills s t result = (s' : State) × (result ≡ ok s') × IsKilled s t s'

not_current_left : (t : ℕ) (o : Option ℕ) → not_current t o ≢ some t
unfolding not_current
not_current_left t none h = cc h
not_current_left t (some u) h = elim (Bool-cases (u == t)) [
  | inl e ↦ let k : none ≡ some t = rw e at h in cc k
  | inr e ↦ let k : some u ≡ some t = rw e at h in let q : u ≡ t = cc k in ground (arith, e, q)
]

not_current_other : (t u : ℕ) → (u == t) ≡ false → not_current t (some u) ≡ some u
unfolding not_current
not_current_other t u e = rw e refl

killed_of :
    (s s' : State) (t : ℕ) (th : Thread)
    → th.status ≡ killed
    → s'.current ≡ not_current t s.current
    → Inv s
    → Moves s s' t th
    → IsKilled s t s'
killed_of s s' t th k c i m =
    let j : Inv s' = Moves-Inv s s' t th i m in
    let e : (s'.thread t).status ≡ killed = ap (λ (v : Thread). v.status) m.becomes ∙ k in
    record {
      inv = j;
      dead = e;
      gone = j.alive t ∙ ap is_alive e;
      circle = j.circle t ∙ ap in_circle e;
      locks = λ l. j.locks l t ∙ ap (λ (st : Status). in_lock l st (s'.thread t).datum) e;
      events = λ n. j.events n t ∙ ap (λ (st : Status). in_event n st (s'.thread t).datum) e;
      others = m.others;
      left_current = λ h. not_current_left t s.current (sym c ∙ h);
      same_current = λ u n h. c ∙ ap (not_current t) h ∙ not_current_other t u n;
    }

-- The rest of `thread_kill`.
abbrev pub end_kill : ℕ → State → Outcome State
end_kill t s = if has t s.all then ok (buried t s) else lost

pub ends : (t : ℕ) (s : State) → count t s.all ≡ 1 → end_kill t s ≡ ok (buried t s)
ends t s h = rw (has-count t s.all (omega (arith, h))) refl

abbrev pub Killed : ℕ → Status → ℕ → State → Outcome State
Killed fuel st t s = detach fuel st t s >>= end_kill t

-- The kill of a thread that `detach` takes out of where it is, which leaves `s1`.
kill_of :
    (s s1 : State) (fuel t : ℕ) (st : Status)
    → detach fuel st t s ≡ ok s1
    → s1.all ≡ s.all
    → count t s.all ≡ 1
    → Killed fuel st t s ≡ ok (buried t s1)
kill_of s s1 fuel t st d a c =
    ap (λ (o : Outcome State). o >>= end_kill t) d ∙ ends t s1 (ap (count t) a ∙ c)

-- In a well-formed state `thread_kill`, with fuel for one look into a queue, ends a thread that is
-- in no queue, or is the first in the queue where it waits: its status is killed, it is in no queue
-- nor among the threads, and it is not the current thread; the other threads are as they were, one
-- of them stays the current thread if it was, and the state is again well formed.
pub thread_kill-IsKilled :
    (s : State) (i : Inv s) (fuel t : ℕ) (f : IsFirst s t (s.thread t).status (s.thread t).datum)
    → (s' : State) × (thread_kill (suc fuel) t s ≡ ok s') × IsKilled s t s'
unfolding thread_kill
thread_kill-IsKilled s i fuel t f =
    let (s1, e, d) = detach-Detaches s i fuel t f in
    let th : Thread = record (s1.thread t) { status = killed } in
    let one : count t s.all ≡ 1 = i.alive t ∙ d.alive in
    (
      buried t s1,
      kill_of s s1 (suc fuel) t (s.thread t).status e d.same_all one,
      killed_of s (buried t s1) t th refl (ap (not_current t) d.same_current) i (
          settles-Moves s s1 t th (remove t s1.all) (not_current t s1.current) d refl (λ l. refl)
            (λ m. refl) tt
            (subst (λ (us : List ℕ). Shifts t 1 0 s.all (remove t us)) (sym d.same_all)
              (Shifts-remove t s.all one))),
    )

pub thread_kill-Keeps :
    (s : State) (i : Inv s) (fuel t : ℕ) (f : IsFirst s t (s.thread t).status (s.thread t).datum)
    → Keeps (thread_kill (suc fuel) t s)
thread_kill-Keeps s i fuel t f =
    let (s', e, k) = thread_kill-IsKilled s i fuel t f in (s', e, k.inv)
