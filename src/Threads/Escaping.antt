-- ===== src/Threads/Escaping.antt =====
-- `thread_push_escape` and `thread_pop_escape` of mindy/interp/thread.c and the well-formed states.
use gwydion_2_4_cleanup.Prelude.{
  ℕ, suc, ◌<◌, ◌≡◌, refl, sym, ap, subst, ◌∙◌, List, [], ◌∷◌, ◌++◌, true, false, ◌==◌, arith,
}
use gwydion_2_4_cleanup.Threads.Store.{
  Status, running, suspended, debuggered, blocked, waiting, exited, killed, Datum, object_datum,
  lock_datum, Frame, Thread, Lock, State, Outcome, ok, ◌>>=◌, set_thread, set_lock, set_status,
  remove, update,
}
use gwydion_2_4_cleanup.Threads.Invariant.{
  has-count, in_circle, in_lock, in_event, is_alive, CountFits, Inv,
}
use gwydion_2_4_cleanup.Threads.Invariant.Moves.{
  Shifts, Shifts-at, Shifts-stay, Shifts-append, Shifts-same, Moves-Inv, update_locks, update-Free,
}
use gwydion_2_4_cleanup.Threads.Leaving.{leave-Moves}
use gwydion_2_4_cleanup.Threads.Locks.{Keeps}
use gwydion_2_4_cleanup.Threads.Stopping.{idle-Inv, suspended-Idle}
use gwydion_2_4_cleanup.Threads.Detaching.{IsFirst, detach-Detaches, settles-Moves}
use gwydion_2_4_cleanup.Threads.Waking.{==_refl, ==_flip}
use gwydion_2_4_cleanup.Threads.{
  thread_push_escape, pushed, thread_pop_escape, popped, resume, suspend_thread, add_to_lock,
}

pub thread_push_escape-Keeps :
    (s : State) (i : Inv s) (fuel t stack : ℕ)
    → IsFirst s t (s.thread t).status (s.thread t).datum
    → Keeps (thread_push_escape (suc fuel) t stack s)
unfolding thread_push_escape pushed
thread_push_escape-Keeps s i fuel t stack f =
    let (s1, e, d) = detach-Detaches s i fuel t f in
    let th : Thread = record {
      status = suspended;
      suspend_count = 1;
      datum = object_datum stack;
      frames =
          record {
            saved_status = (s1.thread t).status;
            saved_datum = (s1.thread t).datum;
            saved_count = (s1.thread t).suspend_count;
          }
          ∷ (s1.thread t).frames;
    } in
    (
      set_thread t th s1,
      ap (λ (o : Outcome State). o >>= (λ s2. ok (pushed t stack s2))) e,
      Moves-Inv s (set_thread t th s1) t th i (
          settles-Moves s s1 t th s1.all s1.current d refl (λ l. refl) (λ m. refl) (omega arith)
            (subst (λ (us : List ℕ). Shifts t 1 1 s.all us) (sym d.same_all) (λ u. refl))),
    )

-- What a frame may have saved for the thread to be well placed when it comes back: a suspended thread
-- was suspended, and the lock that a blocked one waited for is not free.
abbrev pub Resumable : State → Status → Datum → ℕ → Type 0
Resumable s suspended d n = 0 < n
Resumable s blocked (lock_datum l) n = (s.lock l).locked ≡ true
Resumable s blocked _ n = ⊥
Resumable s exited d n = ⊥
Resumable s killed d n = ⊥
Resumable s _ d n = Unit

-- The thread with the top frame taken off.
abbrev unwound_thread : Thread → Status → Datum → List Frame → Thread
unwound_thread th st d frames = record th { status = st; datum = d; frames = frames }

runs-Inv :
    (s : State) (i : Inv s) (t : ℕ) (th : Thread) (thread : ℕ → Thread)
    → (s.thread t).status ≡ running
    → th.status ≡ running
    → th.suspend_count ≡ (s.thread t).suspend_count
    → thread t ≡ th
    → ((u : ℕ) → (u == t) ≡ false → thread u ≡ s.thread u)
    → Inv (record s { thread = thread })
runs-Inv s i t th thread r q c b o =
    Moves-Inv s (record s { thread = thread }) t th i
      (record {
        becomes = b;
        others = o;
        circle = Shifts-stay t s.runnable (ap in_circle (r ∙ sym q));
        locks = λ l. Shifts-stay t (s.lock l).waiters (
            ap (λ (st : Status). in_lock l st (s.thread t).datum) r
            ∙ sym (ap (λ (st : Status). in_lock l st th.datum) q));
        events = λ e. Shifts-stay t (s.event e) (
            ap (λ (st : Status). in_event e st (s.thread t).datum) r
            ∙ sym (ap (λ (st : Status). in_event e st th.datum) q));
        alive = Shifts-stay t s.all (ap is_alive (r ∙ sym q));
        free = i.free;
        counts =
            let zero : th.suspend_count ≡ 0 =
              c ∙ subst (λ (st : Status). CountFits st (s.thread t).suspend_count) r (i.counts t) in
            subst (λ (st : Status). CountFits st th.suspend_count) (sym q) zero;
      })

joins_queue :
    (t l : ℕ) (s s1 : State)
    → (s.lock l).locked ≡ true
    → suspend_thread t s ≡ ok s1
    → add_to_lock t (lock_datum l) s
      ≡ ok (set_lock l (record (s.lock l) { waiters = (s.lock l).waiters ++ t ∷ [] }) s1)
unfolding add_to_lock
joins_queue t l s s1 k e = rw (k, e) refl

module _ (s : State) (i : Inv s) (t : ℕ) (r : (s.thread t).status ≡ running) where
  leaves :
      (th : Thread)
      → suspend_thread t (set_thread t th s)
        ≡ ok (record (set_thread t th s) { runnable = remove t s.runnable })
  unfolding suspend_thread
  leaves th = rw (has-count t s.runnable (omega (arith, i.circle t ∙ ap in_circle r))) refl

  resume-Keeps :
      (st : Status) (d : Datum) (n : ℕ) (frames : List Frame)
      → Resumable s st d n
      → Keeps (resume st t n (set_thread t (unwound_thread (s.thread t) st d frames) s))
  unfolding resume
  resume-Keeps running d n frames p = (
    set_thread t (unwound_thread (s.thread t) running d frames) s,
    refl,
    runs-Inv s i t (unwound_thread (s.thread t) running d frames)
        (set_thread t (unwound_thread (s.thread t) running d frames) s).thread r refl refl
        (rw (==_refl t) refl) (λ u z. rw (==_flip t u z) refl),
  )
  resume-Keeps waiting d n frames p =
      let s1 : State = set_thread t (unwound_thread (s.thread t) waiting d frames) s in
      (
        set_status t running s1,
        refl,
        runs-Inv s i t (unwound_thread (s.thread t) running d frames)
            (set_status t running s1).thread r refl refl (rw (==_refl t) refl)
            (λ u z. rw (==_flip t u z) refl),
      )
  resume-Keeps debuggered d n frames p =
      let th : Thread = unwound_thread (s.thread t) debuggered d frames in
      let s1 : State = set_thread t th s in
      (
        record s1 { runnable = remove t s.runnable },
        leaves th,
        idle-Inv s t th s1.thread i r (refl, refl, λ l. refl, λ e. refl) tt (rw (==_refl t) refl)
            (λ u z. rw (==_flip t u z) refl),
      )
  resume-Keeps suspended d n frames p =
      let th : Thread = unwound_thread (s.thread t) suspended d frames in
      let s1 : State = record (set_thread t th s) { runnable = remove t s.runnable } in
      let s2 : State = set_thread t (record (s1.thread t) { suspend_count = n }) s1 in
      (
        s2,
        ap
            (λ (o : Outcome State).
              o >>= (λ s3. ok (set_thread t (record (s3.thread t) { suspend_count = n }) s3)))
            (leaves th),
        idle-Inv s t (record th { suspend_count = n }) s2.thread i r (suspended-Idle d) p
            (rw (==_refl t) refl) (λ u z. rw (==_flip t u z) refl),
      )
  resume-Keeps blocked (lock_datum l) n frames p =
      let th : Thread = unwound_thread (s.thread t) blocked (lock_datum l) frames in
      let s1 : State = set_thread t th s in
      let b : s1.thread t ≡ th = rw (==_refl t) refl in
      let lk : Lock = record (s.lock l) { waiters = (s.lock l).waiters ++ t ∷ [] } in
      let s2 : State = set_lock l lk (record s1 { runnable = remove t s.runnable }) in
      (
        s2,
        ap (λ (v : Thread). add_to_lock t v.datum s1) b
            ∙ joins_queue t l s1 (record s1 { runnable = remove t s.runnable }) p (leaves th),
        Moves-Inv s s2 t th i (
            leave-Moves s i t th (update s.lock l lk) s.event s1.thread r refl refl
              (update_locks t s.lock l lk (λ m. 0) (λ m. in_lock m blocked (lock_datum l))
                (Shifts-at t _ _ refl (rw (==_refl l) refl) (Shifts-append t (s.lock l).waiters))
                (λ m q. rw (==_flip m l q) refl))
              (λ e. Shifts-same t 0 (s.event e)) (update-Free s.lock l lk (λ q. cc (q, p)) i.free)
              tt (rw (==_refl t) refl) (λ u q. rw (==_flip t u q) refl)),
      )
  resume-Keeps blocked _ n frames p = absurd p
  resume-Keeps exited d n frames p = absurd p
  resume-Keeps killed d n frames p = absurd p

  pub thread_pop_escape-Keeps :
      (frame : Frame) (frames : List Frame)
      → (s.thread t).frames ≡ frame ∷ frames
      → Resumable s frame.saved_status frame.saved_datum frame.saved_count
      → Keeps (thread_pop_escape t s)
  unfolding thread_pop_escape popped
  thread_pop_escape-Keeps frame frames e p =
      subst (λ (fs : List Frame). Keeps (popped fs t s)) (sym e)
        (resume-Keeps frame.saved_status frame.saved_datum frame.saved_count frames p)
