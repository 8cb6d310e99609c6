-- ===== src/Queue/Conserve.antt =====
-- The queue loses no task: what each operation does to the number of tasks of any kind that it holds.
use module_agents_part.Prelude.{
  ℕ, zero, suc, ◌+◌, ◌≡◌, refl, ap, subst, ◌∙◌, String, Bool, true, false, Option, none, some, List,
  [], ◌∷◌, ◌++◌, arith, bit, count, count-append, length, ltb, leb, if◌then◌else◌, if_ind, when_ind,
  option_ind, ◌&&◌, ◌||◌,
}
use module_agents_part.Prelude.Dict.{Dict, get, put, total, total-put}
use module_agents_part.Queue.Sort.{count-sort}
use module_agents_part.Queue.State.{
  QueuedTask, SessionState, Retry, World, session_of, session_or_fresh, set_session, activate,
  max_retries, is_scheduled,
}
use module_agents_part.Queue.Enqueue.{
  by_priority, enqueue, append_pending, hold, start, send_close, wants_preemption,
}
use module_agents_part.Queue.Finish.{
  Outcome, pick, start_picked, start_waiting, maybe_start, release_slot, next_or_idle, after_task,
  handle_failure, succeeded, run_task, drop_slot, backoff, deactivate, released,
}
use module_agents_part.Queue.Events.{extract, finish_nth}
use module_agents_part.Queue.Frame.{after_task_frame, release_slot_frame}
use module_agents_part.Queue.Finishing.{Picked, pick-Picked, Extracted, extract-Extracted}

-- the task is over: it succeeded, or it failed once too often
abbrev pub is_over : World → QueuedTask → Outcome → SessionState → Bool
is_over w t o s = succeeded w t o || ltb max_retries (s.retry_count + 1)

-- the step to a session's next task, or to none, delays no retry
delayed-after_task : (sid : String) (w : World) → (after_task sid w).delayed ≡ w.delayed
delayed-after_task sid w = after_task_frame (λ _ _ _ d. d ≡ w.delayed) sid w refl

delayed-release_slot : (sid : String) (w : World) → (release_slot sid w).delayed ≡ w.delayed
delayed-release_slot sid w = release_slot_frame (λ _ _ _ d. d ≡ w.delayed) sid w refl

-- the retries that are delayed when a task has ended
abbrev delayed_after : QueuedTask → SessionState → World → Bool → List Retry
delayed_after t s w over =
    if over then w.delayed else record { delay = backoff (s.retry_count + 1); task = t } ∷ w.delayed

delayed-handle_failure :
    (t : QueuedTask) (s : SessionState) (w : World)
    → (handle_failure t s w).delayed ≡ delayed_after t s w (ltb max_retries (s.retry_count + 1))
unfolding handle_failure
delayed-handle_failure t s w = go (ltb max_retries (s.retry_count + 1))
  where
    reset : World
    reset = set_session t.session_id (record s { retry_count = 0 }) w

    retry : World
    retry = set_session t.session_id (record s { retry_count = s.retry_count + 1 }) w

    held : Retry
    held = record { delay = backoff (s.retry_count + 1); task = t }

    go :
        (b : Bool)
        → (if b then after_task t.session_id reset else record (release_slot t.session_id retry) {
          delayed = held ∷ (release_slot t.session_id retry).delayed;
        }).delayed
          ≡ delayed_after t s w b
    go true = delayed-after_task t.session_id reset
    go false = ap (λ l. held ∷ l) (delayed-release_slot t.session_id retry)

delayed-run_task :
    (t : QueuedTask) (o : Outcome) (s : SessionState) (w : World)
    → get t.session_id w.sessions ≡ some s
    → (run_task t o w).delayed ≡ delayed_after t s w (is_over w t o s)
unfolding run_task
delayed-run_task t o s w e = rw (e, run_task) (go (succeeded w t o))
  where
    go :
        (b : Bool)
        → (if b
            then after_task t.session_id (set_session t.session_id (record s { retry_count = 0 }) w)
            else handle_failure t s w).delayed
          ≡ delayed_after t s w (b || ltb max_retries (s.retry_count + 1))
    go true = delayed-after_task t.session_id _
    go false = delayed-handle_failure t s w

module _ (p : QueuedTask → Bool) where
  abbrev pub pending_count : SessionState → ℕ
  pending_count s = count p s.pending_tasks

  abbrev pub delayed_count : List Retry → ℕ
  delayed_count [] = 0
  delayed_count (r ∷ rs) = bit (p r.task) + delayed_count rs

  -- how many tasks with the property `p` the queue holds, in all its places
  abbrev pub tasks : World → ℕ
  tasks w =
      count p w.running
      + count p w.waiting
      + total pending_count w.sessions
      + delayed_count w.delayed

  -- what a write to a session's entry adds
  put_pending :
      (sid : String) (s : SessionState) (d : Dict SessionState)
      → total pending_count (put sid s d) + pending_count (session_or_fresh (get sid d))
        ≡ total pending_count d + pending_count s
  put_pending sid s d = ground (arith, total-put pending_count sid s d)

  tasks-send_close : (s : SessionState) (w : World) → tasks (send_close s w) ≡ tasks w
  unfolding send_close
  tasks-send_close s w =
      option_ind (λ v. tasks v ≡ tasks w) s.ipc_input_dir (λ _. refl) (λ _ _. refl)

  tasks-append_pending :
      (t : QueuedTask) (w : World) → tasks (append_pending t w) ≡ tasks w + bit (p t)
  unfolding append_pending
  tasks-append_pending t w =
      let s = session_of t.session_id w in
      let ts = s.pending_tasks ++ t ∷ [] in
      let s' : SessionState = record s { pending_tasks = by_priority ts } in
      let base : tasks (set_session t.session_id s' w) ≡ tasks w + bit (p t) = omega (
        arith,
        put_pending t.session_id s' w.sessions,
        count-sort (λ (u : QueuedTask). u.priority) p ts,
        count-append p s.pending_tasks (t ∷ []),
      ) in
      when_ind (λ v. tasks v ≡ tasks w + bit (p t))
        (s'.idle_waiting && wants_preemption s'.pending_tasks) (send_close s') base
        (λ _. tasks-send_close s' _ ∙ base)

  tasks-hold : (t : QueuedTask) (w : World) → tasks (hold t w) ≡ tasks w + bit (p t)
  unfolding hold
  tasks-hold t w = omega (
    arith,
    put_pending t.session_id (session_of t.session_id w) w.sessions,
    count-sort (λ (u : QueuedTask). u.priority) p (w.waiting ++ t ∷ []),
    count-append p w.waiting (t ∷ []),
  )

  tasks-start : (t : QueuedTask) (w : World) → tasks (start t w) ≡ tasks w + bit (p t)
  unfolding start
  tasks-start t w =
      omega (arith, put_pending t.session_id (activate t (session_of t.session_id w)) w.sessions)

  -- An enqueued task is held exactly once more, wherever it goes, and no other task is touched; a
  -- queue that is shutting down drops it.
  pub tasks-enqueue :
      (t : QueuedTask) (w : World)
      → tasks (enqueue t w) ≡ (if w.shutting_down then tasks w else tasks w + bit (p t))
  unfolding enqueue
  tasks-enqueue t w = go w.shutting_down
    where
      go :
          (b : Bool)
          → tasks (
              if b
              then w
              else if (session_of t.session_id w).active
              then append_pending t w
              else if leb w.max_concurrent w.active_count
              then hold t w
              else start t w)
            ≡ (if b then tasks w else tasks w + bit (p t))
      go true = refl
      go false =
          if_ind (λ v. tasks v ≡ tasks w + bit (p t)) (session_of t.session_id w).active
            (λ _. tasks-append_pending t w)
            (λ _.
              if_ind (λ v. tasks v ≡ tasks w + bit (p t)) (leb w.max_concurrent w.active_count)
                (λ _. tasks-hold t w) (λ _. tasks-start t w))

  tasks-start_picked :
      (t : QueuedTask) (rest : List QueuedTask) (w : World)
      → count p w.waiting ≡ bit (p t) + count p rest
      → tasks (start_picked t rest w) ≡ tasks w
  unfolding start_picked
  tasks-start_picked t rest w h =
      omega (arith, put_pending t.session_id (activate t (session_of t.session_id w)) w.sessions)

  tasks-start_waiting : (fuel : ℕ) (w : World) → tasks (start_waiting fuel w) ≡ tasks w
  unfolding start_waiting
  tasks-start_waiting zero w = refl
  tasks-start_waiting (suc fuel) w =
      if_ind (λ v. tasks v ≡ tasks w) (ltb w.active_count w.max_concurrent)
        (λ _.
          go (pick w.sessions (by_priority w.waiting))
            (pick-Picked w.sessions (by_priority w.waiting))
            (λ t rest. tasks-start_waiting fuel (start_picked t rest w)))
        (λ _. refl)
    where
      go :
          (o : Option (QueuedTask × List QueuedTask))
          → Picked w.sessions (by_priority w.waiting) o
          → ((t : QueuedTask) (rest : List QueuedTask)
              → tasks (start_waiting fuel (start_picked t rest w)) ≡ tasks (start_picked t rest w))
          → tasks (elim o [
            | none ↦ record w { waiting = by_priority w.waiting }
            | some (t, rest) ↦ start_waiting fuel (start_picked t rest w)
          ])
            ≡ tasks w
      go none h k = omega (arith, count-sort (λ (u : QueuedTask). u.priority) p w.waiting)
      go (some (t, rest)) h k =
          k t rest
          ∙ tasks-start_picked t rest w
              (omega (arith, h.2 p, count-sort (λ (u : QueuedTask). u.priority) p w.waiting))

  tasks-maybe_start : (w : World) → tasks (maybe_start w) ≡ tasks w
  unfolding maybe_start
  tasks-maybe_start w = tasks-start_waiting (length w.waiting) w

  tasks-release_slot : (sid : String) (w : World) → tasks (release_slot sid w) ≡ tasks w
  unfolding release_slot
  tasks-release_slot sid w = tasks-maybe_start (released sid w) ∙ go (get sid w.sessions) refl
    where
      go : (o : Option SessionState) → get sid w.sessions ≡ o → tasks (deactivate o sid w) ≡ tasks w
      go none e = refl
      go (some s) e =
          let found : session_of sid w ≡ s = rw e in
          omega (
            arith,
            ap pending_count found,
            put_pending sid (record s { active = false; idle_waiting = false }) w.sessions,
          )

  tasks-next_or_idle :
      (sid : String) (s : SessionState) (ts : List QueuedTask) (w : World)
      → session_of sid w ≡ s
      → count p ts ≡ count p s.pending_tasks
      → tasks (next_or_idle sid s ts w) ≡ tasks w
  unfolding next_or_idle
  tasks-next_or_idle sid s [] w e h =
      let s' : SessionState = record s { active = false; idle_waiting = false } in
      tasks-maybe_start (drop_slot (set_session sid s' w))
      ∙ omega (arith, ap pending_count e, put_pending sid s' w.sessions)
  tasks-next_or_idle sid s (t ∷ ts) w e h = omega (
    arith,
    ap pending_count e,
    put_pending sid
        (record s {
          pending_tasks = ts;
          idle_waiting = false;
          is_scheduled_task = is_scheduled t.kind;
        })
        w.sessions,
  )

  -- The step to a session's next task, or to none, touches no task that is held.
  pub tasks-after_task : (sid : String) (w : World) → tasks (after_task sid w) ≡ tasks w
  unfolding after_task
  tasks-after_task sid w =
      option_ind (λ v. tasks v ≡ tasks w) (get sid w.sessions) (λ _. refl)
        (λ s e.
          tasks-next_or_idle sid s (by_priority s.pending_tasks) _ (rw e)
            (count-sort (λ (u : QueuedTask). u.priority) p s.pending_tasks))

  tasks-counter :
      (w : World) (sid : String) (s : SessionState) (n : ℕ)
      → get sid w.sessions ≡ some s
      → tasks (set_session sid (record s { retry_count = n }) w) ≡ tasks w
  tasks-counter w sid s n e =
      let found : session_of sid w ≡ s = rw e in
      omega
        (arith, ap pending_count found, put_pending sid (record s { retry_count = n }) w.sessions)

  tasks-handle_failure :
      (t : QueuedTask) (s : SessionState) (w : World)
      → get t.session_id w.sessions ≡ some s
      → tasks (handle_failure t s w)
        ≡ (if ltb max_retries (s.retry_count + 1) then tasks w else tasks w + bit (p t))
  unfolding handle_failure
  tasks-handle_failure t s w e = go (ltb max_retries (s.retry_count + 1))
    where
      retry : World
      retry = set_session t.session_id (record s { retry_count = s.retry_count + 1 }) w

      go :
          (b : Bool)
          → tasks (
              if b
              then after_task t.session_id
                  (set_session t.session_id (record s { retry_count = 0 }) w)
              else record (release_slot t.session_id retry) {
                delayed =
                    record { delay = backoff (s.retry_count + 1); task = t }
                    ∷ (release_slot t.session_id retry).delayed;
              })
            ≡ (if b then tasks w else tasks w + bit (p t))
      go true = tasks-after_task t.session_id _ ∙ tasks-counter w t.session_id s 0 e
      go false = omega (
        arith,
        tasks-release_slot t.session_id retry,
        tasks-counter w t.session_id s (s.retry_count + 1) e,
      )

  tasks-run_task :
      (t : QueuedTask) (o : Outcome) (s : SessionState) (w : World)
      → get t.session_id w.sessions ≡ some s
      → tasks (run_task t o w) ≡ (if is_over w t o s then tasks w else tasks w + bit (p t))
  unfolding run_task
  tasks-run_task t o s w e = rw (e, run_task) (go (succeeded w t o))
    where
      go :
          (b : Bool)
          → tasks (
              if b
              then after_task t.session_id
                  (set_session t.session_id (record s { retry_count = 0 }) w)
              else handle_failure t s w)
            ≡ (if b || ltb max_retries (s.retry_count + 1) then tasks w else tasks w + bit (p t))
      go true = tasks-after_task t.session_id _ ∙ tasks-counter w t.session_id s 0 e
      go false = tasks-handle_failure t s w e

  succeeded-running :
      (o : Outcome) (w : World) (t : QueuedTask) (rest : List QueuedTask)
      → succeeded (record w { running = rest }) t o ≡ succeeded w t o
  unfolding succeeded
  succeeded-running (Outcome.returns b) w t rest = refl
  succeeded-running Outcome.raises w t rest = refl

  -- When a coroutine ends, its task is no longer held and the delayed retries are as before, if it
  -- succeeded or the counter of its session passes MAX_RETRIES; otherwise it is held as a delayed retry,
  -- with the backoff of that counter, in front of the others. Every other task stays held: of each kind
  -- the queue holds as many as before.
  pub tasks-finish_nth :
      (i : ℕ) (o : Outcome) (w : World) (t : QueuedTask) (rest : List QueuedTask) (s : SessionState)
      → extract i w.running ≡ some (t, rest)
      → get t.session_id w.sessions ≡ some s
      → (tasks (finish_nth i o w) + (if is_over w t o s then bit (p t) else 0) ≡ tasks w)
        × ((finish_nth i o w).delayed ≡ (
            if is_over w t o s
            then w.delayed
            else record { delay = backoff (s.retry_count + 1); task = t } ∷ w.delayed))
  unfolding finish_nth
  tasks-finish_nth i o w t rest s e f =
      let taken : Extracted w.running (some (t, rest)) =
        subst (λ x. Extracted w.running x) e (extract-Extracted i w.running) in
      rw (e, finish_nth)
        (
          ground (
            arith,
            taken.1 p,
            tasks-run_task t o s (record w { running = rest }) f,
            succeeded-running o w t rest,
          ),
          delayed-run_task t o s (record w { running = rest }) f
              ∙ ap
                  (λ b.
                    if b || ltb max_retries (s.retry_count + 1)
                    then w.delayed
                    else record { delay = backoff (s.retry_count + 1); task = t } ∷ w.delayed)
                  (succeeded-running o w t rest),
        )
