-- ===== src/Queue/Waiting.antt =====
-- No slot stays free while a waiting task could take it, and slots go by priority.
use module_agents_part.Prelude.{
  ℕ, zero, suc, ◌+◌, ◌≤◌, ◌<◌, ◌≡◌, refl, ◌∙◌, String, Bool, true, false, Option, none, some, List,
  [], ◌∷◌, ◌++◌, arith, All, All-mono, eq_iff, length, ltb, leb, if_ind, when_ind, option_ind, ◌&&◌,
}
use module_agents_part.Prelude.Dict.{get}
use module_agents_part.Queue.Sort.{length-sort}
use module_agents_part.Queue.State.{
  QueuedTask, SessionState, Retry, World, init, session_of, set_session, activate, max_retries,
  is_scheduled,
}
use module_agents_part.Queue.Enqueue.{
  by_priority, enqueue, append_pending, hold, start, send_close, wants_preemption,
  register_container, unregister_container, notify_idle, any_pending,
}
use module_agents_part.Queue.Finish.{
  Outcome, is_free, pick, start_picked, start_waiting, maybe_start, deactivate, released,
  release_slot, next_or_idle, after_task, handle_failure, succeeded, run_task, drop_slot, retried,
  delayed_retry,
}
use module_agents_part.Queue.Events.{Event, extract, finish_nth, wake_nth, cancel_nth, step, run}
use module_agents_part.Queue.Invariant.{session-put}
use module_agents_part.Queue.Finishing.{Picked, pick-Picked}

-- While a slot is free, each waiting task's session is active.
pub record IsSaturated (w : World) : Type 0 where
  pub at :
      w.active_count < w.max_concurrent
      → All (λ t. (session_of t.session_id w).active ≡ true) w.waiting

-- It survives what frees no slot, deactivates no session and leaves `waiting` alone.
IsSaturated-mono :
    (w w' : World)
    → w'.waiting ≡ w.waiting
    → w.active_count ≤ w'.active_count
    → w'.max_concurrent ≡ w.max_concurrent
    → ((j : String) → (session_of j w).active ≡ true → (session_of j w').active ≡ true)
    → IsSaturated w
    → IsSaturated w'
IsSaturated-mono w w' q c m keep h = record {
  at = λ room. rw q (
      All-mono (λ t. (session_of t.session_id w).active ≡ true)
        (λ t. (session_of t.session_id w').active ≡ true) (λ t. keep t.session_id) w.waiting
        (h.at (omega arith)));
}

-- Writing an entry that is as active as the old one, or more.
set_session-IsSaturated :
    (w : World) (sid : String) (s : SessionState)
    → ((session_of sid w).active ≡ true → s.active ≡ true)
    → IsSaturated w
    → IsSaturated (set_session sid s w)
set_session-IsSaturated w sid s keep h =
    IsSaturated-mono w (set_session sid s w) refl (omega arith) refl
      (λ j a. ground (arith, session-put sid j s w.sessions, eq_iff sid j, keep)) h

start_waiting-IsSaturated :
    (fuel : ℕ) (w : World) → length w.waiting ≤ fuel → IsSaturated (start_waiting fuel w)
unfolding start_waiting
start_waiting-IsSaturated zero w h = record { at = λ room. none_waiting w.waiting h }
  where
    none_waiting :
        (ts : List QueuedTask)
        → length ts ≤ 0
        → All (λ t. (session_of t.session_id w).active ≡ true) ts
    none_waiting [] h = tt
    none_waiting (t ∷ ts) h = absurd (omega arith)
start_waiting-IsSaturated (suc fuel) w h =
    if_ind IsSaturated (ltb w.active_count w.max_concurrent)
      (λ _.
        go (pick w.sessions (by_priority w.waiting))
          (pick-Picked w.sessions (by_priority w.waiting))
          (λ t rest. start_waiting-IsSaturated fuel (start_picked t rest w)))
      (λ full. record { at = λ room. absurd (ground arith) })
  where
    go :
        (o : Option (QueuedTask × List QueuedTask))
        → Picked w.sessions (by_priority w.waiting) o
        → ((t : QueuedTask) (rest : List QueuedTask)
            → length rest ≤ fuel
            → IsSaturated (start_waiting fuel (start_picked t rest w)))
        → IsSaturated (elim o [
          | none ↦ record w { waiting = by_priority w.waiting }
          | some (t, rest) ↦ start_waiting fuel (start_picked t rest w)
        ])
    go none p k = record {
      at = λ room.
          All-mono (λ t. is_free w.sessions t ≡ false)
            (λ t. (session_of t.session_id w).active ≡ true) (λ t e. ground arith)
            (by_priority w.waiting) p;
    }
    go (some (t, rest)) p k =
        k t rest (omega (arith, p.1, length-sort (λ (u : QueuedTask). u.priority) w.waiting))

maybe_start-IsSaturated : (w : World) → IsSaturated (maybe_start w)
unfolding maybe_start
maybe_start-IsSaturated w = start_waiting-IsSaturated (length w.waiting) w (omega arith)

send_close-IsSaturated :
    (s : SessionState) (w : World) → IsSaturated w → IsSaturated (send_close s w)
unfolding send_close
send_close-IsSaturated s w h =
    option_ind IsSaturated s.ipc_input_dir (λ _. h) (λ _ _. record { at = h.at })

append_pending-IsSaturated :
    (t : QueuedTask) (w : World) → IsSaturated w → IsSaturated (append_pending t w)
unfolding append_pending
append_pending-IsSaturated t w h =
    let s = session_of t.session_id w in
    let s' : SessionState = record s { pending_tasks = by_priority (s.pending_tasks ++ t ∷ []) } in
    let kept = set_session-IsSaturated w t.session_id s' (λ a. a) h in
    when_ind IsSaturated (s'.idle_waiting && wants_preemption s'.pending_tasks) (send_close s') kept
      (λ _. send_close-IsSaturated s' _ kept)

enqueue-IsSaturated : (t : QueuedTask) (w : World) → IsSaturated w → IsSaturated (enqueue t w)
unfolding enqueue hold start
enqueue-IsSaturated t w h =
    if_ind IsSaturated w.shutting_down (λ _. h)
      (λ _.
        if_ind IsSaturated (session_of t.session_id w).active
          (λ _. append_pending-IsSaturated t w h)
          (λ _.
            if_ind IsSaturated (leb w.max_concurrent w.active_count)
              (λ full. record { at = λ room. absurd (ground arith) })
              (λ _.
                IsSaturated-mono w (start t w) refl (omega arith) refl
                  (λ j a. ground (
                    arith,
                    session-put t.session_id j (activate t (session_of t.session_id w)) w.sessions,
                  ))
                  h)))

found_active :
    (w : World) (sid : String) (s : SessionState)
    → get sid w.sessions ≡ some s
    → (session_of sid w).active ≡ true
    → s.active ≡ true
found_active w sid s e a = rw e at a

found_idle :
    (w : World) (sid : String) (s s' : SessionState)
    → get sid w.sessions ≡ some s
    → s'.active ≡ s.active
    → IsSaturated w
    → IsSaturated (set_session sid s' w)
found_idle w sid s s' e same =
    set_session-IsSaturated w sid s' (λ a. same ∙ found_active w sid s e a)

notify_idle-IsSaturated :
    (sid : String) (w : World) → IsSaturated w → IsSaturated (notify_idle sid w)
unfolding notify_idle
notify_idle-IsSaturated sid w h =
    option_ind IsSaturated (get sid w.sessions) (λ _. h)
      (λ s e.
        let s' : SessionState = record s { idle_waiting = true } in
        let kept = found_idle w sid s s' e refl h in
        when_ind IsSaturated (any_pending s.pending_tasks) (send_close s') kept
          (λ _. send_close-IsSaturated s' _ kept))

unregister-IsSaturated :
    (sid : String) (w : World) → IsSaturated w → IsSaturated (unregister_container sid w)
unfolding unregister_container
unregister-IsSaturated sid w h =
    option_ind IsSaturated (get sid w.sessions) (λ _. h) (λ s e. found_idle w sid s _ e refl h)

release_slot-IsSaturated : (sid : String) (w : World) → IsSaturated (release_slot sid w)
unfolding release_slot
release_slot-IsSaturated sid w = maybe_start-IsSaturated (released sid w)

next_or_idle-IsSaturated :
    (sid : String) (s : SessionState) (ts : List QueuedTask) (w : World)
    → ((session_of sid w).active ≡ true → s.active ≡ true)
    → IsSaturated w
    → IsSaturated (next_or_idle sid s ts w)
unfolding next_or_idle
next_or_idle-IsSaturated sid s [] w a h =
    maybe_start-IsSaturated (drop_slot (deactivate (some s) sid w))
next_or_idle-IsSaturated sid s (t ∷ ts) w a h =
    IsSaturated-mono w (next_or_idle sid s (t ∷ ts) w) refl (omega arith) refl
      (λ j b. ground (
        arith,
        session-put sid j
            (record s {
              pending_tasks = ts;
              idle_waiting = false;
              is_scheduled_task = is_scheduled t.kind;
            })
            w.sessions,
        eq_iff sid j,
        a,
      ))
      h

after_task-IsSaturated : (sid : String) (w : World) → IsSaturated w → IsSaturated (after_task sid w)
unfolding after_task
after_task-IsSaturated sid w h =
    option_ind IsSaturated (get sid w.sessions) (λ _. h)
      (λ s e.
        next_or_idle-IsSaturated sid s (by_priority s.pending_tasks) _ (found_active w sid s e)
          (record { at = h.at }))

retry-IsSaturated :
    (sid : String) (w : World) (ds : List Retry)
    → IsSaturated (record (release_slot sid w) { delayed = ds })
retry-IsSaturated sid w ds = record { at = (release_slot-IsSaturated sid w).at }

run_task-IsSaturated :
    (t : QueuedTask) (o : Outcome) (w : World) → IsSaturated w → IsSaturated (run_task t o w)
unfolding run_task handle_failure
run_task-IsSaturated t o w h =
    option_ind IsSaturated (get t.session_id w.sessions) (λ _. h)
      (λ s e.
        let reset = found_idle w t.session_id s (record s { retry_count = 0 }) e refl h in
        if_ind IsSaturated (succeeded w t o) (λ _. after_task-IsSaturated t.session_id _ reset)
          (λ _.
            if_ind IsSaturated (ltb max_retries (s.retry_count + 1))
              (λ _. after_task-IsSaturated t.session_id _ reset)
              (λ _.
                retry-IsSaturated t.session_id
                  (set_session t.session_id (record s { retry_count = s.retry_count + 1 }) w) _)))

finish_nth-IsSaturated :
    (i : ℕ) (o : Outcome) (w : World) → IsSaturated w → IsSaturated (finish_nth i o w)
unfolding finish_nth
finish_nth-IsSaturated i o w h = go (extract i w.running)
  where
    go :
        (found : Option (QueuedTask × List QueuedTask))
        → IsSaturated
            (elim found [ none ↦ w | some (t, rest) ↦ run_task t o (record w { running = rest }) ])
    go none = h
    go (some (t, rest)) = run_task-IsSaturated t o _ (record { at = h.at })

wake_nth-IsSaturated : (i : ℕ) (w : World) → IsSaturated w → IsSaturated (wake_nth i w)
unfolding wake_nth delayed_retry
wake_nth-IsSaturated i w h = go (extract i w.delayed)
  where
    go :
        (found : Option (Retry × List Retry))
        → IsSaturated (elim found [
          | none ↦ w
          | some (r, rest) ↦ delayed_retry r.task (record w { delayed = rest })
        ])
    go none = h
    go (some (r, rest)) =
        let same : IsSaturated (record w { delayed = rest }) = record { at = h.at } in
        if_ind IsSaturated w.shutting_down (λ _. same)
          (λ _.
            option_ind IsSaturated (retried r.task) (λ _. same)
              (λ u _. enqueue-IsSaturated u _ same))

cancel_nth-IsSaturated : (i : ℕ) (w : World) → IsSaturated w → IsSaturated (cancel_nth i w)
unfolding cancel_nth
cancel_nth-IsSaturated i w h = go (extract i w.running)
  where
    go :
        (found : Option (QueuedTask × List QueuedTask))
        → IsSaturated (elim found [
          | none ↦ w
          | some (t, rest) ↦ record w { running = rest; cancelled = t ∷ w.cancelled }
        ])
    go none = h
    go (some (t, rest)) = record { at = h.at }

step-IsSaturated : (w : World) (e : Event) → IsSaturated w → IsSaturated (step w e)
unfolding step register_container
step-IsSaturated w (Event.enqueue_planner sid) h = enqueue-IsSaturated _ w h
step-IsSaturated w (Event.enqueue_executor sid) h = enqueue-IsSaturated _ w h
step-IsSaturated w (Event.enqueue_handoff sid direction) h = enqueue-IsSaturated _ w h
step-IsSaturated w (Event.enqueue_scheduled_task sid id fn) h = enqueue-IsSaturated _ w h
step-IsSaturated w (Event.register sid dir) h = set_session-IsSaturated w sid _ (λ a. a) h
step-IsSaturated w (Event.unregister sid) h = unregister-IsSaturated sid w h
step-IsSaturated w (Event.idle sid) h = notify_idle-IsSaturated sid w h
step-IsSaturated w (Event.finish i o) h = finish_nth-IsSaturated i o w h
step-IsSaturated w (Event.wake i) h = wake_nth-IsSaturated i w h
step-IsSaturated w Event.set_process_fn h = record { at = h.at }
step-IsSaturated w Event.shutdown h = record { at = h.at }
step-IsSaturated w (Event.cancel i) h =
    if_ind IsSaturated w.shutting_down (λ _. cancel_nth-IsSaturated i w h) (λ _. h)

run-IsSaturated : (w : World) (es : List Event) → IsSaturated w → IsSaturated (run w es)
unfolding run
run-IsSaturated w [] h = h
run-IsSaturated w (e ∷ es) h = run-IsSaturated (step w e) es (step-IsSaturated w e h)

-- From an empty queue, after any interleaving: while fewer coroutines are counted than the cap
-- allows, every task in the global waiting list belongs to a session that is active.
pub no_idle_slot :
    (max_concurrent : ℕ) (set : Bool) (es : List Event)
    → let w = run (init max_concurrent set) es in
      w.active_count < w.max_concurrent
      → All (λ t. (session_of t.session_id w).active ≡ true) w.waiting
no_idle_slot n b es = (run-IsSaturated (init n b) es (record { at = λ _. tt })).at
