-- ===== src/Queue/Frame.antt =====
-- What the operations of the queue leave alone: the cap, the flag of `shutdown`, the cancelled coroutines,
-- and the delayed retries.
use module_agents_part.Prelude.{
  ℕ, zero, suc, ◌+◌, ◌≡◌, String, true, Option, none, some, List, [], ◌∷◌, ◌++◌, Bool, sym, subst,
  false, ltb, leb, if_ind, when_ind, option_ind, ◌&&◌,
}
use module_agents_part.Prelude.Dict.{get}
use module_agents_part.Queue.State.{QueuedTask, SessionState, Retry, World, session_of, max_retries}
use module_agents_part.Queue.Enqueue.{
  enqueue, append_pending, send_close, wants_preemption, register_container, by_priority,
  unregister_container, notify_idle, any_pending,
}
use module_agents_part.Queue.Finish.{
  Outcome, pick, start_picked, start_waiting, deactivate, released, release_slot, next_or_idle,
  after_task, handle_failure, succeeded, run_task, retried, delayed_retry,
}
use module_agents_part.Queue.Events.{Event, extract, finish_nth, wake_nth, cancel_nth, step, run}

module _ (P : ℕ → Bool → List QueuedTask → List Retry → Type 0) where
  -- a property of those four fields
  abbrev pub Kept : World → Type 0
  Kept w = P w.max_concurrent w.shutting_down w.cancelled w.delayed

  send_close_frame : (s : SessionState) (w : World) → Kept w → Kept (send_close s w)
  unfolding send_close
  send_close_frame s w h = option_ind Kept s.ipc_input_dir (λ _. h) (λ _ _. h)

  append_pending_frame : (t : QueuedTask) (w : World) → Kept w → Kept (append_pending t w)
  unfolding append_pending
  append_pending_frame t w h =
      let s = session_of t.session_id w in
      let s' : SessionState = record s {
        pending_tasks = by_priority (s.pending_tasks ++ t ∷ []);
      } in
      when_ind Kept (s'.idle_waiting && wants_preemption s'.pending_tasks) (send_close s') h
        (λ _. send_close_frame s' _ h)

  enqueue_frame : (t : QueuedTask) (w : World) → Kept w → Kept (enqueue t w)
  unfolding enqueue
  enqueue_frame t w h =
      if_ind Kept w.shutting_down (λ _. h)
        (λ _.
          if_ind Kept (session_of t.session_id w).active (λ _. append_pending_frame t w h)
            (λ _. if_ind Kept (leb w.max_concurrent w.active_count) (λ _. h) (λ _. h)))

  notify_idle_frame : (sid : String) (w : World) → Kept w → Kept (notify_idle sid w)
  unfolding notify_idle
  notify_idle_frame sid w h =
      option_ind Kept (get sid w.sessions) (λ _. h)
        (λ s _.
          let s' : SessionState = record s { idle_waiting = true } in
          when_ind Kept (any_pending s.pending_tasks) (send_close s') h
            (λ _. send_close_frame s' _ h))

  unregister_frame : (sid : String) (w : World) → Kept w → Kept (unregister_container sid w)
  unfolding unregister_container
  unregister_frame sid w h = option_ind Kept (get sid w.sessions) (λ _. h) (λ _ _. h)

  start_waiting_frame : (fuel : ℕ) (w : World) → Kept w → Kept (start_waiting fuel w)
  unfolding start_waiting
  start_waiting_frame zero w h = h
  start_waiting_frame (suc fuel) w h =
      if_ind Kept (ltb w.active_count w.max_concurrent)
        (λ _.
          go (pick w.sessions (by_priority w.waiting))
            (λ t rest. start_waiting_frame fuel (start_picked t rest w) h))
        (λ _. h)
    where
      go :
          (o : Option (QueuedTask × List QueuedTask))
          → ((t : QueuedTask) (rest : List QueuedTask)
              → Kept (start_waiting fuel (start_picked t rest w)))
          → Kept (elim o [
            | none ↦ record w { waiting = by_priority w.waiting }
            | some (t, rest) ↦ start_waiting fuel (start_picked t rest w)
          ])
      go none k = h
      go (some (t, rest)) k = k t rest

  pub release_slot_frame : (sid : String) (w : World) → Kept w → Kept (release_slot sid w)
  unfolding release_slot
  release_slot_frame sid w h = start_waiting_frame _ (released sid w) (go (get sid w.sessions))
    where
      go : (o : Option SessionState) → Kept (deactivate o sid w)
      go none = h
      go (some s) = h

  next_or_idle_frame :
      (sid : String) (s : SessionState) (ts : List QueuedTask) (w : World)
      → Kept w
      → Kept (next_or_idle sid s ts w)
  unfolding next_or_idle
  next_or_idle_frame sid s [] w h = start_waiting_frame _ _ h
  next_or_idle_frame sid s (t ∷ ts) w h = h

  pub after_task_frame : (sid : String) (w : World) → Kept w → Kept (after_task sid w)
  unfolding after_task
  after_task_frame sid w h =
      option_ind Kept (get sid w.sessions) (λ _. h) (λ s _. next_or_idle_frame sid s _ _ h)

  -- whatever retries are delayed
  module _
      (retries : (n : ℕ) (down : Bool) (c : List QueuedTask) (d d' : List Retry)
        → P n down c d
        → P n down c d') where
    handle_failure_frame :
        (t : QueuedTask) (s : SessionState) (w : World) → Kept w → Kept (handle_failure t s w)
    unfolding handle_failure
    handle_failure_frame t s w h =
        if_ind Kept (ltb max_retries (s.retry_count + 1)) (λ _. after_task_frame _ _ h)
          (λ _. retries _ _ _ _ _ (release_slot_frame _ _ h))

    run_task_frame : (t : QueuedTask) (o : Outcome) (w : World) → Kept w → Kept (run_task t o w)
    unfolding run_task
    run_task_frame t o w h =
        option_ind Kept (get t.session_id w.sessions) (λ _. h)
          (λ s _.
            if_ind Kept (succeeded w t o) (λ _. after_task_frame _ _ h)
              (λ _. handle_failure_frame t s w h))

    finish_nth_frame : (i : ℕ) (o : Outcome) (w : World) → Kept w → Kept (finish_nth i o w)
    unfolding finish_nth
    finish_nth_frame i o w h = go (extract i w.running)
      where
        go :
            (found : Option (QueuedTask × List QueuedTask))
            → Kept (elim found [
              | none ↦ w
              | some (t, rest) ↦ run_task t o (record w { running = rest })
            ])
        go none = h
        go (some (t, rest)) = run_task_frame t o _ h

    wake_nth_frame : (i : ℕ) (w : World) → Kept w → Kept (wake_nth i w)
    unfolding wake_nth delayed_retry
    wake_nth_frame i w h = go (extract i w.delayed)
      where
        go :
            (found : Option (Retry × List Retry))
            → Kept (elim found [
              | none ↦ w
              | some (r, rest) ↦ delayed_retry r.task (record w { delayed = rest })
            ])
        go none = h
        go (some (r, rest)) =
            let fewer = retries _ _ _ _ rest h in
            if_ind Kept w.shutting_down (λ _. fewer)
              (λ _. option_ind Kept (retried r.task) (λ _. fewer) (λ u _. enqueue_frame u _ fewer))

    -- and whatever `shutdown` does
    module _
        (down : (n : ℕ) (b : Bool) (c : List QueuedTask) (d : List Retry)
          → P n b c d
          → P n true c d)
        (more : (n : ℕ) (t : QueuedTask) (c : List QueuedTask) (d : List Retry)
          → P n true c d
          → P n true (t ∷ c) d) where
      cancel_nth_frame :
          (i : ℕ) (w : World) → w.shutting_down ≡ true → Kept w → Kept (cancel_nth i w)
      unfolding cancel_nth
      cancel_nth_frame i w e h = go (extract i w.running)
        where
          go :
              (found : Option (QueuedTask × List QueuedTask))
              → Kept (elim found [
                | none ↦ w
                | some (t, rest) ↦ record w { running = rest; cancelled = t ∷ w.cancelled }
              ])
          go none = h
          go (some (t, rest)) =
              subst (λ b. P w.max_concurrent b (t ∷ w.cancelled) w.delayed) (sym e)
                (more _ t _ _ (subst (λ b. P w.max_concurrent b w.cancelled w.delayed) e h))

      step_frame : (w : World) (e : Event) → Kept w → Kept (step w e)
      unfolding step register_container
      step_frame w (Event.enqueue_planner sid) h = enqueue_frame _ w h
      step_frame w (Event.enqueue_executor sid) h = enqueue_frame _ w h
      step_frame w (Event.enqueue_handoff sid direction) h = enqueue_frame _ w h
      step_frame w (Event.enqueue_scheduled_task sid id fn) h = enqueue_frame _ w h
      step_frame w (Event.register sid dir) h = h
      step_frame w (Event.unregister sid) h = unregister_frame sid w h
      step_frame w (Event.idle sid) h = notify_idle_frame sid w h
      step_frame w (Event.finish i o) h = finish_nth_frame i o w h
      step_frame w (Event.wake i) h = wake_nth_frame i w h
      step_frame w Event.set_process_fn h = h
      step_frame w Event.shutdown h = down _ _ _ _ h
      step_frame w (Event.cancel i) h =
          if_ind Kept w.shutting_down (λ e. cancel_nth_frame i w e h) (λ _. h)

      pub run_frame : (w : World) (es : List Event) → Kept w → Kept (run w es)
      unfolding run
      run_frame w [] h = h
      run_frame w (e ∷ es) h = run_frame (step w e) es (step_frame w e h)

pub run-max :
    (n : ℕ) (w : World) (es : List Event) → w.max_concurrent ≡ n → (run w es).max_concurrent ≡ n
run-max n = run_frame (λ m _ _ _. m ≡ n) (λ _ _ _ _ d' h. h) (λ _ _ _ _ h. h) (λ _ t _ _ h. h)

-- Before `shutdown` no coroutine is cancelled.
pub run-cancelled :
    (w : World) (es : List Event)
    → (w.shutting_down ≡ false → w.cancelled ≡ [])
    → (run w es).shutting_down ≡ false
    → (run w es).cancelled ≡ []
run-cancelled =
    run_frame (λ _ down c _. down ≡ false → c ≡ []) (λ _ _ _ _ d' h. h) (λ _ _ _ _ h e. cc)
      (λ _ t _ _ h e. cc)
