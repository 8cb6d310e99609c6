-- ===== src/Queue/Events.antt =====
-- The event loop around a queue: an interleaving is a list of events.
use module_agents_part.Prelude.{
  ℕ, zero, suc, String, Option, none, some, true, if◌then◌else◌, List, [], ◌∷◌,
}
use module_agents_part.Queue.State.{ScheduledFn, World}
use module_agents_part.Queue.Enqueue.{
  enqueue, planner_task, executor_task, handoff_task, scheduled_task, register_container,
  unregister_container, notify_idle,
}
use module_agents_part.Queue.Finish.{Outcome, run_task, delayed_retry}

pub data Event : Type 0 where
  enqueue_planner enqueue_executor : String → Event
  enqueue_handoff : String → String → Event
  enqueue_scheduled_task : String → String → ScheduledFn → Event
  register : String → String → Event
  unregister idle : String → Event
  -- the i-th running coroutine's callable ends
  finish : ℕ → Outcome → Event
  -- the i-th delayed retry wakes up
  wake : ℕ → Event
  set_process_fn shutdown : Event
  -- the grace period is over, and the i-th running coroutine is among those that `wait_for` cancels
  cancel : ℕ → Event

-- the i-th element, and the list without it
abbrev pub extract {ℓ} : {A : Type ℓ} → ℕ → List A → Option (A × List A)
extract i [] = none
extract zero (x ∷ xs) = some (x, xs)
extract (suc i) (x ∷ xs) = elim (extract i xs) [ none ↦ none | some (y, ys) ↦ some (y, x ∷ ys) ]

unfoldable pub finish_nth : ℕ → Outcome → World → World
unfolding run_task
finish_nth i o w = elim (extract i w.running) [
  | none ↦ w
  | some (t, rest) ↦ run_task t o (record w { running = rest })
]

unfoldable pub wake_nth : ℕ → World → World
unfolding delayed_retry
wake_nth i w = elim (extract i w.delayed) [
  | none ↦ w
  | some (r, rest) ↦ delayed_retry r.task (record w { delayed = rest })
]

-- A CancelledError is no Exception, so `_run_task` ends at once: no `_after_task`, no `_handle_failure`.
-- Its session stays active, its slot taken and its entry in `active_workers`.
unfoldable pub cancel_nth : ℕ → World → World
cancel_nth i w = elim (extract i w.running) [
  | none ↦ w
  | some (t, rest) ↦ record w { running = rest; cancelled = t ∷ w.cancelled }
]

-- `shutdown` sets its flag, and waits for the workers that it finds in `active_workers`; the timeout of
-- `wait_for` cancels the `gather` and with it those that still run. Which ones these are is up to the
-- events: each is one `cancel`, and before `shutdown` there is none.
unfoldable pub step : World → Event → World
unfolding enqueue finish_nth wake_nth cancel_nth register_container unregister_container notify_idle
step w (enqueue_planner sid) = enqueue (planner_task sid) w
step w (enqueue_executor sid) = enqueue (executor_task sid) w
step w (enqueue_handoff sid direction) = enqueue (handoff_task sid direction) w
step w (enqueue_scheduled_task sid id fn) = enqueue (scheduled_task sid id fn) w
step w (register sid dir) = register_container sid dir w
step w (unregister sid) = unregister_container sid w
step w (idle sid) = notify_idle sid w
step w (finish i o) = finish_nth i o w
step w (wake i) = wake_nth i w
step w set_process_fn = record w { process_fn_set = true }
step w shutdown = record w { shutting_down = true }
step w (cancel i) = if w.shutting_down then cancel_nth i w else w

unfoldable pub run : World → List Event → World
unfolding step
run w [] = w
run w (e ∷ es) = run (step w e) es
